-- ===== src/Serializer/Json.antt =====
-- src/pysilience/cache_serializer_json.py: `JsonSerializer`, with the registry of the module as a
-- dictionary.
pub mod Values
pub mod Envelope
pub mod Codec
pub mod Storable
pub mod RoundTrip
pub mod Lookalikes
