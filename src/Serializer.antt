-- ===== src/Serializer.antt =====
-- src/pysilience/cache_serializer*.py: the protocol of the serializers, and the three of them.
pub mod Protocol
pub mod Hmac
pub mod Json
pub mod Msgpack
