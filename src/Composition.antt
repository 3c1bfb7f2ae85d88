-- ===== src/Composition.antt =====
-- The patterns of src/pysilience around each other, as stacked decorators put them.
pub mod FallbackRetry
