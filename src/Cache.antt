-- ===== src/Cache.antt =====
-- The cache with expiry of src/utils/ttlCache.js.
pub mod Store
pub mod Matches
pub mod Refined
mod Tests
