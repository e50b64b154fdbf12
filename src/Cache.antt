-- ===== src/Cache.antt =====
-- internal/cache: the cache kept in memory.
pub mod Memory
pub mod Tests
