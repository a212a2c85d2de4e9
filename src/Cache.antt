-- ===== src/Cache.antt =====
-- The in-process caches of libs/core/src/lib/cache.
pub mod Lru
pub mod Service
