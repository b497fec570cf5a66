-- ===== src/Cache.antt =====
-- src/cache: the cache of the static server.
pub mod Lfu
