-- ===== src/Cache.antt =====
-- cache/: the in-memory caches.
pub mod PlainCache
pub mod LruCache
pub mod Entries
pub mod Capacity
pub mod Interface
mod Tests
