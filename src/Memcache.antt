-- ===== src/Memcache.antt =====
-- include/memcached: the cache of the memcached server, by what it is built from: the items and their
-- layout, the interface of the slab allocator, the cache of one core, and the cores together.
pub mod Item
pub mod Slab
pub mod Allocator
pub mod Cache
pub mod Commands
pub mod Sharded
mod Tests
