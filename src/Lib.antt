-- ===== src/Lib.antt =====
-- A verification of Mseastar, a small Seastar: the queues and timers that its reactor is built on, and
-- the cache of the memcached server on top of them.
--
-- The program. A reactor runs tasks on each core. Fibers wait for one another on semaphores and
-- condition variables (include/future/semaphore.hh), whose waiters stand in a queue with timeouts
-- (include/future/expiring_fifo.hh). Items go from one fiber to another through a bounded queue
-- (include/future/queue_.hh) and through a queue in chunks (include/future/chunked_fifo.hh). Timers
-- stand in buckets by how soon they are due (include/future/timer.hh), over a bit set of the buckets
-- that are not empty (include/future/bitset.h). The memcached server (include/memcached/memcache.cc)
-- keeps items in a hash set, their expiry in such a timer set, and their storage in a slab allocator
-- (include/memcached/slab.hh); a key belongs to one core. Network data travels in packets of fragments
-- (include/future/packet.hh), and an HTTP server finds the handler of a URL by exact URLs and by rules
-- (include/HTTP).
--
-- Files.
--   Prelude: names shared by all, tests on numbers, lists by native numbers, and 64-bit words
--     (word_add and word_sub wrap around).
--   ExpiringFifo: expiring_fifo. An entry whose timer has fired has no payload.
--   Semaphore: basic_semaphore, semaphore_units and condition_variable. _count is kept as its 64 bits;
--     a promise is a number and its resolution an event.
--   Bits and Bitset: count_leading_zeros, get_first_set, get_last_set, set_iterator, for_each_set.
--   TimerSet: timer_set. Its buckets are a function of the bucket's number; a timer is its address and
--     its timeout.
--   ChunkedFifo: chunked_fifo with 128 items in a chunk. The linked list is the list of its chunks;
--     begin and end are 32-bit words that wrap around.
--   Queue: queue_. What a promise wakes is an event; Ops runs operations and continuations one after the
--     other, and collects what happens to promises.
--   Memcache.Item: expiration, item, item_key_cmp, and align_up of include/util/align.hh. The array
--     _data is a function from offsets to bytes.
--   Memcache.Slab: what the cache uses of slab_allocator, the record Slab, and the laws that it relies
--     on, Lawful. Its Contract says which states of a slab are valid and which items they list.
--   Memcache.Allocator: slab_allocator with slab_class, slab_page_desc and slab_item_base. An item is
--     its address, a page descriptor its place in the vector of pages, and the lists of items and of
--     pages are lists of these. Inv has the invariant and Steps how the operations keep it; Create,
--     Free, Lock and Evict have the theorems on one operation, Init those on the constructor, and Fills
--     shows that the allocator is a lawful Slab.
--   Memcache.Cache: the state of cache, with erase, evict, create, add_overriding, add_new and
--     maybe_rehash.
--   Memcache.Commands: set, add, replace, remove, get, cas, incr, decr, flush_all, flush_at, expire,
--     stats, what happens to an item_ptr, and what the reactor does when the cache's timer is due
--     (complete_timers of include/future/future_all12.cc).
--   Memcache.Sharded: sharded_cache, the list of the cores' caches.
--   Packet: packet, packet::impl and fragment. Memory is a function from addresses to bytes, and a
--     deleter is the list of what it destroys.
--   Deleter: deleter of include/util/deleter.hh, a chain of objects with counts of references. The
--     objects are a function from their addresses, and what they do is a list of actions.
--   Http: parameters, the matchers, match_rule, and how routes finds a handler. A string is the list of
--     its bytes, and a handler is of any type.
-- Below each of these stand the modules of its theorems, named for what they prove.
--
-- Errors and undefined behaviour. An operation that can read what is not there, or fail an assertion,
-- gives an Option, and none is this; in the cache an Outcome tells a result from std::bad_alloc and
-- from undefined behaviour. In Http none is a null pointer, npos, or an exception that is thrown.
--
-- Loops and fuel. The loop of signal and the second loop of expire in timer.hh run on fuel, which is
-- the length of what they empty; the theorems show that it is enough. clear of chunked_fifo takes the
-- number of its rounds, and as many as there are items are enough. The loop of
-- initialize_slab_allocator stops at 255 classes, for their numbers are bytes; a theorem shows that it
-- never gets there with the growth factor 1.25. The destructor
-- of a deleter and the loop of append take a bound, the length of the chain. All other loops are
-- structural.
--
-- Parameters. std::hash, sizeof(item), boost::lexical_cast, to_sstring and the memory for buckets are
-- fields of Memcache.Item.Env; the times of the clocks are arguments. In the allocator the answers of
-- aligned_alloc and of new are arguments, and so is whether the item that it looks at is unlocked.
--
-- Not modelled: temporary_buffer, packet::linearize, which is declared and
-- defined nowhere, futures and the reactor itself, the memory allocator, messages between cores, the
-- HTTP server's connections and replies, streams, system calls, and printing.
pub mod Bits
pub mod Bitset
pub mod ChunkedFifo
pub mod Deleter
pub mod ExpiringFifo
pub mod Http
pub mod Memcache
pub mod Packet
pub mod Prelude
pub mod Queue
pub mod Semaphore
pub mod TimerSet
