-- ===== src/Memcache/Cache/Counters.antt =====
-- include/memcached/memcache.cc: `cache_stats`, of `size_t` counters.
use mseastar.Prelude.{ℕ, word_add}

pub record Stats : Type 0 where
  pub get_hits : ℕ
  pub get_misses : ℕ
  pub set_adds : ℕ
  pub set_replaces : ℕ
  pub cas_hits : ℕ
  pub cas_misses : ℕ
  pub cas_badval : ℕ
  pub delete_misses : ℕ
  pub delete_hits : ℕ
  pub incr_misses : ℕ
  pub incr_hits : ℕ
  pub decr_misses : ℕ
  pub decr_hits : ℕ
  pub expired : ℕ
  pub evicted : ℕ
  pub bytes : ℕ
  pub resize_failure : ℕ
  pub size : ℕ
  pub reclaims : ℕ

abbrev pub no_stats : Stats
no_stats = record {
  get_hits = 0;
  get_misses = 0;
  set_adds = 0;
  set_replaces = 0;
  cas_hits = 0;
  cas_misses = 0;
  cas_badval = 0;
  delete_misses = 0;
  delete_hits = 0;
  incr_misses = 0;
  incr_hits = 0;
  decr_misses = 0;
  decr_hits = 0;
  expired = 0;
  evicted = 0;
  bytes = 0;
  resize_failure = 0;
  size = 0;
  reclaims = 0;
}

-- `operator+=`
pub add_stats : Stats → Stats → Stats
add_stats s o = record {
  get_hits = word_add s.get_hits o.get_hits;
  get_misses = word_add s.get_misses o.get_misses;
  set_adds = word_add s.set_adds o.set_adds;
  set_replaces = word_add s.set_replaces o.set_replaces;
  cas_hits = word_add s.cas_hits o.cas_hits;
  cas_misses = word_add s.cas_misses o.cas_misses;
  cas_badval = word_add s.cas_badval o.cas_badval;
  delete_misses = word_add s.delete_misses o.delete_misses;
  delete_hits = word_add s.delete_hits o.delete_hits;
  incr_misses = word_add s.incr_misses o.incr_misses;
  incr_hits = word_add s.incr_hits o.incr_hits;
  decr_misses = word_add s.decr_misses o.decr_misses;
  decr_hits = word_add s.decr_hits o.decr_hits;
  expired = word_add s.expired o.expired;
  evicted = word_add s.evicted o.evicted;
  bytes = word_add s.bytes o.bytes;
  resize_failure = word_add s.resize_failure o.resize_failure;
  size = word_add s.size o.size;
  reclaims = word_add s.reclaims o.reclaims;
}
