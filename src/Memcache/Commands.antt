-- ===== src/Memcache/Commands.antt =====
-- include/memcached/memcache.cc: the operations of `cache` that the protocol calls, and those of its
-- timers.
pub mod Stored
pub mod Removed
pub mod Due
pub mod Held
pub mod Relisted
pub mod Flush
pub mod Run
mod Tests
use mseastar.Memcache.Item.{
  Env, Item, Insertion, ever_expires, data_as_integral, key, ascii_prefix, expiration, item_size,
}
use mseastar.Memcache.Slab.{Slab}
use mseastar.Memcache.Cache.{
  Cache, Outcome, returns, throws, undefined, CasResult, not_found, stored, bad_version, find,
  erase, unlink, release, add_ref, add_new, add_overriding, find_by, replace_by, at_id, drop_by,
  initial_bucket_count, threshold, timer_of,
}
use mseastar.Memcache.Cache.Counters.{Stats, no_stats}
use mseastar.TimerSet
use mseastar.TimerSet.{TimerSet, Timer}
use mseastar.Prelude.{
  ℕ, zero, suc, ◌+◌, ◌-◌, ◌*◌, ◌/◌, ◌%◌, ◌^◌, Bool, true, false, Option, none, some, List, [], ◌∷◌,
  ◌==◌, if◌then◌else◌, word_add, word_sub, word, length, min,
}

-- The constructor, at these times of the two clocks.
unfoldable pub new_cache : {S : Type 0} → S → ℕ → ℕ → Cache S
new_cache slab now wall = record {
  items = [];
  detached = [];
  bucket_count = initial_bucket_count;
  resize_up_threshold = threshold initial_bucket_count;
  alive = TimerSet.init;
  timer = none;
  flush_timer = none;
  wc_to_clock_type_delta = word_sub now wall;
  stats = no_stats;
  slab = slab;
}

module _ {S : Type 0} (env : Env) (slab : Slab S) where
  -- The counters that an operation has raised.
  abbrev pub count : Cache S → (Stats → Stats) → Cache S
  count c f = record c { stats = f c.stats }

  abbrev pub then_count : {A B : Type 0} → Outcome S A → B → (Stats → Stats) → Outcome S B
  then_count (returns a c) b f = returns b (count c f)
  then_count (throws c) b f = throws c
  then_count undefined b f = undefined

  unfoldable pub set : Insertion → Cache S → Outcome S Bool
  set ins c = elim (find env slab ins.key c) [
    | some it ↦
        then_count (add_overriding env slab it ins c) true
          (λ s. record s { set_replaces = word_add s.set_replaces 1 })
    | none ↦
        then_count (add_new env slab ins c) false
          (λ s. record s { set_adds = word_add s.set_adds 1 })
  ]

  pub add : Insertion → Cache S → Outcome S Bool
  add ins c = elim (find env slab ins.key c) [
    | some it ↦ returns false c
    | none ↦
        let d = count c (λ s. record s { set_adds = word_add s.set_adds 1 }) in
        then_count (add_new env slab ins d) true (λ s. s)
  ]

  pub replace : Insertion → Cache S → Outcome S Bool
  replace ins c = elim (find env slab ins.key c) [
    | none ↦ returns false c
    | some it ↦
        let d = count c (λ s. record s { set_replaces = word_add s.set_replaces 1 }) in
        then_count (add_overriding env slab it ins d) true (λ s. s)
  ]

  pub remove : List ℕ → Cache S → Cache S × Bool
  remove k c = elim (find env slab k c) [
    | none ↦ (count c (λ s. record s { delete_misses = word_add s.delete_misses 1 }), false)
    | some it ↦ (
      erase env slab it (count c (λ s. record s { delete_hits = word_add s.delete_hits 1 })),
      true,
    )
  ]

  -- An `item_ptr` to an item of the hash set.
  pub share : Item → Cache S → Cache S × Item
  share it c =
      let r = add_ref env slab it c.slab in
      (record c { items = replace_by (at_id it.id) r.0 c.items; slab = r.1 }, r.0)

  pub get : List ℕ → Cache S → Cache S × Option Item
  get k c = elim (find env slab k c) [
    | none ↦ (count c (λ s. record s { get_misses = word_add s.get_misses 1 }), none)
    | some it ↦
        let r = share it (count c (λ s. record s { get_hits = word_add s.get_hits 1 })) in
        (r.0, some r.1)
  ]

  pub cas : Insertion → ℕ → Cache S → Outcome S CasResult
  cas ins version c = elim (find env slab ins.key c) [
    | none ↦ returns not_found (count c (λ s. record s { cas_misses = word_add s.cas_misses 1 }))
    | some it ↦
        if it.version == version
        then then_count
            (add_overriding env slab it ins
              (count c (λ s. record s { cas_hits = word_add s.cas_hits 1 })))
            stored (λ s. s)
        else returns bad_version (count c (λ s. record s { cas_badval = word_add s.cas_badval 1 }))
  ]

  -- An `item_ptr` to the new item of `incr` and `decr`.
  abbrev pub give : Outcome S Item → Outcome S (Option Item × Bool)
  give (returns it c) = let r = share it c in returns (some r.1, true) r.0
  give (throws c) = throws c
  give undefined = undefined

  -- What `incr` and `decr` do with the item that they have found: `f` gives the new number.
  pub change : (ℕ → ℕ) → List ℕ → Item → Cache S → Outcome S (Option Item × Bool)
  change f k it c = elim (data_as_integral env it) [
    | none ↦ let r = share it c in returns (some r.1, false) r.0
    | some n ↦
        let ins : Insertion = record {
          key = k;
          ascii_prefix = ascii_prefix it;
          value = env.to_sstring (f n);
          expiry = it.expiry;
        } in
        give (add_overriding env slab it ins c)
  ]

  pub incr : List ℕ → ℕ → Cache S → Outcome S (Option Item × Bool)
  incr k delta c = elim (find env slab k c) [
    | none ↦
        returns (none, false) (count c (λ s. record s { incr_misses = word_add s.incr_misses 1 }))
    | some it ↦
        change (λ n. word_add n delta) k it
          (count c (λ s. record s { incr_hits = word_add s.incr_hits 1 }))
  ]

  pub decr : List ℕ → ℕ → Cache S → Outcome S (Option Item × Bool)
  decr k delta c = elim (find env slab k c) [
    | none ↦
        returns (none, false) (count c (λ s. record s { decr_misses = word_add s.decr_misses 1 }))
    | some it ↦
        change (λ n. word_sub n (min n delta)) k it
          (count c (λ s. record s { decr_hits = word_add s.decr_hits 1 }))
  ]

  abbrev pub flush_loop : List Item → Cache S → Cache S
  flush_loop [] c = c
  flush_loop (it ∷ its) c = flush_loop its (erase env slab it c)

  pub flush_all : Cache S → Cache S
  flush_all c = flush_loop c.items (record c { flush_timer = none })

  -- At this time of a clock of so many ticks a second.
  pub flush_at : ℕ → ℕ → ℕ → Cache S → Cache S
  flush_at now ticks time c = record c {
    flush_timer = some (expiration now ticks c.wc_to_clock_type_delta time);
  }

  -- `_timer.arm`, which wants a timer that is not armed
  unfoldable pub arm : ℕ → Cache S → Option (Cache S)
  arm time c = elim c.timer [ none ↦ some (record c { timer = some time }) | some t ↦ none ]

  -- `erase<true, false>`: from the hash set and the number of bytes, but not from the timer set
  unfoldable pub erase_expired : Item → Cache S → Cache S
  erase_expired it c = release env slab it (record c {
    items = drop_by (at_id it.id) c.items;
    stats = record c.stats { bytes = word_sub c.stats.bytes (item_size env it) };
  })

  -- The nodes of the list of expired items; an iterator is the number of a node.
  abbrev pub nodes : ℕ → List Timer → List (ℕ × Timer)
  nodes n [] = []
  nodes n (t ∷ ts) = (n, t) ∷ nodes (n + 1) ts

  -- What an iterator refers to; `none` when its node is in the list no more.
  abbrev pub at_iterator : ℕ → List (ℕ × Timer) → Option Timer
  at_iterator n [] = none
  at_iterator n ((m, t) ∷ rest) = if m == n then some t else at_iterator n rest

  -- The loop of `expire`: `begin`, `pop_front`, and the item that the iterator refers to.
  abbrev pub expire_loop : List (ℕ × Timer) → Cache S → Option (Cache S)
  expire_loop [] c = some c
  expire_loop ((n, t) ∷ rest) c = elim (at_iterator n rest) [
    | none ↦ none
    | some u ↦ elim (find_by (at_id u.id) c.items) [
      | none ↦ none
      | some it ↦
          expire_loop rest
            (count (erase_expired it c) (λ s. record s { expired = word_add s.expired 1 }))
    ]
  ]

  abbrev pub then_arm : Option (Cache S) → Option (Cache S)
  then_arm none = none
  then_arm (some c) = arm (TimerSet.get_next_timeout c.alive) c

  -- `expire`, with what its readings of the two clocks give, the last one for the timers
  unfoldable pub expire : ℕ → ℕ → ℕ → Cache S → Option (Cache S)
  expire steady wall now c = elim (TimerSet.expire now c.alive) [
    | none ↦ none
    | some (alive, exp) ↦ then_arm (
        expire_loop (nodes 0 exp)
          (record c { alive = alive; wc_to_clock_type_delta = word_sub steady wall }))
  ]

  -- The reactor has found the cache's timer due: it is armed no more when its callback runs.
  unfoldable pub on_timer : ℕ → ℕ → ℕ → Cache S → Option (Cache S)
  on_timer steady wall now c = elim c.timer [
    | none ↦ some c
    | some t ↦ expire steady wall now (record c { timer = none })
  ]

  pub size : Cache S → ℕ
  size c = length c.items

  pub stats : Cache S → Cache S × Stats
  stats c = let d = count c (λ s. record s { size = size c }) in (d, d.stats)

  -- An `item_ptr` goes away: to an item of the hash set, or to one that is erased.
  pub drop : Item → Cache S → Option (Cache S)
  drop it c = elim (find_by (at_id it.id) c.items) [
    | some own ↦
        let n = (own.ref_count + 2 ^ 16 - 1) % 2 ^ 16 in
        let left = record own { ref_count = n } in
        some (record c {
          items = replace_by (at_id it.id) left c.items;
          slab =
              if n == 1
              then slab.unlock_item it.id c.slab
              else if n == 0
              then slab.free it.id c.slab
              else c.slab;
        })
    | none ↦ elim (find_by (at_id it.id) c.detached) [
      | none ↦ none
      | some own ↦
          some (release env slab own (record c { detached = drop_by (at_id it.id) c.detached }))
    ]
  ]
