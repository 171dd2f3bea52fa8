-- ===== src/Memcache/Cache.antt =====
-- include/memcached/memcache.cc: `cache`. The hash set is the list of its items, each known by its
-- address; `detached` are the items that are erased and that an `item_ptr` still holds. A timer is the
-- time that it is armed for.
pub mod Counters
pub mod Keys
pub mod Drop
pub mod Found
pub mod Inv
pub mod Erase
pub mod Create
pub mod Store
use mseastar.Memcache.Item.{
  Env, Item, Insertion, ever_expires, never_expire_timepoint, make_item, key_matches, same_item,
  item_size, insertion_size, data_as_integral, key, ascii_prefix, expiration,
}
use mseastar.Memcache.Slab.{Slab, Created, bad_alloc, placed, evicting, aborts}
use mseastar.Memcache.Cache.Counters.{Stats, no_stats}
use mseastar.TimerSet
use mseastar.TimerSet.{TimerSet, Timer}
use mseastar.Prelude.{
  ℕ, zero, suc, ◌+◌, ◌-◌, ◌*◌, ◌/◌, ◌%◌, ◌^◌, Bool, true, false, ◌&&◌, not, Option, none, some,
  List, [], ◌∷◌, leb, ◌==◌, if◌then◌else◌, word_add, word_sub, word, length, min,
}

pub record Cache (S : Type 0) : Type 0 where
  pub items : List Item
  pub detached : List Item
  pub bucket_count : ℕ
  pub resize_up_threshold : ℕ
  pub alive : TimerSet
  pub timer : Option ℕ
  pub flush_timer : Option ℕ
  pub wc_to_clock_type_delta : ℕ
  pub stats : Stats
  pub slab : S

-- What an operation comes to: it returns, it throws `std::bad_alloc`, or its behaviour is undefined (an
-- assertion that fails among it).
pub data Outcome (S : Type 0) (A : Type 0) : Type 0 where
  returns : A → Cache S → Outcome S A
  throws : Cache S → Outcome S A
  undefined : Outcome S A

-- `enum class cas_result`
pub data CasResult : Type 0 where
  not_found stored bad_version : CasResult

abbrev pub initial_bucket_count : ℕ
initial_bucket_count = 2 ^ 10

-- `n * load_factor`, which is 0.75
abbrev pub threshold : ℕ → ℕ
threshold n = n * 3 / 4

abbrev pub find_by : (Item → Bool) → List Item → Option Item
find_by test [] = none
find_by test (it ∷ its) = if test it then some it else find_by test its

abbrev pub any_by : (Item → Bool) → List Item → Bool
any_by test [] = false
any_by test (it ∷ its) = if test it then true else any_by test its

abbrev pub drop_by : (Item → Bool) → List Item → List Item
drop_by test [] = []
drop_by test (it ∷ its) = if test it then its else it ∷ drop_by test its

abbrev pub replace_by : (Item → Bool) → Item → List Item → List Item
replace_by test v [] = []
replace_by test v (it ∷ its) = if test it then v ∷ its else it ∷ replace_by test v its

abbrev pub at_id : ℕ → Item → Bool
at_id a it = it.id == a

-- `is_unlocked` of the item at an address; `false` where there is none.
abbrev pub unlocked_at : Option Item → Bool
unlocked_at none = false
unlocked_at (some it) = it.ref_count == 1

unfoldable pub is_unlocked : {S : Type 0} → Cache S → ℕ → Bool
is_unlocked c a = elim (find_by (at_id a) c.items) [
  | none ↦ unlocked_at (find_by (at_id a) c.detached)
  | some it ↦ unlocked_at (some it)
]

abbrev pub timer_of : Item → Timer
timer_of it = record { id = it.id; timeout = it.expiry }

module _ {S : Type 0} (env : Env) (slab : Slab S) where
  -- `intrusive_ptr_add_ref`, on the `uint16_t` count
  unfoldable pub add_ref : Item → S → Item × S
  add_ref it sl =
      let n = (it.ref_count + 1) % 2 ^ 16 in
      (record it { ref_count = n }, if n == 2 then slab.lock_item it.id sl else sl)

  -- `intrusive_ptr_release`, of an item that is not in the hash set any more
  unfoldable pub release : Item → Cache S → Cache S
  release it c =
      let n = (it.ref_count + 2 ^ 16 - 1) % 2 ^ 16 in
      let left = record it { ref_count = n } in
      record c {
        detached = if n == 0 then c.detached else left ∷ c.detached;
        slab =
            if n == 1
            then slab.unlock_item it.id c.slab
            else if n == 0
            then slab.free it.id c.slab
            else c.slab;
      }

  -- `erase<true, true, false>`: from the hash set, the timer set and the number of bytes
  unfoldable pub unlink : Item → Cache S → Cache S
  unlink it c = record c {
    items = drop_by (at_id it.id) c.items;
    alive = if ever_expires it.expiry then TimerSet.remove (timer_of it) c.alive else c.alive;
    stats = record c.stats { bytes = word_sub c.stats.bytes (item_size env it) };
  }

  -- `erase<true, true, true>`
  unfoldable pub erase : Item → Cache S → Cache S
  erase it c = release it (unlink it c)

  -- The function that the slab calls with its victim; `none` if the victim is not in the hash set.
  unfoldable pub evict : ℕ → Cache S → Option (Cache S)
  evict a c = elim (find_by (at_id a) c.items) [
    | none ↦ none
    | some it ↦
        let d = unlink it c in
        some (record d { stats = record d.stats { evicted = word_add d.stats.evicted 1 } })
  ]

  unfoldable pub find : List ℕ → Cache S → Option Item
  find k c = find_by (key_matches env k) c.items

  -- `_cache.insert`: the hash set, and whether the item is in it now.
  unfoldable pub hash_insert : Item → List Item → List Item × Bool
  hash_insert it its = if any_by (same_item it) its then (its, false) else (it ∷ its, true)

  -- What follows `slab->create`: the first reference, the hash set, the timers and the bytes.
  unfoldable pub link : Insertion → Item → Cache S → Cache S × (Item × Bool)
  link ins made c =
      let r = add_ref made c.slab in
      let h = hash_insert r.0 c.items in
      let t =
        if ever_expires ins.expiry
        then TimerSet.insert (timer_of r.0) c.alive
        else (c.alive, false) in
      (
        record c {
          items = h.0;
          alive = t.0;
          timer = if t.1 then some r.0.expiry else c.timer;
          stats = record c.stats { bytes = word_add c.stats.bytes (insertion_size env ins) };
          slab = r.1;
        },
        (r.0, h.1),
      )

  -- What follows the answer of `slab->create`.
  abbrev pub create_at : Insertion → ℕ → Cache S → Created S → Outcome S (Item × Bool)
  create_at ins version c (bad_alloc sl) = throws (record c { slab = sl })
  create_at ins version c (placed a page memory sl) =
      let r = link ins (make_item env a page memory ins version) (record c { slab = sl }) in
      returns r.1 r.0
  create_at ins version c (evicting a page memory sl) = elim (evict a c) [
    | none ↦ undefined
    | some d ↦
        let r = link ins (make_item env a page memory ins version) (record d { slab = sl }) in
        returns r.1 r.0
  ]
  create_at ins version c aborts = undefined

  unfoldable pub create : Insertion → ℕ → Cache S → Outcome S (Item × Bool)
  create ins version c =
      create_at ins version c (slab.create (is_unlocked c) (insertion_size env ins) c.slab)

  -- `add_overriding`, which asserts that the new item is inserted, and returns it.
  pub add_overriding : Item → Insertion → Cache S → Outcome S Item
  add_overriding old ins c = elim (create ins (word_add old.version 1) (erase old c)) [
    | returns made d ↦ if made.1 then returns made.0 d else undefined
    | throws d ↦ throws d
    | undefined ↦ undefined
  ]

  unfoldable pub maybe_rehash : Cache S → Cache S
  maybe_rehash c =
      let new_size = c.bucket_count * 2 % word in
      if leb c.resize_up_threshold (length c.items)
      then if env.has_memory new_size
        then record c { bucket_count = new_size; resize_up_threshold = threshold new_size }
        else record c {
          stats = record c.stats { resize_failure = word_add c.stats.resize_failure 1 };
        }
      else c

  unfoldable pub add_new : Insertion → Cache S → Outcome S Unit
  add_new ins c = elim (create ins 1 c) [
    | returns made d ↦ returns tt (maybe_rehash d)
    | throws d ↦ throws d
    | undefined ↦ undefined
  ]
