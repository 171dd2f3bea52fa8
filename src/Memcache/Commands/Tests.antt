-- ===== src/Memcache/Commands/Tests.antt =====
-- include/memcached/memcache.cc: caches at which the theorems apply, over a slab that has room for one
-- item, and evicts it for the next one.
use mseastar.Prelude.{
  ℕ, ◌≡◌, ◌≢◌, ◌⊎◌, refl, Bool, true, false, ◌==◌, none, some, [], ◌∷◌, arith, if◌then◌else◌,
  word_add, inl, inr,
}
use mseastar.Memcache.Item.{
  Env, Item, Insertion, key_matches, key, layout, make_item, ever_expires, insertion_size,
}
use mseastar.Memcache.Slab.{Slab, Contract, Lawful, Sound, placed, evicting, aborts}
use mseastar.Memcache.Cache.{
  Cache, returns, not_found, stored, bad_version, find, add_new, create, link, hash_insert,
  maybe_rehash, add_ref,
}
use mseastar.Memcache.Cache.Inv.{IsValid}
use mseastar.Memcache.Cache.Create.{Timely, Storable}
use mseastar.Memcache.Cache.Store.{Stores}
use mseastar.Memcache.Cache.Keys.{timers}
use mseastar.Memcache.Commands.{set, cas, remove, new_cache, get}
use mseastar.Memcache.Commands.Due.{Fires, on_timer-Fires}
use mseastar.Memcache.Commands.Held.{get-remove}
use mseastar.TimerSet.{Timer, insert, init, same_timer}
use mseastar.TimerSet.Inv.{occ}
use mseastar.Memcache.Commands.Stored.{set-Stores, cas-Stores, next_version, is_some}
use mseastar.Memcache.Commands.Removed.{new_cache-IsValid, remove-IsValid, state_of, Stores-IsValid}

-- A hash that is the first byte of the key.
abbrev env : Env
env = record {
  hash = λ k. elim k [ [] ↦ 0 | b ∷ rest ↦ b ];
  sizeof_item = 72;
  lexical_cast = λ bs. elim bs [ [] ↦ none | b ∷ rest ↦ some b ];
  to_sstring = λ n. n ∷ [];
  has_memory = λ n. true;
}

-- The state says whether the one place, at the address 5, is taken.
abbrev one_place : Slab Bool
one_place = record {
  create = λ unlocked n taken.
      if taken
      then if unlocked 5 then evicting 5 0 (λ i. 0) true else aborts
      else placed 5 0 (λ i. 0) true;
  free = λ a taken. if a == 5 then false else taken;
  lock_item = λ a taken. taken;
  unlock_item = λ a taken. taken;
}

abbrev in_use : ℕ → Bool → Bool
in_use a true = a == 5
in_use a false = false

in_use_free :
    (a b : ℕ) (s : Bool) → b ≢ a → in_use b s ≡ true → in_use b (if a == 5 then false else s) ≡ true
in_use_free a b true n h = ground arith
in_use_free a b false n h = ground arith

in_use_freed :
    (a b : ℕ) (s : Bool)
    → in_use b (if a == 5 then false else s) ≡ true
    → (b ≢ a) × (in_use b s ≡ true)
in_use_freed a b true h = ground arith
in_use_freed a b false h = ground arith

abbrev one_place_contract : Contract Bool
one_place_contract = record {
  ok = λ taken. Unit;
  lists = λ a taken. in_use a taken ≡ true;
  limit = 1000;
}

one_place-Sound :
    (unlocked : ℕ → Bool) (n : ℕ) (s : Bool)
    → ((a : ℕ) → in_use a s ≡ true → unlocked a ≡ true)
    → Sound one_place_contract s (one_place.create unlocked n s)
one_place-Sound unlocked n true u = rw (u 5 refl) (refl, (tt, λ b. (λ h. h, λ h. h)))
one_place-Sound unlocked n false u =
    (λ h. ground arith, (tt, λ b. (λ h. own b h, λ h. inl (ground arith))))
  where
    own : (b : ℕ) → (b ≡ 5) ⊎ (in_use b false ≡ true) → in_use b true ≡ true
    own b (inl e) = ground arith
    own b (inr e) = ground arith

one_place_laws : Lawful one_place one_place_contract
one_place_laws = record {
  create_sound = λ unlocked n s l o u. one_place-Sound unlocked n s u;
  free_ok = λ a s o l. tt;
  free_lists = λ a b s o l. (in_use_free a b s, in_use_freed a b s);
}

abbrev first : Insertion
first = record { key = 97 ∷ 98 ∷ []; ascii_prefix = 32 ∷ 48 ∷ []; value = 55 ∷ []; expiry = 1000 }

abbrev second : Insertion
second = record { key = 99 ∷ []; ascii_prefix = 32 ∷ []; value = 56 ∷ 57 ∷ []; expiry = 2000 }

first-Storable : Storable env one_place one_place_laws first
unfolding insertion_size
first-Storable = ((omega arith, (omega arith, omega arith)), omega arith)

second-Storable : Storable env one_place one_place_laws second
unfolding insertion_size
second-Storable = ((omega arith, (omega arith, omega arith)), omega arith)

first-Timely : Timely first
first-Timely = λ h. omega arith

abbrev empty : Cache Bool
empty = new_cache false 0 0

empty-IsValid : IsValid env one_place one_place_laws empty
empty-IsValid = new_cache-IsValid env one_place one_place_laws false 0 0 tt (λ a h. ground arith)

-- The cache with the first item.
abbrev one_item : Cache Bool
one_item = state_of env one_place one_place_laws empty (set env one_place first empty)

one_item-IsValid : IsValid env one_place one_place_laws one_item
one_item-IsValid =
    Stores-IsValid env one_place one_place_laws first
      (next_version env one_place one_place_laws (find env one_place first.key empty))
      (λ b. b ≡ is_some env one_place one_place_laws (find env one_place first.key empty)) empty
      (set env one_place first empty)
      (set-Stores env one_place one_place_laws first empty empty-IsValid first-Storable
        first-Timely)

-- A second item takes the place of the first.
set-Stores_example :
    Stores env one_place one_place_laws second
      (next_version env one_place one_place_laws (find env one_place second.key one_item))
      (λ b. b ≡ is_some env one_place one_place_laws (find env one_place second.key one_item))
      (set env one_place second one_item)
set-Stores_example =
    set-Stores env one_place one_place_laws second one_item one_item-IsValid second-Storable
      (λ h. omega arith)

cas-Stores_example :
    (find env one_place first.key one_item ≡ none
      → (d : Cache Bool) × ((cas env one_place first 1 one_item ≡ returns not_found d)
          × (d.items ≡ one_item.items)))
    × ((it : Item)
        → find env one_place first.key one_item ≡ some it
        → (it.version ≢ 1
            → (d : Cache Bool) × ((cas env one_place first 1 one_item ≡ returns bad_version d)
                × (d.items ≡ one_item.items)))
          × (it.version ≡ 1
              → Stores env one_place one_place_laws first
                  (word_add 1 1)
                  (λ r. r ≡ stored)
                  (cas env one_place first 1 one_item)))
cas-Stores_example =
    cas-Stores env one_place one_place_laws first 1 one_item one_item-IsValid first-Storable
      first-Timely

remove-IsValid_example :
    ((remove env one_place first.key one_item).1
      ≡ is_some env one_place one_place_laws (find env one_place first.key one_item))
    × (IsValid env one_place one_place_laws (remove env one_place first.key one_item).0
        × (find env one_place first.key (remove env one_place first.key one_item).0 ≡ none))
remove-IsValid_example =
    remove-IsValid env one_place one_place_laws first.key one_item one_item-IsValid

-- The one item that the cache holds, and its timer.
abbrev its_item : Item
its_item = record (make_item env 5 0 (λ i. 0) first 1) { ref_count = 1 }

abbrev its_timer : Timer
its_timer = record { id = 5; timeout = 1000 }

one_item-items : one_item.items ≡ its_item ∷ []
unfolding set find add_new create link hash_insert maybe_rehash add_ref new_cache make_item
one_item-items = refl

one_item-last : one_item.alive.last ≡ 0
unfolding set find add_new create link hash_insert maybe_rehash add_ref new_cache make_item insert
    init ever_expires
one_item-last = refl

its_timer-occ : occ its_timer (timers (its_item ∷ [])) ≡ 1
unfolding make_item ever_expires same_timer
its_timer-occ = refl

one_item-find : find env one_place first.key one_item ≡ some its_item
unfolding set find add_new create link hash_insert maybe_rehash add_ref new_cache make_item
    key_matches key layout
one_item-find = refl

one_item-timer : one_item.timer ≡ some 1000
unfolding set find add_new create link hash_insert maybe_rehash add_ref new_cache make_item insert
    init ever_expires
one_item-timer = refl

on_timer-Fires_example : Fires env one_place one_place_laws 1999 7 2000 one_item
on_timer-Fires_example =
    on_timer-Fires env one_place one_place_laws 1999 7 2000 1000 one_item one_item-IsValid
      one_item-timer (omega arith) (omega (arith, one_item-last))

-- A callback that comes too early only arms the timer.
early-Fires : Fires env one_place one_place_laws 500 7 500 one_item
early-Fires =
    on_timer-Fires env one_place one_place_laws 500 7 500 1000 one_item one_item-IsValid
      one_item-timer (omega arith) (omega (arith, one_item-last))

-- `get`, and then `remove` while the `item_ptr` is held: the slab is as if nothing had been locked.
held_then_removed :
    (remove env one_place first.key (get env one_place first.key one_item).0).0.slab ≡ one_item.slab
held_then_removed =
    (get-remove env one_place one_place_laws first.key its_item one_item one_item-IsValid
      one_item-find).0
