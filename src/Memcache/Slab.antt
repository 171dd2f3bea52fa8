-- ===== src/Memcache/Slab.antt =====
-- include/memcached/slab.hh: what the cache asks of `slab_allocator`, and what it relies on. An item is
-- known to the slab by its address.
use mseastar.Prelude.{ℕ, ◌≤◌, Bool, true, ◌≡◌, ◌≢◌, ◌⊎◌}

-- `create`: the address of the storage, the index of its page, and what the storage holds. The item at
-- the address of `evicting` is the victim: it is erased from the cache before its storage is used. `aborts`: an assertion fails.
pub data Created (S : Type 0) : Type 0 where
  bad_alloc : S → Created S
  placed : ℕ → ℕ → (ℕ → ℕ) → S → Created S
  evicting : ℕ → ℕ → (ℕ → ℕ) → S → Created S
  aborts : Created S

-- `create` asks the items whether they are unlocked.
pub record Slab (S : Type 0) : Type 0 where
  pub create : (ℕ → Bool) → ℕ → S → Created S
  pub free : ℕ → S → S
  pub lock_item : ℕ → S → S
  pub unlock_item : ℕ → S → S

-- What a slab promises: its states that are in order, the items that it lists as ones to evict, and the
-- size up to which it makes items.
pub record Contract (S : Type 0) : Type 1 where
  pub ok : S → Type 0
  pub lists : ℕ → S → Type 0
  pub limit : ℕ

-- What `create` may answer: it makes an item where none is listed, or evicts one that is, and the state
-- stays in order.
abbrev pub Sound : {S : Type 0} → Contract S → S → Created S → Type 0
Sound con s (bad_alloc t) =
    con.ok t × ((b : ℕ) → (con.lists b s → con.lists b t) × (con.lists b t → con.lists b s))
Sound con s (placed a page memory t) =
    (con.lists a s → ⊥)
    × (con.ok t
        × ((b : ℕ)
            → ((b ≡ a) ⊎ con.lists b s → con.lists b t)
              × (con.lists b t → (b ≡ a) ⊎ con.lists b s)))
Sound con s (evicting a page memory t) =
    con.lists a s
    × (con.ok t × ((b : ℕ) → (con.lists b s → con.lists b t) × (con.lists b t → con.lists b s)))
Sound con s aborts = ⊥

-- The laws of an allocator, whose clients never lock an item that it lists without telling it.
pub record Lawful {S : Type 0} (slab : Slab S) (con : Contract S) : Type 0 where
  pub create_sound :
      (unlocked : ℕ → Bool) (n : ℕ) (s : S)
      → n ≤ con.limit
      → con.ok s
      → ((a : ℕ) → con.lists a s → unlocked a ≡ true)
      → Sound con s (slab.create unlocked n s)
  pub free_ok : (a : ℕ) (s : S) → con.ok s → con.lists a s → con.ok (slab.free a s)
  pub free_lists :
      (a b : ℕ) (s : S)
      → con.ok s
      → con.lists a s
      → (b ≢ a → con.lists b s → con.lists b (slab.free a s))
        × (con.lists b (slab.free a s) → (b ≢ a) × con.lists b s)
