-- ===== src/Memcache/Cache/Inv.antt =====
-- include/memcached/memcache.cc: the invariant of a cache that no `item_ptr` points into: `Core` of its
-- items, timers and bytes, and `Backed` of the slab that they are stored in.
use mseastar.Prelude.{
  ℕ, ◌%◌, ◌^◌, ◌<◌, ◌≡◌, refl, true, some, List, arith, if◌then◌else◌, All, Bool-cases, inl, inr,
  word, word_sub,
}
use mseastar.Memcache.Item.{Env, Item, item_size, ever_expires}
use mseastar.Memcache.Item.Match.{item_size-lt}
use mseastar.Memcache.Slab.{Slab, Contract, Lawful}
use mseastar.Memcache.Cache.{Cache, find_by, any_by, drop_by, at_id, timer_of, unlink}
use mseastar.Memcache.Cache.Keys.{Unique, total, timers, timer_occ}
use mseastar.Memcache.Cache.Drop.{drop_by-Unique, drop_by-All, total-drop, occ-drop}
use mseastar.TimerSet.{TimerSet, Timer, remove}
use mseastar.TimerSet.Inv.{occ, one_if, count, same_timer_refl}
use mseastar.TimerSet.Inv
use mseastar.TimerSet.Remove.{remove_lem}

-- One reference, the cache's own, and a time that is not negative.
pub record Plain (it : Item) : Type 0 where
  pub once : it.ref_count ≡ 1
  pub due : ever_expires it.expiry ≡ true → it.expiry < 2 ^ 63

pub record Core (env : Env) (items : List Item) (alive : TimerSet) (bytes : ℕ) : Type 0 where
  pub unique : Unique items
  pub plain : All Plain items
  pub counted : bytes ≡ total env items % word
  pub timed : Inv.Inv alive
  pub armed : (u : Timer) → count u alive ≡ occ u (timers items)

-- The slab is in order, and the items that it lists are those of the hash set.
pub record Backed {S : Type 0} {con : Contract S} (slab : Slab S) (law : Lawful slab con)
    (items : List Item) (s : S) : Type 0 where
  pub ok : con.ok s
  pub stored : (a : ℕ) → any_by (at_id a) items ≡ true → con.lists a s
  pub cached : (a : ℕ) → con.lists a s → any_by (at_id a) items ≡ true

abbrev pub CoreOf : {S : Type 0} → Env → Cache S → Type 0
CoreOf env c = Core env c.items c.alive c.stats.bytes

abbrev pub IsValid :
    {S : Type 0} {con : Contract S} (env : Env) (slab : Slab S) → Lawful slab con → Cache S → Type 0
IsValid env slab law c = CoreOf env c × Backed slab law c.items c.slab

one_if_self : (t : Timer) → one_if t t ≡ 1
one_if_self t = rw (same_timer_refl t) refl

module _ {S : Type 0} (env : Env) (slab : Slab S) where
  -- The timers after an item is taken out.
  unlink-alive :
      (it : Item) (c : Cache S)
      → CoreOf env c
      → find_by (at_id it.id) c.items ≡ some it
      → let alive = if ever_expires it.expiry then remove (timer_of it) c.alive else c.alive in
        Inv.Inv alive
        × ((u : Timer) → count u alive ≡ occ u (timers (drop_by (at_id it.id) c.items)))
  unlink-alive it c h e = elim (Bool-cases (ever_expires it.expiry)) [
    | inr f ↦
        let o : (u : Timer) → timer_occ u it ≡ 0 = λ u. rw f refl in
        rw f (h.timed, λ u. omega (arith, h.armed u, occ-drop (at_id it.id) u c.items it e, o u))
    | inl t ↦
        let o : (u : Timer) → timer_occ u it ≡ one_if u (timer_of it) = λ u. rw t refl in
        let me = timer_of it in
        let has : 0 < count me c.alive =
          omega (arith, h.armed me, occ-drop (at_id it.id) me c.items it e, o me, one_if_self me) in
        let (v, w) = remove_lem me c.alive h.timed has in
        rw t (v, λ u. omega (arith, w u, h.armed u, occ-drop (at_id it.id) u c.items it e, o u))
  ]

  pub unlink-Core :
      (it : Item) (c : Cache S)
      → CoreOf env c
      → find_by (at_id it.id) c.items ≡ some it
      → CoreOf env (unlink env slab it c)
  unfolding unlink
  unlink-Core it c h e =
      let (v, w) = unlink-alive it c h e in
      record {
        unique = drop_by-Unique (at_id it.id) c.items h.unique;
        plain = drop_by-All (at_id it.id) Plain c.items h.plain;
        counted = sized it c h e;
        timed = v;
        armed = w;
      }
    where
      sized :
          (it : Item) (c : Cache S)
          → CoreOf env c
          → find_by (at_id it.id) c.items ≡ some it
          → word_sub c.stats.bytes (item_size env it)
            ≡ total env (drop_by (at_id it.id) c.items) % word
      sized it c h e =
          omega (arith, h.counted, total-drop (at_id it.id) env c.items it e, item_size-lt env it)
