-- ===== src/Memcache/Commands/Relisted.antt =====
-- include/memcached/memcache.cc and include/memcached/slab.hh: an item that is removed while an `item_ptr`
-- refers to it, in a cache over the slab allocator.
use mseastar.Prelude.{ℕ, ◌+◌, ◌^◌, ◌<◌, ◌≡◌, sym, ap, ◌∙◌, subst, false, none, some, List, arith}
use mseastar.Memcache.Item.{Env, Item, key_matches}
use mseastar.Memcache.Slab.{Lawful}
use mseastar.Memcache.Allocator.{Allocator, Page, lock_item, unlock_item}
use mseastar.Memcache.Allocator.Inv.{IsValid}
use mseastar.Memcache.Allocator.Lock.{unlock_item-lock_item}
use mseastar.Memcache.Allocator.Fills.{System, slab_of, contract, or_same, Listed}
use mseastar.Memcache.Cache.{Cache, find, any_by, at_id, evict}
use mseastar.Memcache.Cache.Inv as CacheInv
use mseastar.Memcache.Cache.Keys.{any_by-find, find_by-at_id}
use mseastar.Memcache.Commands.{get, remove}
use mseastar.Memcache.Commands.Held.{get-remove}

-- A class lists an item that is in the hash set no more: its eviction is undefined.
abbrev pub Dangling : (sys : System) → Env → ℕ → Cache Allocator → Type 0
Dangling sys env a c =
    IsValid c.slab
    × (Listed a c.slab
        × ((any_by (at_id a) c.items ≡ false) × (evict env (slab_of sys) a c ≡ none)))

-- Locked and unlocked, the item is listed as it was.
relisted :
    (sys : System) (a : ℕ) (s : Allocator) (p : Page)
    → IsValid s
    → Listed a s
    → s.slab_pages_vector (s.slab_page_index a) ≡ some p
    → p.refcnt + 1 < 2 ^ 32
    → let t = (slab_of sys).unlock_item a ((slab_of sys).lock_item a s) in IsValid t × Listed a t
relisted sys a s p h (c, l) e small =
    let (t, (f, (k, (u, (g, (v, (page, same))))))) = unlock_item-lock_item a c s p h e small l in
    let q : or_same sys (or_same sys s (lock_item a s))
          (unlock_item a (or_same sys s (lock_item a s)))
        ≡ u =
      ap (λ o. or_same sys (or_same sys s o) (unlock_item a (or_same sys s o))) f
      ∙ ap (or_same sys t) g in
    subst (λ z. IsValid z × Listed a z) (sym q) (v, (c, omega (arith, same c a, l)))

-- An item of a valid cache over the slab allocator that `get` has found and that is removed while
-- its `item_ptr` is still held, when its page counts fewer than 2 ^ 32 - 1 items, is given back to
-- its class: the allocator stays valid and lists the item among those to evict, but it is in the
-- hash set no more, and so its eviction is undefined.
pub remove-Dangling :
    (sys : System) (limit : ℕ) (env : Env) (law : Lawful (slab_of sys) (contract limit))
    (k : List ℕ) (it : Item) (c : Cache Allocator) (p : Page)
    → CacheInv.IsValid env (slab_of sys) law c
    → find env (slab_of sys) k c ≡ some it
    → c.slab.slab_pages_vector (c.slab.slab_page_index it.id) ≡ some p
    → p.refcnt + 1 < 2 ^ 32
    → Dangling sys env it.id (remove env (slab_of sys) k (get env (slab_of sys) k c).0).0
unfolding find
remove-Dangling sys limit env law k it c p h e g small =
    let r = (remove env (slab_of sys) k (get env (slab_of sys) k c).0).0 in
    let (slab, (gone, undefined_then)) = get-remove env (slab_of sys) law k it c h e in
    let i = find_by-at_id (key_matches env k) c.items it h.0.unique e in
    let has = h.1.stored it.id (any_by-find (at_id it.id) c.items it i) in
    let (v, l) = relisted sys it.id c.slab p h.1.ok.valid has g small in
    let w : IsValid r.slab × Listed it.id r.slab =
      subst (λ z. IsValid z × Listed it.id z) (sym slab) (v, l) in
    (w.0, (w.1, (gone, undefined_then)))
