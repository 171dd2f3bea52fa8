-- ===== src/Memcache/Commands/Flush.antt =====
-- include/memcached/memcache.cc: `flush_all`, and `flush_at`.
use mseastar.Prelude.{ℕ, ◌≡◌, refl, ap, ◌∙◌, subst, true, none, some, All, List, [], ◌∷◌, arith}
use mseastar.Memcache.Item.{Env, Item}
use mseastar.Memcache.Slab.{Slab, Contract, Lawful}
use mseastar.Memcache.Cache.{Cache, find_by, drop_by, at_id, erase}
use mseastar.Memcache.Cache.Inv.{IsValid, Plain}
use mseastar.Memcache.Cache.Erase.{erase-IsValid}
use mseastar.Memcache.Cache.Store.{erase-items}
use mseastar.Memcache.Commands.{flush_loop, flush_all, flush_at}

module _ {S : Type 0} {con : Contract S} (env : Env) (slab : Slab S) (law : Lawful slab con) where
  flush_loop-IsValid :
      (its : List Item) (c : Cache S)
      → IsValid env slab law c
      → c.items ≡ its
      → IsValid env slab law (flush_loop env slab its c) × ((flush_loop env slab its c).items ≡ [])
  flush_loop-IsValid [] c h e = (h, e)
  flush_loop-IsValid (it ∷ its) c h e =
      let s : at_id it.id it ≡ true = ground arith in
      let p = (subst (All Plain) e h.0.plain).0 in
      let f : find_by (at_id it.id) c.items ≡ some it = ap (find_by (at_id it.id)) e ∙ rw s refl in
      let d : drop_by (at_id it.id) (it ∷ its) ≡ its = rw s refl in
      flush_loop-IsValid its (erase env slab it c) (erase-IsValid env slab law it c h f)
        (erase-items env slab law it c p.once ∙ ap (drop_by (at_id it.id)) e ∙ d)

  unarmed-IsValid :
      (c : Cache S)
      → IsValid env slab law c
      → IsValid env slab law (record c { flush_timer = none })
  unarmed-IsValid c h = h

  -- `flush_all` in a valid cache leaves a valid cache without any item.
  pub flush_all-IsValid :
      (c : Cache S)
      → IsValid env slab law c
      → IsValid env slab law (flush_all env slab c) × ((flush_all env slab c).items ≡ [])
  unfolding flush_all
  flush_all-IsValid c h =
      flush_loop-IsValid c.items (record c { flush_timer = none }) (unarmed-IsValid c h) refl

  pub flush_at-IsValid :
      (now ticks time : ℕ) (c : Cache S)
      → IsValid env slab law c
      → IsValid env slab law (flush_at env slab now ticks time c)
  unfolding flush_at
  flush_at-IsValid now ticks time c h = h
