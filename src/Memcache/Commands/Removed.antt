-- ===== src/Memcache/Commands/Removed.antt =====
-- include/memcached/memcache.cc: `remove`, and the cache as it is constructed.
use mseastar.Prelude.{
  ℕ, ◌≡◌, refl, sym, ap, ◌∙◌, subst, Bool, true, false, none, some, List, arith, Option-cases, inl,
  inr, word_add,
}
use mseastar.Memcache.Item.{Env, Item, Insertion, key_matches}
use mseastar.Memcache.Slab.{Slab, Contract, Lawful}
use mseastar.Memcache.Cache.{Cache, Outcome, returns, throws, undefined, find, find_by, erase}
use mseastar.Memcache.Cache.Keys.{find_by-at_id}
use mseastar.Memcache.Cache.Drop.{find_by-All}
use mseastar.Memcache.Cache.Found.{find_by-drop_found}
use mseastar.Memcache.Cache.Inv.{IsValid, Plain}
use mseastar.Memcache.Cache.Erase.{erase-IsValid}
use mseastar.Memcache.Cache.Store.{Stores, erase-items}
use mseastar.Memcache.Commands.{remove, count, new_cache}
use mseastar.Memcache.Commands.Stored.{count-IsValid, is_some}
use mseastar.TimerSet.Inv.{init-Inv, count-init}

module _ {S : Type 0} {con : Contract S} (env : Env) (slab : Slab S) (law : Lawful slab con) where
  -- A constructed cache is valid, when the slab is in order and lists no item yet.
  pub new_cache-IsValid :
      (s : S) (now wall : ℕ)
      → con.ok s
      → ((a : ℕ) → con.lists a s → ⊥)
      → IsValid env slab law (new_cache s now wall)
  unfolding new_cache
  new_cache-IsValid s now wall o h = (
    record { unique = tt; plain = tt; counted = refl; timed = init-Inv; armed = count-init },
    record { ok = o; stored = λ a k. ground arith; cached = λ a k. absurd (h a k) },
  )

  remove-none :
      (k : List ℕ) (c : Cache S)
      → find env slab k c ≡ none
      → remove env slab k c
        ≡ (count env slab c (λ s. record s { delete_misses = word_add s.delete_misses 1 }), false)
  unfolding remove
  remove-none k c e = rw (e, remove) refl

  abbrev with_hit : Cache S → Cache S
  with_hit c = count env slab c (λ s. record s { delete_hits = word_add s.delete_hits 1 })

  remove-some :
      (k : List ℕ) (it : Item) (c : Cache S)
      → find env slab k c ≡ some it
      → remove env slab k c ≡ (erase env slab it (with_hit c), true)
  unfolding remove
  remove-some k it c e = rw (e, remove) refl

  -- `remove` in a valid cache over a lawful slab says whether the key found an item; afterwards it
  -- finds none, and the cache is valid.
  pub remove-IsValid :
      (k : List ℕ) (c : Cache S)
      → IsValid env slab law c
      → ((remove env slab k c).1 ≡ is_some env slab law (find env slab k c))
        × (IsValid env slab law (remove env slab k c).0
            × (find env slab k (remove env slab k c).0 ≡ none))
  unfolding find
  remove-IsValid k c h =
      let all : Cache S × Bool → Type 0 = λ r.
        (r.1 ≡ is_some env slab law (find env slab k c))
        × (IsValid env slab law r.0 × (find env slab k r.0 ≡ none)) in
      elim (Option-cases (find env slab k c)) [
        | inl e ↦ subst all (sym (remove-none k c e)) (
          sym (ap (is_some env slab law) e),
          (
            count-IsValid env slab law c
                (λ s. record s { delete_misses = word_add s.delete_misses 1 }) (λ s. refl) h,
            e,
          ),
        )
        | inr (it, e) ↦
            let v =
              count-IsValid env slab law c
                (λ s. record s { delete_hits = word_add s.delete_hits 1 }) (λ s. refl) h in
            let p = find_by-All (key_matches env k) Plain c.items it h.0.plain e in
            let i = find_by-at_id (key_matches env k) c.items it h.0.unique e in
            subst all (sym (remove-some k it c e)) (
              sym (ap (is_some env slab law) e),
              (
                erase-IsValid env slab law it (with_hit c) v i,
                ap (find_by (key_matches env k)) (erase-items env slab law it (with_hit c) p.once)
                    ∙ find_by-drop_found env k c.items it h.0.unique e,
              ),
            )
      ]

  -- The cache that an operation leaves behind; `c` where the behaviour is undefined.
  abbrev pub state_of : {R : Type 0} → Cache S → Outcome S R → Cache S
  state_of c (returns r d) = d
  state_of c (throws d) = d
  state_of c undefined = c

  pub Stores-IsValid :
      {R : Type 0} (ins : Insertion) (v : ℕ) (P : R → Type 0) (c : Cache S) (o : Outcome S R)
      → Stores env slab law ins v P o
      → IsValid env slab law (state_of c o)
  Stores-IsValid ins v P c (returns r d) h = h.1.0
  Stores-IsValid ins v P c (throws d) h = h.0
  Stores-IsValid ins v P c undefined h = absurd h
