-- ===== src/Memcache/Commands/Stored.antt =====
-- include/memcached/memcache.cc: `set`, `add`, `replace` and `cas`.
use mseastar.Prelude.{
  ℕ, ◌≡◌, refl, sym, ◌∙◌, subst, Bool, true, false, ◌==◌, Option, none, some, List, arith,
  Option-cases, inl, inr, word_add, ◌≢◌,
}
use mseastar.Memcache.Item.{Env, Item, Insertion, key_matches}
use mseastar.Memcache.Slab.{Slab, Contract, Lawful}
use mseastar.Memcache.Cache.{
  Cache, Outcome, returns, throws, undefined, not_found, stored, bad_version, find, find_by,
  add_overriding, add_new,
}
use mseastar.Memcache.Cache.Counters.{Stats}
use mseastar.Memcache.Cache.Inv.{IsValid}
use mseastar.Memcache.Cache.Create.{Timely, Storable}
use mseastar.Memcache.Cache.Store.{Stores, add_overriding-Stores, add_new-Stores}
use mseastar.Memcache.Commands.{set, add, replace, cas, count, then_count}

module _ {S : Type 0} {con : Contract S} (env : Env) (slab : Slab S) (law : Lawful slab con) where
  -- The version of what is stored over what the key finds.
  abbrev pub next_version : Option Item → ℕ
  next_version none = 1
  next_version (some it) = word_add it.version 1

  abbrev pub is_some : Option Item → Bool
  is_some none = false
  is_some (some it) = true

  counted :
      {R T : Type 0} (ins : Insertion) (v : ℕ) (o : Outcome S R) (P : R → Type 0) (Q : T → Type 0)
      (r : T) (f : Stats → Stats)
      → ((s : Stats) → (f s).bytes ≡ s.bytes)
      → Q r
      → Stores env slab law ins v P o
      → Stores env slab law ins v Q (then_count env slab o r f)
  counted ins v (returns x c) P Q r f same q h = (
    q,
    (
      (
        record {
          unique = h.1.0.0.unique;
          plain = h.1.0.0.plain;
          counted = same c.stats ∙ h.1.0.0.counted;
          timed = h.1.0.0.timed;
          armed = h.1.0.0.armed;
        },
        h.1.0.1,
      ),
      h.1.1,
    ),
  )
  counted ins v (throws c) P Q r f same q h = h
  counted ins v undefined P Q r f same q h = h

  pub count-IsValid :
      (c : Cache S) (f : Stats → Stats)
      → ((s : Stats) → (f s).bytes ≡ s.bytes)
      → IsValid env slab law c
      → IsValid env slab law (count env slab c f)
  count-IsValid c f same h = (
    record {
      unique = h.0.unique;
      plain = h.0.plain;
      counted = same c.stats ∙ h.0.counted;
      timed = h.0.timed;
      armed = h.0.armed;
    },
    h.1,
  )

  find-find_by :
      (k : List ℕ) (c : Cache S) → find env slab k c ≡ find_by (key_matches env k) c.items
  unfolding find
  find-find_by k c = refl

  -- Which way an operation goes.
  set-none :
      (ins : Insertion) (c : Cache S)
      → find env slab ins.key c ≡ none
      → set env slab ins c
        ≡ then_count env slab
            (add_new env slab ins c)
            false
            (λ s. record s { set_adds = word_add s.set_adds 1 })
  unfolding set
  set-none ins c e = rw (e, set) refl

  set-some :
      (ins : Insertion) (it : Item) (c : Cache S)
      → find env slab ins.key c ≡ some it
      → set env slab ins c
        ≡ then_count env slab
            (add_overriding env slab it ins c)
            true
            (λ s. record s { set_replaces = word_add s.set_replaces 1 })
  unfolding set
  set-some ins it c e = rw (e, set) refl

  abbrev with_add : Cache S → Cache S
  with_add c = count env slab c (λ s. record s { set_adds = word_add s.set_adds 1 })

  abbrev with_replace : Cache S → Cache S
  with_replace c = count env slab c (λ s. record s { set_replaces = word_add s.set_replaces 1 })

  abbrev with_cas : Cache S → Cache S
  with_cas c = count env slab c (λ s. record s { cas_hits = word_add s.cas_hits 1 })

  add-none :
      (ins : Insertion) (c : Cache S)
      → find env slab ins.key c ≡ none
      → add env slab ins c ≡ then_count env slab (add_new env slab ins (with_add c)) true (λ s. s)
  unfolding add
  add-none ins c e = rw (e, add) refl

  replace-some :
      (ins : Insertion) (it : Item) (c : Cache S)
      → find env slab ins.key c ≡ some it
      → replace env slab ins c
        ≡ then_count env slab (add_overriding env slab it ins (with_replace c)) true (λ s. s)
  unfolding replace
  replace-some ins it c e = rw (e, replace) refl

  cas-some :
      (ins : Insertion) (version : ℕ) (it : Item) (c : Cache S)
      → find env slab ins.key c ≡ some it
      → it.version ≡ version
      → cas env slab ins version c
        ≡ then_count env slab (add_overriding env slab it ins (with_cas c)) stored (λ s. s)
  unfolding cas
  cas-some ins version it c e q =
      let t : (it.version == version) ≡ true = ground arith in rw (e, cas) (rw t refl)

  pub cas-none :
      (ins : Insertion) (version : ℕ) (c : Cache S)
      → find env slab ins.key c ≡ none
      → cas env slab ins version c
        ≡ returns not_found
            (count env slab c (λ s. record s { cas_misses = word_add s.cas_misses 1 }))
  unfolding cas
  cas-none ins version c e = rw (e, cas) refl

  pub cas-other :
      (ins : Insertion) (version : ℕ) (it : Item) (c : Cache S)
      → find env slab ins.key c ≡ some it
      → it.version ≢ version
      → cas env slab ins version c
        ≡ returns bad_version
            (count env slab c (λ s. record s { cas_badval = word_add s.cas_badval 1 }))
  unfolding cas
  cas-other ins version it c e n =
      let t : (it.version == version) ≡ false = ground arith in rw (e, cas) (rw t refl)

  -- `set` in a valid cache over a lawful slab is never undefined, for a key and a prefix of at most
  -- 248 bytes, a value below 2 ^ 32 bytes, a size that the slab makes items of and a time that is
  -- not negative. When it returns, the key finds an item with the new value, and the version 1, or
  -- the next one when it replaces an item, which the result says. When it throws, the key finds
  -- none, although it may have found an item before. The cache is valid in both cases.
  pub set-Stores :
      (ins : Insertion) (c : Cache S)
      → IsValid env slab law c
      → Storable env slab law ins
      → Timely ins
      → Stores env slab law ins
          (next_version (find env slab ins.key c))
          (λ b. b ≡ is_some (find env slab ins.key c))
          (set env slab ins c)
  set-Stores ins c h f d =
      let all : Option Item → Type 0 =
        λ w. Stores env slab law ins (next_version w) (λ b. b ≡ is_some w) (set env slab ins c) in
      elim (Option-cases (find env slab ins.key c)) [
        | inl e ↦ subst all (sym e) (
            subst (λ o. Stores env slab law ins 1 (λ b. b ≡ false) o) (sym (set-none ins c e))
              (counted ins 1 (add_new env slab ins c) (λ u. Unit) (λ b. b ≡ false) false
                (λ s. record s { set_adds = word_add s.set_adds 1 }) (λ s. refl) refl
                (add_new-Stores env slab law ins c h f d (sym (find-find_by ins.key c) ∙ e))))
        | inr (it, e) ↦ subst all (sym e) (
            subst (λ o. Stores env slab law ins (word_add it.version 1) (λ b. b ≡ true) o)
              (sym (set-some ins it c e))
              (counted ins (word_add it.version 1) (add_overriding env slab it ins c) (λ u. Unit)
                (λ b. b ≡ true) true (λ s. record s { set_replaces = word_add s.set_replaces 1 })
                (λ s. refl) refl
                (add_overriding-Stores env slab law it ins c h f d
                  (sym (find-find_by ins.key c) ∙ e))))
      ]

  -- `add` in a valid cache over a lawful slab, for an item that fits as for `set`. When its key
  -- finds none, it is stored as its first version, or there is no memory and the key still finds
  -- none; the cache stays valid. When its key finds an item, nothing happens.
  pub add-Stores :
      (ins : Insertion) (c : Cache S)
      → IsValid env slab law c
      → Storable env slab law ins
      → Timely ins
      → (find env slab ins.key c ≡ none
          → Stores env slab law ins 1 (λ b. b ≡ true) (add env slab ins c))
        × ((it : Item) → find env slab ins.key c ≡ some it → add env slab ins c ≡ returns false c)
  unfolding add
  add-Stores ins c h f d = (
    λ e.
        let v =
          count-IsValid c (λ s. record s { set_adds = word_add s.set_adds 1 }) (λ s. refl) h in
        subst (λ o. Stores env slab law ins 1 (λ b. b ≡ true) o) (sym (add-none ins c e))
          (counted ins 1 (add_new env slab ins (with_add c)) (λ u. Unit) (λ b. b ≡ true) true
            (λ s. s) (λ s. refl) refl
            (add_new-Stores env slab law ins (with_add c) v f d
              (sym (find-find_by ins.key c) ∙ e))),
    λ it e. rw (e, add) refl,
  )

  -- `replace` in a valid cache over a lawful slab, for an item that fits as for `set`. When its key
  -- finds an item, it is stored as the next version of that, or there is no memory and the key finds
  -- none; the cache stays valid. When its key finds none, nothing happens.
  pub replace-Stores :
      (ins : Insertion) (c : Cache S)
      → IsValid env slab law c
      → Storable env slab law ins
      → Timely ins
      → (find env slab ins.key c ≡ none → replace env slab ins c ≡ returns false c)
        × ((it : Item)
            → find env slab ins.key c ≡ some it
            → Stores env slab law ins
                (word_add it.version 1)
                (λ b. b ≡ true)
                (replace env slab ins c))
  unfolding replace
  replace-Stores ins c h f d = (
    λ e. rw (e, replace) refl,
    λ it e.
        let v =
          count-IsValid c (λ s. record s { set_replaces = word_add s.set_replaces 1 }) (λ s. refl)
            h in
        subst (λ o. Stores env slab law ins (word_add it.version 1) (λ b. b ≡ true) o)
          (sym (replace-some ins it c e))
          (counted ins (word_add it.version 1) (add_overriding env slab it ins (with_replace c))
            (λ u. Unit) (λ b. b ≡ true) true (λ s. s) (λ s. refl) refl
            (add_overriding-Stores env slab law it ins (with_replace c) v f d
              (sym (find-find_by ins.key c) ∙ e))),
  )

  -- `cas` in a valid cache over a lawful slab, for an item that fits as for `set`. When the key
  -- finds no item, or one of another version, the items are left as they are, and the result says
  -- which it is. When the version is the item's, the new item is stored as its next version, or
  -- there is no memory and the key finds none; the cache stays valid.
  pub cas-Stores :
      (ins : Insertion) (version : ℕ) (c : Cache S)
      → IsValid env slab law c
      → Storable env slab law ins
      → Timely ins
      → (find env slab ins.key c ≡ none
          → (d : Cache S) × ((cas env slab ins version c ≡ returns not_found d)
              × (d.items ≡ c.items)))
        × ((it : Item)
            → find env slab ins.key c ≡ some it
            → (it.version ≢ version
                → (d : Cache S) × ((cas env slab ins version c ≡ returns bad_version d)
                    × (d.items ≡ c.items)))
              × (it.version ≡ version
                  → Stores env slab law ins
                      (word_add version 1)
                      (λ r. r ≡ stored)
                      (cas env slab ins version c)))
  cas-Stores ins version c h f d = (
    λ e. (_, (cas-none ins version c e, refl)),
    λ it e. (
      λ n. (_, (cas-other ins version it c e n, refl)),
      λ q.
          let v =
            count-IsValid c (λ s. record s { cas_hits = word_add s.cas_hits 1 }) (λ s. refl) h in
          subst (λ o. Stores env slab law ins (word_add version 1) (λ r. r ≡ stored) o)
            (sym (cas-some ins version it c e q))
            (subst
              (λ w.
                Stores env slab law ins (word_add w 1) (λ r. r ≡ stored)
                  (then_count env slab (add_overriding env slab it ins (with_cas c)) stored
                    (λ s. s)))
              q
              (counted ins (word_add it.version 1) (add_overriding env slab it ins (with_cas c))
                (λ u. Unit) (λ r. r ≡ stored) stored (λ s. s) (λ s. refl) refl
                (add_overriding-Stores env slab law it ins (with_cas c) v f d
                  (sym (find-find_by ins.key c) ∙ e)))),
    ),
  )
