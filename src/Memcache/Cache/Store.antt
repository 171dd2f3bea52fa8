-- ===== src/Memcache/Cache/Store.antt =====
-- include/memcached/memcache.cc: `add_overriding`, `add_new` and `maybe_rehash`.
use mseastar.Prelude.{
  ℕ, ◌*◌, ◌%◌, ◌≡◌, refl, ap, ◌∙◌, Bool, leb, none, some, if◌then◌else◌, length, Bool-cases, inl,
  inr, word, word_add,
}
use mseastar.Memcache.Item.{Env, Item, Insertion, key_matches}
use mseastar.Memcache.Item.Match.{Holds}
use mseastar.Memcache.Slab.{Slab, Contract, Lawful}
use mseastar.Memcache.Cache.{
  Cache, Outcome, returns, throws, undefined, find_by, drop_by, at_id, create, add_overriding,
  add_new, maybe_rehash, erase,
}
use mseastar.Memcache.Cache.Keys.{find_by-at_id}
use mseastar.Memcache.Cache.Drop.{find_by-All}
use mseastar.Memcache.Cache.Found.{find_by-drop_found}
use mseastar.Memcache.Cache.Inv.{Plain, IsValid}
use mseastar.Memcache.Cache.Erase.{erase-IsValid, erase-once, unlink-items}
use mseastar.Memcache.Cache.Create.{Timely, Storable, Makes, create-Makes}

module _ {S : Type 0} {con : Contract S} (env : Env) (slab : Slab S) (law : Lawful slab con) where
  -- What the storing of an item comes to: the key finds an item that holds what was to be stored, or
  -- there is no memory and the key finds none. `version` is the item's, and `Result` what is returned.
  abbrev pub Stores : {R : Type 0} → Insertion → ℕ → (R → Type 0) → Outcome S R → Type 0
  Stores ins version Result (returns r d) =
      Result r
      × (IsValid env slab law d
          × ((it : Item) × ((find_by (key_matches env ins.key) d.items ≡ some it)
                × Holds ins version it)))
  Stores ins version Result (throws d) =
      IsValid env slab law d × (find_by (key_matches env ins.key) d.items ≡ none)
  Stores ins version Result undefined = ⊥

  maybe_rehash-IsValid :
      (c : Cache S)
      → IsValid env slab law c
      → IsValid env slab law (maybe_rehash env slab c) × ((maybe_rehash env slab c).items ≡ c.items)
  unfolding maybe_rehash
  maybe_rehash-IsValid c h = elim (Bool-cases (leb c.resize_up_threshold (length c.items))) [
    | inr n ↦ rw n (h, refl)
    | inl y ↦ elim (Bool-cases (env.has_memory (c.bucket_count * 2 % word))) [
      | inl z ↦ rw (y, z) (h, refl)
      | inr z ↦ rw (y, z) (h, refl)
    ]
  ]

  overriding_made :
      (ins : Insertion) (v : ℕ) (r : Outcome S (Item × Bool))
      → Makes env slab law ins v r
      → Stores ins v
          (λ it. Unit)
          (elim r [
            | returns made d ↦ if made.1 then returns made.0 d else undefined
            | throws d ↦ throws d
            | undefined ↦ undefined
          ])
  overriding_made ins v (returns (it, b) d) h = rw h.0 (tt, (h.1.0, (it, h.1.1)))
  overriding_made ins v (throws d) h = h
  overriding_made ins v undefined h = h

  new_made :
      (ins : Insertion) (v : ℕ) (r : Outcome S (Item × Bool))
      → Makes env slab law ins v r
      → Stores ins v
          (λ it. Unit)
          (elim r as (λ x. Outcome S Unit) [
            | returns made d ↦ returns tt (maybe_rehash env slab d)
            | throws d ↦ throws d
            | undefined ↦ undefined
          ])
  new_made ins v (returns (it, b) d) h =
      let (w, q) = maybe_rehash-IsValid d h.1.0 in
      (tt, (w, (it, (ap (find_by (key_matches env ins.key)) q ∙ h.1.1.0, h.1.1.1))))
  new_made ins v (throws d) h = h
  new_made ins v undefined h = h

  pub erase-items :
      (it : Item) (c : Cache S)
      → it.ref_count ≡ 1
      → (erase env slab it c).items ≡ drop_by (at_id it.id) c.items
  erase-items it c h =
      ap (λ d. d.items) (erase-once env slab law it c h) ∙ unlink-items env slab law it c

  pub add_overriding-Stores :
      (old : Item) (ins : Insertion) (c : Cache S)
      → IsValid env slab law c
      → Storable env slab law ins
      → Timely ins
      → find_by (key_matches env ins.key) c.items ≡ some old
      → Stores ins (word_add old.version 1) (λ it. Unit) (add_overriding env slab old ins c)
  unfolding add_overriding
  add_overriding-Stores old ins c h f d e =
      let p = find_by-All (key_matches env ins.key) Plain c.items old h.0.plain e in
      let i = find_by-at_id (key_matches env ins.key) c.items old h.0.unique e in
      let v = erase-IsValid env slab law old c h i in
      let n : find_by (key_matches env ins.key) (erase env slab old c).items ≡ none =
        ap (find_by (key_matches env ins.key)) (erase-items old c p.once)
        ∙ find_by-drop_found env ins.key c.items old h.0.unique e in
      overriding_made ins (word_add old.version 1)
        (create env slab ins (word_add old.version 1) (erase env slab old c))
        (create-Makes env slab law ins (word_add old.version 1) (erase env slab old c) v f d n)

  pub add_new-Stores :
      (ins : Insertion) (c : Cache S)
      → IsValid env slab law c
      → Storable env slab law ins
      → Timely ins
      → find_by (key_matches env ins.key) c.items ≡ none
      → Stores ins 1 (λ u. Unit) (add_new env slab ins c)
  unfolding add_new
  add_new-Stores ins c h f d e =
      new_made ins 1 (create env slab ins 1 c) (create-Makes env slab law ins 1 c h f d e)
