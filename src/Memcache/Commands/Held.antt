-- ===== src/Memcache/Commands/Held.antt =====
-- include/memcached/memcache.cc: an item that an `item_ptr` of `get` refers to when it is removed.
use mseastar.Prelude.{
  ℕ, ◌≡◌, refl, sym, ap, ◌∙◌, subst, Bool, true, false, none, some, List, [], ◌∷◌, arith,
  if◌then◌else◌, Bool-cases, inl, inr, word_add,
}
use mseastar.Memcache.Item.{Env, Item, key_matches}
use mseastar.Memcache.Item.Match.{key_matches-ref}
use mseastar.Memcache.Slab.{Slab, Contract, Lawful}
use mseastar.Memcache.Cache.{
  Cache, find, find_by, any_by, drop_by, replace_by, at_id, add_ref, release, unlink, erase, evict,
}
use mseastar.Memcache.Cache.Inv.{IsValid, Plain}
use mseastar.Memcache.Cache.Keys.{find_head, find_tail, find_by-at_id, find_by-holds}
use mseastar.Memcache.Cache.Drop.{find_by-All}
use mseastar.Memcache.Cache.Erase.{any_by-drop_self}
use mseastar.Memcache.Commands.{get, remove, share, count}

find_by-replace :
    (p q : Item → Bool) (v it : Item) (its : List Item)
    → find_by p its ≡ some it
    → find_by q its ≡ some it
    → p v ≡ true
    → find_by p (replace_by q v its) ≡ some v
find_by-replace p q v it [] e f h = ground arith
find_by-replace p q v it (x ∷ its) e f h = elim (Bool-cases (q x)) [
  | inl t ↦ rw (t, h) refl
  | inr n ↦ elim (Bool-cases (p x)) [
    | inl t ↦
        let g = find_head p x it its e t in
        let k : q x ≡ true = ap q g ∙ find_by-holds q (x ∷ its) it f in ground arith
    | inr m ↦
        rw (n, m)
          (find_by-replace p q v it its (find_tail p x it its e m) (find_tail q x it its f n) h)
  ]
]

drop_by-replace :
    (q : Item → Bool) (v : Item) (its : List Item)
    → q v ≡ true
    → drop_by q (replace_by q v its) ≡ drop_by q its
drop_by-replace q v [] h = refl
drop_by-replace q v (x ∷ its) h = elim (Bool-cases (q x)) [
  | inl t ↦ rw (t, h) refl
  | inr n ↦ rw (n, n) (ap (λ l. x ∷ l) (drop_by-replace q v its h))
]

any_find : (p : Item → Bool) (its : List Item) → any_by p its ≡ false → find_by p its ≡ none
any_find p [] h = refl
any_find p (x ∷ its) h = elim (Bool-cases (p x)) [
  | inl t ↦
      let g : true ≡ false = subst (λ b. (if b then true else any_by p its) ≡ false) t h in
      ground arith
  | inr n ↦ rw n (any_find p its (subst (λ b. (if b then true else any_by p its) ≡ false) n h))
]

module _ {S : Type 0} {con : Contract S} (env : Env) (slab : Slab S) (law : Lawful slab con) where
  -- The item with the reference of the `item_ptr`.
  abbrev twice : Item → Item
  twice it = record it { ref_count = 2 }

  add_ref-once :
      (it : Item) (s : S)
      → it.ref_count ≡ 1
      → add_ref env slab it s ≡ (twice it, slab.lock_item it.id s)
  unfolding add_ref
  add_ref-once it s h = rw h refl

  abbrev with_get : Cache S → Cache S
  with_get c = count env slab c (λ s. record s { get_hits = word_add s.get_hits 1 })

  abbrev shared : Item → Cache S → Cache S
  shared it c = record (with_get c) {
    items = replace_by (at_id it.id) (twice it) c.items;
    slab = slab.lock_item it.id c.slab;
  }

  get-some :
      (k : List ℕ) (it : Item) (c : Cache S)
      → find env slab k c ≡ some it
      → it.ref_count ≡ 1
      → get env slab k c ≡ (shared it c, some (twice it))
  unfolding get share
  get-some k it c e h = rw (e, get) (rw (add_ref-once it c.slab h) refl)

  -- The release of one of two references.
  release-twice :
      (it : Item) (c : Cache S)
      → ((release env slab (twice it) c).slab ≡ slab.unlock_item it.id c.slab)
        × ((release env slab (twice it) c).items ≡ c.items)
  unfolding release
  release-twice it c = (refl, refl)

  remove_shared :
      (k : List ℕ) (it : Item) (c : Cache S)
      → find env slab k c ≡ some (twice it)
      → ((remove env slab k c).0.slab ≡ slab.unlock_item it.id c.slab)
        × ((remove env slab k c).0.items ≡ drop_by (at_id it.id) c.items)
  unfolding remove erase unlink
  remove_shared k it c e =
      let hit = count env slab c (λ s. record s { delete_hits = word_add s.delete_hits 1 }) in
      let r = release-twice it (unlink env slab (twice it) hit) in
      subst
        (λ o.
          ((elim o as (λ x. Cache S × Bool) [
            | none ↦ (
              count env slab c (λ s. record s { delete_misses = word_add s.delete_misses 1 }),
              false,
            )
            | some i ↦ (erase env slab i hit, true)
          ]).0.slab
            ≡ slab.unlock_item it.id c.slab)
          × ((elim o as (λ x. Cache S × Bool) [
            | none ↦ (
              count env slab c (λ s. record s { delete_misses = word_add s.delete_misses 1 }),
              false,
            )
            | some i ↦ (erase env slab i hit, true)
          ]).0.items
              ≡ drop_by (at_id it.id) c.items))
        (sym e) r

  evict-none : (a : ℕ) (c : Cache S) → any_by (at_id a) c.items ≡ false → evict env slab a c ≡ none
  unfolding evict
  evict-none a c h = rw (any_find (at_id a) c.items h, evict) refl

  -- `get` of an item of a valid cache locks it, and `remove` unlocks it while its `item_ptr` is still
  -- held; it is in the hash set no more.
  pub get-remove :
      (k : List ℕ) (it : Item) (c : Cache S)
      → IsValid env slab law c
      → find env slab k c ≡ some it
      → let r = remove env slab k (get env slab k c).0 in
        (r.0.slab ≡ slab.unlock_item it.id (slab.lock_item it.id c.slab))
        × ((any_by (at_id it.id) r.0.items ≡ false) × (evict env slab it.id r.0 ≡ none))
  unfolding find
  get-remove k it c h e =
      let p = find_by-All (key_matches env k) Plain c.items it h.0.plain e in
      let i = find_by-at_id (key_matches env k) c.items it h.0.unique e in
      let q : key_matches env k (twice it) ≡ true =
        key_matches-ref env k it 2 ∙ find_by-holds (key_matches env k) c.items it e in
      let f = find_by-replace (key_matches env k) (at_id it.id) (twice it) it c.items e i q in
      let r = remove_shared k it (shared it c) f in
      let s : at_id it.id (twice it) ≡ true = ground arith in
      let d : (remove env slab k (shared it c)).0.items ≡ drop_by (at_id it.id) c.items =
        r.1 ∙ drop_by-replace (at_id it.id) (twice it) c.items s in
      let gone : any_by (at_id it.id) (remove env slab k (shared it c)).0.items ≡ false =
        ap (any_by (at_id it.id)) d ∙ any_by-drop_self it.id c.items h.0.unique in
      let g : (get env slab k c).0 ≡ shared it c = ap (λ z. z.0) (get-some k it c e p.once) in
      subst
        (λ x.
          ((remove env slab k x).0.slab ≡ slab.unlock_item it.id (slab.lock_item it.id c.slab))
          × ((any_by (at_id it.id) (remove env slab k x).0.items ≡ false)
              × (evict env slab it.id (remove env slab k x).0 ≡ none)))
        (sym g) (r.0, (gone, evict-none it.id (remove env slab k (shared it c)).0 gone))
