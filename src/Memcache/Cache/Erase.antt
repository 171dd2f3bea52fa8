-- ===== src/Memcache/Cache/Erase.antt =====
-- include/memcached/memcache.cc: `erase` of an item that only the cache refers to, and the eviction of
-- an item by the slab.
use mseastar.Prelude.{
  ℕ, ◌≡◌, ◌≢◌, refl, sym, ap, ◌∙◌, subst, true, false, some, List, [], ◌∷◌, arith, if◌then◌else◌,
  Bool-cases, inl, inr,
}
use mseastar.Memcache.Item.{Env, Item}
use mseastar.Memcache.Slab.{Slab, Contract, Lawful}
use mseastar.Memcache.Cache.{Cache, find_by, any_by, drop_by, at_id, unlink, release, erase}
use mseastar.Memcache.Cache.Keys.{Unique, any_by-find}
use mseastar.Memcache.Cache.Drop.{find_by-All}
use mseastar.Memcache.Cache.Inv.{Plain, Backed, IsValid, unlink-Core}

-- Where an item is, after the erasure of another one or of itself.
pub any_by-drop_other :
    (a b : ℕ) (its : List Item)
    → b ≢ a
    → any_by (at_id b) its ≡ true
    → any_by (at_id b) (drop_by (at_id a) its) ≡ true
any_by-drop_other a b [] n h = h
any_by-drop_other a b (x ∷ its) n h = elim (Bool-cases (at_id a x)) [
  | inl t ↦
      let f : at_id b x ≡ false = ground arith in
      rw t (subst (λ z. (if z then true else any_by (at_id b) its) ≡ true) f h)
  | inr t ↦ elim (Bool-cases (at_id b x)) [
    | inl s ↦ rw (t, s) refl
    | inr f ↦
        rw (t, f)
          (any_by-drop_other a b its n
            (subst (λ z. (if z then true else any_by (at_id b) its) ≡ true) f h))
  ]
]

pub any_by-drop_back :
    (a b : ℕ) (its : List Item)
    → any_by (at_id b) (drop_by (at_id a) its) ≡ true
    → any_by (at_id b) its ≡ true
any_by-drop_back a b [] h = h
any_by-drop_back a b (x ∷ its) h = elim (Bool-cases (at_id b x)) [
  | inl s ↦ rw s refl
  | inr f ↦ rw f (elim (Bool-cases (at_id a x)) [
    | inl t ↦
        subst (λ z. any_by (at_id b) (if z then its else x ∷ drop_by (at_id a) its) ≡ true) t h
    | inr t ↦ any_by-drop_back a b its (
        subst (λ z. (if z then true else any_by (at_id b) (drop_by (at_id a) its)) ≡ true) f
          (subst (λ z. any_by (at_id b) (if z then its else x ∷ drop_by (at_id a) its) ≡ true) t h))
  ])
]

pub any_by-drop_self :
    (a : ℕ) (its : List Item) → Unique its → any_by (at_id a) (drop_by (at_id a) its) ≡ false
any_by-drop_self a [] h = refl
any_by-drop_self a (x ∷ its) h = elim (Bool-cases (at_id a x)) [
  | inl t ↦ let q : x.id ≡ a = ground arith in rw t (ap (λ z. any_by (at_id z) its) (sym q) ∙ h.0.0)
  | inr f ↦ rw (f, f) (any_by-drop_self a its h.1)
]

module _ {S : Type 0} {con : Contract S} (env : Env) (slab : Slab S) (law : Lawful slab con) where
  unlink-slab : (it : Item) (c : Cache S) → (unlink env slab it c).slab ≡ c.slab
  unfolding unlink
  unlink-slab it c = refl

  pub unlink-items :
      (it : Item) (c : Cache S) → (unlink env slab it c).items ≡ drop_by (at_id it.id) c.items
  unfolding unlink
  unlink-items it c = refl

  -- The release of the last reference: the storage is free, and nothing else changes.
  release-once :
      (it : Item) (c : Cache S)
      → it.ref_count ≡ 1
      → release env slab it c ≡ record c { slab = slab.free it.id c.slab }
  unfolding release
  release-once it c h = rw h refl

  pub erase-once :
      (it : Item) (c : Cache S)
      → it.ref_count ≡ 1
      → erase env slab it c ≡ record (unlink env slab it c) { slab = slab.free it.id c.slab }
  unfolding erase
  erase-once it c h =
      release-once it (unlink env slab it c) h
      ∙ ap (λ s. record (unlink env slab it c) { slab = slab.free it.id s }) (unlink-slab it c)

  -- Erasing an item that is in the cache keeps the invariant, when only the cache refers to it.
  pub erase-IsValid :
      (it : Item) (c : Cache S)
      → IsValid env slab law c
      → find_by (at_id it.id) c.items ≡ some it
      → IsValid env slab law (erase env slab it c)
  erase-IsValid it c (h, b) e =
      let p = find_by-All (at_id it.id) Plain c.items it h.plain e in
      subst (IsValid env slab law) (sym (erase-once it c p.once)) (
        unlink-Core env slab it c h e,
        subst (λ l. Backed slab law l (slab.free it.id c.slab)) (sym (unlink-items it c))
            (let me = b.stored it.id (any_by-find (at_id it.id) c.items it e) in
              record {
                ok = law.free_ok it.id c.slab b.ok me;
                stored = λ a k.
                    let k' = any_by-drop_back it.id a c.items k in
                    (law.free_lists it.id a c.slab b.ok me).0 (λ q. gone a q h.unique k)
                      (b.stored a k');
                cached = λ a k.
                    let (n, l) = (law.free_lists it.id a c.slab b.ok me).1 k in
                    any_by-drop_other it.id a c.items n (b.cached a l);
              }),
      )
    where
      gone :
          (a : ℕ)
          → a ≡ it.id
          → Unique c.items
          → any_by (at_id a) (drop_by (at_id it.id) c.items) ≡ true
          → ⊥
      gone a q u k =
          let s = any_by-drop_self it.id c.items u in
          let t : any_by (at_id it.id) (drop_by (at_id it.id) c.items) ≡ true =
            subst (λ z. any_by (at_id z) (drop_by (at_id it.id) c.items) ≡ true) q k in
          ground arith
