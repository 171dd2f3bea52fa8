-- ===== src/Memcache/Cache/Found.antt =====
-- include/memcached/memcache.cc: the items that a key finds, before and after an erasure.
use mseastar.Prelude.{
  ℕ, ◌≡◌, refl, sym, ap, ◌∙◌, subst, Bool, true, false, none, some, List, [], ◌∷◌, arith,
  if◌then◌else◌, Bool-cases, inl, inr,
}
use mseastar.Memcache.Item.{Env, Item, same_item, key_matches}
use mseastar.Memcache.Item.Match.{key_matches-same, same_item-matches}
use mseastar.Memcache.Cache.{find_by, any_by, drop_by, at_id}
use mseastar.Memcache.Cache.Keys.{Unique, find_head, find_tail, any_by-find, find_by-at_id}

-- After the erasure of the item that a key finds, the key finds none.
pub find_by-drop_found :
    (env : Env) (k : List ℕ) (its : List Item) (it : Item)
    → Unique its
    → find_by (key_matches env k) its ≡ some it
    → find_by (key_matches env k) (drop_by (at_id it.id) its) ≡ none
find_by-drop_found env k [] it h e = ground arith
find_by-drop_found env k (x ∷ its) it h e = elim (Bool-cases (key_matches env k x)) [
  | inl t ↦
      let g = find_head (key_matches env k) x it its e t in
      let s : at_id it.id x ≡ true = ap (λ z. at_id z.id x) (sym g) ∙ self x in
      rw s (others x its t h.0.1)
  | inr f ↦
      let e' = find_tail (key_matches env k) x it its e f in
      elim (Bool-cases (at_id it.id x)) [
        | inl s ↦
            let q : it.id ≡ x.id = ground arith in
            let a : any_by (at_id x.id) its ≡ true =
              ap (λ z. any_by (at_id z) its) (sym q)
              ∙ any_by-find (at_id it.id) its it
                  (find_by-at_id (key_matches env k) its it h.1 e') in
            absurd (differ (any_by (at_id x.id) its) a h.0.0)
        | inr n ↦ rw (n, f) (find_by-drop_found env k its it h.1 e')
      ]
]
  where
    differ : (b : Bool) → b ≡ true → b ≡ false → ⊥
    differ b t f = ground arith

    self : (x : Item) → at_id x.id x ≡ true
    self x = ground arith

    others :
        (x : Item) (its : List Item)
        → key_matches env k x ≡ true
        → any_by (same_item x) its ≡ false
        → find_by (key_matches env k) its ≡ none
    others x [] t h = refl
    others x (y ∷ its) t h = elim (Bool-cases (key_matches env k y)) [
      | inl s ↦ absurd (
          differ (any_by (same_item x) (y ∷ its))
            (ap (λ b. if b then true else any_by (same_item x) its)
              (key_matches-same env k x y t s))
            h)
      | inr f ↦ elim (Bool-cases (same_item x y)) [
        | inl s ↦ absurd (differ (key_matches env k y) (same_item-matches env k x y t s) f)
        | inr n ↦ rw f (
            others x its t
              (subst (λ b. (if b then true else any_by (same_item x) its) ≡ false) n h))
      ]
    ]

-- No item is equal to one whose key finds none.
pub any_by-same :
    (env : Env) (k : List ℕ) (x : Item) (its : List Item)
    → key_matches env k x ≡ true
    → find_by (key_matches env k) its ≡ none
    → any_by (same_item x) its ≡ false
any_by-same env k x [] t e = refl
any_by-same env k x (y ∷ its) t e = elim (Bool-cases (key_matches env k y)) [
  | inl s ↦
      let g : some y ≡ none =
        subst (λ b. (if b then some y else find_by (key_matches env k) its) ≡ none) s e in
      ground arith
  | inr f ↦
      let e' = subst (λ b. (if b then some y else find_by (key_matches env k) its) ≡ none) f e in
      elim (Bool-cases (same_item x y)) [
        | inl s ↦ let g = same_item-matches env k x y t s in ground arith
        | inr n ↦ rw n (any_by-same env k x its t e')
      ]
]
