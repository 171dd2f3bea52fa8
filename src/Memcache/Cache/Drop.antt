-- ===== src/Memcache/Cache/Drop.antt =====
-- include/memcached/memcache.cc: what the erasure of an item from the hash set keeps.
use mseastar.Prelude.{
  ◌+◌, ◌≡◌, refl, ap, subst, Bool, true, false, none, some, List, [], ◌∷◌, arith, if◌then◌else◌,
  All, Bool-cases, inl, inr,
}
use mseastar.Memcache.Item.{Env, Item, same_item, item_size, ever_expires}
use mseastar.Memcache.Cache.{find_by, any_by, drop_by, at_id}
use mseastar.Memcache.Cache.Keys.{Unique, total, timers, timer_occ, find_head, find_tail}
use mseastar.TimerSet.{Timer}
use mseastar.TimerSet.Inv.{occ}

module _ (q : Item → Bool) where
  none_head :
      (p : Item → Bool) (x : Item) (its : List Item)
      → find_by p (x ∷ its) ≡ none
      → (p x ≡ false) × (find_by p its ≡ none)
  none_head p x its e = elim (Bool-cases (p x)) [
    | inl t ↦
        let g : some x ≡ none = subst (λ b. (if b then some x else find_by p its) ≡ none) t e in
        ground arith
    | inr f ↦ (f, subst (λ b. (if b then some x else find_by p its) ≡ none) f e)
  ]

  pub find_by-drop_none :
      (p : Item → Bool) (its : List Item) → find_by p its ≡ none → find_by p (drop_by q its) ≡ none
  find_by-drop_none p [] e = e
  find_by-drop_none p (x ∷ its) e =
      let (f, r) = none_head p x its e in
      elim (Bool-cases (q x)) [ inl t ↦ rw t r | inr n ↦ rw (n, f) (find_by-drop_none p its r) ]

  any_head :
      (p : Item → Bool) (x : Item) (its : List Item)
      → any_by p (x ∷ its) ≡ false
      → (p x ≡ false) × (any_by p its ≡ false)
  any_head p x its e = elim (Bool-cases (p x)) [
    | inl t ↦
        let g : true ≡ false = subst (λ b. (if b then true else any_by p its) ≡ false) t e in
        ground arith
    | inr f ↦ (f, subst (λ b. (if b then true else any_by p its) ≡ false) f e)
  ]

  pub any_by-drop :
      (p : Item → Bool) (its : List Item) → any_by p its ≡ false → any_by p (drop_by q its) ≡ false
  any_by-drop p [] e = e
  any_by-drop p (x ∷ its) e =
      let (f, r) = any_head p x its e in
      elim (Bool-cases (q x)) [ inl t ↦ rw t r | inr n ↦ rw (n, f) (any_by-drop p its r) ]

  pub drop_by-Unique : (its : List Item) → Unique its → Unique (drop_by q its)
  drop_by-Unique [] h = h
  drop_by-Unique (x ∷ its) h = elim (Bool-cases (q x)) [
    | inl t ↦ rw t h.1
    | inr n ↦ rw n (
      (any_by-drop (at_id x.id) its h.0.0, any_by-drop (same_item x) its h.0.1),
      drop_by-Unique its h.1,
    )
  ]

  pub drop_by-All : (P : Item → Type 0) (its : List Item) → All P its → All P (drop_by q its)
  drop_by-All P [] h = h
  drop_by-All P (x ∷ its) h = elim (Bool-cases (q x)) [
    | inl t ↦ rw t h.1
    | inr n ↦ rw n (h.0, drop_by-All P its h.1)
  ]

  pub find_by-All :
      (P : Item → Type 0) (its : List Item) (it : Item) → All P its → find_by q its ≡ some it → P it
  find_by-All P [] it h e = ground arith
  find_by-All P (x ∷ its) it h e = elim (Bool-cases (q x)) [
    | inl t ↦ subst P (find_head q x it its e t) h.0
    | inr f ↦ find_by-All P its it h.1 (find_tail q x it its e f)
  ]

  pub total-drop :
      (env : Env) (its : List Item) (it : Item)
      → find_by q its ≡ some it
      → total env (drop_by q its) + item_size env it ≡ total env its
  total-drop env [] it e = ground arith
  total-drop env (x ∷ its) it e = elim (Bool-cases (q x)) [
    | inl t ↦
        let g : item_size env x ≡ item_size env it =
          ap (item_size env) (find_head q x it its e t) in
        rw t (omega (arith, g))
    | inr n ↦ rw n (omega (arith, total-drop env its it (find_tail q x it its e n)))
  ]

  occ-timers_cons :
      (u : Timer) (x : Item) (its : List Item)
      → occ u (timers (x ∷ its)) ≡ timer_occ u x + occ u (timers its)
  occ-timers_cons u x its = elim (Bool-cases (ever_expires x.expiry)) [
    | inl t ↦ rw t refl
    | inr f ↦ rw f (omega arith)
  ]

  pub occ-drop :
      (u : Timer) (its : List Item) (it : Item)
      → find_by q its ≡ some it
      → occ u (timers (drop_by q its)) + timer_occ u it ≡ occ u (timers its)
  occ-drop u [] it e = ground arith
  occ-drop u (x ∷ its) it e = elim (Bool-cases (q x)) [
    | inl t ↦
        let g : timer_occ u x ≡ timer_occ u it = ap (timer_occ u) (find_head q x it its e t) in
        let c = occ-timers_cons u x its in rw t (omega (arith, g, c))
    | inr n ↦
        let c = occ-timers_cons u x its in
        let d = occ-timers_cons u x (drop_by q its) in
        let r = occ-drop u its it (find_tail q x it its e n) in rw n (omega (arith, c, d, r))
  ]
