-- ===== src/Memcache/Cache/Keys.antt =====
-- include/memcached/memcache.cc: the hash set of a cache, and what `find`, `erase` and `insert` do to it.
use mseastar.Prelude.{
  ℕ, ◌+◌, ◌≡◌, refl, sym, ap, ◌∙◌, subst, Bool, true, false, some, List, [], ◌∷◌, arith,
  if◌then◌else◌, Bool-cases, inl, inr,
}
use mseastar.Memcache.Item.{Env, Item, same_item, item_size, ever_expires}
use mseastar.Memcache.Cache.{find_by, any_by, at_id, timer_of}
use mseastar.TimerSet.{Timer}
use mseastar.TimerSet.Inv.{one_if}

-- No two items have one address, and no two have one key.
abbrev pub Unique : List Item → Type 0
Unique [] = Unit
Unique (it ∷ its) =
    ((any_by (at_id it.id) its ≡ false) × (any_by (same_item it) its ≡ false)) × Unique its

-- The sum of the items' sizes.
abbrev pub total : Env → List Item → ℕ
total env [] = 0
total env (it ∷ its) = item_size env it + total env its

-- The timers of the items that ever expire.
abbrev pub timers : List Item → List Timer
timers [] = []
timers (it ∷ its) = if ever_expires it.expiry then timer_of it ∷ timers its else timers its

abbrev pub timer_occ : Timer → Item → ℕ
timer_occ u it = if ever_expires it.expiry then one_if u (timer_of it) else 0

pub any_by-find :
    (p : Item → Bool) (its : List Item) (it : Item) → find_by p its ≡ some it → any_by p its ≡ true
any_by-find p [] it e = ground arith
any_by-find p (x ∷ its) it e = elim (Bool-cases (p x)) [
  | inl t ↦ rw t refl
  | inr f ↦
      rw f (any_by-find p its it (subst (λ b. (if b then some x else find_by p its) ≡ some it) f e))
]

pub find_by-some :
    (p : Item → Bool) (its : List Item)
    → any_by p its ≡ true
    → (it : Item) × (find_by p its ≡ some it)
find_by-some p [] h = ground arith
find_by-some p (x ∷ its) h = elim (Bool-cases (p x)) [
  | inl t ↦ (x, rw t refl)
  | inr f ↦
      let (it, e) =
        find_by-some p its (subst (λ b. (if b then true else any_by p its) ≡ true) f h) in
      (it, rw f e)
]

-- To go on in the tail of a search whose first item is not the one.
pub find_tail :
    (p : Item → Bool) (x it : Item) (its : List Item)
    → find_by p (x ∷ its) ≡ some it
    → p x ≡ false
    → find_by p its ≡ some it
find_tail p x it its e f = subst (λ b. (if b then some x else find_by p its) ≡ some it) f e

pub find_head :
    (p : Item → Bool) (x it : Item) (its : List Item)
    → find_by p (x ∷ its) ≡ some it
    → p x ≡ true
    → x ≡ it
find_head p x it its e t =
    let g : some x ≡ some it = subst (λ b. (if b then some x else find_by p its) ≡ some it) t e in
    ground arith

pub find_by-holds :
    (p : Item → Bool) (its : List Item) (it : Item) → find_by p its ≡ some it → p it ≡ true
find_by-holds p [] it e = ground arith
find_by-holds p (x ∷ its) it e = elim (Bool-cases (p x)) [
  | inl t ↦ ap p (sym (find_head p x it its e t)) ∙ t
  | inr f ↦ find_by-holds p its it (find_tail p x it its e f)
]

at_id_self : (it : Item) → at_id it.id it ≡ true
at_id_self it = ground arith

-- An item that is found by whatever test is found by its address, as addresses are unique.
pub find_by-at_id :
    (p : Item → Bool) (its : List Item) (it : Item)
    → Unique its
    → find_by p its ≡ some it
    → find_by (at_id it.id) its ≡ some it
find_by-at_id p [] it h e = ground arith
find_by-at_id p (x ∷ its) it h e = elim (Bool-cases (p x)) [
  | inl t ↦
      let g = find_head p x it its e t in
      let s : at_id it.id x ≡ true = ap (λ z. at_id z.id x) (sym g) ∙ at_id_self x in
      rw s (ap some g)
  | inr f ↦
      let e' = find_tail p x it its e f in
      let k = find_by-at_id p its it h.1 e' in
      elim (Bool-cases (at_id it.id x)) [
        | inr n ↦ rw n k
        | inl s ↦
            let q : it.id ≡ x.id = ground arith in
            let a : any_by (at_id x.id) its ≡ true =
              ap (λ z. any_by (at_id z) its) (sym q) ∙ any_by-find (at_id it.id) its it k in
            absurd (differ (any_by (at_id x.id) its) a h.0.0)
      ]
]
  where
    differ : (b : Bool) → b ≡ true → b ≡ false → ⊥
    differ b t f = ground arith
