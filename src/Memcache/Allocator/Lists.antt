-- ===== src/Memcache/Allocator/Lists.antt =====
-- include/memcached/slab.hh: the intrusive lists, with the back at the head, and how often each holds an
-- element.
use mseastar.Prelude.{
  ℕ, ◌+◌, ◌<◌, ◌≡◌, ◌≢◌, ◌⊎◌, refl, ap, Bool, true, false, Option, none, some, List, [], ◌∷◌, ◌++◌,
  ◌==◌, if◌then◌else◌, arith, Bool-cases, inl, inr,
}

abbrev pub update : {A : Type 0} → (ℕ → A) → ℕ → A → ℕ → A
update f i v j = if j == i then v else f j

abbrev pub push_front : ℕ → List ℕ → List ℕ
push_front x xs = xs ++ x ∷ []

-- `erase(iterator_to(x))`, which wants that the list holds `x`
abbrev pub take_out : ℕ → List ℕ → Option (List ℕ)
take_out x [] = none
take_out x (y ∷ ys) =
    let rest = take_out x ys in
    if y == x then some ys else elim rest [ none ↦ none | some zs ↦ some (y ∷ zs) ]

abbrev pub occurs : ℕ → List ℕ → Bool
occurs x [] = false
occurs x (y ∷ ys) = if y == x then true else occurs x ys

abbrev pub is_empty : List ℕ → Bool
is_empty [] = true
is_empty (x ∷ xs) = false

-- How often a list holds an element.
abbrev pub one : ℕ → ℕ → ℕ
one x y = if y == x then 1 else 0

abbrev pub copies : ℕ → List ℕ → ℕ
copies x [] = 0
copies x (y ∷ ys) = one x y + copies x ys

pub one_self : (x : ℕ) → one x x ≡ 1
one_self x = ground arith

pub one_other : (x y : ℕ) → y ≢ x → one x y ≡ 0
one_other x y h = ground (arith, h)

pub update-at : {A : Type 0} (f : ℕ → A) (i j : ℕ) (v : A) → j ≡ i → update f i v j ≡ v
update-at f i j v h = ground (arith, h)

pub update-other : {A : Type 0} (f : ℕ → A) (i j : ℕ) (v : A) → j ≢ i → update f i v j ≡ f j
update-other f i j v h = ground (arith, h)

-- To split on whether two numbers are equal.
pub same_or : (a b : ℕ) → (a ≡ b) ⊎ (a ≢ b)
same_or a b = elim (Bool-cases (a == b)) [
  | inl t ↦ inl (ground arith)
  | inr f ↦ inr (λ e. ground arith)
]

pub copies-append : (x : ℕ) (xs ys : List ℕ) → copies x (xs ++ ys) ≡ copies x xs + copies x ys
copies-append x [] ys = omega arith
copies-append x (z ∷ xs) ys = omega (arith, copies-append x xs ys)

pub copies-push : (x y : ℕ) (xs : List ℕ) → copies x (push_front y xs) ≡ copies x xs + one x y
copies-push x y xs = omega (arith, copies-append x xs (y ∷ []))

-- An element that the list holds can be taken out, once.
pub take_out-some :
    (x : ℕ) (xs : List ℕ)
    → 0 < copies x xs
    → (ys : List ℕ) × ((take_out x xs ≡ some ys) × ((y : ℕ) → copies y xs ≡ one y x + copies y ys))
take_out-some x [] h = absurd (omega (arith, h))
take_out-some x (z ∷ xs) h = elim (Bool-cases (z == x)) [
  | inl t ↦
      let q : z ≡ x = ground arith in (xs, (rw t refl, λ y. ap (λ w. one y w + copies y xs) q))
  | inr f ↦
      let o : one x z ≡ 0 = rw f refl in
      let (ys, (e, c)) = take_out-some x xs (omega (arith, h, o)) in
      (z ∷ ys, (rw (f, e) refl, λ y. omega (arith, c y)))
]
