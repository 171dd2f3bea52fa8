-- ===== src/Memcache/Allocator/Init.antt =====
-- include/memcached/slab.hh: `initialize_slab_allocator`, the sizes of the classes.
use mseastar.Prelude.{
  ℕ, zero, suc, ◌+◌, ◌*◌, ◌/◌, ◌%◌, ◌^◌, ◌≤◌, ◌<◌, ◌≡◌, refl, sym, ap, ◌∙◌, subst, Bool, true,
  false, Option, none, some, List, [], ◌∷◌, arith, ltb, if◌then◌else◌, get_or, length, word,
  Bool-cases, Option-cases, inl, inr,
}
use mseastar.Memcache.Item.{align_up}
use mseastar.Memcache.Allocator.{
  Allocator, class_sizes, initial_size, with_sizes, new_allocator, default_growth,
}
use mseastar.Memcache.Allocator.Inv.{IsValid}
use native.Mathlib.Nat.{div-mul-le_self, mul-le-mul_right, le-div_iff_mul-le}

-- Strictly increasing, from `low` on, up to `max` as the last.
abbrev pub Increasing : ℕ → ℕ → List ℕ → Type 0
Increasing max low [] = ⊥
Increasing max low (x ∷ []) = (low ≤ x) × (x ≡ max)
Increasing max low (x ∷ y ∷ xs) = (low ≤ x) × ((x % 8 ≡ 0) × Increasing max (x + 1) (y ∷ xs))

twice-le : (max size : ℕ) → ltb 1 (max / size) ≡ true → 2 * size ≤ max
twice-le max size h =
    let l : 2 ≤ max / size = ground arith in
    let m : 2 * size ≤ max / size * size = mul-le-mul_right size l in
    let d = div-mul-le_self max size in omega (arith, m, d)

align_up-bounds :
    (v : ℕ)
    → v + 7 < word
    → (v ≤ align_up word v 8) × ((align_up word v 8 ≤ v + 7) × (align_up word v 8 % 8 ≡ 0))
align_up-bounds v h = (omega arith, (omega arith, omega arith))

Increasing-cons :
    (max low x : ℕ) (xs : List ℕ)
    → low ≤ x
    → x % 8 ≡ 0
    → Increasing max (x + 1) xs
    → Increasing max low (x ∷ xs)
Increasing-cons max low x [] h k m = absurd m
Increasing-cons max low x (y ∷ xs) h k m = (h, (k, m))

-- The same of what the loop comes to, when it does not fail.
abbrev pub GoodSizes : ℕ → ℕ → Option (List ℕ) → Type 0
GoodSizes max low none = Unit
GoodSizes max low (some sizes) = Increasing max low sizes

module _ (grow : ℕ → ℕ) (max : ℕ) where
  -- The sizes that the loop gives are strictly increasing, all but the last are multiples of 8, and the
  -- last is that of a page.
  pub class_sizes-GoodSizes :
      (left size low : ℕ)
      → ((n : ℕ) → 8 ≤ n → n < grow n)
      → max < word
      → 8 ≤ size
      → low ≤ size
      → low ≤ max
      → GoodSizes max low (class_sizes grow left max size)
  class_sizes-GoodSizes zero size low g w b l m = elim (Bool-cases (ltb 1 (max / size))) [
    | inl t ↦ rw t tt
    | inr f ↦ rw f (m, refl)
  ]
  class_sizes-GoodSizes (suc left) size low g w b l m = elim (Bool-cases (ltb 1 (max / size))) [
    | inl t ↦
        let d = twice-le max size t in
        let (u, (v, x)) = align_up-bounds size (omega (arith, d, b, w)) in
        let aligned = align_up word size 8 in
        let k : 8 ≤ aligned = omega (arith, u, b) in
        let y = g aligned k in
        let r =
          class_sizes-GoodSizes left (grow aligned) (aligned + 1) g w (omega (arith, y, k))
            (omega (arith, y)) (omega (arith, v, d, b)) in
        rw t (pushed aligned (class_sizes grow left max (grow aligned)) (omega (arith, l, u)) x r)
    | inr f ↦ rw f (m, refl)
  ]
    where
      pushed :
          (x : ℕ) (o : Option (List ℕ))
          → low ≤ x
          → x % 8 ≡ 0
          → GoodSizes max (x + 1) o
          → GoodSizes max low
              (elim o as (λ z. Option (List ℕ)) [ none ↦ none | some sizes ↦ some (x ∷ sizes) ])
      pushed x none h k r = tt
      pushed x (some sizes) h k r = Increasing-cons max low x sizes h k r

  -- The size after so many steps of the loop.
  abbrev pub after_steps : ℕ → ℕ → ℕ
  after_steps zero size = size
  after_steps (suc n) size = after_steps n (grow (align_up word size 8))

  -- The loop can only fail when the size is still at most half a page after all class numbers are taken.
  class_sizes-none :
      (left size : ℕ) → class_sizes grow left max size ≡ none → 2 * after_steps left size ≤ max
  class_sizes-none zero size e = elim (Bool-cases (ltb 1 (max / size))) [
    | inl t ↦ twice-le max size t
    | inr f ↦ let o = sym (ap (λ z. if z then none else some (max ∷ [])) f) ∙ e in ground arith
  ]
  class_sizes-none (suc left) size e =
      let aligned = align_up word size 8 in
      let rest = class_sizes grow left max (grow aligned) in
      elim (Option-cases rest) [
        | inl r ↦ class_sizes-none left (grow aligned) r
        | inr (sizes, r) ↦ absurd (some_sizes (ltb 1 (max / size)) rest sizes r e)
      ]
    where
      some_sizes :
          (b : Bool) (o : Option (List ℕ)) (sizes : List ℕ)
          → o ≡ some sizes
          → (if b
              then elim o as (λ z. Option (List ℕ)) [
                | none ↦ none
                | some l ↦ some (align_up word size 8 ∷ l)
              ]
              else some (max ∷ []))
            ≡ none
          → ⊥
      some_sizes b none sizes r e = ground arith
      some_sizes true (some l) sizes r e = ground arith
      some_sizes false (some l) sizes r e = ground arith

default_grows : (n : ℕ) → 8 ≤ n → n < default_growth n
default_grows n h = omega arith

long_enough : 2 ^ 50 < after_steps default_growth 0 255 initial_size
long_enough = omega arith

-- With the growth factor 1.25 and pages of 96 bytes to less than 2 ^ 50, the numbers of the classes
-- never run out: the allocator is made, the sizes of its classes are strictly increasing from 96
-- on, all but the last are multiples of 8, and the last is that of a page.
pub new_allocator-Increasing :
    (limit max : ℕ) (has_erase_func : Bool)
    → 96 ≤ max
    → max < 2 ^ 50
    → (s : Allocator) × ((new_allocator default_growth limit max has_erase_func ≡ some s)
        × Increasing max 96 s.slab_class_sizes)
unfolding new_allocator
new_allocator-Increasing limit max has_erase_func h k =
    let o = class_sizes default_growth 255 max initial_size in
    let g =
      class_sizes-GoodSizes default_growth max 255 initial_size 96 default_grows (omega arith)
        (omega arith) (omega arith) h in
    elim (Option-cases o) [
      | inl e ↦
          let n = class_sizes-none default_growth max 255 initial_size e in
          absurd (omega (arith, n, k))
      | inr (sizes, e) ↦ (
        with_sizes has_erase_func limit max sizes,
        (rw (e, new_allocator) refl, subst (GoodSizes max 96) e g),
      )
    ]

-- The pages hold two objects of every class but the last one.
abbrev pub Roomy : ℕ → List ℕ → Type 0
Roomy max [] = Unit
Roomy max (x ∷ []) = Unit
Roomy max (x ∷ y ∷ xs) = (2 * x ≤ max) × Roomy max (y ∷ xs)

fits-Increasing :
    (max low : ℕ) (sizes : List ℕ) (c : ℕ)
    → 0 < low
    → Increasing max low sizes
    → Roomy max sizes
    → suc c < length sizes
    → (0 < get_or sizes c 0) × ((2 ≤ max / get_or sizes c 0) × (get_or sizes c 0 % 8 ≡ 0))
fits-Increasing max low [] c z h r l = absurd h
fits-Increasing max low (x ∷ []) c z h r l = absurd (omega (arith, l))
fits-Increasing max low (x ∷ y ∷ xs) zero z (h, (k, i)) (r, rs) l =
    let p : 0 < x = omega (arith, z, h) in (p, ((le-div_iff_mul-le p).1 r, k))
fits-Increasing max low (x ∷ y ∷ xs) (suc c) z (h, (k, i)) (r, rs) l =
    fits-Increasing max (x + 1) (y ∷ xs) c (omega arith) i rs (omega (arith, l))

-- An allocator with no pages is valid, when its classes are such.
pub with_sizes-IsValid :
    (limit max : ℕ) (has_erase_func : Bool) (sizes : List ℕ)
    → Increasing max 96 sizes
    → Roomy max sizes
    → IsValid (with_sizes has_erase_func limit max sizes)
with_sizes-IsValid limit max has_erase_func sizes h r = record {
  sized = λ c. refl;
  numbered = λ c. refl;
  fits = λ c l. fits-Increasing max 96 sizes c (omega arith) h r l;
  paged = λ i p e. ground arith;
  apart = λ i j p q e f n. ground arith;
  listing = λ c i. refl;
  single = λ c a. omega arith;
  held = λ c a k. absurd (omega (arith, k));
  aging = λ i. refl;
}
