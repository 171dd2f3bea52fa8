-- ===== src/Memcache/Allocator/Sizes.antt =====
-- include/memcached/slab.hh: `get_slab_class` of a size.
use mseastar.Prelude.{
  ℕ, zero, suc, ◌≤◌, ◌<◌, ◌≡◌, refl, ap, Bool, true, false, none, some, List, [], ◌∷◌, arith, ltb,
  ◌==◌, if◌then◌else◌, get_or, length, Bool-cases, inl, inr,
}
use mseastar.Memcache.Allocator.{Allocator, lower_bound, class_for}
use mseastar.Memcache.Allocator.Inv.{object_size}

lower_bound-fits :
    (xs : List ℕ) (n : ℕ) → lower_bound xs n < length xs → n ≤ get_or xs (lower_bound xs n) 0
lower_bound-fits [] n h = absurd (omega (arith, h))
lower_bound-fits (x ∷ xs) n h = elim (Bool-cases (ltb x n)) [
  | inl t ↦ rw t (lower_bound-fits xs n (below (lower_bound xs n) (ltb x n) t h))
  | inr f ↦ rw f (ground arith)
]
  where
    below :
        (k : ℕ) (b : Bool) → b ≡ true → (if b then suc k else 0) < suc (length xs) → k < length xs
    below k true e h = omega (arith, h)
    below k false e h = ground arith

lower_bound-less : (xs : List ℕ) (n k : ℕ) → k < lower_bound xs n → get_or xs k 0 < n
lower_bound-less [] n k h = absurd (omega (arith, h))
lower_bound-less (x ∷ xs) n k h = go k (ltb x n) refl (λ j l. lower_bound-less xs n j l) h
  where
    go :
        (k : ℕ) (b : Bool)
        → ltb x n ≡ b
        → ((j : ℕ) → j < lower_bound xs n → get_or xs j 0 < n)
        → k < (if b then suc (lower_bound xs n) else 0)
        → get_or (x ∷ xs) k 0 < n
    go zero true e r h = ground arith
    go (suc k) true e r h = r k (omega (arith, h))
    go k false e r h = absurd (omega (arith, h))

lower_bound-least :
    (xs : List ℕ) (n k : ℕ) → k < length xs → n ≤ get_or xs k 0 → lower_bound xs n ≤ k
lower_bound-least [] n k h e = absurd (omega (arith, h))
lower_bound-least (x ∷ xs) n zero h e = elim (Bool-cases (ltb x n)) [
  | inl t ↦ absurd (ground arith)
  | inr f ↦ rw f (omega arith)
]
lower_bound-least (x ∷ xs) n (suc k) h e = elim (Bool-cases (ltb x n)) [
  | inl t ↦ let r = lower_bound-least xs n k (omega (arith, h)) e in rw t (omega (arith, r))
  | inr f ↦ rw f (omega arith)
]

-- The smallest class that is large enough.
pub record Smallest (s : Allocator) (size c : ℕ) : Type 0 where
  pub known : c < length s.slab_class_sizes
  pub fits : size ≤ object_size s c
  pub smaller : (d : ℕ) → d < c → object_size s d < size

-- When a class is large enough, `get_slab_class` finds the smallest such class.
pub class_for-Smallest :
    (s : Allocator) (size k : ℕ)
    → k < length s.slab_class_sizes
    → size ≤ object_size s k
    → (c : ℕ) × ((class_for size s ≡ some c) × (Smallest s size c × (c ≤ k)))
unfolding class_for
class_for-Smallest s size k h e =
    let xs = s.slab_class_sizes in
    let l = lower_bound-least xs size k h e in
    let b : lower_bound xs size < length xs = omega arith in
    let n : (lower_bound xs size == length xs) ≡ false = ground arith in
    (
      lower_bound xs size,
      (
        rw n refl,
        (
          record {
            known = b;
            fits = lower_bound-fits xs size b;
            smaller = λ d. lower_bound-less xs size d;
          },
          l,
        ),
      ),
    )

-- When none is, it finds none.
pub class_for-none :
    (s : Allocator) (size : ℕ)
    → ((c : ℕ) → c < length s.slab_class_sizes → object_size s c < size)
    → class_for size s ≡ none
unfolding class_for
class_for-none s size h =
    let e : lower_bound s.slab_class_sizes size ≡ length s.slab_class_sizes =
      all s.slab_class_sizes h in
    let y : (lower_bound s.slab_class_sizes size == length s.slab_class_sizes) ≡ true =
      ground arith in
    rw y refl
  where
    all :
        (xs : List ℕ)
        → ((c : ℕ) → c < length xs → get_or xs c 0 < size)
        → lower_bound xs size ≡ length xs
    all [] f = refl
    all (x ∷ xs) f =
        let z : ltb x size ≡ true = let l = f 0 (omega arith) in ground arith in
        rw z (ap suc (all xs (λ c l. f (suc c) (omega (arith, l)))))
