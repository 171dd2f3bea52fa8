-- ===== src/Packet/Bytes.antt =====
-- include/future/packet.hh: the bytes of a packet, and which of them stand at an offset.
use mseastar.Prelude.{
  ℕ, zero, suc, ◌+◌, ◌-◌, ◌≤◌, ◌≡◌, refl, ap, ap₂, ◌∙◌, true, some, List, [], ◌∷◌, ◌++◌, arith, leb,
  ◌==◌, length, take, drop, length-append, Bool-cases, inl, inr,
}
use mseastar.Packet.{Memory, Fragment, sum_sizes, skip}

-- The bytes from an address on.
abbrev pub bytes_at : Memory → ℕ → ℕ → List ℕ
bytes_at mem base zero = []
bytes_at mem base (suc n) = mem base ∷ bytes_at mem (base + 1) n

abbrev pub bytes : Memory → List Fragment → List ℕ
bytes mem [] = []
bytes mem (f ∷ fs) = bytes_at mem f.base f.size ++ bytes mem fs

module _ (mem : Memory) where
  pub length-bytes_at : (base n : ℕ) → length (bytes_at mem base n) ≡ n
  length-bytes_at base zero = refl
  length-bytes_at base (suc n) = ap suc (length-bytes_at (base + 1) n)

  pub length-bytes : (fs : List Fragment) → length (bytes mem fs) ≡ sum_sizes fs
  length-bytes [] = refl
  length-bytes (f ∷ fs) = omega (
    arith,
    length-append (bytes_at mem f.base f.size) (bytes mem fs),
    length-bytes_at f.base f.size,
    length-bytes fs,
  )

  pub drop-bytes_at :
      (k base n : ℕ) → k ≤ n → drop k (bytes_at mem base n) ≡ bytes_at mem (base + k) (n - k)
  drop-bytes_at zero base n h = ap₂ (bytes_at mem) (omega arith) (omega arith)
  drop-bytes_at (suc k) base zero h = absurd (omega (arith, h))
  drop-bytes_at (suc k) base (suc n) h =
      drop-bytes_at k (base + 1) n (omega (arith, h))
      ∙ ap₂ (bytes_at mem) (omega arith) (omega arith)

  pub take-bytes_at : (k base n : ℕ) → k ≤ n → take k (bytes_at mem base n) ≡ bytes_at mem base k
  take-bytes_at zero base n h = refl
  take-bytes_at (suc k) base zero h = absurd (omega (arith, h))
  take-bytes_at (suc k) base (suc n) h =
      ap (λ l. mem base ∷ l) (take-bytes_at k (base + 1) n (omega (arith, h)))

module _ {A : Type 0} where
  pub drop-append_below :
      (n : ℕ) (xs ys : List A) → n ≤ length xs → drop n (xs ++ ys) ≡ drop n xs ++ ys
  drop-append_below zero xs ys h = refl
  drop-append_below (suc n) [] ys h = absurd (omega (arith, h))
  drop-append_below (suc n) (x ∷ xs) ys h = drop-append_below n xs ys (omega (arith, h))

  pub drop-append_above :
      (n : ℕ) (xs ys : List A) → length xs ≤ n → drop n (xs ++ ys) ≡ drop (n - length xs) ys
  drop-append_above n [] ys h = ap (λ m. drop m ys) (omega arith)
  drop-append_above zero (x ∷ xs) ys h = absurd (omega (arith, h))
  drop-append_above (suc n) (x ∷ xs) ys h =
      drop-append_above n xs ys (omega (arith, h)) ∙ ap (λ m. drop m ys) (omega arith)

  pub take-append_below : (n : ℕ) (xs ys : List A) → n ≤ length xs → take n (xs ++ ys) ≡ take n xs
  take-append_below zero xs ys h = refl
  take-append_below (suc n) [] ys h = absurd (omega (arith, h))
  take-append_below (suc n) (x ∷ xs) ys h =
      ap (λ l. x ∷ l) (take-append_below n xs ys (omega (arith, h)))

  pub take-append_above :
      (n : ℕ) (xs ys : List A) → length xs ≤ n → take n (xs ++ ys) ≡ xs ++ take (n - length xs) ys
  take-append_above n [] ys h = ap (λ m. take m ys) (omega arith)
  take-append_above zero (x ∷ xs) ys h = absurd (omega (arith, h))
  take-append_above (suc n) (x ∷ xs) ys h =
      ap (λ l. x ∷ l)
        (take-append_above n xs ys (omega (arith, h)) ∙ ap (λ m. xs ++ take m ys) (omega arith))

abbrev pub first_size : List Fragment → ℕ
first_size [] = 0
first_size (f ∷ fs) = f.size

-- The loop over the fragments before an offset finds where it is.
pub skip-lem :
    (mem : Memory) (k : ℕ) (fs : List Fragment)
    → k ≤ sum_sizes fs
    → (gs : List Fragment) × ((r : ℕ) × ((skip k fs ≡ some (gs, r))
          × ((r ≤ first_size gs)
              × ((drop k (bytes mem fs) ≡ drop r (bytes mem gs))
                  × (sum_sizes gs + k ≡ sum_sizes fs + r)))))
skip-lem mem k [] h =
    let z : (k == 0) ≡ true = ground arith in
    let e : k ≡ 0 = omega arith in
    ([], (0, (rw z refl, (omega arith, (ap (λ n. drop n []) e, omega (arith, e))))))
skip-lem mem k (f ∷ fs) h = elim (Bool-cases (k == 0)) [
  | inl z ↦
      let e : k ≡ 0 = ground arith in
      (
        f ∷ fs,
        (
          0,
          (rw z refl, (omega arith, (ap (λ n. drop n (bytes mem (f ∷ fs))) e, omega (arith, e)))),
        ),
      )
  | inr z ↦ elim (Bool-cases (leb f.size k)) [
    | inl y ↦
        let l : f.size ≤ k = ground arith in
        let (gs, (r, (e, (m, (q, s))))) = skip-lem mem (k - f.size) fs (omega (arith, h)) in
        let w = length-bytes_at mem f.base f.size in
        (
          gs,
          (
            r,
            (
              rw (z, y) e,
              (
                m,
                (
                  drop-append_above k (bytes_at mem f.base f.size) (bytes mem fs)
                        (omega (arith, w, l))
                      ∙ ap (λ n. drop (k - n) (bytes mem fs)) w
                      ∙ q,
                  omega (arith, s, l),
                ),
              ),
            ),
          ),
        )
    | inr y ↦
        let l : k ≤ f.size = ground arith in (f ∷ fs, (k, (rw (z, y) refl, (l, (refl, refl)))))
  ]
]
