-- ===== src/TimerSet/Index.antt =====
-- Which bucket `timer_set::get_index` gives: that of the highest bit in which a timestamp differs
-- from `_last`.
use Prim.Native.Nat.{bit_xor}
use native.Mathlib.Nat.{pow-suc}
use mseastar.Bits.{
  shr, shr-suc, shr_mono, shr-small, shr-bit_xor, bit_xor-zero, bit_xor_self, count_leading_zeros,
  count_leading_zeros-Top,
}
use mseastar.Prelude.{
  ℕ, zero, suc, ◌+◌, ◌-◌, ◌/◌, ◌^◌, ◌≤◌, ◌<◌, ◌≡◌, ◌≢◌, sym, ap, ◌∙◌, subst, Bool-cases, ltb,
  ltb→lt, ◌==◌, inl, inr, arith, leb, refl, some, true,
}
use mseastar.TimerSet.{get_index, checked_index}

-- The highest bit in which `a` and `b` differ.
abbrev pub At : ℕ → ℕ → ℕ → Type 0
At a b k = (shr a k ≢ shr b k) × (shr a (suc k) ≡ shr b (suc k))

-- Above a common shift, numbers stay together.
shr_agree : (a b d k : ℕ) → shr a k ≡ shr b k → shr a (k + d) ≡ shr b (k + d)
shr_agree a b zero k h = let e : k ≡ k + 0 = omega arith in subst (λ (j : ℕ). shr a j ≡ shr b j) e h
shr_agree a b (suc d) k h =
    let e : suc k + d ≡ k + suc d = omega arith in
    subst (λ (j : ℕ). shr a j ≡ shr b j) e
      (shr_agree a b d (suc k) (omega (arith, h, shr-suc a k, shr-suc b k)))

pub shr_agree-le : (a b k j : ℕ) → k ≤ j → shr a k ≡ shr b k → shr a j ≡ shr b j
shr_agree-le a b k j le h =
    let e : k + (j - k) ≡ j = omega arith in
    subst (λ (i : ℕ). shr a i ≡ shr b i) e (shr_agree a b (j - k) k h)

-- A number that is not below another is not below it when both are shifted.
pub shr-lt : (a b k : ℕ) → shr a k < shr b k → a < b
shr-lt a b k h = elim (Bool-cases (ltb a b)) [
  | inl e ↦ ltb→lt a b e
  | inr e ↦ absurd (omega (arith, h, shr_mono b a k (ground arith)))
]

At-unique : (a b j k : ℕ) → At a b j → At a b k → j ≡ k
At-unique a b j k p q = elim (Bool-cases (ltb j k)) [
  | inl e ↦ absurd (q.0 (shr_agree-le a b (suc j) k (ground arith) p.1))
  | inr e ↦ elim (Bool-cases (ltb k j)) [
    | inl d ↦ absurd (p.0 (shr_agree-le a b (suc k) j (ground arith) q.1))
    | inr d ↦ ground arith
  ]
]

xor_nonzero : (a b k : ℕ) → shr (bit_xor a b) k ≢ 0 → shr a k ≢ shr b k
xor_nonzero a b k h e =
    h (shr-bit_xor a b k ∙ ap (λ x. bit_xor x (shr b k)) e ∙ bit_xor_self (shr b k))

xor_zero : (a b k : ℕ) → shr (bit_xor a b) k ≡ 0 → shr a k ≡ shr b k
xor_zero a b k h = bit_xor-zero (shr a k) (shr b k) (sym (shr-bit_xor a b k) ∙ h)

-- The words of 63 bits differ, if at all, below bit 63.
agree_top : (a b : ℕ) → a < 2 ^ 63 → b < 2 ^ 63 → shr a 63 ≡ shr b 63
agree_top a b p q = shr-small 63 a p ∙ sym (shr-small 63 b q)

-- Where two numbers agree at a shift, some bit below it is the highest in which they differ.
highest : (k a b : ℕ) → a ≢ b → shr a k ≡ shr b k → (j : ℕ) × (j < k) × At a b j
highest zero a b ne h = absurd (ne h)
highest (suc k) a b ne h = elim (Bool-cases (shr a k == shr b k)) [
  | inl e ↦ let (j, lt, at) = highest k a b ne (ground arith) in (j, omega arith, at)
  | inr e ↦ (k, omega arith, (λ same. absurd (ground arith), h))
]

xor_small : (a b : ℕ) → a < 2 ^ 63 → b < 2 ^ 63 → shr (bit_xor a b) 63 ≡ 0
xor_small a b p q =
    shr-bit_xor a b 63
    ∙ ap (λ x. bit_xor x (shr b 63)) (agree_top a b p q)
    ∙ bit_xor_self (shr b 63)

small_of_shr : (k x : ℕ) → shr x k ≡ 0 → x < 2 ^ k
small_of_shr zero x h = omega arith
small_of_shr (suc k) x h = omega (arith, small_of_shr k (x / 2) h, pow-suc 2 k)

-- A timestamp after `last` goes to the bucket of the highest bit in which they differ.
pub get_index-At :
    (last t k : ℕ) → t < 2 ^ 63 → last < t → At t last k → (k < 63) × (get_index last t + k ≡ 62)
unfolding get_index
get_index-At last t k small later at =
    let (b, lt, top, sum) =
      count_leading_zeros-Top (bit_xor t last) (λ e. absurd (omega (arith, bit_xor-zero t last e)))
        xor_bound in
    let same : b ≡ k =
      At-unique t last b k (xor_nonzero t last b top.0, xor_zero t last (suc b) top.1) at in
    (omega arith, ground arith)
  where
    xor_bound : bit_xor t last < 2 ^ 63
    xor_bound = small_of_shr 63 (bit_xor t last) (xor_small t last small (omega arith))

pub get_index-late : (last t : ℕ) → t ≤ last → get_index last t ≡ 63
unfolding get_index
get_index-late last t h = ground arith

differs : (last t : ℕ) → t < 2 ^ 63 → last < t → (k : ℕ) × (k < 63) × At t last k
differs last t small later =
    highest 63 t last (λ e. absurd (omega arith)) (agree_top t last small (omega arith))

-- Bounds: a bucket below 64, and for a timestamp after `last` below 63, as the source asserts.
pub get_index_bounds :
    (last t : ℕ) → t < 2 ^ 63 → (get_index last t ≤ 63) × (last < t → get_index last t < 63)
get_index_bounds last t small = elim (Bool-cases (leb t last)) [
  | inl e ↦
      let at : get_index last t ≡ 63 = get_index-late last t (ground arith) in
      (omega (arith, at), λ later. absurd (ground arith))
  | inr e ↦
      let later : last < t = ground arith in
      let (k, lt, at) = differs last t small later in
      let (_, sum) = get_index-At last t k small later at in
      (omega (arith, sum), λ _. omega (arith, sum))
]

-- The assertion of `get_index` holds for every timestamp below 2 ^ 63.
pub checked_index-some : (last t : ℕ) → t < 2 ^ 63 → checked_index last t ≡ some (get_index last t)
unfolding checked_index get_index
checked_index-some last t small = elim (Bool-cases (leb t last)) [
  | inl e ↦ rw e refl
  | inr e ↦
      let later : last < t = ground arith in
      let k = (get_index_bounds last t small).1 later in
      let same : get_index last t ≡ count_leading_zeros (bit_xor t last) = rw e refl in
      let y : ltb (count_leading_zeros (bit_xor t last)) 63 ≡ true = ground (arith, k, same) in
      rw e (rw y refl)
]

differs-At :
    (last t : ℕ) → t < 2 ^ 63 → last < t → (k : ℕ) × At t last k × (get_index last t + k ≡ 62)
differs-At last t small later =
    let (k, lt, at) = differs last t small later in
    (k, at, (get_index-At last t k small later at).1)

-- Of two timestamps after `last`, the one in the higher bucket comes first.
pub sooner :
    (last a b : ℕ)
    → a < 2 ^ 63
    → b < 2 ^ 63
    → last < a
    → get_index last a < get_index last b
    → b < a
sooner last a b p q later lt = elim (Bool-cases (leb b last)) [
  | inl e ↦ ground arith
  | inr e ↦
      let (k, at, sk) = differs-At last a p later in
      let (j, bt, sj) = differs-At last b q (ground arith) in
      let same : shr b k ≡ shr last k =
        shr_agree-le b last (suc j) k (omega (arith, sk, sj)) bt.1 in
      shr-lt b a k (omega (arith, same, shr_mono last a k (omega arith), ne k at.0 same))
]
  where
    ne : (k : ℕ) → (shr a k ≢ shr last k) → shr b k ≡ shr last k → shr a k ≢ shr b k
    ne k h e d = h (d ∙ e)

-- What `expire` relies on when `_last` moves from `last` to `now`. A timer in a lower bucket than
-- `now` stays in its bucket, ...
pub rebase_far :
    (last now t : ℕ)
    → t < 2 ^ 63
    → last ≤ now
    → now < t
    → get_index last t < get_index last now
    → get_index now t ≡ get_index last t
rebase_far last now t small le later far = elim (Bool-cases (leb now last)) [
  | inl e ↦ let same : now ≡ last = ground arith in ap (λ l. get_index l t) same
  | inr e ↦
      let (k, at, sk) = differs-At last t small (omega arith) in
      let (j, nt, sj) = differs-At last now (omega arith) (ground arith) in
      let here : shr now k ≡ shr last k =
        shr_agree-le now last (suc j) k (omega (arith, sk, sj)) nt.1 in
      let above : shr now (suc k) ≡ shr last (suc k) =
        shr_agree-le now last (suc j) (suc k) (omega (arith, sk, sj)) nt.1 in
      let at' : At t now k = (λ d. at.0 (d ∙ here), at.1 ∙ sym above) in
      omega (arith, sk, (get_index-At now t k small later at').1)
]

bits_agree :
    (t now last k : ℕ) → last < now → last < t → At t last k → At now last k → shr t k ≡ shr now k
bits_agree t now last k p q a b = omega (
  arith,
  shr-suc t k,
  shr-suc now k,
  shr-suc last k,
  a.1,
  b.1,
  a.0,
  b.0,
  shr_mono last now k (omega arith),
  shr_mono last t k (omega arith),
)

-- ... and one in the same bucket as `now` moves to a higher one.
pub rebase_near :
    (last now t : ℕ)
    → t < 2 ^ 63
    → last ≤ now
    → now < t
    → get_index last t ≡ get_index last now
    → get_index last now < get_index now t
rebase_near last now t small le later near = elim (Bool-cases (leb now last)) [
  | inl e ↦ absurd (
      omega (
        arith,
        near,
        get_index-late last now (ground arith),
        (get_index_bounds last t small).1 (omega arith),
      ))
  | inr e ↦
      let (k, at, sk) = differs-At last t small (omega arith) in
      let (j, nt, sj) = differs-At last now (omega arith) (ground arith) in
      let jk : j ≡ k = omega (arith, sk, sj, near) in
      let nk : At now last k = subst (At now last) jk nt in
      let (i, lt, it) =
        highest k t now (λ d. absurd (omega arith))
          (bits_agree t now last k (ground arith) (omega arith) at nk) in
      omega (arith, (get_index-At now t i small later it).1, sj, jk)
]

-- A timer in a higher bucket than `now` has expired.
pub expired_above :
    (last now t : ℕ)
    → t < 2 ^ 63
    → now < 2 ^ 63
    → last ≤ now
    → get_index last now < get_index last t
    → t ≤ now
expired_above last now t small small' le h = elim (Bool-cases (leb now last)) [
  | inl e ↦
      absurd
        (omega (arith, get_index-late last now (ground arith), (get_index_bounds last t small).0))
  | inr e ↦ omega (arith, sooner last now t small' small (ground arith) h)
]
