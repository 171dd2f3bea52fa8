-- ===== src/Bits.antt =====
-- Shifts, `^` and `__builtin_clzl` on 64-bit words, and the highest bit in which two words differ.
-- include/future/bitset.h: `count_leading_zeros`.
use Prim.Native.Nat.{bit_xor, digits, bit_xor-bitwise, differ}
use native.Mathlib.Nat.{pow-suc, pow-le-pow_right, le_trans}
use mseastar.Prelude.{
  ℕ, zero, suc, ◌+◌, ◌-◌, ◌*◌, ◌/◌, ◌%◌, ◌^◌, ◌≤◌, ◌<◌, ◌≡◌, ◌≢◌, refl, sym, ap, ◌∙◌, inl, inr,
  arith, ◌==◌, if◌then◌else◌, Bool-cases, ltb, ltb→lt,
}

-- x >> k
abbrev pub shr : ℕ → ℕ → ℕ
shr x zero = x
shr x (suc k) = shr (x / 2) k

pub shr-suc : (x k : ℕ) → shr x (suc k) ≡ shr x k / 2
shr-suc x zero = refl
shr-suc x (suc k) = shr-suc (x / 2) k

pub shr_mono : (a b k : ℕ) → a ≤ b → shr a k ≤ shr b k
shr_mono a b zero h = h
shr_mono a b (suc k) h = shr_mono (a / 2) (b / 2) k (omega arith)

pub shr-small : (k x : ℕ) → x < 2 ^ k → shr x k ≡ 0
shr-small zero x h = omega arith
shr-small (suc k) x h = shr-small k (x / 2) (omega (arith, pow-suc 2 k))

abbrev xor_digits : ℕ → ℕ → ℕ → ℕ
xor_digits n a b = digits (λ b. b) differ n a b

xor_digits_fuel : (n m a b : ℕ) → a ≤ n → a ≤ m → xor_digits n a b ≡ xor_digits m a b
xor_digits_fuel zero zero a b p q = refl
xor_digits_fuel zero (suc m) zero b p q = refl
xor_digits_fuel zero (suc m) (suc a) b p q = absurd (omega arith)
xor_digits_fuel (suc n) zero zero b p q = refl
xor_digits_fuel (suc n) zero (suc a) b p q = absurd (omega arith)
xor_digits_fuel (suc n) (suc m) zero b p q = refl
xor_digits_fuel (suc n) (suc m) (suc a) b p q =
    omega (arith, xor_digits_fuel n m (suc a / 2) (b / 2) (omega arith) (omega arith))

zero-bit_xor : (b : ℕ) → bit_xor 0 b ≡ b
zero-bit_xor b = bit_xor-bitwise 0 b

pub bit_xor_step : (a b : ℕ) → bit_xor a b ≡ bit_xor (a / 2) (b / 2) * 2 + differ (a % 2) (b % 2)
bit_xor_step zero b = omega (arith, zero-bit_xor b, zero-bit_xor (b / 2))
bit_xor_step (suc a) b = omega (
  arith,
  bit_xor-bitwise (suc a) b,
  bit_xor-bitwise (suc a / 2) (b / 2),
  xor_digits_fuel a (suc a / 2) (suc a / 2) (b / 2) (omega arith) (omega arith),
)

differ-lt : (x y : ℕ) → x < 2 → y < 2 → differ x y < 2
differ-lt zero y h k = k
differ-lt (suc x) zero h k = h
differ-lt (suc x) (suc y) h k = differ-lt x y (omega arith) (omega arith)

differ-zero : (x y : ℕ) → differ x y ≡ 0 → x ≡ y
differ-zero zero y h = sym h
differ-zero (suc x) zero h = h
differ-zero (suc x) (suc y) h = ap suc (differ-zero x y h)

differ_self : (x : ℕ) → differ x x ≡ 0
differ_self zero = refl
differ_self (suc x) = differ_self x

half-bit_xor : (a b : ℕ) → bit_xor a b / 2 ≡ bit_xor (a / 2) (b / 2)
half-bit_xor a b =
    omega (arith, bit_xor_step a b, differ-lt (a % 2) (b % 2) (omega arith) (omega arith))

pub shr-bit_xor : (a b k : ℕ) → shr (bit_xor a b) k ≡ bit_xor (shr a k) (shr b k)
shr-bit_xor a b zero = refl
shr-bit_xor a b (suc k) = ap (λ x. shr x k) (half-bit_xor a b) ∙ shr-bit_xor (a / 2) (b / 2) k

bit_xor-zero_fuel : (n a b : ℕ) → a ≤ n → b ≤ n → bit_xor a b ≡ 0 → a ≡ b
bit_xor-zero_fuel zero a b p q h = omega arith
bit_xor-zero_fuel (suc n) a b p q h = omega (
  arith,
  bit_xor-zero_fuel n (a / 2) (b / 2) (omega arith) (omega arith) (omega (arith, bit_xor_step a b)),
  differ-zero (a % 2) (b % 2) (omega (arith, bit_xor_step a b)),
)

pub bit_xor-zero : (a b : ℕ) → bit_xor a b ≡ 0 → a ≡ b
bit_xor-zero a b = bit_xor-zero_fuel (a + b) a b (omega arith) (omega arith)

bit_xor_self_fuel : (n a : ℕ) → a ≤ n → bit_xor a a ≡ 0
bit_xor_self_fuel zero zero h = refl
bit_xor_self_fuel zero (suc a) h = absurd (omega arith)
bit_xor_self_fuel (suc n) zero h = refl
bit_xor_self_fuel (suc n) (suc a) h = omega (
  arith,
  bit_xor_step (suc a) (suc a),
  bit_xor_self_fuel n (suc a / 2) (omega arith),
  differ_self (suc a % 2),
)

pub bit_xor_self : (a : ℕ) → bit_xor a a ≡ 0
bit_xor_self a = bit_xor_self_fuel a a (omega arith)

-- The number of leading zeros of a word of `w` bits; `__builtin_clzl` is that of 64 bits. (At 0 the
-- builtin is undefined, and this is 64.)
pub clz : ℕ → ℕ → ℕ
clz zero x = 0
clz (suc w) x = let rest = clz w x in if shr x w == 0 then suc rest else 0

-- `count_leading_zeros<long>`
unfoldable pub count_leading_zeros : ℕ → ℕ
unfolding clz
count_leading_zeros value = clz 64 value - 1

-- The highest bit of `x`.
abbrev pub Top : ℕ → ℕ → Type 0
Top x b = (shr x b ≢ 0) × (shr x (suc b) ≡ 0)

pub clz-Top : (w x : ℕ) → x ≢ 0 → shr x w ≡ 0 → (b : ℕ) × (b < w) × Top x b × (clz w x + b + 1 ≡ w)
unfolding clz
clz-Top zero x h z = absurd (h z)
clz-Top (suc w) x h z = elim (Bool-cases (shr x w == 0)) [
  | inl e ↦
      let (b, lt, top, sum) = clz-Top w x h (ground arith) in
      (b, omega arith, top, ground (arith, sum))
  | inr e ↦ (w, omega arith, (λ k. absurd (ground arith), z), ground arith)
]

-- For a word below 2 ^ 63 that is not 0 the highest bit is 62 minus the count.
pub count_leading_zeros-Top :
    (x : ℕ) → x ≢ 0 → x < 2 ^ 63 → (b : ℕ) × (b < 63) × Top x b × (count_leading_zeros x + b ≡ 62)
unfolding count_leading_zeros
count_leading_zeros-Top x h small =
    let (b, lt, top, sum) = clz-Top 64 x h (shr-small 64 x (omega arith)) in
    (b, below b top, top, omega (arith, sum, below b top))
  where
    below : (b : ℕ) → Top x b → b < 63
    below b top = elim (Bool-cases (ltb b 63)) [
      | inl e ↦ ltb→lt b 63 e
      | inr e ↦ absurd (top.0 (zero_above b (ground arith)))
    ]
      where
        zero_above : (b : ℕ) → 63 ≤ b → shr x b ≡ 0
        zero_above b le =
            shr-small b x
              (le_trans small (pow-le-pow_right {n = 2} (omega arith) {i = 63} {j = b} le))
