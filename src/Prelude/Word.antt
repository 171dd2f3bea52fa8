-- ===== src/Prelude/Word.antt =====
-- `size_t`, `uint64_t` and the bits of an `ssize_t`: arithmetic modulo 2 ^ 64.
use Prim.Native.Nat.{ℕ, ◌+◌, ◌-◌, ◌%◌, ◌^◌, ◌<◌, ◌≤◌}
use mathlib.Core.Path.{◌≡◌}
use native.Mathlib.Omega.{arith}

abbrev pub word : ℕ
word = 2 ^ 64

abbrev pub word_add : ℕ → ℕ → ℕ
word_add a b = (a + b) % word

-- `-` on ℕ stops at 0, so the modulus is added first.
abbrev pub word_sub : ℕ → ℕ → ℕ
word_sub a b = (a + word - b) % word

pub word_add-eq : (a b : ℕ) → a + b < word → word_add a b ≡ a + b
word_add-eq a b h = omega arith

pub word_sub-eq : (a b : ℕ) → a < word → b ≤ a → word_sub a b ≡ a - b
word_sub-eq a b h k = omega arith
