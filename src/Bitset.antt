-- ===== src/Bitset.antt =====
-- include/future/bitset.h: iteration over the bits that are set in a `std::bitset`.
-- A bitset is the list of its bits, the lowest first, so that `>>= n` drops bits from the list.
-- `set_iterator::_index` is kept plus one, so that the index -1 of the end is 0.
mod Tests
use mseastar.Prelude.{
  ℕ, zero, suc, ◌+◌, ◌-◌, ◌≤◌, ◌<◌, ◌≡◌, refl, ap, ap₂, ◌∙◌, Bool, true, false, ◌||◌, List, [], ◌∷◌,
  arith, drop, length, length-drop, get_or, sym, inl, inr, ◌==◌, if◌then◌else◌, Bool-cases,
}

unfoldable pub any : List Bool → Bool
any [] = false
any (b ∷ bs) = b || any bs

-- `count_trailing_zeros(bitset.to_ulong())`
pub get_first_set : List Bool → ℕ
get_first_set [] = 0
get_first_set (true ∷ bs) = 0
get_first_set (false ∷ bs) = suc (get_first_set bs)

-- `ulong_bits - 1 - count_leading_zeros(bitset.to_ulong())`: the place of the highest bit set. (With
-- no bit set the builtin is undefined, and this is 0.)
unfoldable pub get_last_set : List Bool → ℕ
unfolding any
get_last_set [] = 0
get_last_set (b ∷ bs) = let rest = get_last_set bs in if any bs then suc rest else 0

pub record SetIterator : Type 0 where
  pub bits : List Bool
  pub next_index : ℕ

pub advance : SetIterator → SetIterator
unfolding any get_first_set
advance it =
    if any it.bits
    then record {
      bits = drop (suc (get_first_set it.bits)) it.bits;
      next_index = it.next_index + (suc (get_first_set it.bits));
    }
    else record it { next_index = 0 }

-- `set_iterator(bitset, offset)`
pub begin_at : List Bool → ℕ → SetIterator
unfolding advance
begin_at bits offset = advance (record { bits = drop offset bits; next_index = offset })

-- The loop over a `set_range`: the indices that it yields before the iterator is the end.
pub collect : ℕ → SetIterator → List ℕ
unfolding advance
collect zero it = []
collect (suc fuel) it =
    let rest = collect fuel (advance it) in
    if it.next_index == 0 then [] else (it.next_index - 1) ∷ rest

-- `for (int i : for_each_set(bitset, offset))`. A step drops a bit, so one round more than there are
-- bits is enough.
unfoldable pub for_each_set : List Bool → ℕ → List ℕ
unfolding collect begin_at
for_each_set bits offset = collect (suc (length bits)) (begin_at bits offset)

-- The places of the bits that are set, in a list whose first bit has the place `k`.
abbrev pub places : ℕ → List Bool → List ℕ
places k [] = []
places k (b ∷ bs) = if b then k ∷ places (suc k) bs else places (suc k) bs

places-none : (k : ℕ) (bs : List Bool) → any bs ≡ false → places k bs ≡ []
unfolding any
places-none k [] h = refl
places-none k (true ∷ bs) h = cc
places-none k (false ∷ bs) h = places-none (suc k) bs h

places-first :
    (k : ℕ) (bs : List Bool)
    → any bs ≡ true
    → places k bs
      ≡ (k + get_first_set bs)
        ∷ places (k + suc (get_first_set bs)) (drop (suc (get_first_set bs)) bs)
unfolding any get_first_set
places-first k [] h = cc
places-first k (true ∷ bs) h = ap₂ (λ (x y : ℕ). x ∷ places y bs) (omega arith) (omega arith)
places-first k (false ∷ bs) h =
    places-first (suc k) bs h
    ∙ ap₂ (λ (x y : ℕ). x ∷ places y (drop (suc (get_first_set bs)) bs)) (omega arith) (omega arith)

length-drop-lt : (n : ℕ) (bs : List Bool) → any bs ≡ true → length (drop (suc n) bs) < length bs
unfolding any
length-drop-lt n [] h = cc
length-drop-lt n (b ∷ bs) h = omega (arith, length-drop n bs)

advance-any :
    (k : ℕ) (bs : List Bool)
    → any bs ≡ true
    → advance (record { bits = bs; next_index = k })
      ≡ record { bits = drop (suc (get_first_set bs)) bs; next_index = k + suc (get_first_set bs) }
unfolding advance
advance-any k bs h = rw h

advance-none :
    (k : ℕ) (bs : List Bool)
    → any bs ≡ false
    → advance (record { bits = bs; next_index = k }) ≡ record { bits = bs; next_index = 0 }
unfolding advance
advance-none k bs h = rw h

collect_end : (fuel : ℕ) (bs : List Bool) → collect fuel (record { bits = bs; next_index = 0 }) ≡ []
unfolding collect
collect_end zero bs = refl
collect_end (suc fuel) bs = refl

collect_step :
    (fuel k n : ℕ) (bs : List Bool)
    → collect (suc fuel) (record { bits = bs; next_index = k + suc n })
      ≡ (k + n) ∷ collect fuel (advance (record { bits = bs; next_index = k + suc n }))
unfolding collect
collect_step fuel k n bs = ground arith

collect-places :
    (fuel k : ℕ) (bs : List Bool)
    → length bs < fuel
    → collect fuel (advance (record { bits = bs; next_index = k })) ≡ places k bs
collect-places zero k bs h = absurd (omega arith)
collect-places (suc fuel) k bs h = elim (Bool-cases (any bs)) [
  | inl e ↦
      let rest = drop (suc (get_first_set bs)) bs in
      ap (collect (suc fuel)) (advance-any k bs e)
      ∙ collect_step fuel k (get_first_set bs) rest
      ∙ ap (λ l. (k + get_first_set bs) ∷ l)
          (collect-places fuel (k + suc (get_first_set bs)) rest
            (omega (arith, length-drop-lt (get_first_set bs) bs e)))
      ∙ sym (places-first k bs e)
  | inr e ↦
      ap (collect (suc fuel)) (advance-none k bs e)
      ∙ collect_end (suc fuel) bs
      ∙ sym (places-none k bs e)
]

-- The loop over for_each_set ends, and yields exactly the places of the bits that are set at the
-- offset and above, in rising order.
pub for_each_set-places :
    (bits : List Bool) (offset : ℕ) → for_each_set bits offset ≡ places offset (drop offset bits)
unfolding for_each_set begin_at
for_each_set-places bits offset =
    collect-places (suc (length bits)) offset (drop offset bits)
      (omega (arith, length-drop offset bits))

pub get_or-none : (bits : List Bool) (i : ℕ) → any bits ≡ false → get_or bits i false ≡ false
unfolding any
get_or-none [] i h = refl
get_or-none (b ∷ bs) zero h = ground arith
get_or-none (b ∷ bs) (suc i) h = get_or-none bs i (ground arith)

abbrev pub IsLast : List Bool → ℕ → Type 0
IsLast bits n = (get_or bits n false ≡ true) × ((i : ℕ) → n < i → get_or bits i false ≡ false)

IsLast-in_tail : (b : Bool) (bs : List Bool) (n : ℕ) → IsLast bs n → IsLast (b ∷ bs) (suc n)
IsLast-in_tail b bs n (at, above) = (at, higher)
  where
    higher : (i : ℕ) → suc n < i → get_or (b ∷ bs) i false ≡ false
    higher zero lt = absurd (omega arith)
    higher (suc i) lt = above i (omega arith)

IsLast-at_head : (bs : List Bool) → any bs ≡ false → IsLast (true ∷ bs) 0
IsLast-at_head bs h = (refl, higher)
  where
    higher : (i : ℕ) → 0 < i → get_or (true ∷ bs) i false ≡ false
    higher zero lt = absurd (omega arith)
    higher (suc i) lt = get_or-none bs i h

-- Where any bit is set, the last one is, and no bit above it.
pub get_last_set-IsLast : (bits : List Bool) → any bits ≡ true → IsLast bits (get_last_set bits)
unfolding get_last_set any
get_last_set-IsLast [] h = cc
get_last_set-IsLast (b ∷ bs) h = elim (Bool-cases (any bs)) [
  | inl e ↦ rw e (IsLast-in_tail b bs (get_last_set bs) (get_last_set-IsLast bs e))
  | inr e ↦ let head : b ≡ true = ground arith in rw (e, head) (IsLast-at_head bs e)
]
