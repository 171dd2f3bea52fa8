-- ===== src/TimerSet/Tests.antt =====
-- Runs of the timer set, and its theorems at concrete inputs.
use mathlib.Core.Option.{map as option_map}
use mseastar.Prelude.{ℕ, ◌+◌, ◌^◌, ◌≡◌, refl, none, some, List, [], ◌∷◌, arith, min, ltb}
use mseastar.TimerSet.{
  Timer, TimerSet, init, insert, expire, get_index, get_next_timeout, size, splice, drain, finish,
  settle_next, sizes,
}
use mseastar.Bits.{count_leading_zeros}
use mseastar.Bitset.{any, get_last_set, for_each_set}
use mseastar.TimerSet.Inv.{Inv, init-Inv, one_if, count, insert_lem}
use mseastar.TimerSet.Expire.{Expired, expire_lem}

abbrev soon : Timer
soon = record { id = 1; timeout = 1000 }

abbrev late : Timer
late = record { id = 2; timeout = 5_000_000 }

abbrev two : TimerSet
two = (insert late (insert soon init).0).0

two-Inv : Inv two
two-Inv =
    (insert_lem late (insert soon init).0 (omega arith)
      (insert_lem soon init (omega arith) init-Inv).0).0

expire_splits :
    option_map {B = List Timer × ℕ × ℕ}
      (λ (p : TimerSet × List Timer). (p.1, get_next_timeout p.0, size p.0))
      (expire 4_999_999 two)
    ≡ some (soon ∷ [], 5_000_000, 1)
unfolding expire get_next_timeout size init insert get_index count_leading_zeros splice drain finish
    settle_next any get_last_set for_each_set sizes
expire_splits = refl

bucket_numbers :
    ◌≡◌ {A = ℕ × ℕ × ℕ} (get_index 0 1, get_index 0 (2 ^ 62), get_index 4 4) (62, 0, 63)
unfolding get_index count_leading_zeros
bucket_numbers = refl

insert_lem_example :
    Inv (insert soon init).0
    × ((u : Timer) → count u (insert soon init).0 ≡ count u init + one_if u soon)
    × ((insert soon init).0.next ≡ min 1000 init.next)
    × ((insert soon init).1 ≡ ltb 1000 init.next)
insert_lem_example = insert_lem soon init (omega arith) init-Inv

expire_lem_example :
    (t : TimerSet) × (exp : List Timer) × (expire 4_999_999 two ≡ some (t, exp))
    × Expired 4_999_999 two t exp
unfolding insert init
expire_lem_example = expire_lem 4_999_999 two two-Inv (omega arith) (omega arith)

-- What is left of the set when the first timer has expired.
abbrev left : TimerSet × List Timer
left = elim (expire 4_999_999 two) [ none ↦ (init, []) | some r ↦ r ]
