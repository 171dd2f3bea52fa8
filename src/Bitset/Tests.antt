-- ===== src/Bitset/Tests.antt =====
-- Runs of the iteration.
use mseastar.Prelude.{◌≡◌, refl, true, false, [], ◌∷◌}
use mseastar.Bitset.{for_each_set, get_last_set, places, for_each_set-places}

walk : for_each_set (true ∷ false ∷ true ∷ true ∷ false ∷ []) 1 ≡ 2 ∷ 3 ∷ []
unfolding for_each_set
walk = refl

last : get_last_set (true ∷ false ∷ true ∷ false ∷ []) ≡ 2
unfolding get_last_set
last = refl

for_each_set-places_example :
    for_each_set (true ∷ false ∷ true ∷ []) 1 ≡ places 1 (false ∷ true ∷ [])
for_each_set-places_example = for_each_set-places (true ∷ false ∷ true ∷ []) 1
