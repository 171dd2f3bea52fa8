-- ===== src/Http/Tests.antt =====
-- include/HTTP/routes.hh and include/HTTP/common.hh: examples.
use mseastar.Prelude.{ℕ, ◌≡◌, ◌≢◌, ◌⊎◌, ◌<◌, refl, ap, none, some, [], ◌∷◌, ◌++◌, arith, length}
use mseastar.Http.{
  Text, slash, unsigned, set_param, get_param, get_request, Routes, get_rule, url_rule, put,
  add_rule, get_handler, find_handler, str2type, post_request, match_at, find_end_param,
  get_exact_match, normalize_url,
}
use mseastar.Http.Strings.{Rest}
use mseastar.Http.Remainder.{get_rule-url_rule, get_param-empty}

-- `/api` and `p`
abbrev api : Text
api = slash ∷ 97 ∷ 112 ∷ 105 ∷ []

abbrev name : Text
name = 112 ∷ []

name_empty : name ≢ []
name_empty e = let q = ap length e in ground (arith, q)

api_short : length api < unsigned
api_short = ground arith

-- A handler
abbrev seven : ℕ
seven = 7

-- `/api/x`, and `/apix`
abbrev below : Text
below = api ++ slash ∷ 120 ∷ []

abbrev other : Text
other = api ++ 120 ∷ []

get_rule-url_rule_example :
    ((rest : Text) × ((below ≡ api ++ rest)
        × (Rest rest
            × (get_rule (url_rule api name (some seven)) below []
                ≡ (some seven, set_param name rest [])))))
    ⊎ (((rest : Text) → below ≡ api ++ rest → Rest rest → ⊥)
        × (get_rule (url_rule api name (some seven)) below [] ≡ (none, [])))
get_rule-url_rule_example = get_rule-url_rule api name below seven [] name_empty api_short

get_param-empty_example :
    ((get_rule (url_rule api name (some seven)) api []).0 ≡ some seven)
    × (get_param name (get_rule (url_rule api name (some seven)) api []).1 ≡ none)
get_param-empty_example = get_param-empty api name seven [] name_empty api_short

abbrev no_routes : Routes ℕ
no_routes = record { exact = λ t. []; rules = λ t. [] }

abbrev with_api : Routes ℕ
with_api =
    add_rule (url_rule api name (some 7)) get_request (put get_request other (some 3) no_routes)

with_api_found : (get_handler get_request below [] with_api).0 ≡ some 7
unfolding get_handler get_rule add_rule put url_rule match_at find_end_param get_exact_match
with_api_found = refl

get_handler_exact : get_handler get_request other [] with_api ≡ (some 3, [])
unfolding get_handler get_exact_match add_rule put
get_handler_exact = refl

get_rule-other : get_rule (url_rule api name (some seven)) other [] ≡ (none, [])
unfolding get_rule match_at url_rule find_end_param
get_rule-other = refl

normalize_url_root : normalize_url (slash ∷ []) ≡ slash ∷ []
unfolding normalize_url
normalize_url_root = refl

normalize_url_below : normalize_url (api ++ slash ∷ []) ≡ api
unfolding normalize_url
normalize_url_below = refl

-- `POST /api/`: a slash at the end is dropped, and the parameter of the rule is empty.
find_handler-slash :
    find_handler
      (80 ∷ 79 ∷ 83 ∷ 84 ∷ [])
      (api ++ slash ∷ [])
      []
      (add_rule (url_rule api name (some seven)) post_request no_routes)
    ≡ (some seven, set_param name [] [])
unfolding find_handler str2type get_handler get_exact_match normalize_url add_rule url_rule get_rule
    match_at find_end_param
find_handler-slash = refl
