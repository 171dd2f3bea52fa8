-- ===== src/Http.antt =====
-- include/HTTP/matcher.hh, matchrules.hh, routes.hh and `parameters` of common.hh: which handler a URL
-- has, and with which parameters. A string is the list of its bytes, a handler is of any type `H`, and
-- `none` is a null pointer, a position `npos`, or an exception that is thrown.
pub mod Strings
pub mod Remainder
pub mod Dispatch
mod Tests
use mseastar.Prelude.{
  ℕ, zero, suc, ◌+◌, ◌-◌, ◌%◌, ◌^◌, Bool, true, false, ◌&&◌, ◌||◌, Option, none, some, List, [],
  ◌∷◌, ◌++◌, ltb, leb, ◌==◌, if◌then◌else◌, length, take, drop, get_elem?,
}

abbrev pub Text : Type 0
Text = List ℕ

-- The number of values of `unsigned`
abbrev pub unsigned : ℕ
unsigned = 2 ^ 32

abbrev pub slash : ℕ
slash = 47

abbrev pub same_text : Text → Text → Bool
same_text [] [] = true
same_text [] (b ∷ t) = false
same_text (a ∷ s) [] = false
same_text (a ∷ s) (b ∷ t) = if a == b then same_text s t else false

-- `s` stands at the beginning of the other string.
abbrev pub starts_with : Text → Text → Bool
starts_with [] t = true
starts_with (a ∷ s) [] = false
starts_with (a ∷ s) (b ∷ t) = if b == a then starts_with s t else false

-- `parameters`: the names with their values
abbrev pub Parameters : Type 0
Parameters = List (Text × Text)

abbrev pub lookup : Text → List (Text × Text) → Option Text
lookup key [] = none
lookup key ((k, v) ∷ rest) = if same_text k key then some v else lookup key rest

-- `set`
abbrev pub set_param : Text → Text → Parameters → Parameters
set_param key value [] = (key, value) ∷ []
set_param key value ((k, v) ∷ rest) =
    if same_text k key then (k, value) ∷ rest else (k, v) ∷ set_param key value rest

-- `exists`
pub exists_param : Text → Parameters → Bool
exists_param key params = elim (lookup key params) [ none ↦ false | some v ↦ true ]

-- `operator[]`: the value without its first byte. Both `at` and `substr` may throw.
abbrev pub without_first : Text → Option Text
without_first [] = none
without_first (b ∷ t) = some t

unfoldable pub get_param : Text → Parameters → Option Text
get_param key params = elim (lookup key params) [ none ↦ none | some v ↦ without_first v ]

-- A matcher: a string, or a parameter of this name that takes all of the rest or stops at a slash.
pub data Matcher : Type 0 where
  str_matcher : Text → Matcher
  param_matcher : Text → Bool → Matcher

-- `find('/')` from the beginning of a string
abbrev pub find_slash : Text → Option ℕ
find_slash [] = none
find_slash (b ∷ t) =
    let rest = find_slash t in
    if b == slash then some 0 else elim rest [ none ↦ none | some n ↦ some (suc n) ]

unfoldable pub find_end_param : Text → ℕ → Bool → ℕ
find_end_param url ind entire_path =
    if entire_path
    then length url
    else elim (find_slash (drop (ind + 1) url)) [ none ↦ length url | some n ↦ ind + 1 + n ]

-- The byte at a position is a slash.
abbrev pub slash_at : Option ℕ → Bool
slash_at none = false
slash_at (some b) = b == slash

unfoldable pub match_at : Matcher → Text → ℕ → Parameters → Option ℕ × Parameters
match_at (str_matcher cmp) url ind params =
    let len = length cmp % unsigned in
    if (leb (len + ind) (length url) && starts_with cmp (drop ind url))
      && ((length url == len + ind) || slash_at (get_elem? url (len + ind)))
    then (some (len + ind), params)
    else (none, params)
match_at (param_matcher name entire_path) url ind params =
    let last = find_end_param url ind entire_path in
    if last == ind
    then if entire_path then (some ind, set_param name [] params) else (none, params)
    else (some last, set_param name (take (last - ind) (drop ind url)) params)

pub record MatchRule (H : Type 0) : Type 0 where
  pub match_list : List Matcher
  pub handler : Option H

-- The loop of `match_rule::get`
abbrev pub match_all : List Matcher → Text → ℕ → Parameters → Option ℕ × Parameters
match_all [] url ind params = (some ind, params)
match_all (m ∷ ms) url ind params = elim (match_at m url ind params).0 [
  | none ↦ (none, (match_at m url ind params).1)
  | some next ↦ match_all ms url next (match_at m url ind params).1
]

-- `OperationType`, without its number of values
pub data OperationType : Type 0 where
  get_request post_request put_request delete_request : OperationType

module _ {H : Type 0} where
  unfoldable pub get_rule : MatchRule H → Text → Parameters → Option H × Parameters
  get_rule rule url params =
      let r = match_all rule.match_list url 0 params in
      (
        elim r.0 [
          | none ↦ none
          | some ind ↦ if leb (length url) (ind + 1) then rule.handler else none
        ],
        r.1,
      )

  -- `add_str` and `add_param`, by `add_matcher`
  abbrev pub add_matcher : Matcher → MatchRule H → MatchRule H
  add_matcher m rule = record rule { match_list = rule.match_list ++ m ∷ [] }

-- `routes`: for each operation, the handlers of exact URLs and the rules.
pub record Routes (H : Type 0) : Type 0 where
  pub exact : OperationType → List (Text × Option H)
  pub rules : OperationType → List (MatchRule H)

abbrev pub same_operation : OperationType → OperationType → Bool
same_operation get_request get_request = true
same_operation post_request post_request = true
same_operation put_request put_request = true
same_operation delete_request delete_request = true
same_operation _ _ = false

module _ {H : Type 0} where
  abbrev pub find_exact : Text → List (Text × Option H) → Option H
  find_exact url [] = none
  find_exact url ((u, h) ∷ rest) = if same_text u url then h else find_exact url rest

  abbrev pub set_exact : Text → Option H → List (Text × Option H) → List (Text × Option H)
  set_exact url handler [] = (url, handler) ∷ []
  set_exact url handler ((u, h) ∷ rest) =
      if same_text u url then (u, handler) ∷ rest else (u, h) ∷ set_exact url handler rest

  unfoldable pub put : OperationType → Text → Option H → Routes H → Routes H
  put type url handler r = record r {
    exact = λ t. if same_operation t type then set_exact url handler (r.exact t) else r.exact t;
  }

  unfoldable pub add_rule : MatchRule H → OperationType → Routes H → Routes H
  add_rule rule type r = record r {
    rules = λ t. if same_operation t type then r.rules t ++ rule ∷ [] else r.rules t;
  }

  -- The rule that `add(type, url, handler)` adds for `url(path).remainder(param)`
  unfoldable pub url_rule : Text → Text → Option H → MatchRule H
  url_rule path param handler =
      let rule : MatchRule H =
        add_matcher (str_matcher path) (record { match_list = []; handler = handler }) in
      if same_text param [] then rule else add_matcher (param_matcher param true) rule

  pub add_url : OperationType → Text → Text → Option H → Routes H → Routes H
  add_url type path param handler r = add_rule (url_rule path param handler) type r

  unfoldable pub get_exact_match : OperationType → Text → Routes H → Option H
  get_exact_match type url r = find_exact url (r.exact type)

  -- The loop of `get_handler` over the rules
  abbrev pub try_rules : List (MatchRule H) → Text → Parameters → Option H × Parameters
  try_rules [] url params = (none, params)
  try_rules (rule ∷ rest) url params = elim (get_rule rule url params).0 [
    | some h ↦ (some h, (get_rule rule url params).1)
    | none ↦ try_rules rest url []
  ]

  unfoldable pub get_handler : OperationType → Text → Parameters → Routes H → Option H × Parameters
  get_handler type url params r = elim (get_exact_match type url r) [
    | some h ↦ (some h, params)
    | none ↦ try_rules (r.rules type) url params
  ]

-- `normalize_url`
abbrev pub last_byte : Text → Option ℕ
last_byte [] = none
last_byte (b ∷ []) = some b
last_byte (b ∷ c ∷ t) = last_byte (c ∷ t)

unfoldable pub normalize_url : Text → Text
normalize_url url =
    if ltb (length url) 2 || (if slash_at (last_byte url) then false else true)
    then url
    else take (length url - 1) url

-- `DELETE`, `POST` and `PUT`
unfoldable pub str2type : Text → OperationType
str2type type =
    if same_text type (68 ∷ 69 ∷ 76 ∷ 69 ∷ 84 ∷ 69 ∷ [])
    then delete_request
    else if same_text type (80 ∷ 79 ∷ 83 ∷ 84 ∷ [])
    then post_request
    else if same_text type (80 ∷ 85 ∷ 84 ∷ [])
    then put_request
    else get_request

-- The search at the beginning of `routes::handle`
unfoldable pub find_handler :
    {H : Type 0} → Text → Text → Parameters → Routes H → Option H × Parameters
find_handler method path params r = get_handler (str2type method) (normalize_url path) params r
