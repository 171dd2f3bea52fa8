-- ===== src/Http/Remainder.antt =====
-- include/HTTP/routes.hh: the rule of `url(path).remainder(param)`.
use mseastar.Prelude.{
  ℕ, suc, ◌+◌, ◌-◌, ◌%◌, ◌<◌, ◌≡◌, ◌≢◌, ◌⊎◌, refl, sym, ap, ap₂, ◌∙◌, Bool, true, false, ◌&&◌, ◌||◌,
  Option, none, some, List, [], ◌∷◌, ◌++◌, arith, leb, ◌==◌, if◌then◌else◌, length, take, drop,
  get_elem?, length-append, append-nil, Bool-cases, inl, inr,
}
use mseastar.Http.{
  Text, Parameters, unsigned, slash, same_text, starts_with, set_param, lookup, get_param, Matcher,
  str_matcher, param_matcher, find_end_param, slash_at, match_at, match_all, MatchRule, get_rule,
  url_rule,
}
use mseastar.Http.Strings.{
  same_text_refl, starts_with-append, starts_with-split, drop-length, take-length, Rest,
  get_elem?-length,
}

-- The string stands in the URL from the place on, and the URL ends behind it or goes on with a slash.
abbrev pub fits_at : Text → Text → Bool
fits_at path url =
    (leb (length path + 0) (length url) && starts_with path (drop 0 url))
    && ((length url == length path + 0) || slash_at (get_elem? url (length path + 0)))

fits_at-append : (path rest : Text) → Rest rest → fits_at path (path ++ rest) ≡ true
fits_at-append path rest h =
    let n = length-append path rest in
    let e : length path + 0 ≡ length path = omega arith in
    let l : leb (length path + 0) (length (path ++ rest)) ≡ true = ground (arith, n) in
    let s = starts_with-append path rest in rw (l, s) (ends rest h n)
  where
    ends :
        (rest : Text)
        → Rest rest
        → length (path ++ rest) ≡ length path + length rest
        → ((length (path ++ rest) == length path + 0)
            || slash_at (get_elem? (path ++ rest) (length path + 0)))
          ≡ true
    ends [] h n =
        let t : (length (path ++ []) == length path + 0) ≡ true = ground (arith, n) in rw t refl
    ends (b ∷ t) h n =
        let e : length path + 0 ≡ length path = omega arith in
        let f : (length (path ++ b ∷ t) == length path + 0) ≡ false = ground (arith, n) in
        let y : (b == slash) ≡ true = ground (arith, h) in
        let g : slash_at (get_elem? (path ++ b ∷ t) (length path + 0)) ≡ true =
          ap (λ m. slash_at (get_elem? (path ++ b ∷ t) m)) e
          ∙ ap slash_at (get_elem?-length path (b ∷ t))
          ∙ y in
        rw (f, g) refl

fits_at-Rest :
    (path url : Text) → fits_at path url ≡ true → (rest : Text) × ((url ≡ path ++ rest) × Rest rest)
fits_at-Rest path url h =
    let (l, (s, e)) = parts (leb (length path + 0) (length url)) (starts_with path url) _ h in
    let q = starts_with-split path url s in
    (drop (length path) url, (q, rest_of (drop (length path) url) q e))
  where
    parts : (a b c : Bool) → (a && b && c) ≡ true → (a ≡ true) × ((b ≡ true) × (c ≡ true))
    parts true true true h = (refl, (refl, refl))
    parts true true false h = ground arith
    parts true false c h = ground arith
    parts false b c h = ground arith

    rest_of :
        (rest : Text)
        → url ≡ path ++ rest
        → ((length url == length path + 0) || slash_at (get_elem? url (length path + 0))) ≡ true
        → Rest rest
    rest_of [] q e = tt
    rest_of (b ∷ t) q e =
        let n : length url ≡ length path + suc (length t) =
          ap length q ∙ length-append path (b ∷ t) in
        let f : (length url == length path + 0) ≡ false = ground (arith, n) in
        let z : length path + 0 ≡ length path = omega arith in
        let w : slash_at (get_elem? url (length path + 0)) ≡ true =
          ap (λ x. x || slash_at (get_elem? url (length path + 0))) (sym f) ∙ e in
        let v : slash_at (get_elem? url (length path + 0)) ≡ (b == slash) =
          ap₂ (λ u m. slash_at (get_elem? u m)) q z ∙ ap slash_at (get_elem?-length path (b ∷ t)) in
        ground (arith, v, w)

-- What the loop over the matchers does with a matcher's answer.
abbrev next_match : List Matcher → Text → Option ℕ × Parameters → Option ℕ × Parameters
next_match ms url r = elim r.0 [ none ↦ (none, r.1) | some next ↦ match_all ms url next r.1 ]

-- One matcher after the other.
match_all-cons :
    (m : Matcher) (ms : List Matcher) (url : Text) (ind j : ℕ) (params q : Parameters)
    → match_at m url ind params ≡ (some j, q)
    → match_all (m ∷ ms) url ind params ≡ match_all ms url j q
match_all-cons m ms url ind j params q e = ap (next_match ms url) e

match_all-fails :
    (m : Matcher) (ms : List Matcher) (url : Text) (ind : ℕ) (params q : Parameters)
    → match_at m url ind params ≡ (none, q)
    → match_all (m ∷ ms) url ind params ≡ (none, q)
match_all-fails m ms url ind params q e = ap (next_match ms url) e

match_str-fits :
    (path url : Text) (params : Parameters)
    → length path < unsigned
    → match_at (str_matcher path) url 0 params
      ≡ (if fits_at path url then (some (length path + 0), params) else (none, params))
unfolding match_at
match_str-fits path url params l =
    let m : length path % unsigned ≡ length path = omega (arith, l) in
    ap
      (λ n.
        if (leb (n + 0) (length url) && starts_with path (drop 0 url))
          && ((length url == n + 0) || slash_at (get_elem? url (n + 0)))
        then (some (n + 0), params)
        else (none, params))
      m

match_str :
    (path rest : Text) (params : Parameters)
    → length path < unsigned
    → Rest rest
    → match_at (str_matcher path) (path ++ rest) 0 params ≡ (some (length path), params)
match_str path rest params l h =
    let e : length path + 0 ≡ length path = omega arith in
    match_str-fits path (path ++ rest) params l
    ∙ rw (fits_at-append path rest h) (ap (λ n. (some n, params)) e)

match_str-none :
    (path url : Text) (params : Parameters)
    → length path < unsigned
    → fits_at path url ≡ false
    → match_at (str_matcher path) url 0 params ≡ (none, params)
match_str-none path url params l h = match_str-fits path url params l ∙ rw h refl

match_entire :
    (name path rest : Text) (params : Parameters)
    → match_at (param_matcher name true) (path ++ rest) (length path) params
      ≡ (some (length (path ++ rest)), set_param name rest params)
unfolding match_at find_end_param
match_entire name path [] params =
    let n : length (path ++ []) ≡ length path = ap length (append-nil path) in
    let t : (length (path ++ []) == length path) ≡ true = ground (arith, n) in
    rw t (ap (λ m. (some m, set_param name [] params)) (sym n))
match_entire name path (b ∷ rest) params =
    let n = length-append path (b ∷ rest) in
    let f : (length (path ++ b ∷ rest) == length path) ≡ false = ground (arith, n) in
    let k : length (path ++ b ∷ rest) - length path ≡ length (b ∷ rest) = omega (arith, n) in
    rw f (
      ap₂ (λ m u. (some (length (path ++ b ∷ rest)), set_param name (take m u) params)) k
        (drop-length path (b ∷ rest))
      ∙ ap (λ u. (some (length (path ++ b ∷ rest)), set_param name u params))
          (take-length (b ∷ rest)))

lookup-set :
    (key value : Text) (params : Parameters) → lookup key (set_param key value params) ≡ some value
lookup-set key value [] = rw (same_text_refl key) refl
lookup-set key value ((k, v) ∷ rest) = elim (Bool-cases (same_text k key)) [
  | inl t ↦ rw (t, t) refl
  | inr f ↦ rw (f, f) (lookup-set key value rest)
]

module _ {H : Type 0} where
  get_rule-all :
      (rule : MatchRule H) (url : Text) (params q : Parameters)
      → match_all rule.match_list url 0 params ≡ (some (length url), q)
      → get_rule rule url params ≡ (rule.handler, q)
  unfolding get_rule
  get_rule-all rule url params q e =
      let t : leb (length url) (length url + 1) ≡ true = ground arith in
      rw (e, get_rule) (rw t refl)

  get_rule-fails :
      (rule : MatchRule H) (url : Text) (params q : Parameters)
      → match_all rule.match_list url 0 params ≡ (none, q)
      → get_rule rule url params ≡ (none, q)
  unfolding get_rule
  get_rule-fails rule url params q e = rw (e, get_rule) refl

  url_rule-list :
      (path param : Text) (h : Option H)
      → param ≢ []
      → url_rule path param h
        ≡ record { match_list = str_matcher path ∷ param_matcher param true ∷ []; handler = h }
  unfolding url_rule
  url_rule-list path [] h n = absurd (n refl)
  url_rule-list path (p ∷ param) h n = refl

  -- A URL that is the path and then nothing, or something that begins with a slash, has the handler; the
  -- parameter is what follows the path.
  pub get_rule-append :
      (path param rest : Text) (h : H) (params : Parameters)
      → param ≢ []
      → length path < unsigned
      → Rest rest
      → get_rule (url_rule path param (some h)) (path ++ rest) params
        ≡ (some h, set_param param rest params)
  get_rule-append path param rest h params n l r =
      ap (λ rule. get_rule rule (path ++ rest) params) (url_rule-list path param (some h) n)
      ∙ get_rule-all
          (record {
            match_list = str_matcher path ∷ param_matcher param true ∷ [];
            handler = some h;
          })
          (path ++ rest) params (set_param param rest params)
          (match_all-cons (str_matcher path) (param_matcher param true ∷ []) (path ++ rest) 0
              (length path) params params (match_str path rest params l r)
            ∙ match_all-cons (param_matcher param true) [] (path ++ rest) (length path)
                (length (path ++ rest)) params (set_param param rest params)
                (match_entire param path rest params))

  -- The rule that is added for `url(path).remainder(param)`, with a name and a path below 2 ^ 32
  -- bytes, matches a URL exactly when it is the path and then nothing, or something that begins
  -- with a slash: then the rule gives its handler, and what follows the path is the value of the
  -- parameter; otherwise it gives none and leaves the parameters as they are.
  pub get_rule-url_rule :
      (path param url : Text) (h : H) (params : Parameters)
      → param ≢ []
      → length path < unsigned
      → ((rest : Text) × ((url ≡ path ++ rest)
            × (Rest rest
                × (get_rule (url_rule path param (some h)) url params
                    ≡ (some h, set_param param rest params)))))
        ⊎ (((rest : Text) → url ≡ path ++ rest → Rest rest → ⊥)
            × (get_rule (url_rule path param (some h)) url params ≡ (none, params)))
  get_rule-url_rule path param url h params n l = elim (Bool-cases (fits_at path url)) [
    | inl t ↦
        let (rest, (q, r)) = fits_at-Rest path url t in
        inl (
          rest,
          (
            q,
            (
              r,
              ap (λ u. get_rule (url_rule path param (some h)) u params) q
                  ∙ get_rule-append path param rest h params n l r,
            ),
          ),
        )
    | inr f ↦ inr (
      λ rest q r.
          let y : fits_at path url ≡ true = ap (fits_at path) q ∙ fits_at-append path rest r in
          ground arith,
      ap (λ rule. get_rule rule url params) (url_rule-list path param (some h) n)
          ∙ get_rule-fails
              (record {
                match_list = str_matcher path ∷ param_matcher param true ∷ [];
                handler = some h;
              })
              url params params
              (match_all-fails (str_matcher path) (param_matcher param true ∷ []) url 0 params
                params (match_str-none path url params l f)),
    )
  ]

  -- The rule that is added for `url(path).remainder(param)`, with a name and a path below 2 ^ 32
  -- bytes, gives its handler for the URL that is just the path, and reading the parameter by `[]`
  -- then throws.
  pub get_param-empty :
      (path param : Text) (h : H) (params : Parameters)
      → param ≢ []
      → length path < unsigned
      → ((get_rule (url_rule path param (some h)) path params).0 ≡ some h)
        × (get_param param (get_rule (url_rule path param (some h)) path params).1 ≡ none)
  unfolding get_param
  get_param-empty path param h params n l =
      let e : get_rule (url_rule path param (some h)) path params
          ≡ (some h, set_param param [] params) =
        ap (λ u. get_rule (url_rule path param (some h)) u params) (sym (append-nil path))
        ∙ get_rule-append path param [] h params n l tt in
      (
        ap (λ r. r.0) e,
        ap (λ r. get_param param r.1) e ∙ (rw (lookup-set param [] params, get_param) refl),
      )
