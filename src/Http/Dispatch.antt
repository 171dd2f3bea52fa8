-- ===== src/Http/Dispatch.antt =====
-- include/HTTP/routes.hh: the order in which a URL is looked for.
use mseastar.Prelude.{
  ◌≡◌, refl, sym, ap, ◌∙◌, subst, Bool, true, false, Option, none, some, List, [], ◌∷◌, ◌++◌, arith,
  if◌then◌else◌, Bool-cases, Option-cases, inl, inr,
}
use mseastar.Http.{
  Text, Parameters, same_text, MatchRule, OperationType, same_operation, get_request, post_request,
  put_request, delete_request, Routes, get_rule, find_exact, set_exact, put, add_rule,
  get_exact_match, try_rules, get_handler,
}
use mseastar.Http.Strings.{same_text_refl}

same_operation_refl : (t : OperationType) → same_operation t t ≡ true
same_operation_refl get_request = refl
same_operation_refl post_request = refl
same_operation_refl put_request = refl
same_operation_refl delete_request = refl

module _ {H : Type 0} where
  find_exact-set :
      (url : Text) (h : Option H) (l : List (Text × Option H))
      → find_exact url (set_exact url h l) ≡ h
  find_exact-set url h [] = rw (same_text_refl url) refl
  find_exact-set url h ((u, g) ∷ rest) = elim (Bool-cases (same_text u url)) [
    | inl t ↦ rw (t, t) refl
    | inr f ↦ rw (f, f) (find_exact-set url h rest)
  ]

  -- The handler that was put last for exactly this URL has it, whatever the rules; the parameters are
  -- left as they are.
  pub get_handler-put :
      (type : OperationType) (url : Text) (h : H) (params : Parameters) (r : Routes H)
      → get_handler type url params (put type url (some h) r) ≡ (some h, params)
  unfolding get_handler get_exact_match put
  get_handler-put type url h params r =
      rw (same_operation_refl type, get_handler)
        (rw (find_exact-set url (some h) (r.exact type), get_handler) refl)

  try_rules-append :
      (rules : List (MatchRule H)) (rule : MatchRule H) (url : Text) (params : Parameters) (h : H)
      → (try_rules rules url params).0 ≡ some h
      → try_rules (rules ++ rule ∷ []) url params ≡ try_rules rules url params
  try_rules-append [] rule url params h e = ground arith
  try_rules-append (q ∷ rules) rule url params h e = elim (Option-cases (get_rule q url params).0) [
    | inl n ↦
        let k : (try_rules rules url []).0 ≡ some h =
          subst
            (λ o.
              (elim o as (λ x. Option H × Parameters) [
                | some g ↦ (some g, (get_rule q url params).1)
                | none ↦ try_rules rules url []
              ]).0
              ≡ some h)
            n e in
        rw (n, try_rules) (try_rules-append rules rule url [] h k)
    | inr (g, s) ↦ rw (s, try_rules) refl
  ]

  -- What is found exactly, or else by the rules.
  found_or : Option H → Parameters → Option H × Parameters → Option H × Parameters
  found_or (some h) params r = (some h, params)
  found_or none params r = r

  found_or-same :
      (o : Option H) (params : Parameters) (x y : Option H × Parameters) (h : H)
      → (found_or o params x).0 ≡ some h
      → (x.0 ≡ some h → y ≡ x)
      → found_or o params y ≡ found_or o params x
  unfolding found_or
  found_or-same (some g) params x y h e f = refl
  found_or-same none params x y h e f = f e

  get_handler-found_or :
      (type : OperationType) (url : Text) (params : Parameters) (r : Routes H)
      → get_handler type url params r
        ≡ found_or (get_exact_match type url r) params (try_rules (r.rules type) url params)
  unfolding get_handler found_or
  get_handler-found_or type url params r = split (get_exact_match type url r)
    where
      split :
          (o : Option H)
          → (elim o as (λ x. Option H × Parameters) [
            | some h ↦ (some h, params)
            | none ↦ try_rules (r.rules type) url params
          ])
            ≡ found_or o params (try_rules (r.rules type) url params)
      split (some h) = refl
      split none = refl

  -- A rule that is added, for any operation, changes neither the handler nor the parameters of a
  -- URL that has a handler already.
  pub get_handler-add_rule :
      (type t : OperationType) (rule : MatchRule H) (url : Text) (params : Parameters)
      (r : Routes H) (h : H)
      → (get_handler type url params r).0 ≡ some h
      → get_handler type url params (add_rule rule t r) ≡ get_handler type url params r
  unfolding get_exact_match add_rule
  get_handler-add_rule type t rule url params r h e =
      let found = get_handler-found_or type url params r in
      get_handler-found_or type url params (add_rule rule t r)
      ∙ found_or-same (get_exact_match type url r) params (try_rules (r.rules type) url params)
          (try_rules (if same_operation type t then r.rules type ++ rule ∷ [] else r.rules type) url
            params)
          h (sym (ap (λ x. x.0) found) ∙ e) (λ k. same (same_operation type t) k)
      ∙ sym found
    where
      same :
          (b : Bool)
          → (try_rules (r.rules type) url params).0 ≡ some h
          → try_rules (if b then r.rules type ++ rule ∷ [] else r.rules type) url params
            ≡ try_rules (r.rules type) url params
      same true k = try_rules-append (r.rules type) rule url params h k
      same false k = refl
