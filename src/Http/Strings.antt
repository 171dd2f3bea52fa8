-- ===== src/Http/Strings.antt =====
-- include/HTTP/matcher.hh: strings that begin with a string.
use mseastar.Prelude.{
  ℕ, ◌≡◌, refl, sym, ap, ap₂, ◌∙◌, true, false, Option, none, some, [], ◌∷◌, ◌++◌, arith, ◌==◌,
  if◌then◌else◌, length, take, drop, get_elem?, Bool-cases, inl, inr,
}
use mseastar.Http.{Text, slash, same_text, starts_with}

pub same_text_refl : (s : Text) → same_text s s ≡ true
same_text_refl [] = refl
same_text_refl (a ∷ s) = let t : (a == a) ≡ true = ground arith in rw t (same_text_refl s)

pub starts_with-append : (s t : Text) → starts_with s (s ++ t) ≡ true
starts_with-append [] t = refl
starts_with-append (a ∷ s) t =
    let y : (a == a) ≡ true = ground arith in rw y (starts_with-append s t)

pub starts_with-split : (s u : Text) → starts_with s u ≡ true → u ≡ s ++ drop (length s) u
starts_with-split [] u h = refl
starts_with-split (a ∷ s) [] h = ground arith
starts_with-split (a ∷ s) (b ∷ u) h = elim (Bool-cases (b == a)) [
  | inl t ↦
      let q : b ≡ a = ground arith in
      let g : starts_with s u ≡ true = ap (λ z. if z then starts_with s u else false) (sym t) ∙ h in
      ap₂ (λ x y. x ∷ y) q (starts_with-split s u g)
  | inr f ↦
      let g : false ≡ true = ap (λ z. if z then starts_with s u else false) (sym f) ∙ h in
      ground arith
]

pub drop-length : (s t : Text) → drop (length s) (s ++ t) ≡ t
drop-length [] t = refl
drop-length (a ∷ s) t = drop-length s t

pub take-length : (t : Text) → take (length t) t ≡ t
take-length [] = refl
take-length (a ∷ t) = ap (λ u. a ∷ u) (take-length t)

-- The string ends, or goes on with a slash.
abbrev pub Rest : Text → Type 0
Rest [] = Unit
Rest (b ∷ t) = b ≡ slash

abbrev pub first_of : Text → Option ℕ
first_of [] = none
first_of (b ∷ t) = some b

pub get_elem?-length : (s t : Text) → get_elem? (s ++ t) (length s) ≡ first_of t
get_elem?-length [] [] = refl
get_elem?-length [] (b ∷ t) = refl
get_elem?-length (a ∷ s) t = get_elem?-length s t
