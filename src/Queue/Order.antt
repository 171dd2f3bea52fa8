-- ===== src/Queue/Order.antt =====
-- include/future/queue_.hh: which items come out of a `queue_`.
use mseastar.Prelude.{
  ◌≡◌, refl, ap, ◌∙◌, Bool, true, false, List, [], ◌∷◌, ◌++◌, if◌then◌else◌, Bool-cases, inl, inr,
}
use mseastar.Queue.{Queue, consume_loop, consume, full}

module _ {A : Type 0} where
  -- The items that `func` gets to see.
  abbrev pub seen : (A → Bool) → List A → List A
  seen func [] = []
  seen func (x ∷ xs) = let rest = seen func xs in if func x then x ∷ rest else x ∷ []

  abbrev pub all_accepted : (A → Bool) → List A → Bool
  all_accepted func [] = true
  all_accepted func (x ∷ xs) = let rest = all_accepted func xs in if func x then rest else false

  consume_loop_lem :
      (func : A → Bool) (xs : List A)
      → (seen func xs ++ (consume_loop func xs).0 ≡ xs)
        × ((consume_loop func xs).1 ≡ all_accepted func xs)
  consume_loop_lem func [] = (refl, refl)
  consume_loop_lem func (x ∷ xs) =
      let r = consume_loop_lem func xs in
      elim (Bool-cases (func x)) [
        | inl t ↦ rw t (ap (λ l. x ∷ l) r.0, r.1)
        | inr f ↦ rw f (refl, refl)
      ]

  consume-q :
      (func : A → Bool) (s : Queue A)
      → ((consume func s).0.0.q ≡ (consume_loop func s.q).0)
        × ((consume func s).1 ≡ (consume_loop func s.q).1)
  unfolding consume
  consume-q func s =
      let t = record s { q = (consume_loop func s.q).0 } in
      elim (Bool-cases (full t)) [ inl y ↦ rw y (refl, refl) | inr n ↦ rw n (refl, refl) ]

  -- `consume` gives its function the items from the front on, in their order, up to the first that the
  -- function refuses or to the last one. The others stay, and the result says whether none was refused.
  consume_lem :
      (func : A → Bool) (s : Queue A)
      → (seen func s.q ++ (consume func s).0.0.q ≡ s.q)
        × ((consume func s).1 ≡ all_accepted func s.q)
  consume_lem func s =
      let r = consume_loop_lem func s.q in
      let e = consume-q func s in (ap (λ l. seen func s.q ++ l) e.0 ∙ r.0, e.1 ∙ r.1)
