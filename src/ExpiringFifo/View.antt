-- ===== src/ExpiringFifo/View.antt =====
-- What a client of expiring_fifo.hh sees: the payloads that have not expired, oldest first.
use mseastar.Prelude.{
  ℕ, zero, suc, ◌+◌, ◌≤◌, ◌<◌, ◌≡◌, ◌↔◌, refl, ap, ◌∙◌, subst, inl, inr, Bool, true, false, Option,
  none, some, List, [], ◌∷◌, ◌++◌, arith, length, length-append, get_elem?, set, word, Option-cases,
  Bool-cases, ltb, word_add, word_sub,
}
use mseastar.ExpiringFifo.{
  Entry, Fifo, new, spent, drop_expired_front, empty, front, push_back, push_back_until, pop_front,
  expire, reserve, time_point_max, front_of, fire,
}
use mathlib.Core.List.{head?}

module _ {ℓ} {A : Type ℓ} where
  abbrev pub live : List (Entry A) → List A
  live [] = []
  live (e ∷ es) = elim e.payload [ none ↦ live es | some a ↦ a ∷ live es ]

  abbrev pub contents : Fifo A → List A
  contents f = live f.list

  -- The deque does not begin with an entry that has expired.
  abbrev pub is_front_live : List (Entry A) → Bool
  is_front_live [] = true
  is_front_live (e ∷ es) = elim e.payload [ none ↦ false | some a ↦ true ]

  -- `_size` counts the payloads that are left, and the front has one.
  pub record IsValid (f : Fifo A) : Type 0 where
    pub counted : f.size ≡ length (contents f)
    pub small : f.size < word
    pub front_live : is_front_live f.list ≡ true

  live-drop : (es : List (Entry A)) → live (drop_expired_front es) ≡ live es
  unfolding drop_expired_front
  live-drop [] = refl
  live-drop (e ∷ es) = ground (arith, live-drop es)

  pub length-live-le : (es : List (Entry A)) → length (live es) ≤ length es
  length-live-le [] = omega arith
  length-live-le (e ∷ es) = ground (arith, length-live-le es)

  drop_front_live : (es : List (Entry A)) → is_front_live (drop_expired_front es) ≡ true
  unfolding drop_expired_front
  drop_front_live [] = refl
  drop_front_live (e ∷ es) = ground (arith, drop_front_live es)

  live-append : (es ds : List (Entry A)) → live (es ++ ds) ≡ live es ++ live ds
  live-append [] ds = refl
  live-append (e ∷ es) ds = ground (arith, live-append es ds)

  front_live-append :
      (es : List (Entry A)) (e : Entry A) {a : A}
      → is_front_live es ≡ true
      → e.payload ≡ some a
      → is_front_live (es ++ e ∷ []) ≡ true
  front_live-append [] e h p = ground arith
  front_live-append (d ∷ es) e h p = ground arith

  -- What an entry that fires was: its payload's place among the payloads that are left.
  pub record Splits (es : List (Entry A)) (i : ℕ) (a : A) : Type ℓ where
    pub before : List A
    pub after : List A
    pub was : live es ≡ before ++ a ∷ after
    pub left : live (set es i spent) ≡ before ++ after

  split_at :
      (es : List (Entry A)) (i : ℕ) (e : Entry A) (a : A)
      → get_elem? es i ≡ some e
      → e.payload ≡ some a
      → Splits es i a
  split_at [] i e a h p = cc
  split_at (d ∷ es) zero e a h p = record {
    before = [];
    after = live es;
    was = ground arith;
    left = refl;
  }
  split_at (d ∷ es) (suc i) e a h p = elim (Option-cases d.payload) [
    | inl q ↦
        let r = split_at es i e a h p in
        record {
          before = r.before;
          after = r.after;
          was = ground (arith, r.was);
          left = ground (arith, r.left);
        }
    | inr (b, q) ↦
        let r = split_at es i e a h p in
        record {
          before = b ∷ r.before;
          after = r.after;
          was = ground (arith, r.was);
          left = ground (arith, r.left);
        }
  ]

  new-IsValid : IsValid (new {A = A})
  unfolding new
  new-IsValid = record { counted = refl; small = omega arith; front_live = refl }

  pub empty_iff : (f : Fifo A) → IsValid f → (empty f ≡ true) ↔ (contents f ≡ [])
  unfolding empty
  empty_iff f v = go (contents f) refl
    where
      go : (xs : List A) → contents f ≡ xs → (empty f ≡ true) ↔ (contents f ≡ [])
      go [] e = (λ h. e, λ h. ground (arith, v.counted, ap length h))
      go (x ∷ xs) e = (λ h. absurd (ground (arith, v.counted, ap length e)), λ h. absurd (cc))

  pub contents-push_back_until :
      (a : A) (t : ℕ) (f : Fifo A) → contents (push_back_until a t f) ≡ contents f ++ a ∷ []
  unfolding push_back_until push_back
  contents-push_back_until a t f = ground (
    arith,
    live-append f.list (record { payload = some a; timeout = none } ∷ []),
    live-append f.list (record { payload = some a; timeout = some t } ∷ []),
  )

  pub size-push_back_until :
      (a : A) (t : ℕ) (f : Fifo A) → (push_back_until a t f).size ≡ word_add f.size 1
  unfolding push_back_until push_back
  size-push_back_until a t f = ground arith

  pub push_back_until-IsValid :
      (a : A) (t : ℕ) (f : Fifo A) → IsValid f → f.size + 1 < word → IsValid (push_back_until a t f)
  unfolding push_back_until push_back
  push_back_until-IsValid a t f v h = elim (Bool-cases (ltb t time_point_max)) [
    | inl e ↦ rw e (record {
      counted = omega (
        arith,
        v.counted,
        ap length (live-append f.list (entry (some t))),
        length-append (contents f) (a ∷ []),
      );
      small = omega arith;
      front_live = front_live-append f.list _ v.front_live refl;
    })
    | inr e ↦ rw e (record {
      counted = omega (
        arith,
        v.counted,
        ap length (live-append f.list (entry none)),
        length-append (contents f) (a ∷ []),
      );
      small = omega arith;
      front_live = front_live-append f.list _ v.front_live refl;
    })
  ]
    where
      entry : Option ℕ → List (Entry A)
      entry o = record { payload = some a; timeout = o } ∷ []

  -- The payload in front is the oldest one.
  pub front-head? : (f : Fifo A) → IsValid f → front f ≡ head? (contents f)
  unfolding front
  front-head? f v = go f.list v.front_live
    where
      go : (es : List (Entry A)) → is_front_live es ≡ true → front_of es ≡ head? (live es)
      go [] h = refl
      go (e ∷ es) h = ground arith

  -- `pop_front` takes the oldest payload away.
  pub pop_front_lem :
      (f : Fifo A) (a : A) (rest : List A)
      → IsValid f
      → contents f ≡ a ∷ rest
      → (g : Fifo A) × (pop_front f ≡ some g)
        × (contents g ≡ rest)
        × IsValid g
        × (suc g.size ≡ f.size)
  unfolding pop_front
  pop_front_lem f a rest v h = go f.list refl
    where
      go :
          (es : List (Entry A))
          → f.list ≡ es
          → (g : Fifo A) × (pop_front f ≡ some g)
            × (contents g ≡ rest)
            × IsValid g
            × (suc g.size ≡ f.size)
      go [] e = absurd (ground (arith, ap live e))
      go (d ∷ es) e =
          let same : contents f ≡ live (d ∷ es) = ap live e in
          let d_live : is_front_live (d ∷ es) ≡ true =
            subst (λ l. is_front_live l ≡ true) e v.front_live in
          let tail_is : live es ≡ rest = ground (arith, d_live, same, h) in
          let left : live (drop_expired_front es) ≡ rest = live-drop es ∙ tail_is in
          let sized : f.size ≡ suc (length rest) = v.counted ∙ ap length h in
          (
            record { list = drop_expired_front es; size = word_sub f.size 1 },
            rw (e, pop_front),
            left,
            record {
              counted = omega (arith, sized, ap length left, v.small);
              small = omega arith;
              front_live = drop_front_live es;
            },
            omega (arith, sized, v.small),
          )

  -- What a timer that fires does: its entry's payload, and no other, leaves the queue.
  pub record Expires (f g : Fifo A) (a : A) : Type ℓ where
    pub before : List A
    pub after : List A
    pub was : contents f ≡ before ++ a ∷ after
    pub left : contents g ≡ before ++ after
    pub valid : IsValid g

  expired :
      (f : Fifo A) (i : ℕ) (a : A)
      → IsValid f
      → Splits f.list i a
      → Expires f
          (record { list = drop_expired_front (set f.list i spent); size = word_sub f.size 1 })
          a
  expired f i a v r = record {
    before = r.before;
    after = r.after;
    was = r.was;
    left = now_left;
    valid = record {
      counted = omega (
        arith,
        ap length now_left,
        v.counted,
        v.small,
        ap length r.was,
        length-append r.before r.after,
        length-append r.before (a ∷ r.after),
      );
      small = omega arith;
      front_live = drop_front_live (set f.list i spent);
    };
  }
    where
      now_left : live (drop_expired_front (set f.list i spent)) ≡ r.before ++ r.after
      now_left = live-drop (set f.list i spent) ∙ r.left

  -- Only an entry with an armed timer and a payload expires.
  expire_parts :
      (f : Fifo A) (i : ℕ) (a : A) (g : Fifo A)
      → expire i f ≡ some (a, g)
      → (d : Entry A) × (get_elem? f.list i ≡ some d)
        × (d.payload ≡ some a)
        × (g ≡ record { list = drop_expired_front (set f.list i spent); size = word_sub f.size 1 })
  unfolding expire fire
  expire_parts f i a g h = ground arith

  -- When the timer of an entry of a well-formed queue fires, exactly that entry's payload leaves
  -- the queue, the others keep their order, and the queue stays well formed: its front has a
  -- payload and its size counts the payloads.
  pub expire-Expires :
      (f : Fifo A) (i : ℕ) (a : A) (g : Fifo A)
      → IsValid f
      → expire i f ≡ some (a, g)
      → Expires f g a
  expire-Expires f i a g v h =
      let (d, at, p, e) = expire_parts f i a g h in
      rw e (expired f i a v (split_at f.list i d a at p))

  -- The entry in front expires: the queue goes on with the next one.
  pub expire_front :
      (f : Fifo A) (a b : A) (g : Fifo A) (rest : List A)
      → contents f ≡ b ∷ rest
      → expire 0 f ≡ some (a, g)
      → (a ≡ b) × (contents g ≡ rest)
  expire_front f a b g rest c h =
      let (d, at, p, e) = expire_parts f 0 a g h in
      let (same, left) = go f.list d a c at p in
      (same, ap contents e ∙ live-drop (set f.list 0 spent) ∙ left)
    where
      go :
          (es : List (Entry A)) (d : Entry A) (a : A)
          → live es ≡ b ∷ rest
          → get_elem? es 0 ≡ some d
          → d.payload ≡ some a
          → (a ≡ b) × (live (set es 0 spent) ≡ rest)
      go [] d a l at p = cc
      go (x ∷ es) d a l at p = (ground arith, ground arith)

  -- After `reserve` on an empty queue an entry that is pushed stands behind spent ones: the queue
  -- says that it is not empty, and its front has no payload.
  pub reserve-no_front :
      (n : ℕ) (a : A) (t : ℕ)
      → 0 < n
      → let f = push_back_until a t (reserve n new) in (empty f ≡ false) × (front f ≡ none)
  unfolding push_back_until reserve new empty front
  reserve-no_front zero a t h = absurd (omega arith)
  reserve-no_front (suc n) a t h = ground arith
