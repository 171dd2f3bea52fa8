-- ===== src/Queue/Wakeup.antt =====
-- include/future/queue_.hh: whom a `queue_` wakes.
use mseastar.Prelude.{
  ℕ, suc, ◌≤◌, ◌≡◌, refl, sym, ap, subst, Bool, true, none, some, List, [], ◌∷◌, ◌++◌, arith, ltb,
  ◌==◌, if◌then◌else◌, length, length-append, Bool-cases, inl, inr,
}
use mseastar.Queue.Ops.{
  Op, push_item, pushed_later, pop_item, pop_later, popped_later, consume_items, wait_not_empty,
  wait_not_full, push_later, resize, abort_with, outcome, later, later-popped, resume_pop-or,
  perform, step, run, is_set,
}
use mseastar.Queue.{
  pop_eventually, resume_pop, Queue, resolved, full, empty, is_empty, enqueue, notify_not_full,
  push, pop, take_front, consume, consume_loop, not_empty_future, not_full_future, set_max_size,
  abort, push_eventually, resume_push,
}

module _ {A : Type 0} where
  -- Nobody waits for what is there already: a reader waits of an empty queue only, and a writer of a
  -- full one.
  abbrev pub IsSettled : Queue A → Type 0
  IsSettled s =
      (is_set s.not_empty ≡ true → is_empty s.q ≡ true)
      × (is_set s.not_full ≡ true → s.max ≤ length s.q)

  enqueue-IsSettled : (a : A) (s : Queue A) → IsSettled s → IsSettled (enqueue a s).0
  enqueue-IsSettled a s h = (
    λ e. ground arith,
    λ e. let k = h.1 e in let l = length-append s.q (a ∷ []) in omega (arith, k, l),
  )

  push-IsSettled : (a : A) (s : Queue A) → IsSettled s → IsSettled (push a s).0.0
  unfolding push
  push-IsSettled a s h = elim (Bool-cases (ltb (length s.q) s.max)) [
    | inl t ↦ rw t (enqueue-IsSettled a s h)
    | inr f ↦ rw f h
  ]

  front-IsSettled :
      (xs : List A) (s : Queue A)
      → s.q ≡ xs
      → IsSettled s
      → IsSettled
          (outcome s (take_front xs (if length s.q == s.max then notify_not_full s else (s, [])))).0
  front-IsSettled [] s e h = h
  front-IsSettled (x ∷ xs) s e h =
      let l : length s.q ≡ suc (length xs) = ap length e in
      let n : is_set s.not_empty ≡ true → is_empty (x ∷ xs) ≡ true =
        λ k. subst (λ z. is_empty z ≡ true) e (h.0 k) in
      elim (Bool-cases (length s.q == s.max)) [
        | inl t ↦ rw t (λ k. let z = n k in ground arith, λ k. ground arith)
        | inr f ↦
            let d : length s.q ≡ s.max → ⊥ = λ q. ground arith in
            rw f (λ k. let z = n k in ground arith, λ k. let m = h.1 k in ground (arith, l))
      ]

  pop-IsSettled : (s : Queue A) → IsSettled s → IsSettled (outcome s (pop s)).0
  unfolding pop
  pop-IsSettled s h = front-IsSettled s.q s refl h

  -- After the items have changed, a writer is woken unless the queue is full.
  room-IsSettled :
      (t : Queue A)
      → (is_set t.not_empty ≡ true → is_empty t.q ≡ true)
      → IsSettled (if full t then (t, []) else notify_not_full t).0
  room-IsSettled t h = elim (Bool-cases (full t)) [
    | inl y ↦ let k : t.max ≤ length t.q = ground arith in rw y (h, λ e. k)
    | inr n ↦ rw n (h, λ e. ground arith)
  ]

  consumed_empty :
      (func : A → Bool) (xs : List A)
      → is_empty xs ≡ true
      → is_empty (consume_loop func xs).0 ≡ true
  consumed_empty func [] h = refl
  consumed_empty func (x ∷ xs) h = ground arith

  consume-IsSettled : (func : A → Bool) (s : Queue A) → IsSettled s → IsSettled (consume func s).0.0
  unfolding consume
  consume-IsSettled func s h =
      room-IsSettled (record s { q = (consume_loop func s.q).0 })
        (λ e. consumed_empty func s.q (h.0 e))

  set_max_size-IsSettled : (max : ℕ) (s : Queue A) → IsSettled s → IsSettled (set_max_size max s).0
  unfolding set_max_size
  set_max_size-IsSettled max s h = room-IsSettled (record s { max = max }) h.0

  not_empty_future-IsSettled :
      (p : ℕ) (s : Queue A) → IsSettled s → IsSettled (not_empty_future p s).0.0
  unfolding not_empty_future
  not_empty_future-IsSettled p s h = elim (Bool-cases (empty s)) [
    | inl y ↦ rw y (λ e. y, h.1)
    | inr n ↦ rw n h
  ]

  not_full_future-IsSettled :
      (p : ℕ) (s : Queue A) → IsSettled s → IsSettled (not_full_future p s).0.0
  unfolding not_full_future
  not_full_future-IsSettled p s h = elim (Bool-cases (full s)) [
    | inl y ↦ let k : s.max ≤ length s.q = ground arith in rw y (h.0, λ e. k)
    | inr n ↦ rw n h
  ]

  push_eventually-IsSettled :
      (p : ℕ) (a : A) (s : Queue A) → IsSettled s → IsSettled (push_eventually p a s).0.0
  unfolding push_eventually
  push_eventually-IsSettled p a s h = elim (Bool-cases (full s)) [
    | inl y ↦ let k : s.max ≤ length s.q = ground arith in rw y (h.0, λ e. k)
    | inr n ↦ rw n (enqueue-IsSettled a s h)
  ]

  pop_later-IsSettled :
      (p : ℕ) (s : Queue A) → IsSettled s → IsSettled (later s (pop_eventually p s)).0.0
  unfolding pop_eventually
  pop_later-IsSettled p s h = elim (Bool-cases (empty s)) [
    | inl y ↦ rw y (λ e. y, h.1)
    | inr n ↦ rw n (subst (λ r. IsSettled r.0) (sym (later-popped s (pop s)).0) (pop-IsSettled s h))
  ]

  resume_pop-IsSettled : (s : Queue A) → IsSettled s → IsSettled (later s (resume_pop s)).0.0
  resume_pop-IsSettled s h = elim (resume_pop-or s) [
    | inl q ↦
        subst (λ r. IsSettled (later s r).0.0) (sym q)
          (subst (λ r. IsSettled r.0) (sym (later-popped s (pop s)).0) (pop-IsSettled s h))
    | inr (e, q) ↦ subst (λ r. IsSettled (later s r).0.0) (sym q) h
  ]

  step-IsSettled : (o : Op A) (s : Queue A) → IsSettled s → IsSettled (step o s)
  unfolding step perform resume_push abort
  step-IsSettled (push_item a) s h = push-IsSettled a s h
  step-IsSettled (pushed_later a) s h = enqueue-IsSettled a s h
  step-IsSettled pop_item s h = pop-IsSettled s h
  step-IsSettled (pop_later p) s h = pop_later-IsSettled p s h
  step-IsSettled popped_later s h = resume_pop-IsSettled s h
  step-IsSettled (consume_items func) s h = consume-IsSettled func s h
  step-IsSettled (wait_not_empty p) s h = not_empty_future-IsSettled p s h
  step-IsSettled (wait_not_full p) s h = not_full_future-IsSettled p s h
  step-IsSettled (push_later p a) s h = push_eventually-IsSettled p a s h
  step-IsSettled (resize max) s h = set_max_size-IsSettled max s h
  step-IsSettled (abort_with e) s h = (λ k. ground arith, λ k. ground arith)

  -- Whatever operations and continuations run, in whatever order, from a queue where nobody waits for
  -- what is there already: a reader waits only while the queue is empty, and a writer only while it is
  -- full.
  pub run-IsSettled : (os : List (Op A)) (s : Queue A) → IsSettled s → IsSettled (run os s)
  unfolding run
  run-IsSettled [] s h = h
  run-IsSettled (o ∷ os) s h = run-IsSettled os (step o s) (step-IsSettled o s h)

  -- A writer that waits for a queue that holds its maximum of items is woken by a pop. When another
  -- push comes before its continuation runs, the continuation makes the queue longer than its
  -- maximum.
  pub resume_push-exceeds :
      (s : Queue A) (x a b : A) (xs : List A) (p : ℕ)
      → s.q ≡ x ∷ xs
      → length s.q ≡ s.max
      → s.not_full ≡ some p
      → (t : Queue A) × ((pop s ≡ some ((t, resolved p ∷ []), x))
          × (((push b t).1 ≡ true) × (length (resume_push a (push b t).0.0).0.q ≡ suc s.max)))
  unfolding pop push resume_push
  resume_push-exceeds s x a b xs p e l w =
      let m : (length s.q == s.max) ≡ true = ground arith in
      let k : length s.q ≡ suc (length xs) = ap length e in
      let g : ltb (length xs) s.max ≡ true = ground (arith, k) in
      let n = length-append (xs ++ b ∷ []) (a ∷ []) in
      let o = length-append xs (b ∷ []) in
      (
        record s { q = xs; not_full = none },
        (rw (e, w) (rw (sym (ap length e), m) refl), (rw g refl, rw g (omega (arith, n, o, k, l)))),
      )
