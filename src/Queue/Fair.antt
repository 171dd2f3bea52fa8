-- ===== src/Queue/Fair.antt =====
-- include/future/queue_.hh: what happens to the promises that fibers wait for.
use mseastar.Prelude.{
  ℕ, refl, sym, ◌∙◌, subst, none, List, [], ◌∷◌, ◌++◌, arith, ltb, ◌==◌, if◌then◌else◌, length,
  Bool-cases, inl, inr,
}
use mseastar.Queue.{
  Queue, Event, resolve, fail_with, full, empty, notify_not_full, push, pop, take_front, consume,
  consume_loop, not_empty_future, not_full_future, set_max_size, abort, pop_eventually, popped,
  push_eventually, resume_pop, resume_push,
}
use mseastar.Queue.Ops.{
  Op, push_item, pushed_later, pop_item, pop_later, popped_later, consume_items, wait_not_empty,
  wait_not_full, push_later, resize, abort_with, outcome, later, later-popped, resume_pop-or,
  perform, step, run, events, promises,
}
use mseastar.Queue.Promises.{
  overwrites, aborts, sum_of, Fair, about-append, breaks-append, failures-append, copies-append,
  about-resolve, resolve-kinds, about-break, break-kinds, about-fail, fail-kinds,
}
use mseastar.Queue.Wakeup.{IsSettled, run-IsSettled}

module _ {A : Type 0} where
  -- Nothing happens, or one of the two is resolved, or overwritten.
  quiet-Fair : (s : Queue A) (q : List A) (m : ℕ) → Fair s [] [] (record s { q = q; max = m }) 0 0
  quiet-Fair s q m = (λ p. omega arith, (refl, refl))

  reader-Fair :
      (s : Queue A) (q : List A)
      → Fair s [] (resolve s.not_empty) (record s { q = q; not_empty = none }) 0 0
  reader-Fair s q =
      (λ p. let e = about-resolve p s.not_empty in omega (arith, e), resolve-kinds s.not_empty)

  writer-Fair :
      (s : Queue A) (q : List A) (m : ℕ)
      → Fair s [] (resolve s.not_full) (record s { q = q; max = m; not_full = none }) 0 0
  writer-Fair s q m =
      (λ p. let e = about-resolve p s.not_full in omega (arith, e), resolve-kinds s.not_full)

  -- What an operation does, with all that happens to promises.
  abbrev StepFair : Queue A → (Queue A × List Event) × List ℕ → ℕ → ℕ → Type 0
  StepFair s r lost failing = Fair s r.1 r.0.1 r.0.0 lost failing

  push-Fair : (a : A) (s : Queue A) → StepFair s ((push a s).0, []) 0 0
  unfolding push
  push-Fair a s = elim (Bool-cases (ltb (length s.q) s.max)) [
    | inl t ↦ rw t (reader-Fair s (s.q ++ a ∷ []))
    | inr f ↦ rw f (quiet-Fair s s.q s.max)
  ]

  front-Fair :
      (xs : List A) (s : Queue A)
      → StepFair s
          (
            outcome s (take_front xs (if length s.q == s.max then notify_not_full s else (s, []))),
            [],
          )
          0
          0
  front-Fair [] s = quiet-Fair s s.q s.max
  front-Fair (x ∷ xs) s = elim (Bool-cases (length s.q == s.max)) [
    | inl t ↦ rw t (writer-Fair s xs s.max)
    | inr f ↦ rw f (quiet-Fair s xs s.max)
  ]

  pop-Fair : (s : Queue A) → StepFair s (outcome s (pop s), []) 0 0
  unfolding pop
  pop-Fair s = front-Fair s.q s

  popped-Fair : (s : Queue A) → StepFair s (later s (popped (pop s))) 0 0
  popped-Fair s =
      let (e, f) = later-popped s (pop s) in
      subst (λ r. Fair s (later s (popped (pop s))).1 r.1 r.0 0 0) (sym e)
        (subst (λ m. Fair s m (outcome s (pop s)).1 (outcome s (pop s)).0 0 0) (sym f) (pop-Fair s))

  resume_pop-Fair : (s : Queue A) → StepFair s (later s (resume_pop s)) 0 0
  resume_pop-Fair s = elim (resume_pop-or s) [
    | inl q ↦ subst (λ r. StepFair s (later s r) 0 0) (sym q) (popped-Fair s)
    | inr (e, q) ↦ subst (λ r. StepFair s (later s r) 0 0) (sym q) (quiet-Fair s s.q s.max)
  ]

  -- After the items have changed, a writer is woken unless the queue is full.
  room-Fair :
      (s : Queue A) (q : List A) (m : ℕ)
      → let t = record s { q = q; max = m } in
        StepFair s (if full t then (t, []) else notify_not_full t, []) 0 0
  room-Fair s q m =
      let t : Queue A = record s { q = q; max = m } in
      elim (Bool-cases (full t)) [
        | inl y ↦ rw y (quiet-Fair s q m)
        | inr n ↦ rw n (writer-Fair s q m)
      ]

  wait_not_empty-Fair :
      (w : ℕ) (s : Queue A)
      → StepFair s (perform (wait_not_empty w) s) (overwrites (wait_not_empty w) s) 0
  unfolding perform not_empty_future
  wait_not_empty-Fair w s = elim (Bool-cases (empty s)) [
    | inl y ↦
        rw y (λ p. let e = about-break p s.not_empty in omega (arith, e), break-kinds s.not_empty)
    | inr n ↦ rw n (quiet-Fair s s.q s.max)
  ]

  pop_later-Fair :
      (w : ℕ) (s : Queue A) → StepFair s (perform (pop_later w) s) (overwrites (pop_later w) s) 0
  unfolding perform pop_eventually
  pop_later-Fair w s = elim (Bool-cases (empty s)) [
    | inl y ↦
        rw y (λ p. let e = about-break p s.not_empty in omega (arith, e), break-kinds s.not_empty)
    | inr n ↦ rw n (popped-Fair s)
  ]

  wait_not_full-Fair :
      (w : ℕ) (s : Queue A)
      → StepFair s (perform (wait_not_full w) s) (overwrites (wait_not_full w) s) 0
  unfolding perform not_full_future
  wait_not_full-Fair w s = elim (Bool-cases (full s)) [
    | inl y ↦
        rw y (λ p. let e = about-break p s.not_full in omega (arith, e), break-kinds s.not_full)
    | inr n ↦ rw n (quiet-Fair s s.q s.max)
  ]

  push_later-Fair :
      (w : ℕ) (a : A) (s : Queue A)
      → StepFair s (perform (push_later w a) s) (overwrites (push_later w a) s) 0
  unfolding perform push_eventually
  push_later-Fair w a s = elim (Bool-cases (full s)) [
    | inl y ↦
        rw y (λ p. let e = about-break p s.not_full in omega (arith, e), break-kinds s.not_full)
    | inr n ↦ rw n (reader-Fair s (s.q ++ a ∷ []))
  ]

  abort-Fair :
      (e : ℕ) (s : Queue A) → StepFair s (perform (abort_with e) s) 0 (aborts (abort_with e) s)
  unfolding perform abort
  abort-Fair e s =
      let (b, f) = fail-kinds e s.not_full in
      let (b', f') = fail-kinds e s.not_empty in
      (
        λ p.
            let u = about-append p (fail_with e s.not_full) (fail_with e s.not_empty) in
            let v = about-fail p e s.not_full in
            let w = about-fail p e s.not_empty in omega (arith, u, v, w),
        (
          breaks-append (fail_with e s.not_full) (fail_with e s.not_empty) ∙ omega (arith, b, b'),
          failures-append (fail_with e s.not_full) (fail_with e s.not_empty) ∙ omega (arith, f, f'),
        ),
      )

  step-Fair : (o : Op A) (s : Queue A) → StepFair s (perform o s) (overwrites o s) (aborts o s)
  unfolding perform resume_push consume set_max_size
  step-Fair (push_item a) s = push-Fair a s
  step-Fair (pushed_later a) s = reader-Fair s (s.q ++ a ∷ [])
  step-Fair pop_item s = pop-Fair s
  step-Fair popped_later s = resume_pop-Fair s
  step-Fair (consume_items func) s = room-Fair s (consume_loop func s.q).0 s.max
  step-Fair (wait_not_empty p) s = wait_not_empty-Fair p s
  step-Fair (wait_not_full p) s = wait_not_full-Fair p s
  step-Fair (pop_later p) s = pop_later-Fair p s
  step-Fair (push_later p a) s = push_later-Fair p a s
  step-Fair (resize max) s = room-Fair s s.q max
  step-Fair (abort_with e) s = abort-Fair e s

  all-Fair :
      (os : List (Op A)) (s : Queue A)
      → Fair s
          (promises os s)
          (events os s)
          (run os s)
          (sum_of overwrites os s)
          (sum_of aborts os s)
  unfolding promises events run step
  all-Fair [] s = quiet-Fair s s.q s.max
  all-Fair (o ∷ os) s =
      let t = (perform o s).0.0 in
      let (a, (b, f)) = step-Fair o s in
      let (a', (b', f')) = all-Fair os t in
      (
        λ p.
            let u = about-append p (perform o s).0.1 (events os t) in
            let v = copies-append p (perform o s).1 (promises os t) in
            let w = a p in let w' = a' p in omega (arith, u, v, w, w'),
        (
          breaks-append (perform o s).0.1 (events os t) ∙ omega (arith, b, b'),
          failures-append (perform o s).0.1 (events os t) ∙ omega (arith, f, f'),
        ),
      )

  -- Whatever operations and continuations run, in whatever order, from a queue where nobody waits
  -- for what is there already: a reader waits only while the queue is empty, and a writer only
  -- while it is full. No wakeup is lost: each promise that the queue held or that was waited for
  -- since has had one event, or is still held. As many are broken as waits have overwritten a
  -- promise of another fiber, as many fail as were held at an `abort`, and so all the others are
  -- resolved.
  pub run-Fair :
      (os : List (Op A)) (s : Queue A)
      → IsSettled s
      → IsSettled (run os s)
        × Fair s
            (promises os s)
            (events os s)
            (run os s)
            (sum_of overwrites os s)
            (sum_of aborts os s)
  run-Fair os s h = (run-IsSettled os s h, all-Fair os s)
