-- ===== src/Queue/Ops.antt =====
-- include/future/queue_.hh: the operations of a `queue_` and the continuations that wait for it, one after
-- the other.
use mseastar.Prelude.{
  ℕ, ◌≡◌, ◌⊎◌, inl, inr, refl, Bool, true, false, Option, none, some, List, [], ◌∷◌, ◌++◌,
}
use mseastar.Queue.{
  Queue, Event, Future, ready, error, waits, push, pop, popped, consume, not_empty_future,
  not_full_future, set_max_size, abort, pop_eventually, resume_pop, push_eventually, resume_push,
}

abbrev pub is_set : Option ℕ → Bool
is_set none = false
is_set (some p) = true

-- In whatever order they come. A pop of an empty queue is undefined, and is left out.
pub data Op (A : Type 0) : Type 0 where
  push_item pushed_later : A → Op A
  pop_item popped_later : Op A
  consume_items : (A → Bool) → Op A
  wait_not_empty wait_not_full pop_later : ℕ → Op A
  push_later : ℕ → A → Op A
  resize : ℕ → Op A
  abort_with : ℕ → Op A

-- The promises that a future waits for.
abbrev pub waits_for : {A : Type 0} → Future A → List ℕ
waits_for (ready x) = []
waits_for (error e) = []
waits_for (waits p) = p ∷ []

module _ {A : Type 0} where
  abbrev pub outcome : Queue A → Option ((Queue A × List Event) × A) → Queue A × List Event
  outcome s none = (s, [])
  outcome s (some r) = r.0

  abbrev pub waiting_for :
      {B : Type 0} → (Queue A × List Event) × Future B → (Queue A × List Event) × List ℕ
  waiting_for r = (r.0, waits_for r.1)

  abbrev pub later :
      Queue A → Option ((Queue A × List Event) × Future A) → (Queue A × List Event) × List ℕ
  later s none = ((s, []), [])
  later s (some r) = waiting_for r

  pub later-popped :
      (s : Queue A) (r : Option ((Queue A × List Event) × A))
      → ((later s (popped r)).0 ≡ outcome s r) × ((later s (popped r)).1 ≡ [])
  later-popped s none = (refl, refl)
  later-popped s (some r) = (refl, refl)

  -- The continuation of `pop_eventually` pops, or finds an exception.
  pub resume_pop-or :
      (s : Queue A)
      → (resume_pop s ≡ popped (pop s)) ⊎ ((e : ℕ) × (resume_pop s ≡ some ((s, []), error e)))
  unfolding resume_pop
  resume_pop-or s = go s.ex
    where
      go :
          (o : Option ℕ)
          → ((elim o as (λ x. Option ((Queue A × List Event) × Future A)) [
            | some e ↦ some ((s, []), error e)
            | none ↦ popped (pop s)
          ])
              ≡ popped (pop s))
            ⊎ ((e : ℕ) × ((elim o as (λ x. Option ((Queue A × List Event) × Future A)) [
              | some e ↦ some ((s, []), error e)
              | none ↦ popped (pop s)
            ])
                  ≡ some ((s, []), error e)))
      go none = inl refl
      go (some e) = inr (e, refl)

  -- The queue afterwards, what happens to promises, and the new promises that are waited for.
  unfoldable pub perform : Op A → Queue A → (Queue A × List Event) × List ℕ
  perform (push_item a) s = ((push a s).0, [])
  perform (pushed_later a) s = (resume_push a s, [])
  perform pop_item s = (outcome s (pop s), [])
  perform popped_later s = later s (resume_pop s)
  perform (consume_items func) s = ((consume func s).0, [])
  perform (wait_not_empty p) s = waiting_for (not_empty_future p s)
  perform (wait_not_full p) s = waiting_for (not_full_future p s)
  perform (pop_later p) s = later s (pop_eventually p s)
  perform (push_later p a) s = waiting_for (push_eventually p a s)
  perform (resize max) s = (set_max_size max s, [])
  perform (abort_with e) s = (abort e s, [])

  unfoldable pub step : Op A → Queue A → Queue A
  step o s = (perform o s).0.0

  unfoldable pub run : List (Op A) → Queue A → Queue A
  run [] s = s
  run (o ∷ os) s = run os (step o s)

  unfoldable pub events : List (Op A) → Queue A → List Event
  events [] s = []
  events (o ∷ os) s = (perform o s).0.1 ++ events os (step o s)

  -- The promises that are waited for, of all the operations.
  unfoldable pub promises : List (Op A) → Queue A → List ℕ
  promises [] s = []
  promises (o ∷ os) s = (perform o s).1 ++ promises os (step o s)
