-- ===== src/ChunkedFifo/Refine.antt =====
-- include/future/chunked_fifo.hh: a run of pushes and pops, beside the same run of a queue that is a
-- list.
use mseastar.Prelude.{
  ◌≡◌, refl, ap, ◌∙◌, true, false, Option, none, some, List, [], ◌∷◌, ◌++◌, map, inl, inr,
  if◌then◌else◌, Bool-cases, arith,
}
use mseastar.ChunkedFifo.{Chunk, ChunkedFifo, emplace_back, pop_front, front, empty, empty_chunks}
use mseastar.ChunkedFifo.Shape.{IsValid, contents, contents_of}
use mseastar.ChunkedFifo.Push.{emplace_back-some}
use mseastar.ChunkedFifo.Pop.{pop_front_lem, has_front}

-- A pop is made of a queue that is not empty, and looks at the front first.
pub data Op (A : Type 0) : Type 0 where
  push : A → Op A
  pop : Op A

module _ {A : Type 0} where
  pub step : Op A → ChunkedFifo A → Option (ChunkedFifo A × List (Option A))
  step (push x) s = elim (emplace_back s (some x)) [ none ↦ none | some t ↦ some (t.0, []) ]
  step pop s =
      if empty s
      then some (s, [])
      else elim (pop_front s) [ none ↦ none | some t ↦ some (t, front s ∷ []) ]

  pub run : List (Op A) → ChunkedFifo A → Option (ChunkedFifo A × List (Option A))
  run [] s = some (s, [])
  run (o ∷ os) s = elim (step o s) [
    | none ↦ none
    | some (t, xs) ↦ elim (run os t) [ none ↦ none | some (u, ys) ↦ some (u, xs ++ ys) ]
  ]

  abbrev pub queue_step : Op A → List A → List A × List (Option A)
  queue_step (push x) l = (l ++ x ∷ [], [])
  queue_step pop [] = ([], [])
  queue_step pop (x ∷ l) = (l, some x ∷ [])

  abbrev pub queue_run : List (Op A) → List A → List A × List (Option A)
  queue_run [] l = (l, [])
  queue_run (o ∷ os) l = let r = queue_step o l in let q = queue_run os r.0 in (q.0, r.1 ++ q.1)

  -- The queue is valid and holds the items of the list.
  abbrev pub Represents : ChunkedFifo A → List A → Type 0
  Represents s l = IsValid s × (contents s ≡ map some l)

  map-snoc : (l : List A) (x : A) → map some l ++ some x ∷ [] ≡ map some (l ++ x ∷ [])
  map-snoc [] x = refl
  map-snoc (y ∷ l) x = ap (λ z. some y ∷ z) (map-snoc l x)

  step-push :
      (s t : ChunkedFifo A) (x : A)
      → emplace_back s (some x) ≡ some (t, false)
      → step (push x) s ≡ some (t, [])
  unfolding step
  step-push s t x e = rw (e, step) refl

  step-pop :
      (s t : ChunkedFifo A) (x : Option A)
      → empty s ≡ false
      → pop_front s ≡ some t
      → front s ≡ x
      → step pop s ≡ some (t, x ∷ [])
  unfolding step
  step-pop s t x e p f = rw e (rw p (rw f refl))

  step-pop_none : (s : ChunkedFifo A) → empty s ≡ true → step pop s ≡ some (s, [])
  unfolding step
  step-pop_none s e = rw e refl

  empty-contents : (s : ChunkedFifo A) → IsValid s → contents s ≡ [] → empty s ≡ true
  empty-contents s h k = elim (Bool-cases (empty s)) [
    | inl e ↦ e
    | inr e ↦ let (x, (xs, q)) = has_front s h e in ground arith
  ]

  not_nil :
      (cs : List (Chunk A)) (x : Option A) (xs : List (Option A))
      → contents_of cs ≡ x ∷ xs
      → empty_chunks cs ≡ false
  not_nil [] x xs k = ground arith
  not_nil (c ∷ cs) x xs k = refl

  contents-not_empty :
      (s : ChunkedFifo A) (x : Option A) (xs : List (Option A))
      → contents s ≡ x ∷ xs
      → empty s ≡ false
  unfolding contents empty
  contents-not_empty s x xs k = not_nil s.chunks x xs k

  step_lem :
      (o : Op A) (s : ChunkedFifo A) (l : List A)
      → Represents s l
      → (t : ChunkedFifo A) × ((step o s ≡ some (t, (queue_step o l).1))
          × Represents t (queue_step o l).0)
  step_lem (push x) s l h =
      let (t, (e, (v, w))) = emplace_back-some s x h.0 in
      (t, (step-push s t x e, (v, w ∙ ap (λ z. z ++ some x ∷ []) h.1 ∙ map-snoc l x)))
  step_lem pop s [] h = (s, (step-pop_none s (empty-contents s h.0 h.1), h))
  step_lem pop s (x ∷ l) h =
      let (f, (t, (p, v))) = pop_front_lem s (some x) (map some l) h.0 h.1 in
      (t, (step-pop s t (some x) (contents-not_empty s (some x) (map some l) h.1) p f, v))

  run-cons :
      (o : Op A) (os : List (Op A)) (s t u : ChunkedFifo A) (xs ys : List (Option A))
      → step o s ≡ some (t, xs)
      → run os t ≡ some (u, ys)
      → run (o ∷ os) s ≡ some (u, xs ++ ys)
  unfolding run
  run-cons o os s t u xs ys e f = rw (e, run) (rw f refl)

  run-nil : (s : ChunkedFifo A) → run [] s ≡ some (s, [])
  unfolding run
  run-nil s = refl

  -- Whatever pushes and pops are made, a queue that represents a list ends without undefined
  -- behaviour and represents what the list has become; the items that are popped are those of the
  -- list.
  pub run_lem :
      (os : List (Op A)) (s : ChunkedFifo A) (l : List A)
      → Represents s l
      → (t : ChunkedFifo A) × ((run os s ≡ some (t, (queue_run os l).1))
          × Represents t (queue_run os l).0)
  run_lem [] s l h = (s, (run-nil s, h))
  run_lem (o ∷ os) s l h =
      let (t, (e, k)) = step_lem o s l h in
      let (u, (f, v)) = run_lem os t (queue_step o l).0 k in
      (u, (run-cons o os s t u (queue_step o l).1 (queue_run os (queue_step o l).0).1 e f, v))
