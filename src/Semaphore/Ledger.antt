-- ===== src/Semaphore/Ledger.antt =====
-- `basic_semaphore` over a history of calls and of timers that fire.
use mseastar.Prelude.{
  ℕ, ◌+◌, ◌%◌, ◌<◌, ◌≤◌, ◌≡◌, refl, sym, ap, ◌∙◌, subst, inl, inr, Option, none, some, List, [],
  ◌∷◌, ◌++◌, map, length-append, arith, length, word, word_add, if◌then◌else◌, Option-cases, All,
}
use mseastar.ExpiringFifo
use mseastar.ExpiringFifo.{Fifo, time_point_max}
use mseastar.ExpiringFifo.View.{
  contents, IsValid, empty_iff, push_back_until-IsValid, size-push_back_until,
  contents-push_back_until, Expires, expire-Expires,
}
use mseastar.Semaphore.{
  Semaphore, Waiter, Event, granted, refused, timed_out, Future, ready, failed, pending, wait_until,
  signal, consume, try_wait, expire,
}
use mseastar.Semaphore.Served.{waiting, units, Served, signal-Served}

-- The calls of a fiber, and `fires i`: the timer of the entry at place `i` fires.
pub data Call : Type 0 where
  waits : ℕ → ℕ → ℕ → Call
  tries : ℕ → ℕ → Call
  signals consumes fires : ℕ → Call

-- The promise that a call resolves at once.
pub reply : ℕ → ℕ → Future → List Event
reply pr nr ready = granted (record { pr = pr; nr = nr }) ∷ []
reply pr nr (failed e) = refused (record { pr = pr; nr = nr }) e ∷ []
reply pr nr (pending p) = []

pub step : Call → Semaphore → Option (Semaphore × List Event)
unfolding reply
step (waits pr timeout nr) s = let (t, f) = wait_until pr timeout nr s in some (t, reply pr nr f)
step (tries pr nr) s =
    let (t, got) = try_wait nr s in
    some (t, if got then granted (record { pr = pr; nr = nr }) ∷ [] else [])
step (signals nr) s = signal nr s
step (consumes nr) s = some (consume nr s, [])
step (fires i) s = expire i s

-- Units handed out, put in, and taken away without a promise.
abbrev pub given : List Event → ℕ
given [] = 0
given (granted w ∷ es) = w.nr + given es
given (refused w e ∷ es) = given es

abbrev pub put_in : Call → ℕ
put_in (signals nr) = nr
put_in (waits pr t nr) = 0
put_in (tries pr nr) = 0
put_in (consumes nr) = 0
put_in (fires i) = 0

abbrev pub taken : Call → ℕ
taken (consumes nr) = nr
taken (waits pr t nr) = 0
taken (tries pr nr) = 0
taken (signals nr) = 0
taken (fires i) = 0

-- A `size_t` argument, and room for one more waiter.
abbrev pub Fits : Call → Semaphore → Type 0
Fits (waits pr t nr) s = s.wait_list.size + 1 < word
Fits (consumes nr) s = nr < word
Fits (tries pr nr) s = Unit
Fits (signals nr) s = Unit
Fits (fires i) s = Unit

pub record Inv (s : Semaphore) : Type 0 where
  pub queue : IsValid s.wait_list
  pub unbroken : s.ex ≡ none

-- The accounts of one step.
pub record Balanced (c : Call) (s t : Semaphore) (events : List Event) : Type 0 where
  pub inv : Inv t
  pub grows : t.wait_list.size ≤ s.wait_list.size + 1
  pub books : (t.count + given events + taken c) % word ≡ (s.count + put_in c) % word

given-granted : (ws : List Waiter) → given (map granted ws) ≡ units ws
given-granted [] = refl
given-granted (w ∷ ws) = omega (arith, given-granted ws)

pub wait_until-Balanced :
    (pr timeout nr : ℕ) (s : Semaphore)
    → Inv s
    → Fits (waits pr timeout nr) s
    → let (t, f) = wait_until pr timeout nr s in Balanced (waits pr timeout nr) s t (reply pr nr f)
unfolding wait_until reply
wait_until-Balanced pr timeout nr s v h = ground (
  arith,
  size-push_back_until (record { pr = pr; nr = nr }) timeout s.wait_list,
  push_back_until-IsValid (record { pr = pr; nr = nr }) timeout s.wait_list v.queue h,
)

try_wait-Balanced :
    (pr nr : ℕ) (s : Semaphore)
    → Inv s
    → let (t, got) = try_wait nr s in
      Balanced (tries pr nr) s t (if got then granted (record { pr = pr; nr = nr }) ∷ [] else [])
unfolding try_wait
try_wait-Balanced pr nr s v = ground arith

consume-Balanced :
    (nr : ℕ) (s : Semaphore) → Inv s → nr < word → Balanced (consumes nr) s (consume nr s) []
unfolding consume
consume-Balanced nr s v h = ground arith

abbrev OfPair : Call → Semaphore → Semaphore × List Event → Type 0
OfPair c s (t, events) = Balanced c s t events

pub expire_parts :
    (i : ℕ) (s t : Semaphore) (events : List Event)
    → expire i s ≡ some (t, events)
    → (w : Waiter) × (rest : Fifo Waiter) × (ExpiringFifo.expire i s.wait_list ≡ some (w, rest))
      × (t ≡ record s { wait_list = rest })
      × (events ≡ refused w timed_out ∷ [])
unfolding expire
expire_parts i s t events h = elim (Option-cases (ExpiringFifo.expire i s.wait_list)) [
  | inl e ↦ absurd (ground arith)
  | inr (p, e) ↦ (p.0, p.1, e, ground arith, ground arith)
]

signal-Balanced :
    (nr : ℕ) (s t : Semaphore) (events : List Event)
    → Inv s
    → signal nr s ≡ some (t, events)
    → Balanced (signals nr) s t events
signal-Balanced nr s t events v h =
    let (t', events', runs, r) = signal-Served nr s v.queue v.unbroken in
    same t' events' (sym runs ∙ h) r
  where
    same :
        (t' : Semaphore) (events' : List Event)
        → ◌≡◌ {A = Option (Semaphore × List Event)} (some (t', events')) (some (t, events))
        → Served s (word_add s.count nr) t' events'
        → Balanced (signals nr) s t events
    same t' events' e r =
        let et : t' ≡ t = cc in
        let ee : events' ≡ events = cc in
        rw (← et, ← ee)
          (record {
            inv = record { queue = r.valid; unbroken = r.ex_kept ∙ v.unbroken };
            grows = omega (
              arith,
              r.valid.counted,
              v.queue.counted,
              ap length r.in_order,
              length-append r.served (waiting t'),
            );
            books = omega (arith, ap given r.resolved, given-granted r.served, r.conserved);
          })

expire-Balanced :
    (i : ℕ) (s t : Semaphore) (events : List Event)
    → Inv s
    → expire i s ≡ some (t, events)
    → Balanced (fires i) s t events
expire-Balanced i s t events v h =
    let (w, rest, fired, et, ee) = expire_parts i s t events h in
    rw (et, ee)
      (of_expires w rest (ExpiringFifo.View.expire-Expires s.wait_list i w rest v.queue fired))
  where
    of_expires :
        (w : Waiter) (rest : Fifo Waiter)
        → Expires s.wait_list rest w
        → Balanced (fires i) s (record s { wait_list = rest }) (refused w timed_out ∷ [])
    of_expires w rest r = record {
      inv = record { queue = r.valid; unbroken = v.unbroken };
      grows = omega (
        arith,
        r.valid.counted,
        v.queue.counted,
        ap length r.was,
        ap length r.left,
        length-append r.before r.after,
        length-append r.before (w ∷ r.after),
      );
      books = omega arith;
    }

-- Every step keeps the invariant and the books.
step-Balanced :
    (c : Call) (s t : Semaphore) (events : List Event)
    → Inv s
    → Fits c s
    → step c s ≡ some (t, events)
    → Balanced c s t events
unfolding step
step-Balanced (waits pr timeout nr) s t events v f h =
    subst (OfPair (waits pr timeout nr) s) (cc) (wait_until-Balanced pr timeout nr s v f)
step-Balanced (tries pr nr) s t events v f h =
    subst (OfPair (tries pr nr) s) (cc) (try_wait-Balanced pr nr s v)
step-Balanced (signals nr) s t events v f h = signal-Balanced nr s t events v h
step-Balanced (consumes nr) s t events v f h =
    subst (OfPair (consumes nr) s) (cc) (consume-Balanced nr s v f)
step-Balanced (fires i) s t events v f h = expire-Balanced i s t events v h

unfoldable pub run : List Call → Semaphore → Option (Semaphore × List Event)
unfolding step
run [] s = some (s, [])
run (c ∷ cs) s = elim (step c s) [
  | none ↦ none
  | some (t, events) ↦ elim (run cs t) [ none ↦ none | some (u, more) ↦ some (u, events ++ more) ]
]

abbrev pub total_put_in : List Call → ℕ
total_put_in [] = 0
total_put_in (c ∷ cs) = put_in c + total_put_in cs

abbrev pub total_taken : List Call → ℕ
total_taken [] = 0
total_taken (c ∷ cs) = taken c + total_taken cs

run_parts :
    (c : Call) (cs : List Call) (s u : Semaphore) (events : List Event)
    → run (c ∷ cs) s ≡ some (u, events)
    → (t : Semaphore) × (first : List Event) × (more : List Event) × (step c s ≡ some (t, first))
      × (run cs t ≡ some (u, more))
      × (events ≡ first ++ more)
unfolding run
run_parts c cs s u events h = elim (Option-cases (step c s)) [
  | inl e ↦ absurd (ground arith)
  | inr (p, e) ↦ elim (Option-cases (run cs p.0)) [
    | inl d ↦ absurd (ground arith)
    | inr (q, d) ↦ (p.0, p.1, q.1, ground arith, ground arith, ground arith)
  ]
]

given-append : (xs ys : List Event) → given (xs ++ ys) ≡ given xs + given ys
given-append [] ys = omega arith
given-append (granted w ∷ xs) ys = omega (arith, given-append xs ys)
given-append (refused w e ∷ xs) ys = given-append xs ys

fits : (c : Call) (s : Semaphore) → taken c < word → s.wait_list.size + 1 < word → Fits c s
fits (waits pr timeout nr) s h k = k
fits (tries pr nr) s h k = tt
fits (signals nr) s h k = tt
fits (consumes nr) s h k = h
fits (fires i) s h k = tt

-- Over any history of calls and timeouts of a semaphore that is well formed, not broken, and has
-- room for as many waiters as there are calls, the count with the units handed out and those
-- consumed is the count at the start with the units signalled (modulo 2 ^ 64): no unit is lost when
-- a waiter times out, and none is made up. The semaphore stays well formed.
pub run_books :
    (cs : List Call) (s t : Semaphore) (events : List Event)
    → Inv s
    → s.wait_list.size + length cs < word
    → All (λ c. taken c < word) cs
    → run cs s ≡ some (t, events)
    → Inv t
      × ((t.count + given events + total_taken cs) % word ≡ (s.count + total_put_in cs) % word)
unfolding run
run_books [] s t events v room small h =
    let et : s ≡ t = cc in
    let ee : [] ≡ events = cc in
    (subst Inv et v, omega (arith, ap (λ (x : Semaphore). x.count) et, ap given ee))
run_books (c ∷ cs) s t events v room small h =
    let (u, first, more, one, rest, split) = run_parts c cs s t events h in
    let b = step-Balanced c s u first v (fits c s small.0 (omega arith)) one in
    let (inv, books) = run_books cs u t more b.inv (omega (arith, b.grows)) small.1 rest in
    (inv, omega (arith, books, b.books, ap given split, given-append first more))
