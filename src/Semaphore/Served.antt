-- ===== src/Semaphore/Served.antt =====
-- What `basic_semaphore::signal` does for the fibers that wait.
use mathlib.Core.List.{head?}
use mseastar.Prelude.{
  ℕ, zero, suc, ◌+◌, ◌%◌, ◌^◌, ◌<◌, ◌≤◌, ◌≡◌, refl, sym, ap, ◌∙◌, subst, ◌⊎◌, inl, inr, true, false,
  none, some, List, [], ◌∷◌, ◌++◌, map, arith, length, word, word_add, word_sub, Bool-cases,
}
use mseastar.ExpiringFifo
use mseastar.ExpiringFifo.{Fifo}
use mseastar.ExpiringFifo.View.{
  contents, IsValid, empty_iff, front-head?, pop_front_lem, length-live-le,
}
use mseastar.Semaphore.{Semaphore, Waiter, Event, granted, has_available, signal_loop, signal}

abbrev pub waiting : Semaphore → List Waiter
waiting s = contents s.wait_list

abbrev pub units : List Waiter → ℕ
units [] = 0
units (w ∷ ws) = w.nr + units ws

-- The longest waiter cannot be served with the units at hand.
abbrev pub CannotServe : ℕ → List Waiter → Type 0
CannotServe count [] = Unit
CannotServe count (w ∷ ws) = has_available count w.nr ≡ false

abbrev pub IsSettled : Semaphore → Type 0
IsSettled s = CannotServe s.count (waiting s)

-- From `s`, whose count is that of `s` and `extra` more, to `t`.
pub record Served (s : Semaphore) (count : ℕ) (t : Semaphore) (events : List Event) : Type 0 where
  pub served : List Waiter
  pub in_order : waiting s ≡ served ++ waiting t
  pub resolved : events ≡ map granted served
  pub settled : IsSettled t
  pub conserved : (t.count + units served) % word ≡ count % word
  pub valid : IsValid t.wait_list
  pub small : count < word → t.count < word
  pub nonneg : count < 2 ^ 63 → t.count < 2 ^ 63
  pub ex_kept : t.ex ≡ s.ex

loop_empty :
    (fuel : ℕ) (s : Semaphore)
    → ExpiringFifo.empty s.wait_list ≡ true
    → signal_loop fuel s ≡ some (s, [])
unfolding signal_loop
loop_empty zero s e = ground arith
loop_empty (suc fuel) s e = ground arith

loop_blocked :
    (fuel : ℕ) (s : Semaphore) (x : Waiter)
    → ExpiringFifo.empty s.wait_list ≡ false
    → ExpiringFifo.front s.wait_list ≡ some x
    → has_available s.count x.nr ≡ false
    → signal_loop (suc fuel) s ≡ some (s, [])
unfolding signal_loop
loop_blocked fuel s x e f b = rw (e, f, b)

abbrev after_pop : Semaphore → Waiter → Fifo Waiter → Semaphore
after_pop s x rest = record s { count = word_sub s.count x.nr; wait_list = rest }

loop_step :
    (fuel : ℕ) (s : Semaphore) (x : Waiter) (rest : Fifo Waiter) (t : Semaphore)
    (events : List Event)
    → ExpiringFifo.empty s.wait_list ≡ false
    → ExpiringFifo.front s.wait_list ≡ some x
    → has_available s.count x.nr ≡ true
    → ExpiringFifo.pop_front s.wait_list ≡ some rest
    → signal_loop fuel (after_pop s x rest) ≡ some (t, events)
    → signal_loop (suc fuel) s ≡ some (t, granted x ∷ events)
unfolding signal_loop
loop_step fuel s x rest t events e f b p r = rw (e, f, b, p, r)

nonempty :
    (s : Semaphore) (x : Waiter) (ws : List Waiter)
    → IsValid s.wait_list
    → waiting s ≡ x ∷ ws
    → (ExpiringFifo.empty s.wait_list ≡ false) × (ExpiringFifo.front s.wait_list ≡ some x)
nonempty s x ws v e = (not_empty (Bool-cases (ExpiringFifo.empty s.wait_list)), at_front)
  where
    not_empty :
        (ExpiringFifo.empty s.wait_list ≡ true) ⊎ (ExpiringFifo.empty s.wait_list ≡ false)
        → ExpiringFifo.empty s.wait_list ≡ false
    not_empty (inl y) = absurd (cc ((empty_iff s.wait_list v).0 y))
    not_empty (inr n) = n

    at_front : ExpiringFifo.front s.wait_list ≡ some x
    at_front = front-head? s.wait_list v ∙ ap head? e

serve_nobody : (s : Semaphore) → IsValid s.wait_list → IsSettled s → Served s s.count s []
serve_nobody s v b = record {
  served = [];
  in_order = refl;
  resolved = refl;
  settled = b;
  conserved = omega arith;
  valid = v;
  small = λ h. h;
  nonneg = λ h. h;
  ex_kept = refl;
}

abbrev Runs : ℕ → Semaphore → Type 0
Runs fuel s =
    (t : Semaphore) × (events : List Event) × (signal_loop fuel s ≡ some (t, events))
    × Served s s.count t events

-- One waiter, and then what the rest of the loop serves.
serve_one :
    (s : Semaphore) (x : Waiter) (ws : List Waiter) (rest : Fifo Waiter) (t : Semaphore)
    (events : List Event)
    → waiting s ≡ x ∷ ws
    → contents rest ≡ ws
    → has_available s.count x.nr ≡ true
    → Served (after_pop s x rest) (word_sub s.count x.nr) t events
    → Served s s.count t (granted x ∷ events)
serve_one s x ws rest t events e c b r = record {
  served = x ∷ r.served;
  in_order = e ∙ ap (λ l. x ∷ l) (sym c ∙ r.in_order);
  resolved = ap (λ l. granted x ∷ l) r.resolved;
  settled = r.settled;
  conserved = ground (arith, r.conserved);
  valid = r.valid;
  small = λ h. r.small (omega arith);
  nonneg = λ h. r.nonneg (ground arith);
  ex_kept = r.ex_kept;
}

-- The loop runs to its end, and serves the longest prefix of the queue that the units allow.
signal_loop-Served :
    (ws : List Waiter) (fuel : ℕ) (s : Semaphore)
    → IsValid s.wait_list
    → waiting s ≡ ws
    → length ws ≤ fuel
    → Runs fuel s
signal_loop-Served [] fuel s v e h = (
  s,
  [],
  loop_empty fuel s ((empty_iff s.wait_list v).1 e),
  serve_nobody s v (subst (CannotServe s.count) (sym e) tt),
)
signal_loop-Served (x ∷ ws) zero s v e h = absurd (omega arith)
signal_loop-Served (x ∷ ws) (suc fuel) s v e h =
    let (more, at_front) = nonempty s x ws v e in
    elim (Bool-cases (has_available s.count x.nr)) [
      | inl b ↦
          let (rest, popped, c, valid, _) = pop_front_lem s.wait_list x ws v e in
          let (t, events, runs, r) =
            signal_loop-Served ws fuel (after_pop s x rest) valid c (omega arith) in
          (
            t,
            granted x ∷ events,
            loop_step fuel s x rest t events more at_front b popped runs,
            serve_one s x ws rest t events e c b r,
          )
      | inr b ↦ (
        s,
        [],
        loop_blocked fuel s x more at_front b,
        serve_nobody s v (subst (CannotServe s.count) (sym e) b),
      )
    ]

signal-signal_loop :
    (nr : ℕ) (s : Semaphore)
    → s.ex ≡ none
    → signal nr s ≡ signal_loop (length s.wait_list.list) (record s { count = word_add s.count nr })
unfolding signal
signal-signal_loop nr s e = ground arith

-- A semaphore whose queue is well formed and which is not broken signals without undefined
-- behaviour. It serves a prefix of the fibers that wait, in their order, resolves exactly their
-- promises, stops only when the longest waiter left cannot be served, and the units of the fibers
-- served together with the new count are the old count and the units signalled (modulo 2 ^ 64).
pub signal-Served :
    (nr : ℕ) (s : Semaphore)
    → IsValid s.wait_list
    → s.ex ≡ none
    → (t : Semaphore) × (events : List Event) × (signal nr s ≡ some (t, events))
      × Served s (word_add s.count nr) t events
signal-Served nr s v e =
    let (t, events, runs, r) =
      signal_loop-Served (waiting s) (length s.wait_list.list) more v refl enough in
    (
      t,
      events,
      signal-signal_loop nr s e ∙ runs,
      record {
        served = r.served;
        in_order = r.in_order;
        resolved = r.resolved;
        settled = r.settled;
        conserved = r.conserved;
        valid = r.valid;
        small = r.small;
        nonneg = r.nonneg;
        ex_kept = r.ex_kept;
      },
    )
  where
    more : Semaphore
    more = record s { count = word_add s.count nr }

    enough : length (waiting s) ≤ length s.wait_list.list
    enough = length-live-le s.wait_list.list
