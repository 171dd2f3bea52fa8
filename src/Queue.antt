-- ===== src/Queue.antt =====
-- include/future/queue_.hh: `queue_`, a bounded queue between fibers. A promise is a number that the
-- caller makes up. What an operation does to promises is the list of its events; the continuation that
-- waits for a promise runs later, as an operation of its own.
pub mod Ops
pub mod Wakeup
pub mod Promises
pub mod Fair
pub mod Order
mod Tests
use mseastar.Prelude.{
  ℕ, zero, suc, Bool, true, false, not, Option, none, some, List, [], ◌∷◌, ◌++◌, ltb, leb, ◌==◌,
  if◌then◌else◌, length,
}

pub record Queue (A : Type 0) : Type 0 where
  pub q : List A
  pub max : ℕ
  pub not_empty : Option ℕ
  pub not_full : Option ℕ
  pub ex : Option ℕ

-- A promise gets its value, or an exception, or goes away with neither.
pub data Event : Type 0 where
  resolved : ℕ → Event
  failed : ℕ → ℕ → Event
  broken : ℕ → Event

-- A future that has its value, that has failed, or that waits for a promise.
pub data Future (A : Type 0) : Type 0 where
  ready : A → Future A
  error : ℕ → Future A
  waits : ℕ → Future A

abbrev pub resolve : Option ℕ → List Event
resolve none = []
resolve (some p) = resolved p ∷ []

abbrev pub fail_with : ℕ → Option ℕ → List Event
fail_with e none = []
fail_with e (some p) = failed p e ∷ []

abbrev pub break : Option ℕ → List Event
break none = []
break (some p) = broken p ∷ []

abbrev pub is_empty : {A : Type 0} → List A → Bool
is_empty [] = true
is_empty (x ∷ xs) = false

module _ {A : Type 0} where
  pub new : ℕ → Queue A
  new size = record { q = []; max = size; not_empty = none; not_full = none; ex = none }

  abbrev pub empty : Queue A → Bool
  empty s = is_empty s.q

  abbrev pub full : Queue A → Bool
  full s = leb s.max (length s.q)

  abbrev pub notify_not_empty : Queue A → Queue A × List Event
  notify_not_empty s = (record s { not_empty = none }, resolve s.not_empty)

  abbrev pub notify_not_full : Queue A → Queue A × List Event
  notify_not_full s = (record s { not_full = none }, resolve s.not_full)

  -- `_q.push(data)` with the notification that follows it everywhere
  abbrev pub enqueue : A → Queue A → Queue A × List Event
  enqueue a s = notify_not_empty (record s { q = s.q ++ a ∷ [] })

  pub push : A → Queue A → (Queue A × List Event) × Bool
  push a s = if ltb (length s.q) s.max then (enqueue a s, true) else ((s, []), false)

  abbrev pub take_front : List A → Queue A × List Event → Option ((Queue A × List Event) × A)
  take_front [] r = none
  take_front (x ∷ xs) r = some ((record (r.0) { q = xs }, r.1), x)

  -- `none`: the front of an empty queue.
  pub pop : Queue A → Option ((Queue A × List Event) × A)
  pop s = take_front s.q (if length s.q == s.max then notify_not_full s else (s, []))

  abbrev pub consume_loop : (A → Bool) → List A → List A × Bool
  consume_loop func [] = ([], true)
  consume_loop func (x ∷ xs) =
      let rest = consume_loop func xs in if func x then rest else (xs, false)

  pub consume : (A → Bool) → Queue A → (Queue A × List Event) × Bool
  consume func s =
      let r = consume_loop func s.q in
      let t = record s { q = r.0 } in (if full t then (t, []) else notify_not_full t, r.1)

  -- A new promise takes the place of one that is there, which is broken.
  pub not_empty_future : ℕ → Queue A → (Queue A × List Event) × Future Unit
  not_empty_future p s =
      if empty s
      then ((record s { not_empty = some p }, break s.not_empty), waits p)
      else ((s, []), ready tt)

  pub not_full_future : ℕ → Queue A → (Queue A × List Event) × Future Unit
  not_full_future p s =
      if full s
      then ((record s { not_full = some p }, break s.not_full), waits p)
      else ((s, []), ready tt)

  abbrev pub popped :
      Option ((Queue A × List Event) × A) → Option ((Queue A × List Event) × Future A)
  popped none = none
  popped (some (r, x)) = some (r, ready x)

  pub pop_eventually : ℕ → Queue A → Option ((Queue A × List Event) × Future A)
  pop_eventually p s =
      if empty s
      then some ((record s { not_empty = some p }, break s.not_empty), waits p)
      else popped (pop s)

  -- The continuation of `pop_eventually`, when its promise is resolved.
  pub resume_pop : Queue A → Option ((Queue A × List Event) × Future A)
  resume_pop s = elim s.ex [ some e ↦ some ((s, []), error e) | none ↦ popped (pop s) ]

  pub push_eventually : ℕ → A → Queue A → (Queue A × List Event) × Future Unit
  push_eventually p a s =
      if full s
      then ((record s { not_full = some p }, break s.not_full), waits p)
      else (enqueue a s, ready tt)

  -- The continuation of `push_eventually`, when its promise is resolved.
  pub resume_push : A → Queue A → Queue A × List Event
  resume_push a s = enqueue a s

  pub set_max_size : ℕ → Queue A → Queue A × List Event
  set_max_size max s =
      let t = record s { max = max } in if full t then (t, []) else notify_not_full t

  pub abort : ℕ → Queue A → Queue A × List Event
  abort e s = (
    record s { q = []; ex = some e; not_full = none; not_empty = none },
    fail_with e s.not_full ++ fail_with e s.not_empty,
  )
