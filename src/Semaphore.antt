-- ===== src/Semaphore.antt =====
-- include/future/semaphore.hh: `basic_semaphore`, `semaphore_units` and `condition_variable`.
-- `_count` is a `ssize_t` that `size_t` values are added to and taken from; it is kept as its 64
-- bits. A promise is a number that the caller makes up, and each operation lists the promises that
-- it resolves. `none` is undefined behaviour: the front of an empty deque, or of an expired entry.
pub mod Served
pub mod Ledger
pub mod Settled
pub mod CondVar
pub mod Reserve
mod Tests
use mseastar.Prelude.{
  ℕ, zero, suc, ◌+◌, ◌^◌, Bool, true, false, ◌&&◌, Option, none, some, List, [], ◌∷◌, ltb, leb,
  ◌==◌, if◌then◌else◌, word_add, word_sub, length, max,
}
use mseastar.ExpiringFifo
use mseastar.ExpiringFifo.{Fifo, time_point_max}

-- `semaphore_timed_out`, `broken_semaphore`, and what else a caller gives to `broken`.
pub data Error : Type 0 where
  timed_out broken : Error
  user_error : ℕ → Error

-- `entry`: the promise of a fiber that waits, and the units that it waits for.
pub record Waiter : Type 0 where
  pub pr : ℕ
  pub nr : ℕ

pub record Semaphore : Type 0 where
  pub count : ℕ
  pub ex : Option Error
  pub wait_list : Fifo Waiter

pub data Future : Type 0 where
  ready : Future
  failed : Error → Future
  pending : ℕ → Future

-- A promise that is resolved: by its units, or by an error.
pub data Event : Type 0 where
  granted : Waiter → Event
  refused : Waiter → Error → Event

pub init : ℕ → Semaphore
init count = record { count = count; ex = none; wait_list = ExpiringFifo.new }

-- `_count >= 0 && static_cast<size_t>(_count) >= nr`
abbrev pub has_available : ℕ → ℕ → Bool
has_available count nr = ltb count (2 ^ 63) && leb nr count

pub has_available_units : Semaphore → ℕ → Bool
has_available_units s nr = has_available s.count nr

pub may_proceed : Semaphore → ℕ → Bool
unfolding has_available_units
may_proceed s nr = has_available_units s nr && ExpiringFifo.empty s.wait_list

-- `wait(time_point timeout, size_t nr)`, whose promise is `pr`.
pub wait_until : ℕ → ℕ → ℕ → Semaphore → Semaphore × Future
unfolding may_proceed
wait_until pr timeout nr s =
    if may_proceed s nr then (record s { count = word_sub s.count nr }, ready) else elim s.ex [
      | some e ↦ (s, failed e)
      | none ↦ (
        record s {
          wait_list =
              ExpiringFifo.push_back_until (record { pr = pr; nr = nr }) timeout s.wait_list;
        },
        pending pr,
      )
    ]

pub wait : ℕ → ℕ → Semaphore → Semaphore × Future
unfolding wait_until
wait pr nr s = wait_until pr time_point_max nr s

-- `wait(duration timeout, size_t nr)`, called at the time `now`.
pub wait_for : ℕ → ℕ → ℕ → ℕ → Semaphore → Semaphore × Future
unfolding wait_until
wait_for pr now timeout nr s = wait_until pr (now + timeout) nr s

-- The loop of `signal`. A round takes an entry off the deque, so its length is fuel enough; with no
-- fuel left the deque is empty, and only an empty queue may stop there.
pub signal_loop : ℕ → Semaphore → Option (Semaphore × List Event)
signal_loop zero s = if ExpiringFifo.empty s.wait_list then some (s, []) else none
signal_loop (suc fuel) s =
    if ExpiringFifo.empty s.wait_list then some (s, []) else elim (ExpiringFifo.front s.wait_list) [
      | none ↦ none
      | some x ↦ elim (has_available s.count x.nr) [
        | false ↦ some (s, [])
        | true ↦ elim (ExpiringFifo.pop_front s.wait_list) [
          | none ↦ none
          | some rest ↦
              elim (signal_loop fuel
                (record s { count = word_sub s.count x.nr; wait_list = rest })) [
                  | none ↦ none
                  | some (t, events) ↦ some (t, granted x ∷ events)
                ]
        ]
      ]
    ]

pub signal : ℕ → Semaphore → Option (Semaphore × List Event)
signal nr s = elim s.ex [
  | some e ↦ some (s, [])
  | none ↦ signal_loop (length s.wait_list.list) (record s { count = word_add s.count nr })
]

pub consume : ℕ → Semaphore → Semaphore
consume nr s = elim s.ex [ some e ↦ s | none ↦ record s { count = word_sub s.count nr } ]

pub try_wait : ℕ → Semaphore → Semaphore × Bool
unfolding may_proceed
try_wait nr s =
    if may_proceed s nr then (record s { count = word_sub s.count nr }, true) else (s, false)

-- `std::max(_count, ssize_t(0))`
pub current : Semaphore → ℕ
current s = if ltb s.count (2 ^ 63) then s.count else 0

pub waiters : Semaphore → ℕ
waiters s = s.wait_list.size

pub ensure_space_for_waiters : ℕ → Semaphore → Semaphore
ensure_space_for_waiters n s = record s { wait_list = ExpiringFifo.reserve n s.wait_list }

-- The timer of the entry at place `i` fires: `expiry_handler` fails its promise.
pub expire : ℕ → Semaphore → Option (Semaphore × List Event)
expire i s = elim (ExpiringFifo.expire i s.wait_list) [
  | none ↦ none
  | some (w, rest) ↦ some (record s { wait_list = rest }, refused w timed_out ∷ [])
]

-- `~semaphore_units`, of a guard that holds `n` units.
pub units_destroy : ℕ → Semaphore → Option (Semaphore × List Event)
unfolding signal
units_destroy n s = if n == 0 then some (s, []) else signal n s

-- `semaphore_units::release` gives the units up: the count returned, and the one that stays.
pub units_release : ℕ → ℕ × ℕ
units_release n = (n, 0)
