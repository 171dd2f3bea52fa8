-- ===== src/ExpiringFifo.antt =====
-- include/future/expiring_fifo.hh: a queue whose entries can expire in place.
-- The `std::deque<entry>` is a list, front first. An entry's `timer` is its timeout while the timer
-- is armed; a timer that fires is the event `expire`, at the entry's place in the deque.
-- A dereference of an empty `std::optional`, or of the front of an empty deque, is `none`.
pub mod View
use mseastar.Prelude.{
  ℕ, zero, suc, ◌-◌, ◌^◌, Bool, Option, none, some, List, [], ◌∷◌, ◌++◌, ltb, ◌==◌, if◌then◌else◌,
  word_add, word_sub, get_elem?, set, take, length, replicate,
}

pub record Entry {ℓ} (A : Type ℓ) : Type ℓ where
  pub payload : Option A
  pub timeout : Option ℕ

pub record Fifo {ℓ} (A : Type ℓ) : Type ℓ where
  pub list : List (Entry A)
  pub size : ℕ

-- `time_point::max()` of a clock with a 64-bit signed `rep`.
abbrev pub time_point_max : ℕ
time_point_max = 2 ^ 63 - 1

module _ {ℓ} {A : Type ℓ} where
  unfoldable pub new : Fifo A
  new = record { list = []; size = 0 }

  -- An entry whose payload has been taken away, its timer not armed.
  abbrev pub spent : Entry A
  spent = record { payload = none; timeout = none }

  pub drop_expired_front : List (Entry A) → List (Entry A)
  drop_expired_front [] = []
  drop_expired_front (e ∷ es) = elim e.payload [ none ↦ drop_expired_front es | some a ↦ e ∷ es ]

  unfoldable pub empty : Fifo A → Bool
  empty f = f.size == 0

  front_of : List (Entry A) → Option A
  front_of [] = none
  front_of (e ∷ es) = e.payload

  unfoldable pub front : Fifo A → Option A
  unfolding front_of
  front f = front_of f.list

  pub push_back : A → Fifo A → Fifo A
  push_back a f = record {
    list = f.list ++ record { payload = some a; timeout = none } ∷ [];
    size = word_add f.size 1;
  }

  unfoldable pub push_back_until : A → ℕ → Fifo A → Fifo A
  unfolding push_back
  push_back_until a timeout f =
      if ltb timeout time_point_max
      then record {
        list = f.list ++ record { payload = some a; timeout = some timeout } ∷ [];
        size = word_add f.size 1;
      }
      else push_back a f

  pop_list : List (Entry A) → Option (List (Entry A))
  unfolding drop_expired_front
  pop_list [] = none
  pop_list (e ∷ es) = some (drop_expired_front es)

  unfoldable pub pop_front : Fifo A → Option (Fifo A)
  unfolding pop_list
  pop_front f = elim (pop_list f.list) [
    | none ↦ none
    | some es ↦ some (record { list = es; size = word_sub f.size 1 })
  ]

  -- The body of the timer's callback, for the entry `e` at place `i`: the payload goes to the expiry
  -- handler. A timer that is not armed does not fire.
  fire : ℕ → Fifo A → Entry A → Option (A × Fifo A)
  unfolding drop_expired_front
  fire i f e = elim e.timeout [
    | none ↦ none
    | some t ↦ elim e.payload [
      | none ↦ none
      | some a ↦
          some
            (a, record { list = drop_expired_front (set f.list i spent); size = word_sub f.size 1 })
    ]
  ]

  unfoldable pub expire : ℕ → Fifo A → Option (A × Fifo A)
  unfolding fire
  expire i f = elim (get_elem? f.list i) [ none ↦ none | some e ↦ fire i f e ]

  -- `std::deque::resize(n)`: cuts the deque, or adds entries made by `entry() = default`.
  pub reserve : ℕ → Fifo A → Fifo A
  reserve n f = record f { list = take n f.list ++ replicate (n - length f.list) spent }
