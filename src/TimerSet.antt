-- ===== src/TimerSet.antt =====
-- include/future/timer.hh: `timer_set`, the timers of a reactor in 64 buckets by how soon they expire.
-- A timestamp is the `int64_t` count of a time point since the clock's epoch, which is not negative.
-- A timer is its address and its timeout. `_buckets` and `_non_empty_buckets` are functions of the
-- bucket's number, which is below 64.
pub mod Index
pub mod Inv
pub mod Remove
pub mod Splice
pub mod Drain
pub mod Moved
pub mod Next
pub mod Expire
mod Tests
use Prim.Native.Nat.{bit_xor}
use mseastar.Bits.{count_leading_zeros}
use mseastar.Bitset.{any, for_each_set, get_last_set}
use mseastar.Prelude.{
  ℕ, zero, suc, ◌+◌, ◌-◌, ◌^◌, Bool, true, false, Option, none, some, List, [], ◌∷◌, ◌++◌, ltb, leb,
  ◌==◌, ◌&&◌, if◌then◌else◌, min, max, length,
}

pub record Timer : Type 0 where
  pub id : ℕ
  pub timeout : ℕ

abbrev pub max_timestamp : ℕ
max_timestamp = 2 ^ 63 - 1

abbrev pub n_buckets : ℕ
n_buckets = 64

pub record TimerSet : Type 0 where
  pub buckets : ℕ → List Timer
  pub last : ℕ
  pub next : ℕ
  pub non_empty : ℕ → Bool

abbrev pub update {ℓ} : {A : Type ℓ} → (ℕ → A) → ℕ → A → ℕ → A
update f i v j = if i == j then v else f j

abbrev pub is_nil {ℓ} : {A : Type ℓ} → List A → Bool
is_nil [] = true
is_nil (x ∷ xs) = false

-- The bits of `_non_empty_buckets`: `n` of them, from place `i` on.
abbrev pub bits : (ℕ → Bool) → ℕ → ℕ → List Bool
bits f zero i = []
bits f (suc n) i = f i ∷ bits f n (suc i)

unfoldable pub init : TimerSet
init = record { buckets = λ _. []; last = 0; next = max_timestamp; non_empty = λ _. false }

-- What `get_index(timestamp)` gives where its assertion holds; `last` is `_last`.
pub get_index : ℕ → ℕ → ℕ
get_index last timestamp =
    if leb timestamp last then n_buckets - 1 else count_leading_zeros (bit_xor timestamp last)

-- `get_index` with its assertion; `none` where it fails, which `Index.checked_index-some` shows never to
-- happen.
unfoldable pub checked_index : ℕ → ℕ → Option ℕ
checked_index last timestamp =
    if leb timestamp last
    then some (n_buckets - 1)
    else let index = count_leading_zeros (bit_xor timestamp last) in
      if ltb index (n_buckets - 1) then some index else none

-- The `bool` says that `_next` has become smaller.
unfoldable pub insert : Timer → TimerSet → TimerSet × Bool
insert t s =
    let index = get_index s.last t.timeout in
    let s' = record s {
      buckets = update s.buckets index (s.buckets index ++ t ∷ []);
      non_empty = update s.non_empty index true;
    } in
    if ltb t.timeout s.next then (record s' { next = t.timeout }, true) else (s', false)

unfoldable pub same_timer : Timer → Timer → Bool
same_timer t u = t.id == u.id && t.timeout == u.timeout

-- `list.erase(timer.it)`: takes the timer's own node away.
pub erase : Timer → List Timer → List Timer
erase t [] = []
erase t (u ∷ us) = if same_timer t u then us else u ∷ erase t us

pub remove : Timer → TimerSet → TimerSet
remove t s =
    let index = get_index s.last t.timeout in
    let list = erase t (s.buckets index) in
    record s {
      buckets = update s.buckets index list;
      non_empty = if is_nil list then update s.non_empty index false else s.non_empty;
    }

-- The first loop of `expire`: whole buckets move to the expired list.
pub splice : List ℕ → TimerSet × List Timer → TimerSet × List Timer
splice [] (s, exp) = (s, exp)
splice (i ∷ is) (s, exp) = splice is (
  record s { buckets = update s.buckets i []; non_empty = update s.non_empty i false },
  exp ++ s.buckets i,
)

-- The second loop: the timers of bucket `index` expire or are inserted again. `none`: out of fuel.
pub drain : ℕ → ℕ → ℕ → TimerSet × List Timer → Option (TimerSet × List Timer)
drain zero index now (s, exp) = if is_nil (s.buckets index) then some (s, exp) else none
drain (suc fuel) index now (s, exp) = elim (s.buckets index) [
  | [] ↦ some (s, exp)
  | t ∷ rest ↦
      let popped = record s { buckets = update s.buckets index rest } in
      elim (leb t.timeout now) [
        | true ↦ drain fuel index now (popped, exp ++ t ∷ [])
        | false ↦ drain fuel index now ((insert t popped).0, exp)
      ]
]

abbrev pub min_timeout : List Timer → ℕ → ℕ
min_timeout [] next = next
min_timeout (t ∷ ts) next = min_timeout ts (min next t.timeout)

-- The end of `expire`: `_next` from the last bucket that is not empty, if no timer has set it.
pub settle_next : TimerSet → TimerSet
settle_next s =
    if s.next == max_timestamp && any (bits s.non_empty n_buckets 0)
    then record s {
      next = min_timeout (s.buckets (get_last_set (bits s.non_empty n_buckets 0))) s.next;
    }
    else s

finish : ℕ → Option (TimerSet × List Timer) → Option (TimerSet × List Timer)
finish index none = none
finish index (some (s, exp)) = some (
  settle_next (record s {
    non_empty = update s.non_empty index (if is_nil (s.buckets index) then false else true);
  }),
  exp,
)

-- `none`: the clock has gone back, where the source aborts.
pub expire : ℕ → TimerSet → Option (TimerSet × List Timer)
expire now s =
    let index = get_index s.last now in
    let (s', exp) = splice (for_each_set (bits s.non_empty n_buckets 0) (index + 1)) (s, []) in
    let due = record s' { last = now; next = max_timestamp } in
    if ltb now s.last
    then none
    else finish index (drain (length (due.buckets index)) index now (due, exp))

pub get_next_timeout : TimerSet → ℕ
get_next_timeout s = max s.last s.next

pub clear : TimerSet → TimerSet
clear s = record s { buckets = λ _. []; non_empty = λ _. false }

sizes : (ℕ → List Timer) → ℕ → ℕ
sizes f zero = 0
sizes f (suc n) = sizes f n + length (f n)

pub size : TimerSet → ℕ
size s = sizes s.buckets n_buckets

pub empty : TimerSet → Bool
empty s = if any (bits s.non_empty n_buckets 0) then false else true
