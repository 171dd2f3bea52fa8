-- ===== src/Deleter.antt =====
-- include/util/deleter.hh: `deleter` and the objects that it owns. Memory is a function from addresses to
-- what stands there; `new` gives the address `top`. A deleter is its pointer `_impl`. `none`: an
-- assertion fails, or an object is used that is not there.
pub mod Chain
pub mod Append
pub mod Extend
pub mod Join
pub mod Both
pub mod Shared
pub mod Early
mod Tests
use mseastar.Prelude.{
  ℕ, zero, suc, ◌+◌, ◌-◌, ◌*◌, ◌/◌, ◌%◌, ◌^◌, Bool, true, false, not, Option, none, some, List, [],
  ◌∷◌, ◌++◌, ◌==◌, if◌then◌else◌,
}

-- `impl*`: null, an object to be freed directly, whose address has bit 0 set, or an `impl`
pub data ImplPointer : Type 0 where
  null : ImplPointer
  raw_object : ℕ → ImplPointer
  impl_at : ℕ → ImplPointer

-- What a deleter does: it frees memory, or runs a function or destructor, known by a number.
pub data Action : Type 0 where
  frees : ℕ → Action
  runs : ℕ → Action

-- The classes derived from `deleter::impl`. The last one is `object_deleter_impl` with a deleter.
pub data Object : Type 0 where
  lambda_deleter : Action → Object
  free_deleter : ℕ → Object
  object_deleter : ℕ → Object
  deleter_object : ImplPointer → Object

pub record Impl : Type 0 where
  pub refs : ℕ
  pub next : ImplPointer
  pub object : Object

-- The objects of type `impl`, the place of the next one, and what was done so far.
pub record Heap : Type 0 where
  pub impls : ℕ → Option Impl
  pub top : ℕ
  pub done : List Action

-- The number of values of `unsigned`
abbrev pub refs_values : ℕ
refs_values = 2 ^ 32

abbrev pub store : ℕ → Option Impl → (ℕ → Option Impl) → ℕ → Option Impl
store a i impls b = if b == a then i else impls b

abbrev pub set_impl : ℕ → Option Impl → Heap → Heap
set_impl a i h = record h { impls = store a i h.impls }

abbrev pub act : Action → Heap → Heap
act e h = record h { done = h.done ++ e ∷ [] }

-- `from_raw_object`, of which `to_raw_object` gives back the address without bit 0
abbrev pub from_raw_object : ℕ → ImplPointer
from_raw_object object = raw_object (object / 2 * 2)

-- `new`
abbrev pub new_impl : Impl → Heap → ImplPointer × Heap
new_impl i h = (impl_at h.top, record (set_impl h.top (some i) h) { top = h.top + 1 })

-- The destructor of a derived class, and of its member
abbrev pub destroy_object : (ImplPointer → Heap → Option Heap) → Object → Heap → Option Heap
destroy_object destroy (lambda_deleter e) h = some (act e h)
destroy_object destroy (free_deleter p) h = some (act (frees p) h)
destroy_object destroy (object_deleter n) h = some (act (runs n) h)
destroy_object destroy (deleter_object d) h = destroy d h

abbrev pub then_heap : Option Heap → (Heap → Option Heap) → Option Heap
then_heap none k = none
then_heap (some h) k = k h

-- `delete _impl`: the object, then the deleter `next`, then the memory
abbrev pub delete_impl : (ImplPointer → Heap → Option Heap) → ℕ → Impl → Heap → Option Heap
delete_impl destroy a i h =
    then_heap (destroy_object destroy i.object h)
      (λ g. then_heap (destroy i.next g) (λ k. some (set_impl a none k)))

-- `--_impl->refs == 0`
abbrev pub release : (ImplPointer → Heap → Option Heap) → ℕ → Option Impl → Heap → Option Heap
release destroy a none h = none
release destroy a (some i) h =
    let refs = (i.refs + refs_values - 1) % refs_values in
    let counted = set_impl a (some (record i { refs = refs })) h in
    if refs == 0 then delete_impl destroy a i counted else some counted

-- The destructor; the first number bounds how many deleters are destroyed within one another.
unfoldable pub destroy : ℕ → ImplPointer → Heap → Option Heap
destroy fuel null h = some h
destroy fuel (raw_object p) h = some (act (frees p) h)
destroy zero (impl_at a) h = none
destroy (suc fuel) (impl_at a) h = release (destroy fuel) a (h.impls a) h

-- `++_impl->refs`: the deleter itself, and the one that is returned
abbrev pub count_ref : ℕ → Option Impl → Heap → Option (ImplPointer × (ImplPointer × Heap))
count_ref a none h = none
count_ref a (some i) h =
    some
      (impl_at a, (impl_at a, set_impl a (some (record i { refs = (i.refs + 1) % refs_values })) h))

unfoldable pub share_deleter : ImplPointer → Heap → Option (ImplPointer × (ImplPointer × Heap))
share_deleter null h = some (null, (null, h))
share_deleter (raw_object p) h =
    let made = (new_impl (record { refs = 1; next = null; object = free_deleter p }) h).1 in
    count_ref h.top (made.impls h.top) made
share_deleter (impl_at a) h = count_ref a (h.impls a) h

-- `next_d`: the deleter that is appended to, or the member `next` of an `impl`
pub data Place : Type 0 where
  itself : Place
  next_of : ℕ → Place

abbrev pub with_next : ImplPointer → Option Impl → Option Impl
with_next d none = none
with_next d (some i) = some (record i { next = d })

-- `next_d->_impl = …`, of the deleter that is appended to and the heap
abbrev pub write_place : Place → ImplPointer → ImplPointer × Heap → ImplPointer × Heap
write_place itself d s = (d, s.1)
write_place (next_of a) d s = (s.0, set_impl a (with_next d (s.1.impls a)) s.1)

abbrev pub same_pointer : ImplPointer → ImplPointer → Bool
same_pointer null null = true
same_pointer (raw_object p) (raw_object q) = p == q
same_pointer (impl_at a) (impl_at b) = a == b
same_pointer _ _ = false

-- An object to be freed directly gets an `impl`.
abbrev pub unwrap_raw :
    Place → ImplPointer → ImplPointer × Heap → ImplPointer × (ImplPointer × Heap)
unwrap_raw place (raw_object p) (self, h) =
    let made = new_impl (record { refs = 1; next = null; object = free_deleter p }) h in
    (made.0, write_place place made.0 (self, made.1))
unwrap_raw place d s = (d, s)

-- An `impl` that others share is put into a new one, with what stood behind it.
abbrev pub wrap_shared :
    Place → ℕ → Option Impl → ImplPointer × Heap → Option (ℕ × (ImplPointer × Heap))
wrap_shared place a none s = none
wrap_shared place a (some i) (self, h) =
    if i.refs == 1
    then some (a, (self, h))
    else let moved = set_impl a (some (record i { next = null })) h in
      let made =
        new_impl (record { refs = 1; next = i.next; object = deleter_object (impl_at a) }) moved in
      some (moved.top, write_place place made.0 (self, made.1))

abbrev pub next_in : ℕ → Heap → ImplPointer
next_in a h = elim (h.impls a) [ none ↦ null | some i ↦ i.next ]

-- `next_d = &next_impl->next`, and the rest of the loop
abbrev pub go_on :
    (Place → ImplPointer → ImplPointer × Heap → Option (ImplPointer × Heap))
    → Option (ℕ × (ImplPointer × Heap))
    → Option (ImplPointer × Heap)
go_on loop none = none
go_on loop (some (b, (self, h))) = loop (next_of b) (next_in b h) (self, h)

-- A round of the loop with the rest of it
abbrev pub append_round :
    (Place → ImplPointer → ImplPointer × Heap → Option (ImplPointer × Heap))
    → Place
    → ImplPointer × (ImplPointer × Heap)
    → Option (ImplPointer × Heap)
append_round loop place (impl_at a, (self, h)) =
    go_on loop (wrap_shared place a (h.impls a) (self, h))
append_round loop place (_, s) = none

-- The loop of `append` and the write behind it, for a deleter `d`; the first number bounds its rounds.
unfoldable pub append_loop :
    ℕ → ImplPointer → Place → ImplPointer → ImplPointer × Heap → Option (ImplPointer × Heap)
append_loop fuel d place null s = some (write_place place d s)
append_loop zero d place _ s = none
append_loop (suc fuel) d place next s =
    if same_pointer next d
    then none
    else append_round (append_loop fuel d) place (unwrap_raw place next s)

-- `append`: the deleter afterwards, and the heap
unfoldable pub append_deleter : ℕ → ImplPointer → ImplPointer → Heap → Option (ImplPointer × Heap)
append_deleter rounds self null h = some (self, h)
append_deleter rounds self d h = append_loop rounds d itself self (self, h)

-- `make_deleter` and `make_object_deleter`, with a deleter that comes next, which may be none
abbrev pub make_deleter : ImplPointer → Object → Heap → ImplPointer × Heap
make_deleter next object h = new_impl (record { refs = 1; next = next; object = object }) h

abbrev pub make_free_deleter : ℕ → ImplPointer
make_free_deleter obj = if obj == 0 then null else from_raw_object obj

-- `reset`
abbrev pub reset_deleter : ℕ → ImplPointer → ImplPointer → Heap → Option (ImplPointer × Heap)
reset_deleter fuel self i h = elim (destroy fuel self h) [ none ↦ none | some g ↦ some (i, g) ]

-- The move assignment: the deleter and the other one afterwards; the flag tells whether they are one object.
abbrev pub assign_deleter :
    Bool → ℕ → ImplPointer → ImplPointer → Heap → Option (ImplPointer × (ImplPointer × Heap))
assign_deleter true fuel self x h = some (self, (x, h))
assign_deleter false fuel self x h = elim (destroy fuel self h) [
  | none ↦ none
  | some g ↦ some (x, (null, g))
]
