-- ===== src/ChunkedFifo.antt =====
-- include/future/chunked_fifo.hh: `chunked_fifo`, at its default chunk size, with which the
-- repository instantiates it. The linked list of chunks is the list of its chunks, the front one
-- first, so `_front_chunk` is its head and `_back_chunk` its last one. A cell is `none` while its
-- storage is uninitialised. `none` of an operation is undefined behaviour.
pub mod Cells
pub mod Shape
pub mod Chain
pub mod Push
pub mod Pop
pub mod Room
pub mod Back
pub mod Refine
mod Tests
use mseastar.Prelude.{
  ℕ, zero, suc, ◌+◌, ◌-◌, ◌*◌, ◌/◌, ◌%◌, ◌^◌, Bool, true, false, Option, none, some, List, [], ◌∷◌,
  ◌++◌, leb, ◌==◌, if◌then◌else◌, word_add, word_sub, word,
}

abbrev pub items_per_chunk : ℕ
items_per_chunk = 128

abbrev pub save_free_chunks : ℕ
save_free_chunks = 1

-- `unsigned`
abbrev pub uint : ℕ
uint = 2 ^ 32

pub record Chunk (A : Type 0) : Type 0 where
  pub items : ℕ → Option A
  pub begin : ℕ
  pub end : ℕ

pub record ChunkedFifo (A : Type 0) : Type 0 where
  pub chunks : List (Chunk A)
  pub nchunks : ℕ
  pub free_chunks : List (Chunk A)
  pub nfree_chunks : ℕ

-- `idx & (items_per_chunk - 1)`, of a power of two
abbrev pub mask : ℕ → ℕ
mask idx = idx % items_per_chunk

-- `end - begin` on `unsigned`
abbrev pub count : {A : Type 0} → Chunk A → ℕ
count c = (c.end + uint - c.begin) % uint

abbrev pub write : {A : Type 0} → (ℕ → Option A) → ℕ → Option A → ℕ → Option A
write items i v j = if j == i then v else items j

abbrev pub last_of : {A : Type 0} → List A → Option A
last_of [] = none
last_of (c ∷ []) = some c
last_of (c ∷ d ∷ cs) = last_of (d ∷ cs)

abbrev pub set_last : {A : Type 0} → List A → A → List A
set_last [] v = []
set_last (c ∷ []) v = v ∷ []
set_last (c ∷ d ∷ cs) v = c ∷ set_last (d ∷ cs) v

module _ {A : Type 0} where
  pub new_chunk : Chunk A
  new_chunk = record { items = λ i. none; begin = 0; end = 0 }

  pub new : ChunkedFifo A
  new = record { chunks = []; nchunks = 0; free_chunks = []; nfree_chunks = 0 }

  abbrev pub empty_chunks : List (Chunk A) → Bool
  empty_chunks [] = true
  empty_chunks (c ∷ cs) = false

  pub empty : ChunkedFifo A → Bool
  empty s = empty_chunks s.chunks

  abbrev pub size_of : List (Chunk A) → ℕ → ℕ
  size_of [] n = 0
  size_of (c ∷ []) n = count c
  size_of (c ∷ d ∷ cs) n = elim (last_of (d ∷ cs)) [
    | none ↦ 0
    | some b ↦
        word_add ((count c + b.end + uint - b.begin) % uint) (word_sub n 2 * items_per_chunk % word)
  ]

  pub size : ChunkedFifo A → ℕ
  size s = size_of s.chunks s.nchunks

  -- A chunk of the free list keeps its cells.
  pub reuse : Chunk A → Chunk A
  reuse c = record c { begin = 0; end = 0 }

  abbrev pub take_chunk : ChunkedFifo A → List (Chunk A) → Chunk A × (List (Chunk A) × ℕ)
  take_chunk s [] = (new_chunk, ([], s.nfree_chunks))
  take_chunk s (c ∷ cs) = (c, (cs, word_sub s.nfree_chunks 1))

  pub back_chunk_new : ChunkedFifo A → ChunkedFifo A
  back_chunk_new s =
      let t : Chunk A × (List (Chunk A) × ℕ) = take_chunk s s.free_chunks in
      record {
        chunks = s.chunks ++ reuse t.0 ∷ [];
        nchunks = word_add s.nchunks 1;
        free_chunks = t.1.0;
        nfree_chunks = t.1.1;
      }

  pub ensure_room_back : ChunkedFifo A → ChunkedFifo A
  ensure_room_back s = elim (last_of s.chunks) [
    | none ↦ back_chunk_new s
    | some b ↦ if count b == items_per_chunk then back_chunk_new s else s
  ]

  -- The search from the front for the chunk whose `next` is the last one, which it then ends with.
  abbrev pub drop_last : List (Chunk A) → List (Chunk A)
  drop_last [] = []
  drop_last (c ∷ []) = []
  drop_last (c ∷ d ∷ cs) = c ∷ drop_last (d ∷ cs)

  pub undo_room_back : ChunkedFifo A → Option (ChunkedFifo A)
  undo_room_back s = elim (last_of s.chunks) [
    | none ↦ none
    | some b ↦
        if b.begin == b.end
        then some (record s {
          nchunks = word_sub s.nchunks 1;
          chunks = if word_sub s.nchunks 1 == 0 then [] else drop_last s.chunks;
        })
        else some s
  ]

  -- The cell is constructed in place, then `end` goes up.
  pub construct : Chunk A → A → Chunk A
  construct b x = record b { items = write b.items (mask b.end) (some x); end = (b.end + 1) % uint }

  -- `emplace_back` and both `push_back`: the constructor gives the item, or throws (`none`). The
  -- flag says whether the exception is thrown again.
  abbrev pub emplace_at : ChunkedFifo A → Option A → Option (ChunkedFifo A × Bool)
  emplace_at s none = elim (undo_room_back s) [ none ↦ none | some t ↦ some (t, true) ]
  emplace_at s (some x) = elim (last_of s.chunks) [
    | none ↦ none
    | some b ↦ some (record s { chunks = set_last s.chunks (construct b x) }, false)
  ]

  pub emplace_back : ChunkedFifo A → Option A → Option (ChunkedFifo A × Bool)
  emplace_back s made = emplace_at (ensure_room_back s) made

  pub back : ChunkedFifo A → Option A
  back s = elim (last_of s.chunks) [
    | none ↦ none
    | some b ↦ b.items (mask ((b.end + uint - 1) % uint))
  ]

  abbrev pub front_cell : List (Chunk A) → Option A
  front_cell [] = none
  front_cell (c ∷ cs) = c.items (mask c.begin)

  pub front : ChunkedFifo A → Option A
  front s = front_cell s.chunks

  -- `front_chunk_delete` of the front chunk `c`, which `cs` follow.
  pub front_chunk_delete : ChunkedFifo A → Chunk A → List (Chunk A) → ChunkedFifo A
  front_chunk_delete s c cs =
      let keep = leb save_free_chunks s.nfree_chunks in
      record {
        chunks = cs;
        nchunks = word_sub s.nchunks 1;
        free_chunks = if keep then s.free_chunks else c ∷ s.free_chunks;
        nfree_chunks = if keep then s.nfree_chunks else word_add s.nfree_chunks 1;
      }

  -- The front cell is destroyed, then `begin` goes up.
  pub destroy : Chunk A → Chunk A
  destroy c = record c { items = write c.items (mask c.begin) none; begin = (c.begin + 1) % uint }

  abbrev pub pop_at : ChunkedFifo A → List (Chunk A) → Option (ChunkedFifo A)
  pop_at s [] = none
  pop_at s (c ∷ cs) =
      let d = destroy c in
      some (if d.begin == d.end then front_chunk_delete s d cs else record s { chunks = d ∷ cs })

  pub pop_front : ChunkedFifo A → Option (ChunkedFifo A)
  pop_front s = pop_at s s.chunks

  -- `while (!empty()) pop_front();` within so many rounds
  pub clear : ℕ → ChunkedFifo A → Option (ChunkedFifo A)
  clear zero s = if empty s then some s else none
  clear (suc fuel) s =
      if empty s then some s else elim (pop_front s) [ none ↦ none | some t ↦ clear fuel t ]

  abbrev pub free_loop : List (Chunk A) → List (Chunk A)
  free_loop [] = []
  free_loop (c ∷ cs) = free_loop cs

  pub shrink_to_fit : ChunkedFifo A → ChunkedFifo A
  shrink_to_fit s = record s { free_chunks = free_loop s.free_chunks; nfree_chunks = 0 }

  pub destructor : ℕ → ChunkedFifo A → Option (ChunkedFifo A)
  destructor fuel s = elim (clear fuel s) [ none ↦ none | some t ↦ some (shrink_to_fit t) ]

  -- The move constructor: the new queue, and what it leaves of the old one.
  pub move_from : ChunkedFifo A → ChunkedFifo A × ChunkedFifo A
  move_from x = (x, new)

  -- `*this = std::move(x)` for another queue `x`: `*this`, and what is left of `x`
  pub move_assign : ℕ → ChunkedFifo A → ChunkedFifo A → Option (ChunkedFifo A × ChunkedFifo A)
  move_assign fuel s x = elim (destructor fuel s) [ none ↦ none | some t ↦ some (move_from x) ]

  pub need_of : ChunkedFifo A → ℕ → ℕ
  need_of s n =
      let need = word_sub n (size s) in
      elim (last_of s.chunks) [
        | none ↦ need
        | some b ↦ word_sub need (word_sub items_per_chunk (count b))
      ]

  pub needed_chunks : ChunkedFifo A → ℕ → ℕ
  needed_chunks s n = word_sub (word_add (need_of s n) items_per_chunk) 1 / items_per_chunk

  pub allocate : ℕ → ChunkedFifo A → ChunkedFifo A
  allocate zero s = s
  allocate (suc k) s =
      let t = record s {
        free_chunks = new_chunk ∷ s.free_chunks;
        nfree_chunks = word_add s.nfree_chunks 1;
      } in
      allocate k t

  pub reserve : ℕ → ChunkedFifo A → ChunkedFifo A
  reserve n s =
      let needed = needed_chunks s n in
      if leb needed s.nfree_chunks then s else allocate (needed - s.nfree_chunks) s
