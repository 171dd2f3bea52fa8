-- ===== src/ChunkedFifo/Tests.antt =====
-- include/future/chunked_fifo.hh: runs, and queues at which the theorems apply.
use mseastar.Prelude.{
  ℕ, ◌≡◌, refl, ap, ◌+◌, ◌-◌, ◌*◌, ◌≤◌, ◌^◌, none, some, List, [], ◌∷◌, length, arith,
}
use mseastar.ChunkedFifo.{
  Chunk, ChunkedFifo, emplace_back, pop_front, front, reserve, needed_chunks, items_per_chunk, uint,
}
use mseastar.ChunkedFifo.Shape.{IsValid, contents}
use mseastar.ChunkedFifo.Push.{Restores, emplace_back-none}
use mseastar.ChunkedFifo.Pop.{Pops, pop_front_lem}
use mseastar.ChunkedFifo.Room.{reserve_lem, needed_chunks-wraps, room}
use mseastar.ChunkedFifo.Refine.{Op, push, pop, run, queue_run, Represents, run_lem}

-- A chunk whose counters have wrapped around: two items, at the places 127 and 0.
abbrev ring : Chunk ℕ
ring = record { items = λ j. some j; begin = uint - 1; end = 1 }

abbrev one_chunk : ChunkedFifo ℕ
one_chunk = record { chunks = ring ∷ []; nchunks = 1; free_chunks = []; nfree_chunks = 0 }

one_chunk-IsValid : IsValid one_chunk
one_chunk-IsValid = ((((omega arith, omega arith), (omega arith, omega arith)), tt), (refl, refl))

one_chunk-contents : contents one_chunk ≡ some 127 ∷ some 0 ∷ []
unfolding contents
one_chunk-contents = refl

emplace_back-none_example : Restores one_chunk (emplace_back one_chunk none)
emplace_back-none_example = emplace_back-none one_chunk one_chunk-IsValid (omega arith)

pop_front_lem_example :
    (front one_chunk ≡ some 127) × Pops (some 127) (some 0 ∷ []) (pop_front one_chunk)
pop_front_lem_example =
    pop_front_lem one_chunk (some 127) (some 0 ∷ []) one_chunk-IsValid one_chunk-contents

reserve_lem_example :
    300 - length (contents one_chunk)
    ≤ room one_chunk + items_per_chunk * length (reserve 300 one_chunk).free_chunks
reserve_lem_example =
    reserve_lem one_chunk 300 one_chunk-IsValid (omega arith)
      (omega (arith, ap length one_chunk-contents)) (omega arith)

needed_chunks-wraps_example : 2 ^ 56 ≤ needed_chunks one_chunk 0
needed_chunks-wraps_example =
    needed_chunks-wraps one_chunk 0 one_chunk-IsValid (omega (arith, ap length one_chunk-contents))
      (omega (arith, ap length one_chunk-contents))

abbrev ops : List (Op ℕ)
ops = push 5 ∷ pop ∷ pop ∷ pop ∷ pop ∷ []

one_chunk-Represents : Represents one_chunk (127 ∷ 0 ∷ [])
one_chunk-Represents = (one_chunk-IsValid, one_chunk-contents)

run_lem_example :
    (t : ChunkedFifo ℕ) × ((run ops one_chunk ≡ some (t, (queue_run ops (127 ∷ 0 ∷ [])).1))
      × Represents t (queue_run ops (127 ∷ 0 ∷ [])).0)
run_lem_example = run_lem ops one_chunk (127 ∷ 0 ∷ []) one_chunk-Represents
