-- ===== src/ChunkedFifo/Shape.antt =====
-- include/future/chunked_fifo.hh: the invariant of a `chunked_fifo`, and the items that it holds.
use mseastar.Prelude.{
  ℕ, suc, ◌+◌, ◌-◌, ◌%◌, ◌<◌, ◌≤◌, ◌≡◌, sym, ap, ap₂, ◌∙◌, Option, none, some, List, [], ◌∷◌, ◌++◌,
  arith, length, word,
}
use mseastar.ChunkedFifo.{
  Chunk, ChunkedFifo, count, uint, items_per_chunk, mask, write, construct, destroy,
}
use mseastar.ChunkedFifo.Cells.{cells, cells-push, cells-mask, cells-write_outside}

module _ {A : Type 0} where
  -- A chunk whose two counters are in range, and that holds from `lo` to `items_per_chunk` items.
  abbrev pub Holds : ℕ → Chunk A → Type 0
  Holds lo c = (c.begin < uint × c.end < uint) × (lo ≤ count c × count c ≤ items_per_chunk)

  -- The chunks that follow the front one: all but the last are full.
  abbrev pub Rest : List (Chunk A) → Type 0
  Rest [] = Unit
  Rest (c ∷ []) = Holds 1 c
  Rest (c ∷ d ∷ cs) = Holds items_per_chunk c × Rest (d ∷ cs)

  abbrev pub Shape : List (Chunk A) → Type 0
  Shape [] = Unit
  Shape (c ∷ cs) = Holds 1 c × Rest cs

  abbrev pub IsValid : ChunkedFifo A → Type 0
  IsValid s =
      Shape s.chunks
      × ((s.nchunks ≡ length s.chunks % word) × (s.nfree_chunks ≡ length s.free_chunks % word))

  abbrev pub held : Chunk A → List (Option A)
  held c = cells c.items c.begin (count c)

  abbrev pub contents_of : List (Chunk A) → List (Option A)
  contents_of [] = []
  contents_of (c ∷ cs) = held c ++ contents_of cs

  unfoldable pub contents : ChunkedFifo A → List (Option A)
  contents s = contents_of s.chunks

  pub construct-Holds :
      (c : Chunk A) (x : A) → Holds 0 c → count c < items_per_chunk → Holds 1 (construct c x)
  unfolding construct
  construct-Holds c x h k = let (b, e) = h.0 in ((b, omega arith), (omega arith, omega arith))

  pub count-construct :
      (c : Chunk A) (x : A)
      → Holds 0 c
      → count c < items_per_chunk
      → count (construct c x) ≡ suc (count c)
  unfolding construct
  count-construct c x h k = let (b, e) = h.0 in omega arith

  pub held-construct :
      (c : Chunk A) (x : A)
      → Holds 0 c
      → count c < items_per_chunk
      → held (construct c x) ≡ held c ++ some x ∷ []
  unfolding construct
  held-construct c x h k =
      let (b, e) = h.0 in
      let p : mask c.end ≡ mask (c.begin + count c) = omega arith in
      let n : (((c.end + 1) % uint + uint - c.begin) % uint) ≡ suc (count c) = omega arith in
      ap₂ (λ q m. cells (write c.items q (some x)) c.begin m) p n
      ∙ cells-push c.items c.begin (count c) (some x) k

  -- The front item of a chunk that has one, and the chunk without it.
  pub count-destroy : (c : Chunk A) → Holds 1 c → suc (count (destroy c)) ≡ count c
  unfolding destroy
  count-destroy c h = let ((b, e), (l, u)) = h in omega arith

  pub destroy-Holds : (c : Chunk A) → Holds 1 c → Holds 0 (destroy c)
  unfolding destroy
  destroy-Holds c h = let ((b, e), (l, u)) = h in ((omega arith, e), (omega arith, omega arith))

  pub held-destroy : (c : Chunk A) → Holds 1 c → held c ≡ c.items (mask c.begin) ∷ held (destroy c)
  unfolding destroy
  held-destroy c h =
      let ((b, e), (l, u)) = h in
      let n = (c.end + uint - ((c.begin + 1) % uint)) % uint in
      let s : count c ≡ suc n = omega arith in
      let m : mask (c.begin + 1) ≡ mask ((c.begin + 1) % uint) = omega arith in
      let k : 1 + n ≤ items_per_chunk = omega arith in
      let o : 1 ≤ 1 = omega arith in
      ap (cells c.items c.begin) s
      ∙ ap (λ t. c.items (mask c.begin) ∷ t)
          (sym (cells-write_outside c.items c.begin 1 n none o k)
            ∙ cells-mask (write c.items (mask c.begin) none) (c.begin + 1) ((c.begin + 1) % uint) n
                m)
