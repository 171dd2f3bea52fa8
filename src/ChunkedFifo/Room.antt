-- ===== src/ChunkedFifo/Room.antt =====
-- include/future/chunked_fifo.hh: `size`, and the room that `reserve` makes.
use mseastar.Prelude.{
  ℕ, zero, suc, ◌+◌, ◌-◌, ◌*◌, ◌%◌, ◌^◌, ◌<◌, ◌≤◌, ◌≡◌, refl, ap, ◌∙◌, Option, none, some, List, [],
  ◌∷◌, ◌++◌, arith, length, append-nil, word, length-append, Option-cases, Bool-cases, inl, inr,
  leb, word_add, word_sub,
}
use mseastar.ChunkedFifo.{
  Chunk, ChunkedFifo, count, uint, items_per_chunk, last_of, size, size_of, need_of, needed_chunks,
  allocate, reserve, new_chunk,
}
use mseastar.ChunkedFifo.Shape.{Rest, Shape, IsValid, held, contents_of, contents}
use mseastar.ChunkedFifo.Chain.{last_of-Shape, last_of-some}
use mseastar.ChunkedFifo.Cells.{length-cells}

module _ {A : Type 0} where
  -- The items after the front chunk: full chunks, and those of the last one.
  length-Rest :
      (c : Chunk A) (cs : List (Chunk A)) (b : Chunk A)
      → Rest (c ∷ cs)
      → last_of (c ∷ cs) ≡ some b
      → length (contents_of (c ∷ cs)) ≡ length cs * items_per_chunk + count b
  length-Rest c [] b h e =
      let g : c ≡ b = ground arith in
      let l : length (held c ++ []) ≡ count b =
        ap length (append-nil (held c)) ∙ length-cells c.items c.begin (count c) ∙ ap count g in
      omega (arith, l)
  length-Rest c (d ∷ cs) b h e =
      let r = length-Rest d cs b h.1 e in
      let l = length-append (held c) (contents_of (d ∷ cs)) in
      let m = length-cells c.items c.begin (count c) in omega (arith, r, l, m, h.0)

  size_of_lem :
      (cs : List (Chunk A)) (n : ℕ)
      → Shape cs
      → n ≡ length cs % word
      → size_of cs n ≡ length (contents_of cs) % word
  size_of_lem [] n h e = refl
  size_of_lem (c ∷ []) n h e =
      let l : length (contents_of (c ∷ [])) ≡ count c =
        ap length (append-nil (held c)) ∙ length-cells c.items c.begin (count c) in
      omega (arith, l, h.0)
  size_of_lem (c ∷ d ∷ cs) n h e =
      let (b, g) = last_of-some d cs in
      let r = length-Rest d cs b h.1 g in
      let l = length-append (held c) (contents_of (d ∷ cs)) in
      let m = length-cells c.items c.begin (count c) in
      let hb = last_of-Shape (c ∷ d ∷ cs) b h g in
      let k : (count c + b.end + uint - b.begin) % uint ≡ count c + count b =
        omega (arith, hb, h.0) in
      rw (g, size_of) (omega (arith, k, r, l, m, e))

  -- The size of a valid queue, which is worked out from the chunks' counters, is the number of its
  -- items, modulo 2 ^ 64.
  pub size_lem : (s : ChunkedFifo A) → IsValid s → size s ≡ length (contents s) % word
  unfolding size contents
  size_lem s h = size_of_lem s.chunks s.nchunks h.0 h.1.0

  -- The pushes that the last chunk has room for.
  abbrev pub room_of : Option (Chunk A) → ℕ
  room_of none = 0
  room_of (some b) = items_per_chunk - count b

  abbrev pub room : ChunkedFifo A → ℕ
  room s = room_of (last_of s.chunks)

  length-allocate :
      (k : ℕ) (s : ChunkedFifo A) → length (allocate k s).free_chunks ≡ k + length s.free_chunks
  unfolding allocate
  length-allocate zero s = omega arith
  length-allocate (suc k) s = omega (
    arith,
    length-allocate k (record s {
      free_chunks = new_chunk ∷ s.free_chunks;
      nfree_chunks = word_add s.nfree_chunks 1;
    }),
  )

  need_of-none :
      (s : ChunkedFifo A) (n : ℕ) → last_of s.chunks ≡ none → need_of s n ≡ word_sub n (size s)
  unfolding need_of
  need_of-none s n e = rw (e, need_of) refl

  need_of-some :
      (s : ChunkedFifo A) (n : ℕ) (b : Chunk A)
      → last_of s.chunks ≡ some b
      → need_of s n ≡ word_sub (word_sub n (size s)) (word_sub items_per_chunk (count b))
  unfolding need_of
  need_of-some s n b e = rw (e, need_of) refl

  -- The chunks that are needed, for a number of items that is not below those held.
  needed_chunks-enough :
      (s : ChunkedFifo A) (n : ℕ)
      → IsValid s
      → length (contents s) ≤ n
      → n + items_per_chunk < word
      → n - length (contents s) ≤ room s + items_per_chunk * needed_chunks s n
  unfolding needed_chunks
  needed_chunks-enough s n h k l =
      let z = size_lem s h in
      elim (Option-cases (last_of s.chunks)) [
        | inl e ↦ rw e (omega (arith, need_of-none s n e, z))
        | inr (b, e) ↦
            let hb = last_of-Shape s.chunks b h.0 e in
            rw e (omega (arith, need_of-some s n b e, z, hb))
      ]

  -- After `reserve(n)` of a valid queue, the last chunk and the free ones have room for `n -
  -- size()` further items, when `n` is not below the size, `n + 128` is below 2 ^ 64 and fewer than
  -- 2 ^ 64 chunks were free.
  pub reserve_lem :
      (s : ChunkedFifo A) (n : ℕ)
      → IsValid s
      → length s.free_chunks < word
      → length (contents s) ≤ n
      → n + items_per_chunk < word
      → n - length (contents s) ≤ room s + items_per_chunk * length (reserve n s).free_chunks
  unfolding reserve
  reserve_lem s n h f k l =
      let e = needed_chunks-enough s n h k l in
      elim (Bool-cases (leb (needed_chunks s n) s.nfree_chunks)) [
        | inl g ↦
            let c : needed_chunks s n ≤ s.nfree_chunks = ground arith in
            rw g (omega (arith, e, c, h.1.1))
        | inr g ↦
            rw g (omega (arith, e, h.1.1, length-allocate (needed_chunks s n - s.nfree_chunks) s))
      ]

  -- `reserve(n)` of a valid queue of fewer than 2 ^ 62 items asks for 2 ^ 56 chunks and more when
  -- `n + 128` is not above the items that are held and those that the last chunk has room for.
  pub needed_chunks-wraps :
      (s : ChunkedFifo A) (n : ℕ)
      → IsValid s
      → length (contents s) < 2 ^ 62
      → n + items_per_chunk ≤ length (contents s) + room s
      → 2 ^ 56 ≤ needed_chunks s n
  unfolding needed_chunks
  needed_chunks-wraps s n h l k =
      let z = size_lem s h in
      elim (Option-cases (last_of s.chunks)) [
        | inl e ↦ let q : room s ≡ 0 = rw e refl in omega (arith, need_of-none s n e, z, q)
        | inr (b, e) ↦
            let hb = last_of-Shape s.chunks b h.0 e in
            let q : room s ≡ items_per_chunk - count b = rw e refl in
            omega (arith, need_of-some s n b e, z, hb, q)
      ]
