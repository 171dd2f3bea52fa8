-- ===== src/ChunkedFifo/Push.antt =====
-- include/future/chunked_fifo.hh: `emplace_back` and `push_back`.
use mseastar.Prelude.{
  ℕ, suc, ◌%◌, ◌<◌, ◌≤◌, ◌≡◌, refl, sym, ap, ◌∙◌, subst, Bool, true, false, Option, none, some,
  List, [], ◌∷◌, ◌++◌, arith, length, word, length-append, Option-cases, Bool-cases, inl, inr, ◌==◌,
  if◌then◌else◌, word_add, word_sub, ◌≢◌,
}
use mseastar.ChunkedFifo.{
  Chunk, ChunkedFifo, count, items_per_chunk, construct, last_of, set_last, drop_last, reuse,
  take_chunk, back_chunk_new, ensure_room_back, undo_room_back, emplace_back, emplace_at,
}
use mseastar.ChunkedFifo.Shape.{
  Holds, Shape, IsValid, held, contents_of, contents, construct-Holds, held-construct,
}
use mseastar.ChunkedFifo.Chain.{
  last_of-snoc, set_last-snoc, drop_last-snoc, last_of-Shape, last_of-some, set_last-Shape,
  snoc-Shape, length-set_last, contents_of-set_last, contents_of-snoc,
}
use mseastar.ChunkedFifo.Cells.{cells}

==_true : (n : ℕ) → (n == items_per_chunk) ≡ true → n ≡ items_per_chunk
==_true n h = ground arith

==_false : (n : ℕ) → n ≤ items_per_chunk → (n == items_per_chunk) ≡ false → n < items_per_chunk
==_false n k h = ground arith

module _ {A : Type 0} where
  -- What a push of `x` comes to.
  abbrev pub Pushes : ChunkedFifo A → A → Option (ChunkedFifo A × Bool) → Type 0
  Pushes s x r =
      (t : ChunkedFifo A) × ((r ≡ some (t, false))
        × (IsValid t × (contents t ≡ contents s ++ some x ∷ [])))

  -- What a constructor that throws comes to.
  abbrev pub Restores : ChunkedFifo A → Option (ChunkedFifo A × Bool) → Type 0
  Restores s r = (t : ChunkedFifo A) × ((r ≡ some (t, true)) × (IsValid t × (t.chunks ≡ s.chunks)))

  pub take_chunk-nfree :
      (s : ChunkedFifo A) (l : List (Chunk A))
      → s.nfree_chunks ≡ length l % word
      → (take_chunk s l).1.1 ≡ length (take_chunk s l).1.0 % word
  take_chunk-nfree s [] h = h
  take_chunk-nfree s (c ∷ cs) h = omega (arith, h)

  pub reuse-Holds : (c : Chunk A) → Holds 0 (reuse c)
  unfolding reuse
  reuse-Holds c = ((omega arith, omega arith), (omega arith, omega arith))

  pub reuse-count : (c : Chunk A) → count (reuse c) ≡ 0
  unfolding reuse
  reuse-count c = refl

  snoc_none :
      (cs : List (Chunk A)) (v : Chunk A) → Holds 1 v → last_of cs ≡ none → Shape (cs ++ v ∷ [])
  snoc_none [] v k e = (k, tt)
  snoc_none (c ∷ cs) v k e = let (b, f) = last_of-some c cs in ground arith

  emplace_at-some :
      (s : ChunkedFifo A) (b : Chunk A) (x : A)
      → last_of s.chunks ≡ some b
      → emplace_at s (some x)
        ≡ some (record s { chunks = set_last s.chunks (construct b x) }, false)
  emplace_at-some s b x e = rw (e, emplace_at) refl

  ensure_room_back-none :
      (s : ChunkedFifo A) → last_of s.chunks ≡ none → ensure_room_back s ≡ back_chunk_new s
  unfolding ensure_room_back
  ensure_room_back-none s e = rw (e, ensure_room_back) refl

  ensure_room_back-full :
      (s : ChunkedFifo A) (b : Chunk A)
      → last_of s.chunks ≡ some b
      → (count b == items_per_chunk) ≡ true
      → ensure_room_back s ≡ back_chunk_new s
  unfolding ensure_room_back
  ensure_room_back-full s b e f = rw (e, ensure_room_back) (rw f refl)

  ensure_room_back-room :
      (s : ChunkedFifo A) (b : Chunk A)
      → last_of s.chunks ≡ some b
      → (count b == items_per_chunk) ≡ false
      → ensure_room_back s ≡ s
  unfolding ensure_room_back
  ensure_room_back-room s b e f = rw (e, ensure_room_back) (rw f refl)

  emplace_at-none :
      (s t : ChunkedFifo A) → undo_room_back s ≡ some t → emplace_at s none ≡ some (t, true)
  emplace_at-none s t e = rw (e, emplace_at) refl

  reuse-empty : (c : Chunk A) → (reuse c).begin ≡ (reuse c).end
  unfolding reuse
  reuse-empty c = refl

  -- A push into a new chunk.
  emplace_new :
      (s : ChunkedFifo A) (x : A)
      → IsValid s
      → ((v : Chunk A) → Holds 1 v → Shape (s.chunks ++ v ∷ []))
      → Pushes s x (emplace_at (back_chunk_new s) (some x))
  unfolding back_chunk_new contents
  emplace_new s x h k =
      let r = reuse (take_chunk s s.free_chunks).0 in
      let z : count r < items_per_chunk =
        omega (arith, reuse-count (take_chunk s s.free_chunks).0) in
      let hr : Holds 0 r = reuse-Holds (take_chunk s s.free_chunks).0 in
      let v = construct r x in
      let e : held v ≡ some x ∷ [] =
        held-construct r x hr z
        ∙ ap (λ n. cells r.items r.begin n ++ some x ∷ [])
            (reuse-count (take_chunk s s.free_chunks).0) in
      let n : word_add s.nchunks 1 ≡ length (s.chunks ++ v ∷ []) % word =
        omega (arith, h.1.0, length-append s.chunks (v ∷ [])) in
      let t = record (back_chunk_new s) { chunks = s.chunks ++ v ∷ [] } in
      (
        t,
        (
          emplace_at-some (back_chunk_new s) r x (last_of-snoc s.chunks r)
              ∙ ap (λ l. some (record (back_chunk_new s) { chunks = l }, false))
                  (set_last-snoc s.chunks r v),
          (
            (k v (construct-Holds r x hr z), (n, take_chunk-nfree s s.free_chunks h.1.1)),
            contents_of-snoc s.chunks v ∙ ap (λ l. contents_of s.chunks ++ l) e,
          ),
        ),
      )

  emplace_last :
      (s : ChunkedFifo A) (b : Chunk A) (x : A)
      → IsValid s
      → last_of s.chunks ≡ some b
      → (count b == items_per_chunk) ≡ false
      → Pushes s x (emplace_at s (some x))
  unfolding contents
  emplace_last s b x h e f =
      let hb = last_of-Shape s.chunks b h.0 e in
      let h0 : Holds 0 b = (hb.0, (omega arith, hb.1.1)) in
      let z : count b < items_per_chunk = ==_false (count b) hb.1.1 f in
      let v = construct b x in
      (
        _,
        (
          emplace_at-some s b x e,
          (
            (
              set_last-Shape s.chunks v h.0 (construct-Holds b x h0 z),
              (h.1.0 ∙ ap (λ n. n % word) (sym (length-set_last s.chunks v)), h.1.1),
            ),
            contents_of-set_last s.chunks b v (some x ∷ []) e (held-construct b x h0 z),
          ),
        ),
      )

  -- Appending an item to a valid queue succeeds, keeps the invariant and puts the item last, whether
  -- or not a new chunk is needed for it.
  pub emplace_back-some :
      (s : ChunkedFifo A) (x : A) → IsValid s → Pushes s x (emplace_back s (some x))
  unfolding emplace_back
  emplace_back-some s x h =
      let go : (r : ChunkedFifo A)
          → ensure_room_back s ≡ r
          → Pushes s x (emplace_at r (some x))
          → Pushes s x (emplace_at (ensure_room_back s) (some x)) =
        λ r e k. subst (λ z. Pushes s x (emplace_at z (some x))) (sym e) k in
      elim (Option-cases (last_of s.chunks)) [
        | inl e ↦
            go (back_chunk_new s) (ensure_room_back-none s e)
              (emplace_new s x h (λ v k. snoc_none s.chunks v k e))
        | inr (b, e) ↦ elim (Bool-cases (count b == items_per_chunk)) [
          | inl f ↦
              go (back_chunk_new s) (ensure_room_back-full s b e f)
                (emplace_new s x h (λ v k. snoc-Shape s.chunks b v h.0 e (==_true (count b) f) k))
          | inr f ↦ go s (ensure_room_back-room s b e f) (emplace_last s b x h e f)
        ]
      ]

  undo-empty :
      (s : ChunkedFifo A) (b : Chunk A)
      → last_of s.chunks ≡ some b
      → b.begin ≡ b.end
      → undo_room_back s
        ≡ some (record s {
          nchunks = word_sub s.nchunks 1;
          chunks = if word_sub s.nchunks 1 == 0 then [] else drop_last s.chunks;
        })
  unfolding undo_room_back
  undo-empty s b e f =
      let g : (b.begin == b.end) ≡ true = ground arith in rw (e, undo_room_back) (rw g refl)

  undo-room :
      (s : ChunkedFifo A) (b : Chunk A)
      → last_of s.chunks ≡ some b
      → Holds 1 b
      → undo_room_back s ≡ some s
  unfolding undo_room_back
  undo-room s b e h =
      let n : b.begin ≢ b.end = λ q. omega (arith, h, q) in
      let g : (b.begin == b.end) ≡ false = ground arith in rw (e, undo_room_back) (rw g refl)

  undone :
      (cs : List (Chunk A)) (r : Chunk A) (n : ℕ)
      → n ≡ length cs
      → (if n == 0 then [] else drop_last (cs ++ r ∷ [])) ≡ cs
  undone [] r n h = let g : (n == 0) ≡ true = ground arith in rw g refl
  undone (c ∷ cs) r n h =
      let g : (n == 0) ≡ false = ground arith in rw g (drop_last-snoc (c ∷ cs) r)

  undo_new :
      (s : ChunkedFifo A)
      → IsValid s
      → suc (length s.chunks) < word
      → Restores s (emplace_at (back_chunk_new s) none)
  unfolding back_chunk_new
  undo_new s h k =
      let r = reuse (take_chunk s s.free_chunks).0 in
      let m = word_sub (word_add s.nchunks 1) 1 in
      let n : m ≡ length s.chunks = omega (arith, h.1.0) in
      let q : m ≡ length s.chunks % word = omega (arith, h.1.0) in
      (
        record (back_chunk_new s) { nchunks = m; chunks = s.chunks },
        (
          emplace_at-none (back_chunk_new s) _ (
              undo-empty (back_chunk_new s) r (last_of-snoc s.chunks r)
                (reuse-empty (take_chunk s s.free_chunks).0)
              ∙ ap (λ l. some (record (back_chunk_new s) { nchunks = m; chunks = l }))
                  (undone s.chunks r m n)),
          ((h.0, (q, take_chunk-nfree s s.free_chunks h.1.1)), refl),
        ),
      )

  -- When the constructor of the item throws, the exception is thrown again and a valid queue is
  -- left valid, with the chunks that it had: a chunk that was made for the item is gone. This takes
  -- fewer than 2 ^ 64 - 1 chunks.
  pub emplace_back-none :
      (s : ChunkedFifo A)
      → IsValid s
      → suc (length s.chunks) < word
      → Restores s (emplace_back s none)
  unfolding emplace_back
  emplace_back-none s h k =
      let go : (r : ChunkedFifo A)
          → ensure_room_back s ≡ r
          → Restores s (emplace_at r none)
          → Restores s (emplace_at (ensure_room_back s) none) =
        λ r e k. subst (λ z. Restores s (emplace_at z none)) (sym e) k in
      elim (Option-cases (last_of s.chunks)) [
        | inl e ↦ go (back_chunk_new s) (ensure_room_back-none s e) (undo_new s h k)
        | inr (b, e) ↦ elim (Bool-cases (count b == items_per_chunk)) [
          | inl f ↦ go (back_chunk_new s) (ensure_room_back-full s b e f) (undo_new s h k)
          | inr f ↦
              let u = undo-room s b e (last_of-Shape s.chunks b h.0 e) in
              go s (ensure_room_back-room s b e f) (s, (emplace_at-none s s u, (h, refl)))
        ]
      ]
