-- ===== src/ChunkedFifo/Pop.antt =====
-- include/future/chunked_fifo.hh: `pop_front`, `front`, `empty` and `clear`.
use mseastar.Prelude.{
  ℕ, zero, suc, ◌%◌, ◌≤◌, ◌≡◌, refl, sym, ap, ◌∙◌, subst, true, false, Option, some, List, [], ◌∷◌,
  ◌++◌, arith, length, word, Bool-cases, inl, inr, leb, ◌==◌, word_add, word_sub, ◌≢◌,
}
use mseastar.ChunkedFifo.{
  Chunk, ChunkedFifo, count, mask, destroy, pop_front, pop_at, front_chunk_delete, front,
  front_cell, empty, empty_chunks, clear, save_free_chunks,
}
use mseastar.ChunkedFifo.Shape.{
  Holds, Rest, Shape, IsValid, held, contents_of, contents, destroy-Holds, held-destroy,
}
use mseastar.ChunkedFifo.Cells.{cells}

module _ {A : Type 0} where
  -- What a pop comes to, of a queue whose items are `x` and `xs`.
  abbrev pub Pops : Option A → List (Option A) → Option (ChunkedFifo A) → Type 0
  Pops x xs r = (t : ChunkedFifo A) × ((r ≡ some t) × (IsValid t × (contents t ≡ xs)))

  Rest-Shape : (cs : List (Chunk A)) → Rest cs → Shape cs
  Rest-Shape [] h = tt
  Rest-Shape (c ∷ []) h = (h, tt)
  Rest-Shape (c ∷ d ∷ cs) h = ((h.0.0, (omega arith, h.0.1.1)), h.1)

  deleted :
      (s : ChunkedFifo A) (d : Chunk A) (cs : List (Chunk A))
      → IsValid s
      → length s.chunks ≡ suc (length cs)
      → Rest cs
      → IsValid (front_chunk_delete s d cs)
  unfolding front_chunk_delete
  deleted s d cs h l r =
      let n : word_sub s.nchunks 1 ≡ length cs % word = omega (arith, h.1.0, l) in
      elim (Bool-cases (leb save_free_chunks s.nfree_chunks)) [
        | inl e ↦ rw e (Rest-Shape cs r, (n, h.1.1))
        | inr e ↦
            let f : word_add s.nfree_chunks 1 ≡ suc (length s.free_chunks) % word =
              omega (arith, h.1.1) in
            rw e (Rest-Shape cs r, (n, f))
      ]

  front_chunk_delete-chunks :
      (s : ChunkedFifo A) (d : Chunk A) (cs : List (Chunk A))
      → (front_chunk_delete s d cs).chunks ≡ cs
  unfolding front_chunk_delete
  front_chunk_delete-chunks s d cs = refl

  pop_cons :
      (s : ChunkedFifo A) (c : Chunk A) (cs : List (Chunk A))
      → IsValid s
      → s.chunks ≡ c ∷ cs
      → Holds 1 c
      → Rest cs
      → Pops (c.items (mask c.begin)) (held (destroy c) ++ contents_of cs) (pop_at s (c ∷ cs))
  unfolding contents
  pop_cons s c cs h e hc r =
      let d = destroy c in
      let hd = destroy-Holds c hc in
      let l : length s.chunks ≡ suc (length cs) = ap length e in
      elim (Bool-cases (d.begin == d.end)) [
        | inl f ↦
            let g : d.begin ≡ d.end = ground arith in
            let z : count d ≡ 0 = omega (arith, g, hd) in
            (
              front_chunk_delete s d cs,
              (
                rw f refl,
                (
                  deleted s d cs h l r,
                  ap contents_of (front_chunk_delete-chunks s d cs)
                      ∙ sym (ap (λ n. cells d.items d.begin n ++ contents_of cs) z),
                ),
              ),
            )
        | inr f ↦
            let g : d.begin ≢ d.end = ground arith in
            let z : 1 ≤ count d = omega (arith, g, hd) in
            (
              record s { chunks = d ∷ cs },
              (
                rw f refl,
                ((((hd.0, (z, hd.1.1)), r), (h.1.0 ∙ ap (λ n. n % word) l, h.1.1)), refl),
              ),
            )
      ]

  pop_all :
      (s : ChunkedFifo A) (cs : List (Chunk A))
      → s.chunks ≡ cs
      → IsValid s
      → (x : Option A) (xs : List (Option A)) → contents_of cs ≡ x ∷ xs
      → (front_cell cs ≡ x) × Pops x xs (pop_at s cs)
  pop_all s [] e h x xs k = ground arith
  pop_all s (c ∷ cs) e h x xs k =
      let sh : Shape (c ∷ cs) = subst Shape e h.0 in
      let q : c.items (mask c.begin) ∷ (held (destroy c) ++ contents_of cs) ≡ x ∷ xs =
        sym (ap (λ l. l ++ contents_of cs) (held-destroy c sh.0)) ∙ k in
      let a : c.items (mask c.begin) ≡ x = ground arith in
      let b : held (destroy c) ++ contents_of cs ≡ xs = ground arith in
      let (t, (p, (v, w))) = pop_cons s c cs h e sh.0 sh.1 in (a, (t, (p, (v, w ∙ b))))

  -- When a valid queue holds the item `x` and then `xs`, `front` reads `x`, and `pop_front` leaves a
  -- valid queue that holds `xs`.
  pub pop_front_lem :
      (s : ChunkedFifo A) (x : Option A) (xs : List (Option A))
      → IsValid s
      → contents s ≡ x ∷ xs
      → (front s ≡ x) × Pops x xs (pop_front s)
  unfolding contents front pop_front
  pop_front_lem s x xs h k = pop_all s s.chunks refl h x xs k

  empty_at :
      (cs : List (Chunk A))
      → Shape cs
      → empty_chunks cs ≡ false
      → (x : Option A) × ((xs : List (Option A)) × (contents_of cs ≡ x ∷ xs))
  empty_at [] h e = ground arith
  empty_at (c ∷ cs) h e = (_, (_, ap (λ l. l ++ contents_of cs) (held-destroy c h.0)))

  is_nil : (cs : List (Chunk A)) → empty_chunks cs ≡ true → cs ≡ []
  is_nil [] e = refl
  is_nil (c ∷ cs) e = ground arith

  clear_stop : (n : ℕ) (s : ChunkedFifo A) → empty s ≡ true → clear n s ≡ some s
  unfolding clear
  clear_stop zero s e = rw e refl
  clear_stop (suc n) s e = rw e refl

  clear_step :
      (n : ℕ) (s t : ChunkedFifo A)
      → empty s ≡ false
      → pop_front s ≡ some t
      → clear (suc n) s ≡ clear n t
  unfolding clear
  clear_step n s t e p = rw e (rw p refl)

  empty-chunks : (s : ChunkedFifo A) → empty s ≡ true → s.chunks ≡ []
  unfolding empty
  empty-chunks s e = is_nil s.chunks e

  pub has_front :
      (s : ChunkedFifo A)
      → IsValid s
      → empty s ≡ false
      → (x : Option A) × ((xs : List (Option A)) × (contents s ≡ x ∷ xs))
  unfolding empty contents
  has_front s h e = empty_at s.chunks h.0 e

  -- As many rounds as a valid queue has items, or more, make it empty, and it stays valid.
  clear_lem :
      (n : ℕ) (s : ChunkedFifo A)
      → IsValid s
      → length (contents s) ≤ n
      → (t : ChunkedFifo A) × ((clear n s ≡ some t) × (IsValid t × (t.chunks ≡ [])))
  clear_lem zero s h k = elim (Bool-cases (empty s)) [
    | inl e ↦ (s, (clear_stop 0 s e, (h, empty-chunks s e)))
    | inr e ↦
        let (x, (xs, q)) = has_front s h e in
        let l : length (contents s) ≡ suc (length xs) = ap length q in
        let a : ⊥ = omega (arith, l, k) in absurd a
  ]
  clear_lem (suc n) s h k = elim (Bool-cases (empty s)) [
    | inl e ↦ (s, (clear_stop (suc n) s e, (h, empty-chunks s e)))
    | inr e ↦
        let (x, (xs, q)) = has_front s h e in
        let l : length (contents s) ≡ suc (length xs) = ap length q in
        let (f, (t, (p, (v, w)))) = pop_front_lem s x xs h q in
        let m : length (contents t) ≤ n = omega (arith, l, k, ap length w) in
        let (u, (r, z)) = clear_lem n t v m in (u, (clear_step n s t e p ∙ r, z))
  ]
