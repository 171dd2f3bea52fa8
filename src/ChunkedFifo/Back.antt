-- ===== src/ChunkedFifo/Back.antt =====
-- include/future/chunked_fifo.hh: `back`.
use mseastar.Prelude.{
  ℕ, zero, suc, ◌+◌, ◌-◌, ◌%◌, ◌≡◌, refl, sym, ap, ◌∙◌, Option, some, List, [], ◌∷◌, ◌++◌, arith,
  append-nil,
}
use mseastar.ChunkedFifo.{Chunk, ChunkedFifo, count, uint, mask, last_of, back}
use mseastar.ChunkedFifo.Cells.{cells}
use mseastar.ChunkedFifo.Shape.{Holds, IsValid, held, contents_of, contents}
use mseastar.ChunkedFifo.Chain.{last_of-Shape, last_of-some}

module _ {A : Type 0} where
  last_of-cells :
      (f : ℕ → Option A) (b n : ℕ) → last_of (cells f b (suc n)) ≡ some (f (mask (b + n)))
  last_of-cells f b zero = ap (λ z. some (f (mask z))) (omega arith)
  last_of-cells f b (suc n) =
      let e : b + 1 + n ≡ b + suc n = omega arith in
      last_of-cells f (b + 1) n ∙ ap (λ z. some (f (mask z))) e

  last_of-append :
      (xs ys : List (Option A)) (v : Option A) → last_of ys ≡ some v → last_of (xs ++ ys) ≡ some v
  last_of-append [] ys v e = e
  last_of-append (x ∷ []) (y ∷ ys) v e = e
  last_of-append (x ∷ []) [] v e = ground arith
  last_of-append (x ∷ w ∷ xs) ys v e = last_of-append (w ∷ xs) ys v e

  last_of-held :
      (b : Chunk A)
      → Holds 1 b
      → last_of (held b) ≡ some (b.items (mask ((b.end + uint - 1) % uint)))
  last_of-held b h =
      let n = count b - 1 in
      let e : count b ≡ suc n = omega (arith, h) in
      let m : mask (b.begin + n) ≡ mask ((b.end + uint - 1) % uint) = omega (arith, h) in
      ap (λ z. last_of (cells b.items b.begin z)) e
      ∙ last_of-cells b.items b.begin n
      ∙ ap (λ z. some (b.items z)) m

  last_of-contents :
      (cs : List (Chunk A)) (b : Chunk A) (v : Option A)
      → last_of cs ≡ some b
      → last_of (held b) ≡ some v
      → last_of (contents_of cs) ≡ some v
  last_of-contents [] b v e h = ground arith
  last_of-contents (c ∷ []) b v e h =
      let g : c ≡ b = ground arith in
      ap last_of (append-nil (held c)) ∙ ap (λ z. last_of (held z)) g ∙ h
  last_of-contents (c ∷ d ∷ cs) b v e h =
      last_of-append (held c) (contents_of (d ∷ cs)) v (last_of-contents (d ∷ cs) b v e h)

  back-some :
      (s : ChunkedFifo A) (b : Chunk A)
      → last_of s.chunks ≡ some b
      → back s ≡ b.items (mask ((b.end + uint - 1) % uint))
  unfolding back
  back-some s b e = rw (e, back) refl

  nonempty :
      (cs : List (Chunk A)) (x : Option A) (xs : List (Option A))
      → contents_of cs ≡ x ∷ xs
      → (b : Chunk A) × (last_of cs ≡ some b)
  nonempty [] x xs e = ground arith
  nonempty (c ∷ cs) x xs e = last_of-some c cs

  -- `back` of a valid queue that is not empty reads its last item.
  pub back_lem :
      (s : ChunkedFifo A) (x : Option A) (xs : List (Option A))
      → IsValid s
      → contents s ≡ x ∷ xs
      → last_of (x ∷ xs) ≡ some (back s)
  unfolding contents
  back_lem s x xs h k =
      let (b, e) = nonempty s.chunks x xs k in
      sym (ap last_of k)
      ∙ last_of-contents s.chunks b (b.items (mask ((b.end + uint - 1) % uint))) e
          (last_of-held b (last_of-Shape s.chunks b h.0 e))
      ∙ ap some (sym (back-some s b e))
