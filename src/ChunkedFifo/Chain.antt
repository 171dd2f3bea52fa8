-- ===== src/ChunkedFifo/Chain.antt =====
-- include/future/chunked_fifo.hh: the last chunk of the linked list, and a chunk put behind it.
use mseastar.Prelude.{
  suc, ◌≤◌, ◌≡◌, refl, sym, ap, ◌∙◌, Option, some, List, [], ◌∷◌, ◌++◌, arith, length, append_assoc,
  append-nil,
}
use mseastar.ChunkedFifo.{Chunk, count, items_per_chunk, last_of, set_last, drop_last}
use mseastar.ChunkedFifo.Shape.{Holds, Rest, Shape, held, contents_of}

module _ {A : Type 0} where
  pub last_of-snoc : (cs : List (Chunk A)) (r : Chunk A) → last_of (cs ++ r ∷ []) ≡ some r
  last_of-snoc [] r = refl
  last_of-snoc (c ∷ []) r = refl
  last_of-snoc (c ∷ d ∷ cs) r = last_of-snoc (d ∷ cs) r

  pub set_last-snoc :
      (cs : List (Chunk A)) (r v : Chunk A) → set_last (cs ++ r ∷ []) v ≡ cs ++ v ∷ []
  set_last-snoc [] r v = refl
  set_last-snoc (c ∷ []) r v = refl
  set_last-snoc (c ∷ d ∷ cs) r v = ap (λ l. c ∷ l) (set_last-snoc (d ∷ cs) r v)

  pub drop_last-snoc : (cs : List (Chunk A)) (r : Chunk A) → drop_last (cs ++ r ∷ []) ≡ cs
  drop_last-snoc [] r = refl
  drop_last-snoc (c ∷ []) r = refl
  drop_last-snoc (c ∷ d ∷ cs) r = ap (λ l. c ∷ l) (drop_last-snoc (d ∷ cs) r)

  pub last_of-Rest : (cs : List (Chunk A)) (b : Chunk A) → Rest cs → last_of cs ≡ some b → Holds 1 b
  last_of-Rest [] b h e = ground arith
  last_of-Rest (c ∷ []) b h e = ground arith
  last_of-Rest (c ∷ d ∷ cs) b h e = last_of-Rest (d ∷ cs) b h.1 e

  pub last_of-Shape :
      (cs : List (Chunk A)) (b : Chunk A) → Shape cs → last_of cs ≡ some b → Holds 1 b
  last_of-Shape [] b h e = ground arith
  last_of-Shape (c ∷ []) b h e = ground arith
  last_of-Shape (c ∷ d ∷ cs) b h e = last_of-Rest (d ∷ cs) b h.1 e

  pub last_of-some :
      (c : Chunk A) (cs : List (Chunk A)) → (b : Chunk A) × (last_of (c ∷ cs) ≡ some b)
  last_of-some c [] = (c, refl)
  last_of-some c (d ∷ cs) = last_of-some d cs

  pub set_last-Rest :
      (cs : List (Chunk A)) (v : Chunk A) → Rest cs → Holds 1 v → Rest (set_last cs v)
  set_last-Rest [] v h k = tt
  set_last-Rest (c ∷ []) v h k = k
  set_last-Rest (c ∷ d ∷ []) v h k = (h.0, k)
  set_last-Rest (c ∷ d ∷ e ∷ cs) v h k = (h.0, set_last-Rest (d ∷ e ∷ cs) v h.1 k)

  pub set_last-Shape :
      (cs : List (Chunk A)) (v : Chunk A) → Shape cs → Holds 1 v → Shape (set_last cs v)
  set_last-Shape [] v h k = tt
  set_last-Shape (c ∷ []) v h k = (k, tt)
  set_last-Shape (c ∷ d ∷ cs) v h k = (h.0, set_last-Rest (d ∷ cs) v h.1 k)

  pub snoc-Rest :
      (cs : List (Chunk A)) (b v : Chunk A)
      → Rest cs
      → last_of cs ≡ some b
      → count b ≡ items_per_chunk
      → Holds 1 v
      → Rest (cs ++ v ∷ [])
  snoc-Rest [] b v h e f k = k
  snoc-Rest (c ∷ []) b v h e f k =
      let g : count c ≡ items_per_chunk = ground arith in
      let l : items_per_chunk ≤ count c = omega (arith, g) in ((h.0, (l, h.1.1)), k)
  snoc-Rest (c ∷ d ∷ cs) b v h e f k = (h.0, snoc-Rest (d ∷ cs) b v h.1 e f k)

  pub snoc-Shape :
      (cs : List (Chunk A)) (b v : Chunk A)
      → Shape cs
      → last_of cs ≡ some b
      → count b ≡ items_per_chunk
      → Holds 1 v
      → Shape (cs ++ v ∷ [])
  snoc-Shape [] b v h e f k = (k, tt)
  snoc-Shape (c ∷ []) b v h e f k = (h.0, k)
  snoc-Shape (c ∷ d ∷ cs) b v h e f k = (h.0, snoc-Rest (d ∷ cs) b v h.1 e f k)

  pub length-set_last : (cs : List (Chunk A)) (v : Chunk A) → length (set_last cs v) ≡ length cs
  length-set_last [] v = refl
  length-set_last (c ∷ []) v = refl
  length-set_last (c ∷ d ∷ cs) v = ap suc (length-set_last (d ∷ cs) v)

  pub contents_of-set_last :
      (cs : List (Chunk A)) (b v : Chunk A) (l : List (Option A))
      → last_of cs ≡ some b
      → held v ≡ held b ++ l
      → contents_of (set_last cs v) ≡ contents_of cs ++ l
  contents_of-set_last [] b v l e h = ground arith
  contents_of-set_last (c ∷ []) b v l e h =
      let g : b ≡ c = ground arith in
      append-nil (held v)
      ∙ h
      ∙ ap (λ z. held z ++ l) g
      ∙ ap (λ z. z ++ l) (sym (append-nil (held c)))
  contents_of-set_last (c ∷ d ∷ cs) b v l e h =
      ap (λ z. held c ++ z) (contents_of-set_last (d ∷ cs) b v l e h)
      ∙ sym (append_assoc (held c) (contents_of (d ∷ cs)) l)

  pub contents_of-snoc :
      (cs : List (Chunk A)) (v : Chunk A) → contents_of (cs ++ v ∷ []) ≡ contents_of cs ++ held v
  contents_of-snoc [] v = append-nil (held v)
  contents_of-snoc (c ∷ cs) v =
      ap (λ z. held c ++ z) (contents_of-snoc cs v)
      ∙ sym (append_assoc (held c) (contents_of cs) (held v))
