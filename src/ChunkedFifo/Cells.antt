-- ===== src/ChunkedFifo/Cells.antt =====
-- include/future/chunked_fifo.hh: the cells of a chunk, read as a ring.
use mseastar.Prelude.{
  ℕ, zero, suc, ◌+◌, ◌-◌, ◌<◌, ◌≤◌, ◌≡◌, refl, sym, ap, ap₂, ◌∙◌, ◌≢◌, Option, List, [], ◌∷◌, ◌++◌,
  arith, length,
}
use mseastar.ChunkedFifo.{mask, write, items_per_chunk}

module _ {A : Type 0} where
  -- The `n` cells from the place `b` on.
  abbrev pub cells : (ℕ → Option A) → ℕ → ℕ → List (Option A)
  cells f b zero = []
  cells f b (suc n) = f (mask b) ∷ cells f (b + 1) n

  pub cells-mask : (f : ℕ → Option A) (b c n : ℕ) → mask b ≡ mask c → cells f b n ≡ cells f c n
  cells-mask f b c zero h = refl
  cells-mask f b c (suc n) h =
      let e : mask (b + 1) ≡ mask (c + 1) = omega (arith, h) in
      ap₂ (λ x y. f x ∷ y) h (cells-mask f (b + 1) (c + 1) n e)

  pub write-at : (f : ℕ → Option A) (p q : ℕ) (v : Option A) → q ≡ p → write f p v q ≡ v
  write-at f p q v h = ground (arith, h)

  pub write-other : (f : ℕ → Option A) (p q : ℕ) (v : Option A) → q ≢ p → write f p v q ≡ f q
  write-other f p q v h = ground (arith, h)

  -- A write outside of a stretch of the ring: from `d` to `d + n` places ahead of `p`.
  pub cells-write_outside :
      (f : ℕ → Option A) (p d n : ℕ) (v : Option A)
      → 1 ≤ d
      → d + n ≤ items_per_chunk
      → cells (write f (mask p) v) (p + d) n ≡ cells f (p + d) n
  cells-write_outside f p d zero v h k = refl
  cells-write_outside f p d (suc n) v h k =
      let e : p + d + 1 ≡ p + (d + 1) = omega arith in
      let o : 1 ≤ d + 1 = omega arith in
      let q : d + 1 + n ≤ items_per_chunk = omega arith in
      let g : mask (p + d) ≢ mask p = λ r. omega (arith, r) in
      ap₂ (λ x y. x ∷ y) (write-other f (mask p) (mask (p + d)) v g)
        (ap (λ z. cells (write f (mask p) v) z n) e
          ∙ cells-write_outside f p (d + 1) n v o q
          ∙ ap (λ z. cells f z n) (sym e))

  pub cells-snoc :
      (f : ℕ → Option A) (b n : ℕ) → cells f b (suc n) ≡ cells f b n ++ f (mask (b + n)) ∷ []
  cells-snoc f b zero = ap (λ z. f (mask z) ∷ []) (omega arith)
  cells-snoc f b (suc n) =
      let e : b + 1 + n ≡ b + suc n = omega arith in
      ap (λ z. f (mask b) ∷ z)
        (cells-snoc f (b + 1) n ∙ ap (λ z. cells f (b + 1) n ++ f (mask z) ∷ []) e)

  pub length-cells : (f : ℕ → Option A) (b n : ℕ) → length (cells f b n) ≡ n
  length-cells f b zero = refl
  length-cells f b (suc n) = ap suc (length-cells f (b + 1) n)

  -- The write before the front, and the one behind the back.
  pub cells-push :
      (f : ℕ → Option A) (b n : ℕ) (v : Option A)
      → n < items_per_chunk
      → cells (write f (mask (b + n)) v) b (suc n) ≡ cells f b n ++ v ∷ []
  cells-push f b n v h =
      let d = items_per_chunk - n in
      let e : mask b ≡ mask (b + n + d) = omega arith in
      let o : 1 ≤ d = omega arith in
      let k : d + n ≤ items_per_chunk = omega arith in
      cells-snoc (write f (mask (b + n)) v) b n
      ∙ ap₂ (λ x y. x ++ y ∷ [])
          (cells-mask (write f (mask (b + n)) v) b (b + n + d) n e
            ∙ cells-write_outside f (b + n) d n v o k
            ∙ sym (cells-mask f b (b + n + d) n e))
          (write-at f (mask (b + n)) (mask (b + n)) v refl)
