-- ===== src/Packet/Trim.antt =====
-- include/future/packet.hh: `trim_front` and `trim_back`.
use mseastar.Prelude.{
  ℕ, zero, suc, ◌+◌, ◌-◌, ◌≤◌, ◌<◌, ◌≡◌, ◌≢◌, refl, sym, ap, ap₂, ◌∙◌, true, Option, none, some,
  List, [], ◌∷◌, ◌++◌, arith, leb, ◌==◌, take, drop, append-nil, Bool-cases, inl, inr,
}
use mseastar.Packet.{
  Memory, Fragment, Impl, sum_sizes, on_first, trim_first, trim_front, trim_last, trim_back,
}
use mseastar.Packet.Bytes.{
  bytes_at, bytes, length-bytes_at, drop-bytes_at, take-bytes_at, drop-append_below,
  take-append_below, take-append_above, first_size, skip-lem,
}

-- The length of a packet is that of its fragments.
abbrev pub Measured : Impl → Type 0
Measured i = i.len ≡ sum_sizes i.frags

module _ (mem : Memory) where
  first-bytes :
      (r : ℕ) (gs : List Fragment)
      → r ≤ first_size gs
      → bytes mem (on_first (λ f. record { base = f.base + r; size = f.size - r }) gs)
        ≡ drop r (bytes mem gs)
  first-bytes r [] h = let e : r ≡ 0 = omega (arith, h) in ap (λ n. drop n []) (sym e)
  first-bytes r (f ∷ fs) h =
      let w = length-bytes_at mem f.base f.size in
      ap (λ l. l ++ bytes mem fs) (sym (drop-bytes_at mem r f.base f.size h))
      ∙ sym (drop-append_below r (bytes_at mem f.base f.size) (bytes mem fs) (omega (arith, w, h)))

  first-sizes :
      (r : ℕ) (gs : List Fragment)
      → r ≤ first_size gs
      → sum_sizes (on_first (λ f. record { base = f.base + r; size = f.size - r }) gs) + r
        ≡ sum_sizes gs
  first-sizes r [] h = omega (arith, h)
  first-sizes r (f ∷ fs) h = omega (arith, h)

  -- What is left of a packet that is trimmed.
  abbrev pub Trimmed : Option Impl → List ℕ → Type 0
  Trimmed none l = ⊥
  Trimmed (some j) l = (bytes mem j.frags ≡ l) × Measured j

  first-Trimmed :
      (r : ℕ) (i : Impl) (l : List ℕ)
      → r ≤ first_size i.frags
      → drop r (bytes mem i.frags) ≡ l
      → i.len + r ≡ sum_sizes i.frags
      → Trimmed (some (trim_first r i)) l
  first-Trimmed r i l h e s = elim (Bool-cases (r == 0)) [
    | inl z ↦
        let q : r ≡ 0 = ground arith in
        let d : drop 0 (bytes mem i.frags) ≡ l = ap (λ n. drop n (bytes mem i.frags)) (sym q) ∙ e in
        rw z (d, omega (arith, s, q))
    | inr n ↦
        let w = first-sizes r i.frags h in rw n (first-bytes r i.frags h ∙ e, omega (arith, w, s))
  ]

  -- `trim_front` of so many bytes as a packet has, or fewer, takes them off its front and no
  -- others; its length stays that of its fragments.
  pub trim_front-Trimmed :
      (how_much : ℕ) (i : Impl)
      → Measured i
      → how_much ≤ i.len
      → Trimmed (trim_front how_much i) (drop how_much (bytes mem i.frags))
  unfolding trim_front
  trim_front-Trimmed k i m h =
      let (gs, (r, (e, (l, (q, s))))) = skip-lem mem k i.frags (omega (arith, m, h)) in
      let y : leb k i.len ≡ true = ground arith in
      rw y (
        rw (e, trim_front)
          (first-Trimmed r (record i { len = i.len - k; frags = gs }) (drop k (bytes mem i.frags)) l
            (sym q) (omega (arith, s, m, h))))

  -- The fragments that are left when bytes are trimmed from the last one on.
  trim_last-lem :
      (k : ℕ) (fs : List Fragment)
      → ((trim_last k fs).0 ≡ k - sum_sizes fs)
        × ((bytes mem (trim_last k fs).1 ≡ take (sum_sizes fs - k) (bytes mem fs))
            × (sum_sizes (trim_last k fs).1 ≡ sum_sizes fs - k))
  trim_last-lem k [] = (omega arith, (sym (take-nil (0 - k)), omega arith))
    where
      none_at_all : List ℕ
      none_at_all = []

      take-nil : (n : ℕ) → take n none_at_all ≡ []
      take-nil zero = refl
      take-nil (suc n) = refl
  trim_last-lem k (f ∷ fs) =
      let (o, (b, t)) = trim_last-lem k fs in
      let w = length-bytes_at mem f.base f.size in
      let own = bytes_at mem f.base f.size in
      elim (Bool-cases ((trim_last k fs).0 == 0)) [
        | inl z ↦
            let l : k ≤ sum_sizes fs =
              let e : (trim_last k fs).0 ≡ 0 = ground arith in omega (arith, o, e) in
            rw z (
              omega (arith, l),
              (
                ap (λ x. own ++ x) b
                    ∙ ap (λ n. own ++ take n (bytes mem fs)) (omega (arith, w, l))
                    ∙ sym (
                        take-append_above (f.size + sum_sizes fs - k) own (bytes mem fs)
                          (omega (arith, w, l))),
                omega (arith, t, l),
              ),
            )
        | inr z ↦
            let l : sum_sizes fs < k =
              let e : (trim_last k fs).0 ≢ 0 = λ y. ground arith in omega (arith, o, e) in
            let none_left : bytes mem (trim_last k fs).1 ≡ [] =
              let q : sum_sizes fs - k ≡ 0 = omega (arith, l) in
              b ∙ ap (λ n. take n (bytes mem fs)) q in
            elim (Bool-cases (leb f.size (trim_last k fs).0)) [
              | inl y ↦
                  let m : f.size ≤ (trim_last k fs).0 = ground arith in
                  rw (z, y)
                    (
                      omega (arith, o, m, l),
                      (
                        (let q : 0 ≡ f.size + sum_sizes fs - k = omega (arith, o, m, l) in
                            none_left ∙ ap (λ n. take n (own ++ bytes mem fs)) q),
                        omega (arith, t, o, m, l),
                      ),
                    )
              | inr y ↦
                  let m : (trim_last k fs).0 < f.size = ground arith in
                  rw (z, y)
                    (
                      omega (arith, o, m, l),
                      (
                        ap₂ (λ n x. bytes_at mem f.base n ++ x) (omega (arith, o, m, l)) none_left
                            ∙ append-nil (bytes_at mem f.base (f.size + sum_sizes fs - k))
                            ∙ sym (
                                take-append_below (f.size + sum_sizes fs - k) own (bytes mem fs)
                                  (omega (arith, w, o, m, l))
                                ∙ take-bytes_at mem (f.size + sum_sizes fs - k) f.base f.size
                                    (omega (arith, o, m, l))),
                        omega (arith, t, o, m, l),
                      ),
                    )
            ]
      ]

  -- `trim_back` of so many bytes as a packet has, or fewer, takes them off its back and no others;
  -- its length stays that of its fragments.
  pub trim_back-Trimmed :
      (how_much : ℕ) (i : Impl)
      → Measured i
      → how_much ≤ i.len
      → Trimmed (trim_back how_much i) (take (i.len - how_much) (bytes mem i.frags))
  unfolding trim_back
  trim_back-Trimmed k i m h =
      let (o, (b, t)) = trim_last-lem k i.frags in
      let y : leb k i.len ≡ true = ground arith in
      let e : (trim_last k i.frags).0 ≡ 0 = omega (arith, o, m, h) in
      let z : ((trim_last k i.frags).0 == 0) ≡ true = ap (λ n. n == 0) e in
      rw y (
        rw (z, trim_back)
          (b ∙ ap (λ n. take (n - k) (bytes mem i.frags)) (sym m), omega (arith, t, m)))
