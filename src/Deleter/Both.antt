-- ===== src/Deleter/Both.antt =====
-- include/util/deleter.hh: `append`, and then the destructor.
use mseastar.Prelude.{
  ℕ, zero, suc, ◌+◌, ◌≤◌, ◌<◌, ◌≡◌, ◌≢◌, ◌⊎◌, inl, inr, refl, sym, ap, ◌∙◌, subst, none, some, List,
  [], ◌∷◌, ◌++◌, append-nil, arith, length, length-append, All, All-imp, All-append_left,
  All-append_right,
}
use mseastar.Deleter.{
  ImplPointer, null, raw_object, impl_at, Action, frees, free_deleter, Impl, Heap, Place, itself,
  write_place, append_loop, append_deleter, destroy,
}
use mseastar.Deleter.Chain.{store-at, store-other, Chain, Distinct, Chain-same, destroy-Chain}
use mseastar.Deleter.Append.{same_pointer-impl, loop-impl, wrapped}
use mseastar.Deleter.Extend.{
  Separate, OtherMemory, OtherMemory-rest, pointed, pointed-at, pointed-other,
}
use mseastar.Deleter.Join.{loop_raw_end, loop-Extended}

-- A deleter that does all these actions, whose `impl`s are those of two chains and at most one more.
abbrev Joined : List ℕ → List ℕ → List Action → Heap → ImplPointer × Heap → Type 0
Joined l l2 acts h r =
    (l' : List ℕ) × ((Chain r.1.impls r.0 l' acts × Distinct l')
      × ((r.1.done ≡ h.done) × ((l' ≡ l ++ l2) ⊎ (l' ≡ l ++ h.top ∷ l2))))

loop-null :
    (rounds : ℕ) (d self : ImplPointer) (place : Place) (h : Heap)
    → append_loop rounds d place null (self, h) ≡ some (write_place place d (self, h))
unfolding append_loop
loop-null zero d self place h = refl
loop-null (suc rounds) d self place h = refl

loop-Joined :
    (rounds : ℕ) (self d : ImplPointer) (l l2 : List ℕ) (acts acts2 : List Action) (h : Heap)
    → Chain h.impls self l acts
    → Chain h.impls d l2 acts2
    → Separate l l2 h.top
    → OtherMemory d acts
    → length l < rounds
    → (r : ImplPointer × Heap) × ((append_loop rounds d itself self (self, h) ≡ some r)
        × Joined l l2 (acts ++ acts2) h r)
loop-Joined rounds null d [] l2 acts acts2 h c c2 s om n = (
  (d, h),
  (
    loop-null rounds d null itself h,
    (l2, ((subst (λ u. Chain h.impls d l2 (u ++ acts2)) (sym c) c2, s.1), (refl, inl refl))),
  ),
)
loop-Joined zero (raw_object p) d [] l2 acts acts2 h c c2 s om n = ground arith
loop-Joined (suc rounds) (raw_object p) d [] l2 acts acts2 h c c2 (t, s) om n =
    let new : Impl = record { refs = 1; next = null; object = free_deleter p } in
    let h0 = wrapped d p h in
    let g = pointed h.top d h0 in
    let made : h0.impls h.top ≡ some new = store-at h.top (some new) h.impls in
    let kept : All (λ b. g.impls b ≡ h.impls b) l2 =
      All-imp (λ b. b ≢ h.top)
        (λ b k. pointed-other h.top b d h0 k ∙ store-other h.top b (some new) h.impls k) l2 t in
    let joined : Chain g.impls (impl_at h.top) (h.top ∷ l2) (frees p ∷ acts2) = (
      refl,
      (
        record new { next = d },
        (
          frees p,
          (
            acts2,
            (
              (pointed-at h.top d new h0 made, (refl, refl)),
              (refl, Chain-same h.impls g.impls d l2 acts2 kept c2),
            ),
          ),
        ),
      ),
    ) in
    (
      (impl_at h.top, g),
      (
        loop_raw_end d l2 acts2 rounds itself p (raw_object p) h c2 t (subst (OtherMemory d) c om)
            made,
        (
          h.top ∷ l2,
          (
            (
              subst (λ u. Chain g.impls (impl_at h.top) (h.top ∷ l2) (u ++ acts2)) (sym c) joined,
              (t, s),
            ),
            (refl, inr refl),
          ),
        ),
      ),
    )
loop-Joined rounds (impl_at a) d [] l2 acts acts2 h c c2 s om n = absurd c
loop-Joined zero self d (a ∷ l) l2 acts acts2 h c c2 s om n = ground arith
loop-Joined (suc rounds) self d (a ∷ l) l2 acts acts2 h (q, (i, (e, (rest, ((x, (y, o)), (z, c))))))
      c2 (at, (na, (ma, s))) om n =
    let (g, (t, (q', (l', ((x', (c', s')), ((done, split), (out, same))))))) =
      loop-Extended d l2 acts2 rounds a i i.next l rest self h x refl c c2 (at, (na, (ma, s)))
        (OtherMemory-rest d e rest (subst (OtherMemory d) z om)) (omega (arith, n)) in
    (
      (self, g),
      (
        ap (λ u. append_loop (suc rounds) d itself u (self, h)) q
            ∙ loop-impl d rounds itself a i self h (same_pointer-impl a d l2 h.impls acts2 c2 ma) x
                y
            ∙ t,
        (
          a ∷ l',
          (
            (
              (
                q,
                (
                  record i { next = q' },
                  (e, (rest ++ acts2, ((x', (y, o)), (ap (λ u. u ++ acts2) z, c')))),
                ),
              ),
              (out a at na ma, s'),
            ),
            (
              done,
              elim split [ inl k ↦ inl (ap (λ u. a ∷ u) k) | inr k ↦ inr (ap (λ u. a ∷ u) k) ],
            ),
          ),
        ),
      ),
    )

-- The actions of two deleters were done, in order, each once, and all their `impl`s are freed.
abbrev pub BothDone : List ℕ → List ℕ → List Action → Heap → Heap → Type 0
BothDone l l2 acts h k =
    (k.done ≡ h.done ++ acts) × (All (λ a. k.impls a ≡ none) l × All (λ a. k.impls a ≡ none) l2)

Joined-ends :
    (fuel : ℕ) (l l2 : List ℕ) (acts : List Action) (h : Heap) (r : ImplPointer × Heap)
    → Joined l l2 acts h r
    → length l + length l2 < fuel
    → (k : Heap) × ((destroy fuel r.0 r.1 ≡ some k) × BothDone l l2 acts h k)
Joined-ends fuel l l2 acts h r (l', ((c, s), (done, split))) n =
    let (k, (t, (all, (top, (gone, same))))) =
      destroy-Chain fuel r.0 l' acts r.1 c s (short split) in
    (k, (t, (all ∙ ap (λ u. u ++ acts) done, freed k gone split)))
  where
    short : (l' ≡ l ++ l2) ⊎ (l' ≡ l ++ h.top ∷ l2) → length l' ≤ fuel
    short (inl q) = let e = ap length q ∙ length-append l l2 in omega (arith, e, n)
    short (inr q) = let e = ap length q ∙ length-append l (h.top ∷ l2) in omega (arith, e, n)

    freed :
        (k : Heap)
        → All (λ a. k.impls a ≡ none) l'
        → (l' ≡ l ++ l2) ⊎ (l' ≡ l ++ h.top ∷ l2)
        → All (λ a. k.impls a ≡ none) l × All (λ a. k.impls a ≡ none) l2
    freed k g (inl q) =
        let w = subst (All (λ a. k.impls a ≡ none)) q g in
        (
          All-append_left (λ a. k.impls a ≡ none) l l2 w,
          All-append_right (λ a. k.impls a ≡ none) l l2 w,
        )
    freed k g (inr q) =
        let w = subst (All (λ a. k.impls a ≡ none)) q g in
        (
          All-append_left (λ a. k.impls a ≡ none) l (h.top ∷ l2) w,
          (All-append_right (λ a. k.impls a ≡ none) l (h.top ∷ l2) w).1,
        )

Separate-Distinct : (l l2 : List ℕ) (top : ℕ) → Separate l l2 top → Distinct l
Separate-Distinct [] l2 top s = tt
Separate-Distinct (a ∷ l) l2 top (t, (n, (m, s))) = (n, Separate-Distinct l l2 top s)

append-Joined :
    (rounds : ℕ) (self d : ImplPointer) (l l2 : List ℕ) (acts acts2 : List Action) (h : Heap)
    → Chain h.impls self l acts
    → Chain h.impls d l2 acts2
    → Separate l l2 h.top
    → OtherMemory d acts
    → length l < rounds
    → (r : ImplPointer × Heap) × ((append_deleter rounds self d h ≡ some r)
        × Joined l l2 (acts ++ acts2) h r)
unfolding append_deleter
append-Joined rounds self null l [] acts acts2 h c c2 s om n =
    let e : acts ≡ acts ++ acts2 = sym (append-nil acts) ∙ ap (λ u. acts ++ u) (sym c2) in
    (
      (self, h),
      (
        refl,
        (
          l,
          (
            (subst (Chain h.impls self l) e c, Separate-Distinct l [] h.top s),
            (refl, inl (sym (append-nil l))),
          ),
        ),
      ),
    )
append-Joined rounds self null l (b ∷ l2) acts acts2 h c (q, r) s om n = ground arith
append-Joined rounds self (raw_object p) l l2 acts acts2 h c c2 s om n =
    loop-Joined rounds self (raw_object p) l l2 acts acts2 h c c2 s om n
append-Joined rounds self (impl_at a) l l2 acts acts2 h c c2 s om n =
    loop-Joined rounds self (impl_at a) l l2 acts acts2 h c c2 s om n

-- `append` to a deleter that nobody shares, of another that nobody shares and that does not free
-- the same memory directly, ends and fails no assertion, when all their `impl`s are different and
-- `new` gives none of them. When the deleter is destroyed afterwards, the actions of the first and
-- then those of the second are done, each once, and the `impl`s of both are freed.
pub append-BothDone :
    (rounds fuel : ℕ) (self d : ImplPointer) (l l2 : List ℕ) (acts acts2 : List Action) (h : Heap)
    → Chain h.impls self l acts
    → Chain h.impls d l2 acts2
    → Separate l l2 h.top
    → OtherMemory d acts
    → length l < rounds
    → length l + length l2 < fuel
    → (r : ImplPointer × Heap) × ((append_deleter rounds self d h ≡ some r)
        × ((k : Heap) × ((destroy fuel r.0 r.1 ≡ some k) × BothDone l l2 (acts ++ acts2) h k)))
append-BothDone rounds fuel self d l l2 acts acts2 h c c2 s om n m =
    let (r, (t, j)) = append-Joined rounds self d l l2 acts acts2 h c c2 s om n in
    (r, (t, Joined-ends fuel l l2 (acts ++ acts2) h r j m))
