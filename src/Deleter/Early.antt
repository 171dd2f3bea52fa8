-- ===== src/Deleter/Early.antt =====
-- include/util/deleter.hh: what `append` does to a deleter that is shared.
use mseastar.Prelude.{
  ℕ, zero, suc, ◌+◌, ◌-◌, ◌<◌, ◌≡◌, ◌≢◌, ◌⊎◌, inl, inr, refl, sym, ap, ◌∙◌, false, Option, none,
  some, List, [], ◌∷◌, ◌++◌, arith, ◌==◌, if◌then◌else◌, length, length-append, All, All-imp,
}
use mseastar.Deleter.{
  ImplPointer, null, raw_object, impl_at, Action, deleter_object, Impl, Heap, refs_values, set_impl,
  new_impl, release, destroy, append_deleter, append_loop, then_heap, itself, next_of, same_pointer,
  wrap_shared, append_round, go_on, next_in,
}
use mseastar.Deleter.Chain.{store-at, store-other, Chain, Distinct, Chain-same, destroy-Chain}
use mseastar.Deleter.Append.{same_pointer-impl}
use mseastar.Deleter.Extend.{Separate, OtherMemory, All-both}
use mseastar.Deleter.Join.{loop-Extended}
use mseastar.Deleter.Shared.{release-shared}

append_deleter-loop :
    (rounds : ℕ) (self d : ImplPointer) (h : Heap)
    → d ≢ null
    → append_deleter rounds self d h ≡ append_loop rounds d itself self (self, h)
unfolding append_deleter
append_deleter-loop rounds self null h n = absurd (n refl)
append_deleter-loop rounds self (raw_object p) h n = refl
append_deleter-loop rounds self (impl_at a) h n = refl

-- The new `impl` that `append` puts in front of one that is shared, and the heap then
abbrev wrapper : ℕ → Impl → Impl
wrapper a i = record { refs = 1; next = i.next; object = deleter_object (impl_at a) }

abbrev with_wrapper : ℕ → Impl → Heap → Heap
with_wrapper a i h = (new_impl (wrapper a i) (set_impl a (some (record i { next = null })) h)).1

-- A round of the loop at an `impl` that is shared.
loop-shared :
    (rounds a : ℕ) (i : Impl) (d : ImplPointer) (h : Heap)
    → same_pointer (impl_at a) d ≡ false
    → h.impls a ≡ some i
    → 1 < i.refs
    → append_loop (suc rounds) d itself (impl_at a) (impl_at a, h)
      ≡ append_loop rounds d (next_of h.top) i.next (impl_at h.top, with_wrapper a i h)
unfolding append_loop
loop-shared rounds a i d h f x n =
    let t : (i.refs == 1) ≡ false = ground (arith, n) in
    let s : wrap_shared itself a (h.impls a) (impl_at a, h)
        ≡ some (h.top, (impl_at h.top, with_wrapper a i h)) =
      ap (λ o. wrap_shared itself a o (impl_at a, h)) x ∙ rw t refl in
    let m : next_in h.top (with_wrapper a i h) ≡ i.next =
      ap (λ o. elim o as (λ u. ImplPointer) [ none ↦ null | some j ↦ j.next ])
        (store-at h.top (some (wrapper a i))
          (set_impl a (some (record i { next = null })) h).impls) in
    ap
      (λ u.
        if u then none else append_round (append_loop rounds d) itself (impl_at a, (impl_at a, h)))
      f
    ∙ ap (go_on (append_loop rounds d)) s
    ∙ ap (λ p. append_loop rounds d (next_of h.top) p (impl_at h.top, with_wrapper a i h)) m

-- The wrapper is destroyed: its reference to the shared `impl` is given up, and what was moved behind it is
-- destroyed.
destroy-wrapper :
    (fuel a w : ℕ) (i j : Impl) (q : ImplPointer) (l : List ℕ) (acts : List Action) (g : Heap)
    → g.impls w ≡ some (record (wrapper a i) { next = q })
    → g.impls a ≡ some j
    → a ≢ w
    → 1 < j.refs
    → j.refs < refs_values
    → Chain g.impls q l acts
    → Distinct l
    → All (λ b. b ≢ w) l
    → All (λ b. b ≢ a) l
    → length l < fuel
    → (k : Heap) × ((destroy (suc fuel) (impl_at w) g ≡ some k)
        × ((k.done ≡ g.done ++ acts) × (k.impls a ≡ some (record j { refs = j.refs - 1 }))))
unfolding destroy
destroy-wrapper zero a w i j q l acts g y x aw n m c d lw la s = ground arith
destroy-wrapper (suc fuel) a w i j q l acts g y x aw n m c d lw la s =
    let gone : Impl = record (wrapper a i) { next = q; refs = 0 } in
    let left : Impl = record j { refs = j.refs - 1 } in
    let g1 = set_impl w (some gone) g in
    let g2 = set_impl a (some left) g1 in
    let kept : All (λ b. g2.impls b ≡ g.impls b) l =
      All-both
        (λ b u v. store-other a b (some left) g1.impls v ∙ store-other w b (some gone) g.impls u) l
        lw la in
    let (k, (t, (done, (top, (freed, same))))) =
      destroy-Chain (suc fuel) q l acts g2 (Chain-same g.impls g2.impls q l acts kept c) d
        (omega (arith, s)) in
    (
      set_impl w none k,
      (
        ap (λ o. release (destroy (suc fuel)) w o g) y
            ∙ ap
                (λ o.
                  then_heap (release (destroy fuel) a o g1)
                    (λ u. then_heap (destroy (suc fuel) q u) (λ v. some (set_impl w none v))))
                (store-other w a (some gone) g.impls aw ∙ x)
            ∙ ap
                (λ o.
                  then_heap o
                    (λ u. then_heap (destroy (suc fuel) q u) (λ v. some (set_impl w none v))))
                (release-shared (destroy fuel) a j g1 n m)
            ∙ ap (λ o. then_heap o (λ v. some (set_impl w none v))) t,
        (
          done,
          store-other w a none k.impls aw
              ∙ same a (All-imp (λ b. b ≢ a) (λ b u e. u (sym e)) l la)
              ∙ store-at a (some left) g1.impls,
        ),
      ),
    )

-- All the actions were done, though the `impl` that is shared is still there, for those who share it.
abbrev pub DoneEarly : ℕ → ℕ → Impl → List Action → Heap → ImplPointer × Heap → Type 0
DoneEarly fuel a i acts h r =
    (k : Heap) × ((destroy fuel r.0 r.1 ≡ some k)
      × ((k.done ≡ h.done ++ acts)
          × (k.impls a ≡ some (record i { refs = i.refs - 1; next = null }))))

-- When the first `impl` of a deleter is shared, and what stands behind it is not, `append` of a
-- deleter that is not null and not shared, with different `impl`s, moves what stands behind the
-- first one away from those who share it: once this deleter is destroyed, these actions are done,
-- although the `impl` that is shared has references left, and nothing stands behind it any more.
pub append-DoneEarly :
    (rounds fuel a : ℕ) (i : Impl) (d : ImplPointer) (l l2 : List ℕ) (acts acts2 : List Action)
    (h : Heap)
    → h.impls a ≡ some i
    → 1 < i.refs
    → i.refs < refs_values
    → Chain h.impls i.next l acts
    → Chain h.impls d l2 acts2
    → d ≢ null
    → Separate (a ∷ l) l2 h.top
    → Separate (a ∷ l) l2 (h.top + 1)
    → OtherMemory d acts
    → length l + 1 < rounds
    → length l + length l2 + 2 < fuel
    → (r : ImplPointer × Heap) × ((append_deleter rounds (impl_at a) d h ≡ some r)
        × DoneEarly fuel a i (acts ++ acts2) h r)
append-DoneEarly zero fuel a i d l l2 acts acts2 h x m1 m2 c c2 nd s s' om n m = ground arith
append-DoneEarly (suc rounds) zero a i d l l2 acts acts2 h x m1 m2 c c2 nd s s' om n m =
    ground arith
append-DoneEarly (suc rounds) (suc fuel) a i d l l2 acts acts2 h x m1 m2 c c2 nd (at, (na, (ma, s)))
      (at', (na', (ma', s'))) om n m =
    let w = h.top in
    let h2 = with_wrapper a i h in
    let cut : Impl = record i { next = null } in
    let h1 = set_impl a (some cut) h in
    let new : Option Impl = some (wrapper a i) in
    let kept : (b : ℕ) → b ≢ w → b ≢ a → h2.impls b ≡ h.impls b =
      λ b u v. store-other w b new h1.impls u ∙ store-other a b (some cut) h.impls v in
    let (lw, l2w) = tops l s in
    let ww : w ≢ w + 1 = λ e. ground (arith, e) in
    let (g, (t, (q, (l', ((y, (c', d')), ((done, split), (out, same))))))) =
      loop-Extended d l2 acts2 rounds w (wrapper a i) i.next l acts (impl_at w) h2
        (store-at w new h1.impls) refl
        (Chain-same h.impls h2.impls i.next l acts (All-both (λ b u v. kept b u v) l lw na) c)
        (Chain-same h.impls h2.impls d l2 acts2 (All-both (λ b u v. kept b u v) l2 l2w ma) c2)
        (ww, (lw, (l2w, s'))) om (omega (arith, n)) in
    let ga : g.impls a ≡ some cut =
      same a at at' na ∙ store-other w a new h1.impls at ∙ store-at a (some cut) h.impls in
    let (k, (t', (done', left))) =
      destroy-wrapper fuel a w i cut q l' (acts ++ acts2) g y ga at m1 m2 c' d' (out w ww lw l2w)
        (out a at' na ma) (short l' split) in
    (
      (impl_at w, g),
      (
        append_deleter-loop (suc rounds) (impl_at a) d h nd
            ∙ loop-shared rounds a i d h (same_pointer-impl a d l2 h.impls acts2 c2 ma) x m1
            ∙ t,
        (k, (t', (done' ∙ ap (λ u. u ++ (acts ++ acts2)) done, left))),
      ),
    )
  where
    tops : (l : List ℕ) → Separate l l2 h.top → All (λ b. b ≢ h.top) l × All (λ b. b ≢ h.top) l2
    tops [] s = (tt, s.0)
    tops (b ∷ l) s = let (u, v) = tops l s.1.1.1 in ((s.0, u), v)

    short : (l' : List ℕ) → (l' ≡ l ++ l2) ⊎ (l' ≡ l ++ (h.top + 1) ∷ l2) → length l' < fuel
    short l' (inl q) = let e = ap length q ∙ length-append l l2 in omega (arith, e, m)
    short l' (inr q) =
        let e = ap length q ∙ length-append l ((h.top + 1) ∷ l2) in omega (arith, e, m)
