-- ===== src/Deleter/Shared.antt =====
-- include/util/deleter.hh: `share`, and what `append` does to a deleter that is shared.
use mseastar.Prelude.{
  ℕ, zero, suc, ◌+◌, ◌-◌, ◌%◌, ◌<◌, ◌≡◌, ◌≢◌, refl, sym, ap, ◌∙◌, false, Option, some, List, [],
  ◌∷◌, ◌++◌, append-nil, arith, ◌==◌, if◌then◌else◌, length, All, All-imp,
}
use mseastar.Deleter.{
  ImplPointer, null, raw_object, impl_at, Action, frees, free_deleter, Impl, Heap, refs_values,
  store, set_impl, new_impl, release, destroy, count_ref, share_deleter, delete_impl,
}
use mseastar.Deleter.Chain.{store-at, store-other, Chain, Distinct, Chain-same, destroy-Chain}

-- A reference that is not the last one is only counted.
pub release-shared :
    (d : ImplPointer → Heap → Option Heap) (a : ℕ) (i : Impl) (h : Heap)
    → 1 < i.refs
    → i.refs < refs_values
    → release d a (some i) h ≡ some (set_impl a (some (record i { refs = i.refs - 1 })) h)
release-shared d a i h n m =
    let z : (i.refs + refs_values - 1) % refs_values ≡ i.refs - 1 = omega (arith, n, m) in
    let f : (i.refs - 1 == 0) ≡ false = ground (arith, n) in
    ap
      (λ r.
        if r == 0
        then delete_impl d a i (set_impl a (some (record i { refs = r })) h)
        else some (set_impl a (some (record i { refs = r })) h))
      z
    ∙ rw f refl

-- Two deleters that share what was done by one: the first of them to be destroyed does nothing, and the
-- second one does all the actions, in order, each once.
abbrev pub DoneByLast : ℕ → List Action → Heap → ImplPointer × (ImplPointer × Heap) → Type 0
DoneByLast fuel acts h r =
    (r.0 ≡ r.1.0)
    × ((k : Heap) × (((destroy fuel r.1.0 r.1.1 ≡ some k) × (k.done ≡ h.done))
          × ((m : Heap) × ((destroy fuel r.0 k ≡ some m) × (m.done ≡ h.done ++ acts)))))

-- Of two references to the first `impl` of a chain one is given up, and then the other.
two_refs :
    (fuel a : ℕ) (i : Impl) (l : List ℕ) (acts : List Action) (h g : Heap)
    → g.done ≡ h.done
    → g.impls a ≡ some (record i { refs = 2 })
    → Chain (store a (some (record i { refs = 1 })) g.impls) (impl_at a) (a ∷ l) acts
    → Distinct (a ∷ l)
    → length l < fuel
    → DoneByLast fuel acts h (impl_at a, (impl_at a, g))
unfolding destroy
two_refs zero a i l acts h g e x c d n = ground arith
two_refs (suc fuel) a i l acts h g e x c d n =
    let k = set_impl a (some (record i { refs = 1 })) g in
    let (m, (t, (done, rest))) =
      destroy-Chain (suc fuel) (impl_at a) (a ∷ l) acts k c d (omega (arith, n)) in
    (
      refl,
      (
        k,
        (
          (
            ap (λ o. release (destroy fuel) a o g) x
                ∙ release-shared (destroy fuel) a (record i { refs = 2 }) g (ground arith)
                    (ground arith),
            e,
          ),
          (m, (t, done ∙ ap (λ u. u ++ acts) e)),
        ),
      ),
    )

-- `share` of a deleter whose chain nobody else shares, with different `impl`s, gives a second
-- deleter with the same pointer: the one that is destroyed first does nothing, and the other then
-- does all the actions, in order, each once.
pub share-DoneByLast :
    (fuel : ℕ) (p : ImplPointer) (l : List ℕ) (acts : List Action) (h : Heap)
    → Chain h.impls p l acts
    → Distinct l
    → length l < fuel
    → (r : ImplPointer × (ImplPointer × Heap)) × ((share_deleter p h ≡ some r)
        × DoneByLast fuel acts h r)
unfolding share_deleter destroy
share-DoneByLast fuel null [] acts h c d n = (
  (null, (null, h)),
  (
    refl,
    (
      refl,
      (h, ((refl, refl), (h, (refl, sym (append-nil h.done) ∙ ap (λ u. h.done ++ u) (sym c))))),
    ),
  ),
)
share-DoneByLast fuel (raw_object p) [] acts h c d n =
    let new : Impl = record { refs = 1; next = null; object = free_deleter p } in
    let made = (new_impl new h).1 in
    let g = set_impl h.top (some (record new { refs = 2 })) made in
    (
      (impl_at h.top, (impl_at h.top, g)),
      (
        ap (λ o. count_ref h.top o made) (store-at h.top (some new) h.impls),
        two_refs fuel h.top new [] acts h g refl
            (store-at h.top (some (record new { refs = 2 })) made.impls)
            (
              refl,
              (
                new,
                (frees p, ([], ((store-at h.top (some new) g.impls, (refl, refl)), (c, refl)))),
              ),
            )
            (tt, tt) n,
      ),
    )
share-DoneByLast fuel (impl_at a) [] acts h c d n = absurd c
share-DoneByLast fuel p (a ∷ l) acts h (q, (i, (e, (rest, ((x, (y, o)), (z, c)))))) (apart, d) n =
    let g = set_impl a (some (record i { refs = 2 })) h in
    let two : (i.refs + 1) % refs_values ≡ 2 = omega (arith, y) in
    let one : Impl = record i { refs = 1 } in
    let kept : All (λ b. store a (some one) g.impls b ≡ h.impls b) l =
      All-imp (λ b. b ≢ a)
        (λ b m.
          store-other a b (some one) g.impls m
          ∙ store-other a b (some (record i { refs = 2 })) h.impls m)
        l apart in
    (
      (impl_at a, (impl_at a, g)),
      (
        ap (λ u. share_deleter u h) q
            ∙ ap (λ u. count_ref a u h) x
            ∙ ap (λ m. some (impl_at a, (impl_at a, set_impl a (some (record i { refs = m })) h)))
                two,
        two_refs fuel a i l acts h g refl (store-at a (some (record i { refs = 2 })) h.impls)
            (
              refl,
              (
                one,
                (
                  e,
                  (
                    rest,
                    (
                      (store-at a (some one) g.impls, (refl, o)),
                      (z, Chain-same h.impls (store a (some one) g.impls) i.next l rest kept c),
                    ),
                  ),
                ),
              ),
            )
            (apart, d) (omega (arith, n)),
      ),
    )
