-- ===== src/Deleter/Join.antt =====
-- include/util/deleter.hh: the loop of `append`, and what the deleter does that it leaves.
use mseastar.Prelude.{
  ℕ, zero, suc, ◌<◌, ◌≡◌, ◌≢◌, inl, inr, refl, sym, ap, ◌∙◌, subst, some, List, [], ◌∷◌, ◌++◌,
  arith, length, All,
}
use mseastar.Deleter.{
  ImplPointer, null, raw_object, impl_at, Action, frees, free_deleter, Impl, Heap, Place, next_of,
  write_place, append_loop,
}
use mseastar.Deleter.Chain.{store-at, Chain}
use mseastar.Deleter.Append.{same_pointer-impl, loop-impl, loop-raw, wrapped}
use mseastar.Deleter.Extend.{
  Separate, OtherMemory, OtherMemory-rest, same_pointer-raw, pointed, pointed-other, Extended,
  at_null, at_raw,
}

module _ (d : ImplPointer) (l2 : List ℕ) (acts2 : List Action) where
  loop_end :
      (fuel a : ℕ) (self : ImplPointer) (h : Heap)
      → append_loop fuel d (next_of a) null (self, h) ≡ some (self, pointed a d h)
  unfolding append_loop
  loop_end zero a self h = refl
  loop_end (suc fuel) a self h = refl

  pub loop_raw_end :
      (fuel : ℕ) (place : Place) (p : ℕ) (self : ImplPointer) (h : Heap)
      → Chain h.impls d l2 acts2
      → All (λ b. b ≢ h.top) l2
      → OtherMemory d (frees p ∷ [])
      → (write_place place (impl_at h.top) (self, wrapped d p h)).1.impls h.top
        ≡ some (record { refs = 1; next = null; object = free_deleter p })
      → append_loop (suc fuel) d place (raw_object p) (self, h)
        ≡ some (
          (write_place place (impl_at h.top) (self, wrapped d p h)).0,
          pointed h.top d (write_place place (impl_at h.top) (self, wrapped d p h)).1,
        )
  loop_raw_end fuel place p self h c t om x =
      let s = write_place place (impl_at h.top) (self, wrapped d p h) in
      let f = same_pointer-impl h.top d l2 h.impls acts2 c t in
      loop-raw d fuel place p self h (same_pointer-raw p d om) f
      ∙ loop-impl d fuel place h.top (record { refs = 1; next = null; object = free_deleter p }) s.0
          s.1 f x refl
      ∙ loop_end fuel h.top s.0 s.1

  pub loop-Extended :
      (fuel a : ℕ) (i : Impl) (next : ImplPointer) (l : List ℕ) (acts : List Action)
      (self : ImplPointer) (h : Heap)
      → h.impls a ≡ some i
      → i.next ≡ next
      → Chain h.impls next l acts
      → Chain h.impls d l2 acts2
      → Separate (a ∷ l) l2 h.top
      → OtherMemory d acts
      → length l < fuel
      → (g : Heap) × ((append_loop fuel d (next_of a) next (self, h) ≡ some (self, g))
          × Extended a i l l2 (acts ++ acts2) h g)
  loop-Extended fuel a i null [] acts self h x q c c2 s om n = (
    pointed a d h,
    (
      loop_end fuel a self h,
      subst (λ u. Extended a i [] l2 (u ++ acts2) h (pointed a d h)) (sym c)
          (at_null d l2 acts2 a i h x c2 s),
    ),
  )
  loop-Extended zero a i (raw_object p) [] acts self h x q c c2 s om n = ground arith
  loop-Extended (suc fuel) a i (raw_object p) [] acts self h x q c c2 s om n =
      let g = pointed h.top d (pointed a (impl_at h.top) (wrapped d p h)) in
      (
        g,
        (
          loop_raw_end fuel (next_of a) p self h c2 (s.1.1.1.0) (subst (OtherMemory d) c om) (
              pointed-other a h.top (impl_at h.top) (wrapped d p h) (λ e. s.0 (sym e))
              ∙ store-at h.top (some (record { refs = 1; next = null; object = free_deleter p }))
                  h.impls),
          subst (λ u. Extended a i [] l2 (u ++ acts2) h g) (sym c)
              (at_raw d l2 acts2 a i p h x c2 s),
        ),
      )
  loop-Extended fuel a i (impl_at b) [] acts self h x q c c2 s om n = absurd c
  loop-Extended zero a i next (b ∷ l) acts self h x q c c2 s om n = ground arith
  loop-Extended (suc fuel) a i next (b ∷ l) acts self h x q
        (p, (j, (e, (rest, ((y, (r, o)), (z, c)))))) c2 (at, ((ba, na), (ma, (bt, (nb, (mb, s))))))
        om n =
      let (g, (t, (q', (l', ((y', (c', s')), ((done, split), (out, same))))))) =
        loop-Extended fuel b j j.next l rest self h y refl c c2 (bt, (nb, (mb, s)))
          (OtherMemory-rest d e rest (subst (OtherMemory d) z om)) (omega (arith, n)) in
      (
        g,
        (
          ap (λ u. append_loop (suc fuel) d (next_of a) u (self, h)) p
              ∙ loop-impl d fuel (next_of a) b j self h
                  (same_pointer-impl b d l2 h.impls acts2 c2 mb) y r
              ∙ t,
          (
            impl_at b,
            (
              b ∷ l',
              (
                (
                  same a (λ k. ba (sym k)) at na
                      ∙ x
                      ∙ ap (λ u. some (record i { next = u })) (q ∙ p),
                  (
                    (
                      refl,
                      (
                        record j { next = q' },
                        (e, (rest ++ acts2, ((y', (r, o)), (ap (λ u. u ++ acts2) z, c')))),
                      ),
                    ),
                    (out b bt nb mb, s'),
                  ),
                ),
                (
                  (
                    done,
                    elim split [
                      | inl k ↦ inl (ap (λ u. b ∷ u) k)
                      | inr k ↦ inr (ap (λ u. b ∷ u) k)
                    ],
                  ),
                  (λ w k u v. (u.0, out w k u.1 v), λ w k u v. same w (λ k'. v.0 (sym k')) u v.1),
                ),
              ),
            ),
          ),
        ),
      )
