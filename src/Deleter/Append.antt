-- ===== src/Deleter/Append.antt =====
-- include/util/deleter.hh: `append` of a deleter to a chain that nobody else shares.
use mseastar.Prelude.{
  ℕ, suc, ◌≡◌, ◌≢◌, refl, sym, ap, ◌∙◌, true, false, Option, none, some, List, [], ◌∷◌, arith, ◌==◌,
  if◌then◌else◌, All,
}
use mseastar.Deleter.{
  ImplPointer, null, raw_object, impl_at, Action, free_deleter, Impl, Heap, new_impl, Place,
  next_of, write_place, same_pointer, wrap_shared, next_in, go_on, append_round, append_loop,
}
use mseastar.Deleter.Chain.{Chain}

pub same_pointer-impl :
    (a : ℕ) (d : ImplPointer) (l2 : List ℕ) (impls : ℕ → Option Impl) (acts2 : List Action)
    → Chain impls d l2 acts2
    → All (λ b. b ≢ a) l2
    → same_pointer (impl_at a) d ≡ false
same_pointer-impl a null l2 impls acts2 c n = refl
same_pointer-impl a (raw_object p) l2 impls acts2 c n = refl
same_pointer-impl a (impl_at b) [] impls acts2 c n = absurd c
same_pointer-impl a (impl_at b) (b' ∷ l2) impls acts2 (q, r) (n, ns) =
    let s : b ≡ b' = cc in ground (arith, n, s)

module _ (d : ImplPointer) where
  -- A round of the loop at an `impl` with one reference, and at an object to be freed directly.
  pub loop-impl :
      (fuel : ℕ) (place : Place) (b : ℕ) (j : Impl) (self : ImplPointer) (h : Heap)
      → same_pointer (impl_at b) d ≡ false
      → h.impls b ≡ some j
      → j.refs ≡ 1
      → append_loop (suc fuel) d place (impl_at b) (self, h)
        ≡ append_loop fuel d (next_of b) j.next (self, h)
  unfolding append_loop
  loop-impl fuel place b j self h f x r =
      let t : (j.refs == 1) ≡ true = ground (arith, r) in
      let s : wrap_shared place b (h.impls b) (self, h) ≡ some (b, (self, h)) =
        ap (λ o. wrap_shared place b o (self, h)) x ∙ rw t refl in
      let n : next_in b h ≡ j.next =
        ap (λ o. elim o as (λ u. ImplPointer) [ none ↦ null | some i ↦ i.next ]) x in
      ap (λ u. if u then none else append_round (append_loop fuel d) place (impl_at b, (self, h))) f
      ∙ ap (go_on (append_loop fuel d)) s
      ∙ ap (λ p. append_loop fuel d (next_of b) p (self, h)) n

  -- What `append` makes of an object to be freed directly
  abbrev pub wrapped : ℕ → Heap → Heap
  wrapped p h = (new_impl (record { refs = 1; next = null; object = free_deleter p }) h).1

  pub loop-raw :
      (fuel : ℕ) (place : Place) (p : ℕ) (self : ImplPointer) (h : Heap)
      → same_pointer (raw_object p) d ≡ false
      → same_pointer (impl_at h.top) d ≡ false
      → append_loop (suc fuel) d place (raw_object p) (self, h)
        ≡ append_loop
            (suc fuel)
            d
            place
            (impl_at h.top)
            (write_place place (impl_at h.top) (self, wrapped p h))
  unfolding append_loop
  loop-raw fuel place p self h f g =
      let s = write_place place (impl_at h.top) (self, wrapped p h) in
      ap (λ u. if u then none else append_round (append_loop fuel d) place (impl_at h.top, s))
        (f ∙ sym g)
