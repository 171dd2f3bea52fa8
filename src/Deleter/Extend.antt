-- ===== src/Deleter/Extend.antt =====
-- include/util/deleter.hh: the chain that `append` makes of two chains.
use mseastar.Prelude.{
  ℕ, ◌≡◌, ◌≢◌, ◌⊎◌, inl, inr, refl, sym, ap, ◌∙◌, false, some, List, [], ◌∷◌, ◌++◌, arith, All,
  All-imp,
}
use mseastar.Deleter.{
  ImplPointer, null, raw_object, impl_at, Action, frees, free_deleter, Impl, Heap, set_impl,
  with_next, same_pointer,
}
use mseastar.Deleter.Chain.{store-at, store-other, Chain, Distinct, Chain-same}
use mseastar.Deleter.Append.{wrapped}

-- The `impl`s of two chains are all different, and `new` gives none of them.
abbrev pub Separate : List ℕ → List ℕ → ℕ → Type 0
Separate [] l2 top = All (λ c. c ≢ top) l2 × Distinct l2
Separate (a ∷ l) l2 top =
    (a ≢ top) × (All (λ b. b ≢ a) l × (All (λ c. c ≢ a) l2 × Separate l l2 top))

-- A deleter of an object to be freed directly frees what none of these actions frees.
abbrev pub OtherMemory : ImplPointer → List Action → Type 0
OtherMemory (raw_object p) acts = All (λ e. e ≢ frees p) acts
OtherMemory _ acts = Unit

pub OtherMemory-rest :
    (d : ImplPointer) (e : Action) (acts : List Action)
    → OtherMemory d (e ∷ acts)
    → OtherMemory d acts
OtherMemory-rest null e acts h = tt
OtherMemory-rest (raw_object p) e acts h = h.1
OtherMemory-rest (impl_at b) e acts h = tt

pub same_pointer-raw :
    (p : ℕ) (d : ImplPointer) → OtherMemory d (frees p ∷ []) → same_pointer (raw_object p) d ≡ false
same_pointer-raw p null h = refl
same_pointer-raw p (raw_object q) (h, _) = let n : p ≢ q = λ e. h (ap frees e) in ground (arith, n)
same_pointer-raw p (impl_at b) h = refl

pub All-both :
    {P Q R : ℕ → Type 0} → ((a : ℕ) → P a → Q a → R a) → (l : List ℕ) → All P l → All Q l → All R l
All-both f [] p q = tt
All-both f (a ∷ l) (p, ps) (q, qs) = (f a p q, All-both f l ps qs)

-- The last write of `append`.
abbrev pub pointed : ℕ → ImplPointer → Heap → Heap
pointed a d h = set_impl a (with_next d (h.impls a)) h

pub pointed-at :
    (a : ℕ) (d : ImplPointer) (i : Impl) (h : Heap)
    → h.impls a ≡ some i
    → (pointed a d h).impls a ≡ some (record i { next = d })
pointed-at a d i h x = store-at a (with_next d (h.impls a)) h.impls ∙ ap (with_next d) x

pub pointed-other :
    (a b : ℕ) (d : ImplPointer) (h : Heap) → b ≢ a → (pointed a d h).impls b ≡ h.impls b
pointed-other a b d h n = store-other a b (with_next d (h.impls a)) h.impls n

-- After `next_d` was the member `next` of the `impl` at `a`: this now points to a chain that does the
-- actions of both.
abbrev pub Extended : ℕ → Impl → List ℕ → List ℕ → List Action → Heap → Heap → Type 0
Extended a i l l2 acts h g =
    (q : ImplPointer) × ((l' : List ℕ) × (((g.impls a ≡ some (record i { next = q }))
          × (Chain g.impls q l' acts × Distinct l'))
        × (((g.done ≡ h.done) × ((l' ≡ l ++ l2) ⊎ (l' ≡ l ++ h.top ∷ l2)))
            × (((x : ℕ)
                  → x ≢ h.top
                  → All (λ b. b ≢ x) l
                  → All (λ b. b ≢ x) l2
                  → All (λ b. b ≢ x) l')
                × ((x : ℕ) → x ≢ a → x ≢ h.top → All (λ b. b ≢ x) l → g.impls x ≡ h.impls x)))))

module _ (d : ImplPointer) (l2 : List ℕ) (acts2 : List Action) where
  pub at_null :
      (a : ℕ) (i : Impl) (h : Heap)
      → h.impls a ≡ some i
      → Chain h.impls d l2 acts2
      → Separate (a ∷ []) l2 h.top
      → Extended a i [] l2 acts2 h (pointed a d h)
  at_null a i h x c (n, (_, (m, (t, s)))) = (
    d,
    (
      l2,
      (
        (
          pointed-at a d i h x,
          (
            Chain-same h.impls (pointed a d h).impls d l2 acts2
                (All-imp (λ b. b ≢ a) (λ b k. pointed-other a b d h k) l2 m) c,
            s,
          ),
        ),
        ((refl, inl refl), (λ x k u v. v, λ x k u v. pointed-other a x d h k)),
      ),
    ),
  )

  pub at_raw :
      (a : ℕ) (i : Impl) (p : ℕ) (h : Heap)
      → h.impls a ≡ some i
      → Chain h.impls d l2 acts2
      → Separate (a ∷ []) l2 h.top
      → Extended a i [] l2
          (frees p ∷ acts2)
          h
          (pointed h.top d (pointed a (impl_at h.top) (wrapped d p h)))
  at_raw a i p h x c (n, (_, (m, (t, s)))) =
      let new : Impl = record { refs = 1; next = null; object = free_deleter p } in
      let h0 = wrapped d p h in
      let h1 = pointed a (impl_at h.top) h0 in
      let g = pointed h.top d h1 in
      let made : h1.impls h.top ≡ some new =
        pointed-other a h.top (impl_at h.top) h0 (λ e. n (sym e))
        ∙ store-at h.top (some new) h.impls in
      let same : (y : ℕ) → y ≢ a → y ≢ h.top → g.impls y ≡ h.impls y = λ y k u.
        pointed-other h.top y d h1 u
        ∙ pointed-other a y (impl_at h.top) h0 k
        ∙ store-other h.top y (some new) h.impls u in
      (
        impl_at h.top,
        (
          h.top ∷ l2,
          (
            (
              pointed-other h.top a d h1 n
                  ∙ pointed-at a (impl_at h.top) i h0
                      (store-other h.top a (some new) h.impls n ∙ x),
              (
                (
                  refl,
                  (
                    record new { next = d },
                    (
                      frees p,
                      (
                        acts2,
                        (
                          (pointed-at h.top d new h1 made, (refl, refl)),
                          (
                            refl,
                            Chain-same h.impls g.impls d l2 acts2
                                (All-both (λ b k u. same b k u) l2 m t) c,
                          ),
                        ),
                      ),
                    ),
                  ),
                ),
                (t, s),
              ),
            ),
            ((refl, inr refl), (λ y k u v. ((λ e. k (sym e)), v), λ y k u v. same y k u)),
          ),
        ),
      )
