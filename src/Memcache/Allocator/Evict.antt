-- ===== src/Memcache/Allocator/Evict.antt =====
-- include/memcached/slab.hh: `create_from_lru`, which makes an item in the place of another.
use mseastar.Prelude.{
  ℕ, ◌+◌, ◌<◌, ◌≡◌, ◌≢◌, refl, sym, ap, ◌∙◌, Bool, true, Option, none, some, List, [], ◌∷◌, ◌++◌,
  ◌==◌, arith, Bool-cases, inl, inr,
}
use mseastar.Memcache.Allocator.{
  Allocator, Answer, throws_bad_alloc, null_item, made, made_from, create_item, create_from_lru,
  with_lru,
}
use mseastar.Memcache.Allocator.Lists.{copies, one, same_or, update-at, update-other, one_self}
use mseastar.Memcache.Allocator.Inv.{Live, IsValid}
use mseastar.Memcache.Allocator.Items.{with_lru-IsValid}
use mseastar.Memcache.Allocator.Taken.{Ready, Same, Listing, create_item-Grows}

-- The item that class `c` lists first, at its back, is erased, and a new one
-- made in its place is listed last.
pub record Evicts (s t : Allocator) (c a : ℕ) : Type 0 where
  pub valid : IsValid t
  pub oldest : (l : List ℕ) × (((s.slab_classes c).lru ≡ a ∷ l) × Listing s t c a l)
  pub same : Same s t
  pub live : Live t c a
  pub kept : (d b : ℕ) → b ≢ a → Live s d b → Live t d b
  pub cached : (d b : ℕ) → copies b (t.slab_classes d).lru ≡ copies b (s.slab_classes d).lru

-- An item of one class is of no other.
pub Live-class : (s : Allocator) (c d a : ℕ) → Live s c a → Live s d a → c ≡ d
Live-class s c d a (p, (e, (x, y))) (q, (f, (z, w))) =
    let o : some p ≡ some q = sym e ∙ f in
    let k : p ≡ q = ground arith in sym x ∙ ap (λ r. r.slab_class_id) k ∙ z

module _ (unlocked : ℕ → Bool) (s : Allocator) (h : IsValid s) (c : ℕ) where
  victim-Ready :
      (a : ℕ) (l : List ℕ)
      → (s.slab_classes c).lru ≡ a ∷ l
      → Ready s (with_lru c l s) (s.slab_page_index a) c a
  victim-Ready a l e =
      let new = record (s.slab_classes c) { lru = l } in
      let n : (b : ℕ) → copies b (s.slab_classes c).lru ≡ one b a + copies b l =
        λ b. ap (copies b) e in
      let has : 0 < copies a (s.slab_classes c).lru = omega (arith, n a, one_self a) in
      record {
        valid =
            with_lru-IsValid c l s h (λ b. omega (arith, n b, h.single c b))
              (λ b o. h.held c b (omega (arith, n b, o)));
        holds = h.held c a has;
        uncached = λ d. elim (same_or d c) [
          | inl y ↦
              ap (λ z. copies a z.lru) (update-at s.slab_classes c d new y)
              ∙ omega (arith, n a, one_self a, h.single c a)
          | inr m ↦
              ap (λ z. copies a z.lru) (update-other s.slab_classes c d new m)
              ∙ (elim (same_or (copies a (s.slab_classes d).lru) 0) [
                | inl y ↦ y
                | inr o ↦
                    absurd (
                      m (sym (Live-class s c d a (h.held c a has) (h.held d a (omega (arith, o))))))
              ])
        ];
        same = (refl, refl);
        same_index = refl;
        stays = λ d b o k. k;
      }

  victim-Evicts :
      (a : ℕ) (l : List ℕ)
      → (s.slab_classes c).lru ≡ a ∷ l
      → Evicts s (create_item c a (s.slab_page_index a) (with_lru c l s)) c a
  victim-Evicts a l e =
      let new = record (s.slab_classes c) { lru = l } in
      let u = with_lru c l s in
      let r = victim-Ready a l e in
      let g =
        create_item-Grows u u (s.slab_page_index a) c a
          (record {
            valid = r.valid;
            holds = r.holds;
            uncached = r.uncached;
            same = (refl, refl);
            same_index = refl;
            stays = λ d b o k. k;
          })
          (λ d. refl) in
      record {
        valid = g.valid;
        oldest = (
          l,
          (
            e,
            (
              g.ordered.0 ∙ ap (λ z. z.lru ++ a ∷ []) (update-at s.slab_classes c c new refl),
              λ d n. g.ordered.1 d n ∙ ap (λ z. z.lru) (update-other s.slab_classes c d new n),
            ),
          ),
        );
        same = g.same;
        live = g.live;
        kept = g.kept;
        cached = λ d b. elim (Bool-cases (d == c)) [
          | inl t ↦
              let y : d ≡ c = ground arith in
              g.cached d b
              ∙ rw t (
                  omega (
                    arith,
                    ap (λ z. copies b z.lru) (update-at s.slab_classes c d new y),
                    ap (λ z. copies b (s.slab_classes z).lru) y,
                    ap (copies b) e,
                  ))
          | inr f ↦
              let n : d ≢ c = λ y. ground arith in
              g.cached d b
              ∙ rw f
                  (omega (arith, ap (λ z. copies b z.lru) (update-other s.slab_classes c d new n)))
        ];
      }

  -- The answers of `create_from_lru`.
  abbrev pub FromLru : Option (Answer × Allocator) → Type 0
  FromLru none = ⊥
  FromLru (some (throws_bad_alloc, t)) = (t ≡ s) × ((s.slab_classes c).lru ≡ [])
  FromLru (some (null_item, t)) = ⊥
  FromLru (some (made a i, t)) = ⊥
  FromLru (some (made_from a i, t)) = Evicts s t c a

  from_lru :
      (l : List ℕ)
      → (s.slab_classes c).lru ≡ l
      → ((a : ℕ) → 0 < copies a (s.slab_classes c).lru → unlocked a ≡ true)
      → FromLru (create_from_lru unlocked c s)
  unfolding create_from_lru
  from_lru [] e u = rw (e, create_from_lru) (refl, e)
  from_lru (a ∷ l) e u =
      let y = u a (omega (arith, ap (copies a) e, one_self a)) in
      rw (e, create_from_lru) (rw (y, create_from_lru) (victim-Evicts a l e))

  pub create_from_lru-FromLru :
      ((a : ℕ) → 0 < copies a (s.slab_classes c).lru → unlocked a ≡ true)
      → FromLru (create_from_lru unlocked c s)
  create_from_lru-FromLru = from_lru (s.slab_classes c).lru refl
