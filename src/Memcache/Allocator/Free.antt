-- ===== src/Memcache/Allocator/Free.antt =====
-- include/memcached/slab.hh: `free` of an item, and `touch`.
use mseastar.Prelude.{
  ℕ, ◌+◌, ◌<◌, ◌≡◌, ◌≢◌, refl, sym, ap, ◌∙◌, subst, true, false, some, List, [], ◌∷◌, ◌==◌, ltb,
  arith, length, word_add, Bool-cases, inl, inr,
}
use mseastar.Memcache.Allocator.{
  Page, Allocator, slab_magic_number, page_of, free, remove_item_from_lru, with_lru,
}
use mseastar.Memcache.Allocator.Lists.{update, copies, one, same_or, update-at, one_self, one_other}
use mseastar.Memcache.Allocator.Inv.{Slot, object_size, Holds, Live, IsValid}
use mseastar.Memcache.Allocator.Items.{Uncached, remove_item_from_lru-some}
use mseastar.Memcache.Allocator.Steps.{Holds-replace, kept}
use mseastar.Memcache.Allocator.Taken.{Same, once_more, free-unused}
use mseastar.Memcache.Allocator.Evict.{Live-class}
use mseastar.Memcache.Allocator.Create.{counted-IsValid}
use mseastar.Memcache.Allocator.Given.{given, given-IsValid}

-- The page of an item in use, and its class.
pub page_of-some :
    (a c : ℕ) (s : Allocator) (p : Page)
    → IsValid s
    → s.slab_pages_vector (s.slab_page_index a) ≡ some p
    → p.slab_class_id ≡ c
    → page_of a s ≡ some (p, c)
unfolding page_of
page_of-some a c s p h e k =
    let o = h.paged (s.slab_page_index a) p e in
    let m : (p.magic == slab_magic_number) ≡ true = let x = o.signed in ground arith in
    let l : ltb p.slab_class_id (length s.slab_class_sizes) ≡ true =
      let x = o.known in ground arith in
    rw (e, page_of) (rw (m, page_of) (rw (l, page_of) (ap (λ z. some (p, z)) k)))

module _ (c i a : ℕ) (p : Page) (s : Allocator) where
  given-lru :
      (fr : List ℕ) (d : ℕ) → ((given c i a p fr s).slab_classes d).lru ≡ (s.slab_classes d).lru
  given-lru [] d =
      kept (λ z. z.lru) s.slab_classes c
        (record (s.slab_classes c) { free_slab_pages = i ∷ (s.slab_classes c).free_slab_pages }) d
        refl
  given-lru (x ∷ fr) d = let m : (length (a ∷ x ∷ fr) == 1) ≡ false = ground arith in rw m refl

  given-Holds :
      (fr : List ℕ) (j d b : ℕ)
      → Holds
          (record s {
            slab_pages_vector =
                update s.slab_pages_vector i (some (record p { free_objects = a ∷ fr }));
          })
          j
          d
          b
      → Holds (given c i a p fr s) j d b
  given-Holds [] j d b h = h
  given-Holds (x ∷ fr) j d b h = let m : (length (a ∷ x ∷ fr) == 1) ≡ false = ground arith in rw m h

  given-page :
      (fr : List ℕ)
      → (given c i a p fr s).slab_pages_vector i ≡ some (record p { free_objects = a ∷ fr })
  given-page [] = update-at s.slab_pages_vector i i (some (record p { free_objects = a ∷ [] })) refl
  given-page (x ∷ fr) =
      let m : (length (a ∷ x ∷ fr) == 1) ≡ false = ground arith in
      rw m (update-at s.slab_pages_vector i i (some (record p { free_objects = a ∷ x ∷ fr })) refl)

  given-index : (fr : List ℕ) → (given c i a p fr s).slab_page_index ≡ s.slab_page_index
  given-index [] = refl
  given-index (x ∷ fr) = let m : (length (a ∷ x ∷ fr) == 1) ≡ false = ground arith in rw m refl

  given-Same : (fr : List ℕ) → Same s (given c i a p fr s)
  given-Same [] = (refl, refl)
  given-Same (x ∷ fr) =
      let m : (length (a ∷ x ∷ fr) == 1) ≡ false = ground arith in rw m (refl, refl)

-- The item of class `c` at `a` is gone, and the other items are as they were.
pub record Frees (s t : Allocator) (c a : ℕ) : Type 0 where
  pub valid : IsValid t
  pub same : Same s t
  pub gone : (d : ℕ) → Live t d a → ⊥
  pub kept : (d b : ℕ) → b ≢ a → Live s d b → Live t d b
  pub cached :
      (d b : ℕ)
      → copies b (t.slab_classes d).lru + once_more c a d b ≡ copies b (s.slab_classes d).lru

module _ (a c : ℕ) (s : Allocator) (h : IsValid s) where
  -- What leaving its class's list changes.
  pub without-lru :
      (l : List ℕ)
      → ((b : ℕ) → copies b (s.slab_classes c).lru ≡ one b a + copies b l)
      → (d b : ℕ)
      → copies b ((with_lru c l s).slab_classes d).lru + once_more c a d b
        ≡ copies b (s.slab_classes d).lru
  without-lru l n d b =
      let new = record (s.slab_classes c) { lru = l } in
      elim (Bool-cases (d == c)) [
        | inl t ↦
            let y : d ≡ c = ground arith in
            let q : copies b (s.slab_classes d).lru ≡ copies b (s.slab_classes c).lru =
              ap (λ z. copies b (s.slab_classes z).lru) y in
            rw t (omega (arith, n b, q))
        | inr f ↦ rw f (omega arith)
      ]

  pub without-Uncached :
      (l : List ℕ)
      → ((b : ℕ) → copies b (s.slab_classes c).lru ≡ one b a + copies b l)
      → Uncached (with_lru c l s) a
  without-Uncached l n d =
      let has : 0 < copies a (s.slab_classes c).lru = omega (arith, n a, one_self a) in
      elim (Bool-cases (d == c)) [
        | inl t ↦
            let y : d ≡ c = ground arith in
            let k : once_more c a d a ≡ 1 = rw t (one_self a) in
            omega (
              arith,
              without-lru l n d a,
              k,
              h.single c a,
              ap (λ z. copies a (s.slab_classes z).lru) y,
            )
        | inr f ↦ elim (same_or (copies a (s.slab_classes d).lru) 0) [
          | inl z ↦ omega (arith, without-lru l n d a, z)
          | inr o ↦
              let w = Live-class s c d a (h.held c a has) (h.held d a (omega (arith, o))) in
              absurd (ground arith)
        ]
      ]

  given-Frees :
      (l : List ℕ) (p : Page)
      → IsValid (with_lru c l s)
      → ((b : ℕ) → copies b (s.slab_classes c).lru ≡ one b a + copies b l)
      → s.slab_pages_vector (s.slab_page_index a) ≡ some p
      → p.slab_class_id ≡ c
      → Slot s.max_object_size (object_size s c) p.slab_page a
      → copies a p.free_objects ≡ 0
      → Frees s (given c (s.slab_page_index a) a p p.free_objects (with_lru c l s)) c a
  given-Frees l p v n g k x z =
      let i = s.slab_page_index a in
      let u = with_lru c l s in
      let fr = p.free_objects in
      let q = record p { free_objects = a ∷ fr } in
      let w = given-IsValid c i a p u fr v g k refl z x (without-Uncached l n) in
      record {
        valid = w;
        same = given-Same c i a p u fr;
        gone =
            free-unused (given c i a p fr u) i a q w (given-page c i a p u fr)
              (omega (arith, one_self a));
        kept = λ d b m y. given-Holds c i a p u fr ((given c i a p fr u).slab_page_index b) d b (
            subst
              (λ f.
                Holds (record u { slab_pages_vector = update u.slab_pages_vector i (some q) }) (f b)
                  d b)
              (sym (given-index c i a p u fr))
              (Holds-replace u i p q (u.slab_page_index b) d b g refl refl
                (λ e o. omega (arith, e, one_other b a (λ r. m (sym r)))) y));
        cached = λ d b.
            ap (λ f. copies b f + once_more c a d b) (given-lru c i a p u fr d)
            ∙ without-lru l n d b;
      }

  counted-Frees : (n : ℕ) (t : Allocator) → Frees s t c a → Frees s (record t { frees = n }) c a
  counted-Frees n t f = record {
    valid = counted-IsValid t.allocs n t.available_slab_pages t.reclaimed t f.valid;
    same = f.same;
    gone = f.gone;
    kept = f.kept;
    cached = f.cached;
  }

  -- `free` of an item that its class lists, in a valid allocator, gives its object back to its
  -- page: it is in use no more, and all others are as they were.
  pub free-Frees :
      0 < copies a (s.slab_classes c).lru → (t : Allocator) × ((free a s ≡ some t) × Frees s t c a)
  unfolding free
  free-Frees has = go (h.held c a has) (remove_item_from_lru-some a c s h has)
    where
      go :
          Live s c a
          → ((l : List ℕ) × ((remove_item_from_lru a c s ≡ some (with_lru c l s))
                × (IsValid (with_lru c l s)
                    × ((b : ℕ) → copies b (s.slab_classes c).lru ≡ one b a + copies b l))))
          → (t : Allocator) × ((free a s ≡ some t) × Frees s t c a)
      go (p, (g, (k, (x, z)))) (l, (e, (v, n))) =
          let t = given c (s.slab_page_index a) a p p.free_objects (with_lru c l s) in
          (
            record t { frees = word_add t.frees 1 },
            (
              rw (page_of-some a c s p h g k, free) (rw (e, free) refl),
              counted-Frees (word_add t.frees 1) t (given-Frees l p v n g k x z),
            ),
          )
