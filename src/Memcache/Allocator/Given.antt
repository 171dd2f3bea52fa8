-- ===== src/Memcache/Allocator/Given.antt =====
-- include/memcached/slab.hh: an object is given back to its page.
use mseastar.Prelude.{
  ℕ, ◌≤◌, ◌<◌, ◌≡◌, refl, sym, ap, ◌∙◌, subst, false, some, List, [], ◌∷◌, ◌==◌, if◌then◌else◌,
  arith, get_or, length, inl, inr,
}
use mseastar.Memcache.Allocator.{Page, Allocator, with_page, with_free_pages}
use mseastar.Memcache.Allocator.Lists.{update, copies, one, is_empty, same_or, one_self, one_other}
use mseastar.Memcache.Allocator.Inv.{Slot, object_size, PageOk, listed, IsValid}
use mseastar.Memcache.Allocator.Items.{Uncached}
use mseastar.Memcache.Allocator.Steps.{kept}
use mseastar.Memcache.Allocator.Pages.{
  page-IsValid, listing-keep, listing-change, aging-keep, listed-own, listed-other,
}

-- The object at `a` is given back to its page; `objects` are the page's free objects.
abbrev pub given : ℕ → ℕ → ℕ → Page → List ℕ → Allocator → Allocator
given c i a p objects s =
    let u = with_page i (some (record p { free_objects = a ∷ objects })) s in
    if length (a ∷ objects) == 1
    then with_free_pages c (i ∷ (u.slab_classes c).free_slab_pages) u
    else u

given-PageOk :
    (sizes : List ℕ) (max n i a : ℕ) (p : Page)
    → PageOk sizes max n i p
    → copies a p.free_objects ≡ 0
    → Slot max (get_or sizes p.slab_class_id 0) p.slab_page a
    → PageOk sizes max n i (record p { free_objects = a ∷ p.free_objects })
given-PageOk sizes max n i a p o z l = record {
  indexed = o.indexed;
  signed = o.signed;
  known = o.known;
  small = o.small;
  inside = λ b k. elim (same_or a b) [
    | inl y ↦ subst (Slot max (get_or sizes p.slab_class_id 0) p.slab_page) y l
    | inr m ↦ o.inside b (omega (arith, k, one_other b a m))
  ];
  once = λ b. elim (same_or a b) [
    | inl y ↦ omega (arith, at_most b a, z, ap (λ w. copies w p.free_objects) y)
    | inr m ↦ omega (arith, o.once b, one_other b a m)
  ];
}
  where
    at_most : (b a : ℕ) → one b a ≤ 1
    at_most b a = ground arith

module _ (c i a : ℕ) (p : Page) (s : Allocator) where
  pub given-IsValid :
      (objects : List ℕ)
      → IsValid s
      → s.slab_pages_vector i ≡ some p
      → p.slab_class_id ≡ c
      → p.free_objects ≡ objects
      → copies a p.free_objects ≡ 0
      → Slot s.max_object_size (object_size s c) p.slab_page a
      → Uncached s a
      → IsValid (given c i a p objects s)
  given-IsValid objects h g k f z l u = go objects f
    where
      ok :
          (fr : List ℕ)
          → p.free_objects ≡ fr
          → PageOk s.slab_class_sizes s.max_object_size s.slab_pages i
              (record p { free_objects = a ∷ fr })
      ok fr y =
          subst
            (λ w.
              PageOk s.slab_class_sizes s.max_object_size s.slab_pages i
                (record p { free_objects = a ∷ w }))
            y
            (given-PageOk s.slab_class_sizes s.max_object_size s.slab_pages i a p (h.paged i p g) z
              (subst (λ w. Slot s.max_object_size (object_size s w) p.slab_page a) (sym k) l))

      rest :
          (fr : List ℕ)
          → p.free_objects ≡ fr
          → (d b : ℕ) → 0 < copies b (s.slab_classes d).lru
          → copies b p.free_objects ≡ 0
          → copies b (a ∷ fr) ≡ 0
      rest fr y d b w v = omega (
        arith,
        ap (copies b) y,
        v,
        one_other b a (λ x. omega (arith, w, u d, ap (λ m. copies m (s.slab_classes d).lru) x)),
      )

      go : (fr : List ℕ) → p.free_objects ≡ fr → IsValid (given c i a p fr s)
      go [] y =
          let old = (s.slab_classes c).free_slab_pages in
          let new = record (s.slab_classes c) { free_slab_pages = i ∷ old } in
          let w : copies i old ≡ 0 =
            h.listing c i
            ∙ ap (listed c) g
            ∙ listed-own c p k
            ∙ ap (λ m. if is_empty m then 0 else 1) y in
          page-IsValid s i p (record p { free_objects = a ∷ [] }) (update s.slab_classes c new)
            s.slab_page_desc_lru h g refl refl (ok [] y)
            (λ d. (
              kept (λ m. m.size) s.slab_classes c new d refl,
              (
                kept (λ m. m.slab_class_id) s.slab_classes c new d refl,
                kept (λ m. m.lru) s.slab_classes c new d refl,
              ),
            ))
            (listing-change s i c (record p { free_objects = a ∷ [] }) (i ∷ old) h k
              (λ d n. ap (listed d) g ∙ listed-other d p (λ x. n (sym x ∙ k)))
              (omega (arith, w, one_self i)) (λ j n. omega (arith, one_other j i (λ x. n (sym x)))))
            (aging-keep s i p (record p { free_objects = a ∷ [] }) h g refl) (rest [] y)
      go (x ∷ fr) y =
          let m : (length (a ∷ x ∷ fr) == 1) ≡ false = ground arith in
          rw m (
            page-IsValid s i p (record p { free_objects = a ∷ x ∷ fr }) s.slab_classes
              s.slab_page_desc_lru h g refl refl (ok (x ∷ fr) y) (λ d. (refl, (refl, refl)))
              (listing-keep s i p (record p { free_objects = a ∷ x ∷ fr }) h g
                (λ d.
                  ap (λ m. if p.slab_class_id == d then if is_empty m then 0 else 1 else 0)
                    (sym y)))
              (aging-keep s i p (record p { free_objects = a ∷ x ∷ fr }) h g refl)
              (rest (x ∷ fr) y))
