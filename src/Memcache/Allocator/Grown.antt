-- ===== src/Memcache/Allocator/Grown.antt =====
-- include/memcached/slab.hh: the objects of a new page, and the page's arrival in the allocator.
use mseastar.Prelude.{
  ℕ, zero, suc, ◌+◌, ◌-◌, ◌*◌, ◌/◌, ◌%◌, ◌^◌, ◌≤◌, ◌<◌, ◌≡◌, ◌≢◌, ◌⊎◌, refl, sym, ap, ◌∙◌, subst,
  Bool, true, false, none, some, List, [], ◌∷◌, if◌then◌else◌, arith, get_or, length, Option-cases,
  inl, inr,
}
use mseastar.Memcache.Allocator.{
  Page, Allocator, made, push_objects, new_page, add_page, with_page, with_free_pages,
}
use mseastar.Memcache.Allocator.Lists.{
  update, copies, one, is_empty, same_or, update-at, update-other, one_self, one_other, push_front,
  copies-push,
}
use mseastar.Memcache.Allocator.Inv.{Slot, object_size, PageOk, Apart, listed, aged, Live, IsValid}
use mseastar.Memcache.Allocator.Steps.{Slot-bounds, PageOk-update, Apart-update, kept}
use mseastar.Memcache.Allocator.Pages.{listing-change, aging-change}
use mseastar.Memcache.Allocator.Taken.{Ready, Grows, create_item-Grows, unused-Uncached}

push_objects-in :
    (n object size : ℕ) (free : List ℕ) (a : ℕ)
    → 0 < copies a (push_objects n object size free)
    → (0 < copies a free) ⊎ ((k : ℕ) × ((k < n) × (a ≡ object + suc k * size)))
push_objects-in zero object size free a h = inl h
push_objects-in (suc n) object size free a h =
    elim (push_objects-in n (object + size) size ((object + size) ∷ free) a h) [
      | inl k ↦ elim (same_or (object + size) a) [
        | inl y ↦ inr (0, (omega arith, omega (arith, y)))
        | inr m ↦ inl (omega (arith, k, one_other a (object + size) m))
      ]
      | inr (k, (l, e)) ↦ inr (suc k, (omega (arith, l), omega (arith, e)))
    ]

push_objects-once :
    (n object size : ℕ) (free : List ℕ)
    → 0 < size
    → ((a : ℕ) → copies a free ≤ 1)
    → ((a : ℕ) → 0 < copies a free → a ≤ object)
    → (a : ℕ) → copies a (push_objects n object size free) ≤ 1
push_objects-once zero object size free z o h = o
push_objects-once (suc n) object size free z o h =
    push_objects-once n (object + size) size ((object + size) ∷ free) z
      (λ a. elim (same_or (object + size) a) [
        | inl y ↦ none_above a y (h a)
        | inr m ↦ omega (arith, o a, one_other a (object + size) m)
      ])
      (λ a k. elim (same_or (object + size) a) [
        | inl y ↦ omega (arith, y)
        | inr m ↦ let l = h a (omega (arith, k, one_other a (object + size) m)) in omega (arith, l)
      ])
  where
    at_most : (a b : ℕ) → one a b ≤ 1
    at_most a b = ground arith

    none_above :
        (a : ℕ)
        → object + size ≡ a
        → (0 < copies a free → a ≤ object)
        → copies a ((object + size) ∷ free) ≤ 1
    none_above a y k = elim (same_or (copies a free) 0) [
      | inl e ↦ omega (arith, e, at_most a (object + size))
      | inr m ↦ let l = k (omega (arith, m)) in absurd (omega (arith, l, y, z))
    ]

push_objects-nonempty :
    (n object size a : ℕ) (free : List ℕ) → is_empty (push_objects n object size (a ∷ free)) ≡ false
push_objects-nonempty zero object size a free = refl
push_objects-nonempty (suc n) object size a free =
    push_objects-nonempty n (object + size) size (object + size) (a ∷ free)

page-nonempty : (n object size : ℕ) → 1 ≤ n → is_empty (push_objects n object size []) ≡ false
page-nonempty zero object size h = absurd (omega (arith, h))
page-nonempty (suc n) object size h =
    push_objects-nonempty n (object + size) size (object + size) []

-- The first object of a new page is not a free one.
page-first : (n base size : ℕ) → 0 < size → copies base (push_objects n base size []) ≡ 0
page-first n base size z = elim (same_or (copies base (push_objects n base size [])) 0) [
  | inl y ↦ y
  | inr m ↦ elim (push_objects-in n base size [] base (omega (arith, m))) [
    | inl k ↦ absurd (omega (arith, k))
    | inr (k, (l, e)) ↦ absurd (omega (arith, e, z))
  ]
]

new_page-PageOk :
    (sizes : List ℕ) (max n i base size c index : ℕ)
    → size ≡ get_or sizes c 0
    → index ≡ i
    → suc c < length sizes
    → i < n
    → 0 < size
    → PageOk sizes max n i (new_page base (max / size) size c index)
new_page-PageOk sizes max n i base size c index e y k l z = record {
  indexed = y;
  signed = refl;
  known = k;
  small = l;
  inside = λ a h. elim (push_objects-in (max / size - 1) base size [] a h) [
    | inl m ↦ absurd (omega (arith, m))
    | inr (j, (m, w)) ↦ subst (λ u. Slot max u base a) e (suc j, (omega (arith, m), w))
  ];
  once =
      push_objects-once (max / size - 1) base size [] z (λ a. omega arith)
        (λ a m. absurd (omega (arith, m)));
}

-- `aligned_alloc` answers with memory that no page of the allocator has.
abbrev pub Fresh : Allocator → ℕ → Type 0
Fresh s base =
    (j : ℕ) (r : Page) → s.slab_pages_vector j ≡ some r → Apart s.max_object_size base r.slab_page

module _ (s : Allocator) (h : IsValid s) where
  -- Nothing stands behind the end of the vector.
  vacant : s.slab_pages_vector s.slab_pages ≡ none
  vacant = elim (Option-cases (s.slab_pages_vector s.slab_pages)) [
    | inl e ↦ e
    | inr (p, e) ↦ absurd (omega (arith, (h.paged s.slab_pages p e).small))
  ]

  arrived-unused :
      (base c : ℕ)
      → Fresh s base
      → (suc c < length s.slab_class_sizes)
      → (d : ℕ) → Live s d base
      → ⊥
  arrived-unused base c f k d (r, (g, (x, (l, v)))) =
      let b = Slot-bounds s.max_object_size (object_size s d) r.slab_page base l in
      let z : 0 < object_size s d =
        subst (λ y. 0 < object_size s y) x
          (h.fits r.slab_class_id (h.paged (s.slab_page_index base) r g).known).0 in
      elim (f (s.slab_page_index base) r g) [
        | inl o ↦ omega (arith, o, b.0, b.1, z)
        | inr o ↦ omega (arith, o, b.0, b.1, z)
      ]

module _ (s : Allocator) (h : IsValid s) (c base : ℕ) where
  -- The new page, and the allocator before its first item is made.
  abbrev fresh_page : Page
  fresh_page =
      new_page base (s.max_object_size / (s.slab_classes c).size) (s.slab_classes c).size
        (s.slab_classes c).slab_class_id (s.slab_pages % 2 ^ 32)

  abbrev with_fresh : Allocator
  with_fresh =
      let k = s.slab_classes c in
      let t = with_free_pages c (push_front s.slab_pages k.free_slab_pages) s in
      record (with_page s.slab_pages (some fresh_page) t) {
        slab_pages = s.slab_pages + 1;
        slab_page_desc_lru =
            if s.reclaimer
            then push_front s.slab_pages s.slab_page_desc_lru
            else s.slab_page_desc_lru;
      }

  arrived-PageOk :
      suc c < length s.slab_class_sizes
      → s.slab_pages < 2 ^ 32
      → PageOk s.slab_class_sizes s.max_object_size (s.slab_pages + 1) s.slab_pages fresh_page
  arrived-PageOk k l =
      new_page-PageOk s.slab_class_sizes s.max_object_size (s.slab_pages + 1) s.slab_pages base
        (s.slab_classes c).size (s.slab_classes c).slab_class_id (s.slab_pages % 2 ^ 32)
        (h.sized c ∙ ap (object_size s) (sym (h.numbered c))) (omega arith)
        (subst (λ z. suc z < length s.slab_class_sizes) (sym (h.numbered c)) k) (omega arith)
        (subst (λ z. 0 < z) (sym (h.sized c)) (h.fits c k).0)

  arrived-aging :
      (j : ℕ)
      → copies j with_fresh.slab_page_desc_lru
        ≡ aged s.reclaimer (update s.slab_pages_vector s.slab_pages (some fresh_page) j)
  arrived-aging =
      let z : copies s.slab_pages s.slab_page_desc_lru ≡ 0 =
        h.aging s.slab_pages ∙ ap (aged s.reclaimer) (vacant s h) in
      aging-change s s.slab_pages fresh_page with_fresh.slab_page_desc_lru h
        (own s.reclaimer s.slab_page_desc_lru z) (λ j n. other s.reclaimer s.slab_page_desc_lru j n)
    where
      own :
          (r : Bool) (l : List ℕ)
          → copies s.slab_pages l ≡ 0
          → copies s.slab_pages (if r then push_front s.slab_pages l else l) ≡ (if r then 1 else 0)
      own true l z =
          omega (arith, z, copies-push s.slab_pages s.slab_pages l, one_self s.slab_pages)
      own false l z = z

      other :
          (r : Bool) (l : List ℕ) (j : ℕ)
          → j ≢ s.slab_pages
          → copies j (if r then push_front s.slab_pages l else l) ≡ copies j l
      other true l j n =
          omega (arith, copies-push j s.slab_pages l, one_other j s.slab_pages (λ y. n (sym y)))
      other false l j n = refl

  arrived-stays : (d b : ℕ) → Live s d b → Live with_fresh d b
  arrived-stays d b (r, (g, x)) =
      let n : s.slab_page_index b ≢ s.slab_pages =
        λ y. omega (arith, (h.paged (s.slab_page_index b) r g).small, y) in
      (
        r,
        (
          update-other s.slab_pages_vector s.slab_pages (s.slab_page_index b) (some fresh_page) n
              ∙ g,
          x,
        ),
      )

  arrived-lru : (d : ℕ) → (with_fresh.slab_classes d).lru ≡ (s.slab_classes d).lru
  arrived-lru d =
      kept (λ z. z.lru) s.slab_classes c
        (record (s.slab_classes c) {
          free_slab_pages = push_front s.slab_pages (s.slab_classes c).free_slab_pages;
        })
        d refl

  arrived-nonempty : suc c < length s.slab_class_sizes → is_empty fresh_page.free_objects ≡ false
  arrived-nonempty k =
      page-nonempty (s.max_object_size / (s.slab_classes c).size - 1) base (s.slab_classes c).size
        (omega (arith, (h.fits c k).1.0, ap (λ z. s.max_object_size / z) (h.sized c)))

  arrived-IsValid :
      suc c < length s.slab_class_sizes → s.slab_pages < 2 ^ 32 → Fresh s base → IsValid with_fresh
  arrived-IsValid k l f =
      let new = record (s.slab_classes c) {
        free_slab_pages = push_front s.slab_pages (s.slab_classes c).free_slab_pages;
      } in
      let e : s.slab_pages_vector s.slab_pages ≡ none = vacant s h in
      let z : copies s.slab_pages (s.slab_classes c).free_slab_pages ≡ 0 =
        h.listing c s.slab_pages ∙ ap (listed c) e in
      let old = (s.slab_classes c).free_slab_pages in
      record {
        sized = λ d. kept (λ z. z.size) s.slab_classes c new d refl ∙ h.sized d;
        numbered = λ d. kept (λ z. z.slab_class_id) s.slab_classes c new d refl ∙ h.numbered d;
        fits = h.fits;
        paged =
            PageOk-update s.slab_class_sizes s.max_object_size (s.slab_pages + 1) s.slab_pages
              fresh_page s.slab_pages_vector (λ j r g. later j r (h.paged j r g))
              (arrived-PageOk k l);
        apart =
            Apart-update s.max_object_size s.slab_pages fresh_page s.slab_pages_vector h.apart
              (λ j r n. f j r);
        listing =
            listing-change s s.slab_pages c fresh_page new.free_slab_pages h (h.numbered c)
              (λ d n. ap (listed d) e)
              (omega (arith, copies-push s.slab_pages s.slab_pages old, z, one_self s.slab_pages)
                ∙ ap (λ b. if b then 0 else 1) (sym (arrived-nonempty k)))
              (λ j n.
                omega (
                  arith,
                  copies-push j s.slab_pages old,
                  one_other j s.slab_pages (λ y. n (sym y)),
                ));
        single = λ d a. subst (λ l. copies a l ≤ 1) (sym (arrived-lru d)) (h.single d a);
        held =
            λ d a u. arrived-stays d a (h.held d a (subst (λ l. 0 < copies a l) (arrived-lru d) u));
        aging = arrived-aging;
      }
    where
      later :
          (j : ℕ) (r : Page)
          → PageOk s.slab_class_sizes s.max_object_size s.slab_pages j r
          → PageOk s.slab_class_sizes s.max_object_size (s.slab_pages + 1) j r
      later j r o = record {
        indexed = o.indexed;
        signed = o.signed;
        known = o.known;
        small = omega (arith, o.small);
        inside = o.inside;
        once = o.once;
      }

  arrived-Ready :
      suc c < length s.slab_class_sizes
      → s.slab_pages < 2 ^ 32
      → Fresh s base
      → Ready s with_fresh (s.slab_pages % 2 ^ 32) c base
  arrived-Ready k l f =
      let z = h.fits c k in
      let y : s.slab_pages % 2 ^ 32 ≡ s.slab_pages = omega arith in
      let o = unused-Uncached s base h (arrived-unused s h base c f k) in
      let w = h.sized c in
      record {
        valid = arrived-IsValid k l f;
        holds = (
          fresh_page,
          (
            update-at s.slab_pages_vector s.slab_pages (s.slab_pages % 2 ^ 32) (some fresh_page) y,
            (
              h.numbered c,
              (
                (0, (omega (arith, z.1.0), omega arith)),
                page-first (s.max_object_size / (s.slab_classes c).size - 1) base
                    (s.slab_classes c).size (subst (λ u. 0 < u) (sym w) z.0),
              ),
            ),
          ),
        );
        uncached = λ d. ap (copies base) (arrived-lru d) ∙ o d;
        same = (refl, refl);
        same_index = refl;
        stays = λ d b n. arrived-stays d b;
      }

  pub add_page-Grows :
      suc c < length s.slab_class_sizes
      → s.slab_pages < 2 ^ 32
      → Fresh s base
      → ((add_page c base s).0 ≡ made base (s.slab_pages % 2 ^ 32))
        × (((d : ℕ) → Live s d base → ⊥) × Grows s (add_page c base s).1 c base)
  add_page-Grows k l f = (
    refl,
    (
      arrived-unused s h base c f k,
      create_item-Grows s with_fresh (s.slab_pages % 2 ^ 32) c base (arrived-Ready k l f)
          arrived-lru,
    ),
  )
