-- ===== src/Memcache/Allocator/Pages.antt =====
-- include/memcached/slab.hh: a page changes, and with it the lists that hold its descriptor.
use mseastar.Prelude.{
  ℕ, ◌≤◌, ◌<◌, ◌≡◌, ◌≢◌, refl, sym, ap, ◌∙◌, subst, Option, none, some, List, [], ◌∷◌, ◌==◌,
  if◌then◌else◌, arith, Bool-cases, inl, inr,
}
use mseastar.Memcache.Allocator.{Page, SlabClass, Allocator}
use mseastar.Memcache.Allocator.Lists.{update, copies, is_empty, same_or, update-at, update-other}
use mseastar.Memcache.Allocator.Inv.{PageOk, listed, aged, IsValid}
use mseastar.Memcache.Allocator.Steps.{PageOk-update, Apart-replace, Holds-replace}

pub listed-own :
    (c : ℕ) (p : Page)
    → p.slab_class_id ≡ c
    → listed c (some p) ≡ (if is_empty p.free_objects then 0 else 1)
listed-own c p e = elim (Bool-cases (p.slab_class_id == c)) [
  | inl t ↦ rw t refl
  | inr f ↦ absurd (ground arith)
]

pub listed-other : (c : ℕ) (p : Page) → p.slab_class_id ≢ c → listed c (some p) ≡ 0
listed-other c p n = elim (Bool-cases (p.slab_class_id == c)) [
  | inl t ↦ absurd (n (ground arith))
  | inr f ↦ rw f refl
]

-- A page of a valid allocator changes, but for its memory and its class.
pub page-IsValid :
    (s : Allocator) (i : ℕ) (p q : Page) (g : ℕ → SlabClass) (m : List ℕ)
    → IsValid s
    → s.slab_pages_vector i ≡ some p
    → q.slab_page ≡ p.slab_page
    → q.slab_class_id ≡ p.slab_class_id
    → PageOk s.slab_class_sizes s.max_object_size s.slab_pages i q
    → ((d : ℕ)
        → ((g d).size ≡ (s.slab_classes d).size)
          × (((g d).slab_class_id ≡ (s.slab_classes d).slab_class_id)
              × ((g d).lru ≡ (s.slab_classes d).lru)))
    → ((d j : ℕ)
        → copies j (g d).free_slab_pages ≡ listed d (update s.slab_pages_vector i (some q) j))
    → ((j : ℕ) → copies j m ≡ aged s.reclaimer (update s.slab_pages_vector i (some q) j))
    → ((d a : ℕ)
        → 0 < copies a (s.slab_classes d).lru
        → copies a p.free_objects ≡ 0
        → copies a q.free_objects ≡ 0)
    → IsValid (record s {
      slab_pages_vector = update s.slab_pages_vector i (some q);
      slab_classes = g;
      slab_page_desc_lru = m;
    })
page-IsValid s i p q g m h e b k o same free age rest = record {
  sized = λ d. (same d).0 ∙ h.sized d;
  numbered = λ d. (same d).1.0 ∙ h.numbered d;
  fits = h.fits;
  paged =
      PageOk-update s.slab_class_sizes s.max_object_size s.slab_pages i q s.slab_pages_vector
        h.paged o;
  apart = Apart-replace s.max_object_size i p q s.slab_pages_vector h.apart e b;
  listing = free;
  single = λ d a. subst (λ l. copies a l ≤ 1) (sym (same d).1.1) (h.single d a);
  held = λ d a u.
      let w = subst (λ l. 0 < copies a l) (same d).1.1 u in
      Holds-replace s i p q (s.slab_page_index a) d a e b k (λ z y. rest d a w z) (h.held d a w);
  aging = age;
}

-- Lists that stand as they were, when the page counts as it did.
pub listing-keep :
    (s : Allocator) (i : ℕ) (p q : Page)
    → IsValid s
    → s.slab_pages_vector i ≡ some p
    → ((d : ℕ) → listed d (some q) ≡ listed d (some p))
    → (d j : ℕ)
    → copies j (s.slab_classes d).free_slab_pages
      ≡ listed d (update s.slab_pages_vector i (some q) j)
listing-keep s i p q h e k d j = elim (same_or j i) [
  | inl y ↦
      h.listing d j
      ∙ ap (λ z. listed d (s.slab_pages_vector z)) y
      ∙ ap (listed d) e
      ∙ sym (k d)
      ∙ ap (listed d) (sym (update-at s.slab_pages_vector i j (some q) y))
  | inr n ↦ h.listing d j ∙ ap (listed d) (sym (update-other s.slab_pages_vector i j (some q) n))
]

pub aging-keep :
    (s : Allocator) (i : ℕ) (p q : Page)
    → IsValid s
    → s.slab_pages_vector i ≡ some p
    → q.refcnt ≡ p.refcnt
    → (j : ℕ)
    → copies j s.slab_page_desc_lru ≡ aged s.reclaimer (update s.slab_pages_vector i (some q) j)
aging-keep s i p q h e k j = elim (same_or j i) [
  | inl y ↦
      h.aging j
      ∙ ap (λ z. aged s.reclaimer (s.slab_pages_vector z)) y
      ∙ ap (aged s.reclaimer) e
      ∙ ap (λ n. if s.reclaimer then if n == 0 then 1 else 0 else 0) (sym k)
      ∙ ap (aged s.reclaimer) (sym (update-at s.slab_pages_vector i j (some q) y))
  | inr n ↦
      h.aging j ∙ ap (aged s.reclaimer) (sym (update-other s.slab_pages_vector i j (some q) n))
]

-- The list of the pages to reclaim changes.
pub aging-change :
    (s : Allocator) (i : ℕ) (q : Page) (m : List ℕ)
    → IsValid s
    → copies i m ≡ aged s.reclaimer (some q)
    → ((j : ℕ) → j ≢ i → copies j m ≡ copies j s.slab_page_desc_lru)
    → (j : ℕ) → copies j m ≡ aged s.reclaimer (update s.slab_pages_vector i (some q) j)
aging-change s i q m h own other j = elim (same_or j i) [
  | inl y ↦
      ap (λ z. copies z m) y
      ∙ own
      ∙ ap (aged s.reclaimer) (sym (update-at s.slab_pages_vector i j (some q) y))
  | inr n ↦
      other j n
      ∙ h.aging j
      ∙ ap (aged s.reclaimer) (sym (update-other s.slab_pages_vector i j (some q) n))
]

abbrev pub pages_of : SlabClass → List ℕ
pages_of k = k.free_slab_pages

-- The class of the page lists it anew.
pub listing-change :
    (s : Allocator) (i c : ℕ) (q : Page) (l : List ℕ)
    → IsValid s
    → q.slab_class_id ≡ c
    → ((d : ℕ) → d ≢ c → listed d (s.slab_pages_vector i) ≡ 0)
    → copies i l ≡ (if is_empty q.free_objects then 0 else 1)
    → ((j : ℕ) → j ≢ i → copies j l ≡ copies j (s.slab_classes c).free_slab_pages)
    → (d j : ℕ)
    → copies j
        (pages_of (update s.slab_classes c (record (s.slab_classes c) { free_slab_pages = l }) d))
      ≡ listed d (update s.slab_pages_vector i (some q) j)
listing-change s i c q l h k o own other d j =
    let new = record (s.slab_classes c) { free_slab_pages = l } in
    elim (same_or d c) [
      | inl y ↦
          ap (λ z. copies j z.free_slab_pages) (update-at s.slab_classes c d new y)
          ∙ (elim (same_or j i) [
            | inl z ↦
                ap (λ w. copies w l) z
                ∙ own
                ∙ sym (listed-own d q (k ∙ sym y))
                ∙ ap (listed d) (sym (update-at s.slab_pages_vector i j (some q) z))
            | inr n ↦
                other j n
                ∙ h.listing c j
                ∙ ap (λ w. listed w (s.slab_pages_vector j)) (sym y)
                ∙ ap (listed d) (sym (update-other s.slab_pages_vector i j (some q) n))
          ])
      | inr n ↦
          ap (λ z. copies j z.free_slab_pages) (update-other s.slab_classes c d new n)
          ∙ h.listing d j
          ∙ (elim (same_or j i) [
            | inl z ↦
                ap (λ w. listed d (s.slab_pages_vector w)) z
                ∙ o d n
                ∙ sym (listed-other d q (λ y. n (sym y ∙ k)))
                ∙ ap (listed d) (sym (update-at s.slab_pages_vector i j (some q) z))
            | inr m ↦ ap (listed d) (sym (update-other s.slab_pages_vector i j (some q) m))
          ])
    ]

-- What a class that lists a page knows of it.
pub listed-some :
    (c : ℕ) (o : Option Page)
    → 0 < listed c o
    → (p : Page) × ((a : ℕ) × ((free : List ℕ) × ((o ≡ some p)
            × ((p.slab_class_id ≡ c) × (p.free_objects ≡ a ∷ free)))))
listed-some c none h = absurd (omega (arith, h))
listed-some c (some p) h = elim (same_or p.slab_class_id c) [
  | inr n ↦ absurd (omega (arith, h, listed-other c p n))
  | inl y ↦ nonempty p.free_objects refl (subst (λ n. 0 < n) (listed-own c p y) h) y
]
  where
    nonempty :
        (l : List ℕ)
        → p.free_objects ≡ l
        → 0 < (if is_empty p.free_objects then 0 else 1)
        → p.slab_class_id ≡ c
        → (r : Page) × ((a : ℕ) × ((free : List ℕ) × ((some p ≡ some r)
                × ((r.slab_class_id ≡ c) × (r.free_objects ≡ a ∷ free)))))
    nonempty [] e k y = absurd (omega (arith, subst (λ z. 0 < (if is_empty z then 0 else 1)) e k))
    nonempty (a ∷ free) e k y = (p, (a, (free, (refl, (y, e)))))
