-- ===== src/Memcache/Allocator/Create.antt =====
-- include/memcached/slab.hh: `create` of the slab allocator, on all its ways.
use mseastar.Prelude.{
  ℕ, suc, ◌%◌, ◌^◌, ◌≤◌, ◌<◌, ◌≡◌, ◌⊎◌, refl, ap, ◌∙◌, Bool, true, false, Option, none, some, ◌==◌,
  if◌then◌else◌, arith, length, word_add, Bool-cases, inl, inr,
}
use mseastar.Memcache.Allocator.{
  Allocator, Answer, throws_bad_alloc, null_item, made, made_from, create_from_page,
  create_from_new_page, create_from_lru, can_allocate_page, add_page, after, count_alloc, take_page,
  create_in, create,
}
use mseastar.Memcache.Allocator.Lists.{copies, is_empty}
use mseastar.Memcache.Allocator.Inv.{object_size, Live, IsValid}
use mseastar.Memcache.Allocator.Sizes.{Smallest, class_for-Smallest}
use mseastar.Memcache.Allocator.Taken.{Grows, create_from_page-some}
use mseastar.Memcache.Allocator.Grown.{Fresh, add_page-Grows}
use mseastar.Memcache.Allocator.Evict.{Evicts, FromLru, create_from_lru-FromLru}

-- The counters are no part of the invariant.
pub counted-IsValid :
    (n m k : ℕ) (r : Bool) (s : Allocator)
    → IsValid s
    → IsValid (record s { allocs = n; frees = m; available_slab_pages = k; reclaimed = r })
counted-IsValid n m k r s h = record {
  sized = h.sized;
  numbered = h.numbered;
  fits = h.fits;
  paged = h.paged;
  apart = h.apart;
  listing = h.listing;
  single = h.single;
  held = h.held;
  aging = h.aging;
}

counted-Grows :
    (n k : ℕ) (s t : Allocator) (c a : ℕ)
    → Grows s t c a
    → Grows s (record t { allocs = n; available_slab_pages = k }) c a
counted-Grows n k s t c a g = record {
  valid = counted-IsValid n t.frees k t.reclaimed t g.valid;
  same = g.same;
  live = g.live;
  kept = g.kept;
  cached = g.cached;
  ordered = g.ordered;
}

-- A new item where there was none.
abbrev pub Makes : Allocator → Allocator → ℕ → ℕ → Type 0
Makes s t c a = ((d : ℕ) → Live s d a → ⊥) × Grows s t c a

module _ (unlocked : ℕ → Bool) (memory : Option ℕ) (described : Bool) (s : Allocator) where
  -- `create` in class `c`: it never fails but for want of memory for a new page.
  abbrev pub Answers : ℕ → Option (Answer × Allocator) → Type 0
  Answers c none = ⊥
  Answers c (some (throws_bad_alloc, t)) = (t ≡ s) × ((memory ≡ none) ⊎ (described ≡ false))
  Answers c (some (null_item, t)) = (t ≡ s) × (s.has_erase_func ≡ false)
  Answers c (some (made a i, t)) = Makes s t c a
  Answers c (some (made_from a i, t)) = Evicts s t c a

  module _ (h : IsValid s) (c : ℕ) (k : suc c < length s.slab_class_sizes) where
    from_page :
        is_empty (s.slab_classes c).free_slab_pages ≡ false
        → Answers c (after count_alloc (create_from_page c s))
    from_page e =
        let (a, (i, (t, (y, (u, g))))) = create_from_page-some c s h e in
        rw y (u, counted-Grows (word_add t.allocs 1) t.available_slab_pages s t c a g)

    new_page :
        (m : Option ℕ) (d : Bool)
        → memory ≡ m
        → described ≡ d
        → ((base : ℕ) → memory ≡ some base → (s.slab_pages < 2 ^ 32) × Fresh s base)
        → Answers c (after (λ t. count_alloc (take_page t)) (create_from_new_page c m d s))
    unfolding create_from_new_page
    new_page none d e y f = (refl, inl e)
    new_page (some base) d e y f =
        let z : ((s.slab_classes c).size % 8 == 0) ≡ true =
          ap (λ n. n % 8 == 0) (h.sized c) ∙ ap (λ n. n == 0) (h.fits c k).1.1 in
        rw (z, create_from_new_page) (at d y)
      where
        at :
            (d : Bool)
            → described ≡ d
            → Answers c (
                after
                  (λ t. count_alloc (take_page t))
                  (if d then some (add_page c base s) else some (throws_bad_alloc, s)))
        at false y = (refl, inr y)
        at true y =
            let (q, (u, g)) = add_page-Grows s h c base k (f base e).0 (f base e).1 in
            let t = (add_page c base s).1 in
            (u, counted-Grows (word_add t.allocs 1) (take_page t).available_slab_pages s t c base g)

    -- Where no page may be allocated, the class has an item to evict.
    evictable :
        (o : Option (Answer × Allocator))
        → can_allocate_page c s ≡ false
        → FromLru unlocked s h c o
        → Answers c o
    unfolding can_allocate_page
    evictable none n f = f
    evictable (some (throws_bad_alloc, t)) n (q, e) =
        let z : is_empty (s.slab_classes c).lru ≡ true = ap is_empty e in absurd (ground arith)
    evictable (some (null_item, t)) n f = absurd f
    evictable (some (made a i, t)) n f = absurd f
    evictable (some (made_from a i, t)) n f = f

    from_lru :
        can_allocate_page c s ≡ false
        → ((a : ℕ) → 0 < copies a (s.slab_classes c).lru → unlocked a ≡ true)
        → (b : Bool) → s.has_erase_func ≡ b
        → Answers c (if b then create_from_lru unlocked c s else some (null_item, s))
    from_lru n u true y =
        evictable (create_from_lru unlocked c s) n (create_from_lru-FromLru unlocked s h c u)
    from_lru n u false y = (refl, y)

    create_in-Answers :
        ((base : ℕ) → memory ≡ some base → (s.slab_pages < 2 ^ 32) × Fresh s base)
        → ((a : ℕ) → 0 < copies a (s.slab_classes c).lru → unlocked a ≡ true)
        → Answers c (create_in unlocked memory described c s)
    unfolding create_in
    create_in-Answers f u = elim (Bool-cases (is_empty (s.slab_classes c).free_slab_pages)) [
      | inr e ↦ rw (e, create_in) (from_page e)
      | inl e ↦
          rw (e, create_in)
            (elim (Bool-cases (can_allocate_page c s)) [
              | inl y ↦ rw (y, create_in) (new_page memory described refl refl f)
              | inr n ↦ rw (n, create_in) (from_lru n u s.has_erase_func refl)
            ])
    ]

  -- `create` of a valid allocator, for a size that a class other than the last one holds, when no
  -- item that a class lists is locked and `aligned_alloc` gives no memory twice, nor for 2 ^ 32
  -- pages: it makes the item in the smallest class that is large enough, at an object that is not
  -- in use, or it evicts the first item that this class lists; the class lists the new item last,
  -- behind the others in their order. The allocator stays valid. It throws for want of memory for a
  -- page only, and returns null only where no function to erase items is given; it changes nothing
  -- then.
  pub create-Answers :
      (size k : ℕ)
      → IsValid s
      → suc k < length s.slab_class_sizes
      → size ≤ object_size s k
      → ((base : ℕ) → memory ≡ some base → (s.slab_pages < 2 ^ 32) × Fresh s base)
      → ((c a : ℕ) → 0 < copies a (s.slab_classes c).lru → unlocked a ≡ true)
      → (c : ℕ) × (Smallest s size c × Answers c (create unlocked memory described size s))
  unfolding create
  create-Answers size k h l e f u =
      let (c, (g, (m, w))) = class_for-Smallest s size k (omega (arith, l)) e in
      (c, (m, rw (g, create) (create_in-Answers h c (omega (arith, l, w)) f (u c))))
