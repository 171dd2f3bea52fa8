-- ===== src/Memcache/Allocator/Last.antt =====
-- include/memcached/slab.hh: a class whose pages hold one object, which the last class is.
use mseastar.Prelude.{
  ℕ, ◌-◌, ◌/◌, ◌%◌, ◌^◌, ◌≡◌, refl, ap, ◌∙◌, Bool, true, false, Option, none, some, [], ◌∷◌, ◌==◌,
}
use mseastar.Memcache.Allocator.{
  Allocator, create_item, create_from_page, create_from_new_page, add_page, after, count_alloc,
  take_page, can_allocate_page, create_in, push_objects, new_page,
}
use mseastar.Memcache.Allocator.Lists.{update, is_empty, push_front, update-at}
use mseastar.Memcache.Allocator.Steps.{kept}

module _ (unlocked : ℕ → Bool) (c base : ℕ) (s : Allocator) where
  -- The allocator after the first item of class `c` is made in a new page at `base`.
  abbrev pub grown : Allocator
  grown = count_alloc (take_page (add_page c base s).1)

  -- The new page stands in the list of those with free objects, and has none.
  one_object-listed :
      (s.slab_classes c).free_slab_pages ≡ []
      → (grown.slab_classes c).free_slab_pages ≡ s.slab_pages ∷ []
  unfolding create_item
  one_object-listed e =
      let k = s.slab_classes c in
      let listed = record k { free_slab_pages = push_front s.slab_pages k.free_slab_pages } in
      let g = update s.slab_classes c listed in
      kept (λ z. z.free_slab_pages) g c (record (g c) { lru = push_front base (g c).lru }) c refl
      ∙ ap (λ z. z.free_slab_pages) (update-at s.slab_classes c c listed refl)
      ∙ ap (push_front s.slab_pages) e

  grown-page :
      grown.slab_pages_vector s.slab_pages
      ≡ some (
          new_page base
            (s.max_object_size / (s.slab_classes c).size)
            (s.slab_classes c).size
            (s.slab_classes c).slab_class_id
            (s.slab_pages % 2 ^ 32))
  unfolding create_item
  grown-page =
      update-at s.slab_pages_vector s.slab_pages s.slab_pages
        (some (
          new_page base (s.max_object_size / (s.slab_classes c).size) (s.slab_classes c).size
            (s.slab_classes c).slab_class_id (s.slab_pages % 2 ^ 32)))
        refl

  one_object-abort :
      s.max_object_size / (s.slab_classes c).size ≡ 1
      → (s.slab_classes c).free_slab_pages ≡ []
      → create_from_page c grown ≡ none
  unfolding create_from_page
  one_object-abort n e =
      let o : push_objects (s.max_object_size / (s.slab_classes c).size - 1) base
            (s.slab_classes c).size []
          ≡ [] =
        ap (λ m. push_objects (m - 1) base (s.slab_classes c).size []) n in
      rw (one_object-listed e, create_from_page)
        (rw (grown-page, create_from_page) (rw (o, create_from_page) refl))

  -- When a page holds one object of a class, as it does of the last class, and the class lists no
  -- page, and may allocate one, and its size is a multiple of 8, then the first item of a new page
  -- is made, and the next `create` in this class fails an assertion, whatever the answers of
  -- `aligned_alloc` and `new`: the page is in the list of those with free objects, and has none.
  pub create_in-create_in :
      (memory : Option ℕ) (described : Bool)
      → s.max_object_size / (s.slab_classes c).size ≡ 1
      → (s.slab_classes c).size % 8 ≡ 0
      → (s.slab_classes c).free_slab_pages ≡ []
      → can_allocate_page c s ≡ true
      → (create_in unlocked (some base) true c s ≡ some ((add_page c base s).0, grown))
        × (create_in unlocked memory described c grown ≡ none)
  unfolding create_in create_from_new_page
  create_in-create_in memory described n z e y =
      let w : ((s.slab_classes c).size % 8 == 0) ≡ true = ap (λ m. m == 0) z in
      let f : is_empty (s.slab_classes c).free_slab_pages ≡ true = ap is_empty e in
      let g : is_empty (grown.slab_classes c).free_slab_pages ≡ false =
        ap is_empty (one_object-listed e) in
      (
        rw (f, create_in) (rw (y, create_in) (rw (w, create_from_new_page) refl)),
        rw (g, create_in) (ap (after count_alloc) (one_object-abort n e)),
      )
