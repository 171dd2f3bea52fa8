-- ===== src/Memcache/Allocator/Tests.antt =====
-- include/memcached/slab.hh: the slab allocator at work, with pages of 1,024 bytes and a reclaimer.
use mseastar.Prelude.{ℕ, ◌^◌, ◌≡◌, refl, true, none, some, List, [], ◌∷◌, arith}
use mseastar.Memcache.Allocator.{
  Page, Allocator, class_sizes, default_growth, initial_size, with_sizes, new_allocator, add_page,
  create, create_in, create_item, can_allocate_page, new_page, lock_item, unlock_item, free,
}
use mseastar.Memcache.Allocator.Lists.{copies}
use mseastar.Memcache.Allocator.Inv.{IsValid}
use mseastar.Memcache.Allocator.Sizes.{Smallest}
use mseastar.Memcache.Allocator.Taken.{Grows}
use mseastar.Memcache.Allocator.Grown.{add_page-Grows}
use mseastar.Memcache.Allocator.Create.{Answers, create-Answers}
use mseastar.Memcache.Allocator.Free.{Frees, free-Frees}
use mseastar.Memcache.Allocator.Lock.{Locks, unlock_item-lock_item}
use mseastar.Memcache.Allocator.Init.{Increasing, with_sizes-IsValid, new_allocator-Increasing}
use mseastar.Memcache.Allocator.Last.{grown, create_in-create_in}

abbrev sizes : List ℕ
sizes = 96 ∷ 120 ∷ 152 ∷ 192 ∷ 240 ∷ 304 ∷ 384 ∷ 480 ∷ 1024 ∷ []

sizes_of_small_pages : class_sizes default_growth 255 1024 initial_size ≡ some sizes
sizes_of_small_pages = refl

abbrev empty : Allocator
empty = with_sizes true 0 1024 sizes

sizes-Increasing : Increasing 1024 96 sizes
sizes-Increasing = ground arith

empty-IsValid : IsValid empty
empty-IsValid = with_sizes-IsValid 0 1024 true sizes sizes-Increasing (ground arith)

create-Answers_example :
    (c : ℕ) × (Smallest empty 100 c
      × Answers
          (λ a. true)
          (some 4096)
          true
          empty
          c
          (create (λ a. true) (some 4096) true 100 empty))
create-Answers_example =
    create-Answers (λ a. true) (some 4096) true empty 100 1 empty-IsValid (omega arith)
      (omega arith) (λ base e. (omega arith, λ j r f. ground arith)) (λ c a h. refl)

-- The allocator with one item, of 120 bytes.
abbrev one_item : Allocator
one_item = (add_page 1 4096 empty).1

one_item-Grows : Grows empty one_item 1 4096
one_item-Grows =
    (add_page-Grows empty empty-IsValid 1 4096 (omega arith) (omega arith)
      (λ j r f. ground arith)).1.1

one_item-cached : copies 4096 (one_item.slab_classes 1).lru ≡ 1
one_item-cached = one_item-Grows.cached 1 4096

free-Frees_example : (t : Allocator) × ((free 4096 one_item ≡ some t) × Frees one_item t 1 4096)
free-Frees_example =
    free-Frees 4096 1 one_item one_item-Grows.valid (omega (arith, one_item-cached))

abbrev its_page : Page
its_page = new_page 4096 8 120 1 0

one_item-page : one_item.slab_pages_vector (one_item.slab_page_index 4096) ≡ some its_page
unfolding create_item
one_item-page = refl

unlock_item-lock_item_example :
    (t : Allocator) × ((lock_item 4096 one_item ≡ some t)
      × (Locks one_item t 1 4096 its_page
          × ((u : Allocator) × ((unlock_item 4096 t ≡ some u)
                × (IsValid u
                    × ((u.slab_pages_vector (one_item.slab_page_index 4096) ≡ some its_page)
                        × ((d b : ℕ)
                            → copies b (u.slab_classes d).lru
                              ≡ copies b (one_item.slab_classes d).lru)))))))
unlock_item-lock_item_example =
    unlock_item-lock_item 4096 1 one_item its_page one_item-Grows.valid one_item-page (omega arith)
      (omega (arith, one_item-cached))

create_in-create_in_example :
    (create_in (λ a. true) (some 4096) true 8 empty
      ≡ some ((add_page 8 4096 empty).0, grown (λ a. true) 8 4096 empty))
    × (create_in (λ a. true) (some 8192) true 8 (grown (λ a. true) 8 4096 empty) ≡ none)
unfolding can_allocate_page
create_in-create_in_example =
    create_in-create_in (λ a. true) 8 4096 empty (some 8192) true refl refl refl refl

new_allocator-Increasing_example :
    (s : Allocator) × ((new_allocator default_growth 0 (2 ^ 20) true ≡ some s)
      × Increasing (2 ^ 20) 96 s.slab_class_sizes)
new_allocator-Increasing_example =
    new_allocator-Increasing 0 (2 ^ 20) true (omega arith) (omega arith)
