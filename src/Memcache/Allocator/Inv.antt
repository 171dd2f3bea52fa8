-- ===== src/Memcache/Allocator/Inv.antt =====
-- include/memcached/slab.hh: the invariant of the slab allocator. It speaks of classes whose pages have
-- room for more than one object: every class but the last one.
use mseastar.Prelude.{
  ℕ, suc, ◌+◌, ◌*◌, ◌/◌, ◌%◌, ◌≤◌, ◌<◌, ◌≡◌, ◌≢◌, ◌⊎◌, Bool, Option, none, some, List, ◌==◌,
  if◌then◌else◌, get_or, length,
}
use mseastar.Memcache.Allocator.{Page, Allocator, slab_magic_number}
use mseastar.Memcache.Allocator.Lists.{copies, is_empty}

-- An address is that of an object of the page that begins at `base`.
abbrev pub Slot : ℕ → ℕ → ℕ → ℕ → Type 0
Slot max size base a = (k : ℕ) × ((k < max / size) × (a ≡ base + k * size))

abbrev pub object_size : Allocator → ℕ → ℕ
object_size s c = get_or s.slab_class_sizes c 0

-- A page that stands at this place of the vector.
pub record PageOk (sizes : List ℕ) (max n i : ℕ) (p : Page) : Type 0 where
  pub indexed : p.index ≡ i
  pub signed : p.magic ≡ slab_magic_number
  pub known : suc p.slab_class_id < length sizes
  pub small : i < n
  pub inside :
      (a : ℕ)
      → 0 < copies a p.free_objects
      → Slot max (get_or sizes p.slab_class_id 0) p.slab_page a
  pub once : (a : ℕ) → copies a p.free_objects ≤ 1

abbrev pub Apart : ℕ → ℕ → ℕ → Type 0
Apart max a b = (a + max ≤ b) ⊎ (b + max ≤ a)

-- How often a class lists a page as one with free objects, and the allocator as one to reclaim.
abbrev pub listed : ℕ → Option Page → ℕ
listed c none = 0
listed c (some p) = if p.slab_class_id == c then if is_empty p.free_objects then 0 else 1 else 0

abbrev pub aged : Bool → Option Page → ℕ
aged r none = 0
aged r (some p) = if r then if p.refcnt == 0 then 1 else 0 else 0

-- The page at place `i` of the vector is of class `c`, and `a` is one of its objects that is in use.
abbrev pub Holds : Allocator → ℕ → ℕ → ℕ → Type 0
Holds s i c a =
    (p : Page) × ((s.slab_pages_vector i ≡ some p)
      × ((p.slab_class_id ≡ c)
          × (Slot s.max_object_size (object_size s c) p.slab_page a
              × (copies a p.free_objects ≡ 0))))

-- The item at this address is in use, and in this class.
abbrev pub Live : Allocator → ℕ → ℕ → Type 0
Live s c a = Holds s (s.slab_page_index a) c a

pub record IsValid (s : Allocator) : Type 0 where
  pub sized : (c : ℕ) → (s.slab_classes c).size ≡ object_size s c
  pub numbered : (c : ℕ) → (s.slab_classes c).slab_class_id ≡ c
  pub fits :
      (c : ℕ)
      → suc c < length s.slab_class_sizes
      → (0 < object_size s c)
        × ((2 ≤ s.max_object_size / object_size s c) × (object_size s c % 8 ≡ 0))
  pub paged :
      (i : ℕ) (p : Page)
      → s.slab_pages_vector i ≡ some p
      → PageOk s.slab_class_sizes s.max_object_size s.slab_pages i p
  pub apart :
      (i j : ℕ) (p q : Page)
      → s.slab_pages_vector i ≡ some p
      → s.slab_pages_vector j ≡ some q
      → i ≢ j
      → Apart s.max_object_size p.slab_page q.slab_page
  pub listing :
      (c i : ℕ) → copies i (s.slab_classes c).free_slab_pages ≡ listed c (s.slab_pages_vector i)
  pub single : (c a : ℕ) → copies a (s.slab_classes c).lru ≤ 1
  pub held : (c a : ℕ) → 0 < copies a (s.slab_classes c).lru → Live s c a
  pub aging : (i : ℕ) → copies i s.slab_page_desc_lru ≡ aged s.reclaimer (s.slab_pages_vector i)
