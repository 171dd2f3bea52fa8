-- ===== src/Memcache/Allocator.antt =====
-- include/memcached/slab.hh: `slab_page_desc`, `slab_class` and `slab_allocator`. An item is known by its
-- address, a page descriptor by its place in `_slab_pages_vector`. Every list stands with its back at
-- the head. The functions answer `none` where the source's behaviour is undefined, an assertion that
-- fails among it. What `aligned_alloc` and `new` answer is an argument, as is which items are unlocked.
pub mod Lists
pub mod Inv
pub mod Steps
pub mod Items
pub mod Pages
pub mod Taken
pub mod Grown
pub mod Sizes
pub mod Evict
pub mod Create
pub mod Given
pub mod Free
pub mod Pin
pub mod Lock
pub mod Init
pub mod Last
pub mod Fills
mod Tests
use mseastar.Memcache.Allocator.Lists.{update, push_front, take_out, occurs, is_empty}
use mseastar.Memcache.Item.{align_up}
use mseastar.Prelude.{
  ℕ, zero, suc, ◌+◌, ◌-◌, ◌*◌, ◌/◌, ◌%◌, ◌^◌, Bool, true, false, ◌&&◌, ◌||◌, not, Option, none,
  some, List, [], ◌∷◌, ltb, ◌==◌, if◌then◌else◌, word_add, word, get_or, length,
}

-- `slab_page_desc`
pub record Page : Type 0 where
  pub slab_page : ℕ
  pub free_objects : List ℕ
  pub refcnt : ℕ
  pub index : ℕ
  pub magic : ℕ
  pub slab_class_id : ℕ

pub record SlabClass : Type 0 where
  pub free_slab_pages : List ℕ
  pub lru : List ℕ
  pub size : ℕ
  pub slab_class_id : ℕ

-- `slab_page_index` is what the items' constructor has written, by their address.
pub record Allocator : Type 0 where
  pub slab_class_sizes : List ℕ
  pub slab_classes : ℕ → SlabClass
  pub has_erase_func : Bool
  pub slab_pages_vector : ℕ → Option Page
  pub slab_pages : ℕ
  pub slab_page_desc_lru : List ℕ
  pub max_object_size : ℕ
  pub available_slab_pages : ℕ
  pub allocs : ℕ
  pub frees : ℕ
  pub reclaimer : Bool
  pub reclaimed : Bool
  pub slab_page_index : ℕ → ℕ

-- What `create` returns or throws: the item's address and the index of its page. At the address of
-- `made_from` an item was erased first.
pub data Answer : Type 0 where
  throws_bad_alloc : Answer
  null_item : Answer
  made : ℕ → ℕ → Answer
  made_from : ℕ → ℕ → Answer

abbrev pub slab_magic_number : ℕ
slab_magic_number = 20907

-- The loop of `slab_page_desc`, with so many objects to go.
abbrev pub push_objects : ℕ → ℕ → ℕ → List ℕ → List ℕ
push_objects zero object size free = free
push_objects (suc n) object size free = push_objects n (object + size) size ((object + size) ∷ free)

abbrev pub new_page : ℕ → ℕ → ℕ → ℕ → ℕ → Page
new_page slab_page objects object_size class_id index = record {
  slab_page = slab_page;
  free_objects = push_objects (objects - 1) slab_page object_size [];
  refcnt = 0;
  index = index;
  magic = slab_magic_number;
  slab_class_id = class_id;
}

-- `slab_page_desc::allocate_object`
abbrev pub allocate_object : Page → Option (ℕ × Page)
allocate_object p = elim p.free_objects [
  | [] ↦ none
  | a ∷ free ↦ some (a, record p { free_objects = free })
]

-- A class, or a page, of the allocator changes.
abbrev pub with_class : ℕ → SlabClass → Allocator → Allocator
with_class c k s = record s { slab_classes = update s.slab_classes c k }

abbrev pub with_page : ℕ → Option Page → Allocator → Allocator
with_page i p s = record s { slab_pages_vector = update s.slab_pages_vector i p }

abbrev pub with_lru : ℕ → List ℕ → Allocator → Allocator
with_lru c l s = with_class c (record (s.slab_classes c) { lru = l }) s

abbrev pub with_free_pages : ℕ → List ℕ → Allocator → Allocator
with_free_pages c l s = with_class c (record (s.slab_classes c) { free_slab_pages = l }) s

-- `slab_class::create_item`
unfoldable pub create_item : ℕ → ℕ → ℕ → Allocator → Allocator
create_item c object index s =
    with_lru c (push_front object (s.slab_classes c).lru)
      (record s { slab_page_index = update s.slab_page_index object index })

-- `slab_class::create`
unfoldable pub create_from_page : ℕ → Allocator → Option (Answer × Allocator)
create_from_page c s = elim (s.slab_classes c).free_slab_pages [
  | [] ↦ none
  | i ∷ pages ↦ elim (s.slab_pages_vector i) [
    | none ↦ none
    | some p ↦ elim (allocate_object p) [
      | none ↦ none
      | some (a, q) ↦
          let t = with_page i (some q) s in
          let u = if is_empty q.free_objects then with_free_pages c pages t else t in
          some (made a q.index, create_item c a q.index u)
    ]
  ]
]

-- The new page joins the lists and the vector, and its first object is the item's.
abbrev pub add_page : ℕ → ℕ → Allocator → Answer × Allocator
add_page c slab_page s =
    let k = s.slab_classes c in
    let index = s.slab_pages % 2 ^ 32 in
    let p = new_page slab_page (s.max_object_size / k.size) k.size k.slab_class_id index in
    let t = with_free_pages c (push_front s.slab_pages k.free_slab_pages) s in
    let u : Allocator = record (with_page s.slab_pages (some p) t) {
      slab_pages = s.slab_pages + 1;
      slab_page_desc_lru =
          if s.reclaimer
          then push_front s.slab_pages s.slab_page_desc_lru
          else s.slab_page_desc_lru;
    } in
    (made slab_page index, create_item c slab_page index u)

-- `slab_class::create_from_new_page`, with the answers of `aligned_alloc` and of `new slab_page_desc`
unfoldable pub create_from_new_page : ℕ → Option ℕ → Bool → Allocator → Option (Answer × Allocator)
create_from_new_page c none described s = some (throws_bad_alloc, s)
create_from_new_page c (some slab_page) described s =
    if (s.slab_classes c).size % 8 == 0
    then if described then some (add_page c slab_page s) else some (throws_bad_alloc, s)
    else none

-- `slab_class::create_from_lru`, and the `evict_lru_item` that it calls
unfoldable pub create_from_lru : (ℕ → Bool) → ℕ → Allocator → Option (Answer × Allocator)
create_from_lru unlocked c s = elim (s.slab_classes c).lru [
  | [] ↦ some (throws_bad_alloc, s)
  | victim ∷ lru ↦
      let index = s.slab_page_index victim in
      if unlocked victim
      then some (made_from victim index, create_item c victim index (with_lru c lru s))
      else none
]

-- `std::lower_bound`: the first place that does not hold less
abbrev pub lower_bound : List ℕ → ℕ → ℕ
lower_bound [] n = 0
lower_bound (x ∷ xs) n = if ltb x n then suc (lower_bound xs n) else 0

-- `size *= growth_factor` for the factor 1.25, by which the product of a double is exact below 2 ^ 50
abbrev pub default_growth : ℕ → ℕ
default_growth size = size * 5 / 4

-- The loop of `initialize_slab_allocator`: the sizes of the classes from `size` on, when so many class
-- numbers are left; `grow` multiplies by the growth factor.
abbrev pub class_sizes : (ℕ → ℕ) → ℕ → ℕ → ℕ → Option (List ℕ)
class_sizes grow zero max size = if ltb 1 (max / size) then none else some (max ∷ [])
class_sizes grow (suc left) max size =
    let aligned = align_up word size 8 in
    let rest = class_sizes grow left max (grow aligned) in
    if ltb 1 (max / size)
    then elim rest [ none ↦ none | some sizes ↦ some (aligned ∷ sizes) ]
    else some (max ∷ [])

abbrev pub initial_size : ℕ
initial_size = 96

abbrev pub with_sizes : Bool → ℕ → ℕ → List ℕ → Allocator
with_sizes has_erase_func limit max sizes = record {
  slab_class_sizes = sizes;
  slab_classes =
      λ c. record { free_slab_pages = []; lru = []; size = get_or sizes c 0; slab_class_id = c };
  has_erase_func = has_erase_func;
  slab_pages_vector = λ i. none;
  slab_pages = 0;
  slab_page_desc_lru = [];
  max_object_size = max;
  available_slab_pages = limit / max;
  allocs = 0;
  frees = 0;
  reclaimer = limit == 0;
  reclaimed = false;
  slab_page_index = λ a. 0;
}

-- The constructor, and the `initialize_slab_allocator` that it calls
pub new_allocator : (ℕ → ℕ) → ℕ → ℕ → Bool → Option Allocator
new_allocator grow limit max has_erase_func = elim (class_sizes grow 255 max initial_size) [
  | none ↦ none
  | some sizes ↦ some (with_sizes has_erase_func limit max sizes)
]

-- `get_slab_class` of a size
unfoldable pub class_for : ℕ → Allocator → Option ℕ
class_for size s =
    let i = lower_bound s.slab_class_sizes size in
    if i == length s.slab_class_sizes then none else some i

-- `class_size`
unfoldable pub class_size : ℕ → Allocator → ℕ
class_size size s = elim (class_for size s) [ none ↦ 0 | some c ↦ (s.slab_classes c).size ]

unfoldable pub can_allocate_page : ℕ → Allocator → Bool
can_allocate_page c s =
    (s.reclaimer && not s.reclaimed)
    || (ltb 0 s.available_slab_pages || is_empty (s.slab_classes c).lru)

abbrev pub count_alloc : Allocator → Allocator
count_alloc s = record s { allocs = word_add s.allocs 1 }

abbrev pub take_page : Allocator → Allocator
take_page s = record s {
  available_slab_pages =
      if ltb 0 s.available_slab_pages then s.available_slab_pages - 1 else s.available_slab_pages;
}

-- What follows the creation, unless it throws.
abbrev pub after :
    (Allocator → Allocator) → Option (Answer × Allocator) → Option (Answer × Allocator)
after f none = none
after f (some (throws_bad_alloc, s)) = some (throws_bad_alloc, s)
after f (some (null_item, s)) = some (null_item, f s)
after f (some (made a i, s)) = some (made a i, f s)
after f (some (made_from a i, s)) = some (made_from a i, f s)

-- `create`, when the size has a class
unfoldable pub create_in :
    (ℕ → Bool) → Option ℕ → Bool → ℕ → Allocator → Option (Answer × Allocator)
create_in unlocked memory described c s =
    if is_empty (s.slab_classes c).free_slab_pages
    then if can_allocate_page c s
      then after (λ t. count_alloc (take_page t)) (create_from_new_page c memory described s)
      else if s.has_erase_func
      then create_from_lru unlocked c s
      else some (null_item, s)
    else after count_alloc (create_from_page c s)

unfoldable pub create : (ℕ → Bool) → Option ℕ → Bool → ℕ → Allocator → Option (Answer × Allocator)
create unlocked memory described size s = elim (class_for size s) [
  | none ↦ some (throws_bad_alloc, s)
  | some c ↦ create_in unlocked memory described c s
]

-- `get_slab_page_desc` of an item, and the class of the page.
unfoldable pub page_of : ℕ → Allocator → Option (Page × ℕ)
page_of a s = elim (s.slab_pages_vector (s.slab_page_index a)) [
  | none ↦ none
  | some p ↦
      if p.magic == slab_magic_number
      then if ltb p.slab_class_id (length s.slab_class_sizes)
        then some (p, p.slab_class_id)
        else none
      else none
]

-- The item leaves the list of its class.
abbrev pub remove_item_from_lru : ℕ → ℕ → Allocator → Option Allocator
remove_item_from_lru a c s = elim (take_out a (s.slab_classes c).lru) [
  | none ↦ none
  | some l ↦ some (with_lru c l s)
]

abbrev pub insert_item_into_lru : ℕ → ℕ → Allocator → Allocator
insert_item_into_lru a c s = with_lru c (push_front a (s.slab_classes c).lru) s

-- The page's descriptor leaves the list of pages.
abbrev pub unlist_page : ℕ → Allocator → Option Allocator
unlist_page i s = elim (take_out i s.slab_page_desc_lru) [
  | none ↦ none
  | some l ↦ some (record s { slab_page_desc_lru = l })
]

-- One more, or one less, of the page's items is in use: a page of which none is may be reclaimed.
abbrev pub pin_page : ℕ → Page → Allocator → Option Allocator
pin_page i p s =
    let n = (p.refcnt + 1) % 2 ^ 32 in
    let t = with_page i (some (record p { refcnt = n })) s in
    if n == 1 then unlist_page i t else some t

abbrev pub pin : ℕ → Page → Allocator → Option Allocator
pin i p s = if s.reclaimer then pin_page i p s else some s

abbrev pub unpin_page : ℕ → Page → Allocator → Allocator
unpin_page i p s =
    let n = (p.refcnt + 2 ^ 32 - 1) % 2 ^ 32 in
    let l = s.slab_page_desc_lru in
    record (with_page i (some (record p { refcnt = n })) s) {
      slab_page_desc_lru = if n == 0 then push_front i l else l;
    }

abbrev pub unpin : ℕ → Page → Allocator → Allocator
unpin i p s = if s.reclaimer then unpin_page i p s else s

unfoldable pub lock_item : ℕ → Allocator → Option Allocator
lock_item a s = elim (page_of a s) [
  | none ↦ none
  | some (p, c) ↦ elim (pin (s.slab_page_index a) p s) [
    | none ↦ none
    | some t ↦ remove_item_from_lru a c t
  ]
]

unfoldable pub unlock_item : ℕ → Allocator → Option Allocator
unlock_item a s = elim (page_of a s) [
  | none ↦ none
  | some (p, c) ↦ some (insert_item_into_lru a c (unpin (s.slab_page_index a) p s))
]

-- `slab_class::free_item`
abbrev pub free_item : ℕ → Page → ℕ → Allocator → Option Allocator
free_item a p c s = elim (remove_item_from_lru a c s) [
  | none ↦ none
  | some t ↦
      let i = s.slab_page_index a in
      let q = record p { free_objects = a ∷ p.free_objects } in
      let u = with_page i (some q) t in
      some (
        if length q.free_objects == 1
        then with_free_pages c (i ∷ (u.slab_classes c).free_slab_pages) u
        else u)
]

unfoldable pub free : ℕ → Allocator → Option Allocator
free a s = elim (page_of a s) [
  | none ↦ none
  | some (p, c) ↦ elim (free_item a p c s) [
    | none ↦ none
    | some t ↦ some (record t { frees = word_add t.frees 1 })
  ]
]

unfoldable pub touch : ℕ → Allocator → Option Allocator
touch a s = elim (page_of a s) [
  | none ↦ none
  | some (p, c) ↦ elim (remove_item_from_lru a c s) [
    | none ↦ none
    | some t ↦ some (insert_item_into_lru a c t)
  ]
]

-- The loop of `evict_lru_slab_page` over the objects of a page, with so many to go: the items that it
-- has erased, the last one first. `std::binary_search` is a search of the sorted free objects.
abbrev pub evict_objects :
    (ℕ → Bool) → List ℕ → ℕ → ℕ → ℕ → ℕ → List ℕ → Allocator → Option (List ℕ × Allocator)
evict_objects unlocked free size c zero object erased s = some (erased, s)
evict_objects unlocked free size c (suc n) object erased s =
    if occurs object free
    then evict_objects unlocked free size c n (object + size) erased s
    else if unlocked object
    then elim (remove_item_from_lru object c s) [
      | none ↦ none
      | some t ↦
          evict_objects unlocked free size c n (object + size) (object ∷ erased)
            (record t { frees = word_add t.frees 1 })
    ]
    else none

-- The descriptor leaves the free pages of its class, which asserts that it is its class.
abbrev pub remove_desc_from_free_list : ℕ → Page → Allocator → Option Allocator
remove_desc_from_free_list i p s =
    let c = p.slab_class_id in
    if is_empty p.free_objects
    then some s
    else if c == (s.slab_classes c).slab_class_id
    then elim (take_out i (s.slab_classes c).free_slab_pages) [
      | none ↦ none
      | some l ↦ some (with_free_pages c l s)
    ]
    else none

-- `evict_lru_slab_page`: whether it has reclaimed a page, and the items that it has erased.
unfoldable pub evict_lru_slab_page : (ℕ → Bool) → Allocator → Option ((Bool × List ℕ) × Allocator)
evict_lru_slab_page unlocked s = elim s.slab_page_desc_lru [
  | [] ↦ some ((false, []), s)
  | i ∷ pages ↦ elim (s.slab_pages_vector i) [
    | none ↦ none
    | some p ↦
        let c = p.slab_class_id in
        if (p.refcnt == 0) && ltb c (length s.slab_class_sizes)
        then elim (remove_desc_from_free_list i p s) [
          | none ↦ none
          | some t ↦
              let u = record (with_page p.index none t) { slab_page_desc_lru = pages } in
              let size = (s.slab_classes c).size in
              elim (evict_objects unlocked p.free_objects size c (s.max_object_size / size)
                p.slab_page [] u) [ none ↦ none | some (erased, v) ↦ some ((true, erased), v) ]
        ]
        else none
  ]
]

unfoldable pub reclaim : (ℕ → Bool) → Allocator → Option ((Bool × List ℕ) × Allocator)
reclaim unlocked s = evict_lru_slab_page unlocked (record s { reclaimed = true })
