-- ===== src/Memcache/Tests.antt =====
-- include/memcached: the cache at work over the slab allocator, with pages of 1,024 bytes.
use mseastar.Prelude.{
  ℕ, zero, suc, ◌+◌, ◌^◌, ◌≤◌, ◌<◌, ◌≡◌, refl, sym, ◌∙◌, ap, true, Option, none, some, List, [],
  ◌∷◌, arith, ltb, if◌then◌else◌, max, Bool-cases, inl, inr,
}
use mseastar.Memcache.Item.{
  Env, Item, Insertion, insertion_size, make_item, key_matches, key, layout,
}
use mseastar.Memcache.Slab.{Lawful}
use mseastar.Memcache.Cache.{Cache, find, add_new, link, hash_insert, maybe_rehash, add_ref}
use mseastar.Memcache.Cache
use mseastar.Memcache.Cache.Inv.{IsValid}
use mseastar.Memcache.Commands.{new_cache, set, get, remove}
use mseastar.Memcache.Commands.Relisted.{Dangling, remove-Dangling}
use mseastar.Memcache.Commands.Stored.{set-Stores, next_version, is_some}
use mseastar.Memcache.Commands.Removed.{new_cache-IsValid, state_of, Stores-IsValid}
use mseastar.Memcache.Cache.Create.{Storable}
use mseastar.Memcache.Commands.Run.{
  Command, set_of, add_of, cas_of, remove_of, flush_all_now, Proper, run, run-IsValid,
}
use mseastar.Memcache.Allocator.{
  Allocator, Page, with_sizes, new_page, create, class_for, create_in, can_allocate_page,
  create_from_new_page, create_item,
}
use mseastar.Memcache.Allocator.Init.{with_sizes-IsValid}
use mseastar.Memcache.Allocator.Fills.{System, Honest, Usable, slab_of, contract, slab_of-Lawful}

-- The first address behind all pages of the vector.
abbrev behind : ℕ → Option Page → ℕ → ℕ
behind size none n = n
behind size (some p) n = max (p.slab_page + size) n

abbrev top : ℕ → (ℕ → Option Page) → ℕ → ℕ
top zero f size = 4096
top (suc n) f size = behind size (f n) (top n f size)

top-behind :
    (n : ℕ) (f : ℕ → Option Page) (size j : ℕ) (p : Page)
    → f j ≡ some p
    → j < n
    → p.slab_page + size ≤ top n f size
top-behind zero f size j p e l = absurd (omega (arith, l))
top-behind (suc n) f size j p e l = elim (Bool-cases (ltb j n)) [
  | inl t ↦ later (f n) (top-behind n f size j p e (ground arith))
  | inr y ↦ let q : j ≡ n = ground arith in own (f n) (ap f q)
]
  where
    later :
        (o : Option Page)
        → p.slab_page + size ≤ top n f size
        → p.slab_page + size ≤ behind size o (top n f size)
    later none h = h
    later (some r) h = omega (arith, h)

    own : (o : Option Page) → f j ≡ o → p.slab_page + size ≤ behind size o (top n f size)
    own none q = let w = sym e ∙ q in ground arith
    own (some r) q =
        let w : some p ≡ some r = sym e ∙ q in
        let x : p ≡ r = ground arith in omega (arith, ap (λ z. z.slab_page) x)

-- A system whose memory never ends.
abbrev endless : System
endless = record {
  aligned_alloc = λ s.
      if ltb s.slab_pages (2 ^ 32)
      then some (top s.slab_pages s.slab_pages_vector s.max_object_size)
      else none;
  has_descriptor = λ s. true;
  contents = λ a i. 0;
}

endless-Honest : Honest endless
endless-Honest s base h e = elim (Bool-cases (ltb s.slab_pages (2 ^ 32))) [
  | inr f ↦
      let w =
        sym (
          ap
            (λ b. if b then some (top s.slab_pages s.slab_pages_vector s.max_object_size) else none)
            f)
        ∙ e in
      ground arith
  | inl t ↦
      let w =
        sym (
          ap
            (λ b. if b then some (top s.slab_pages s.slab_pages_vector s.max_object_size) else none)
            t)
        ∙ e in
      let q : top s.slab_pages s.slab_pages_vector s.max_object_size ≡ base = ground arith in
      (
        ground arith,
        λ j r g.
            let b =
              top-behind s.slab_pages s.slab_pages_vector s.max_object_size j r g
                (h.paged j r g).small in
            inr (omega (arith, b, q)),
      )
]

endless-Lawful : Lawful (slab_of endless) (contract 480)
endless-Lawful = slab_of-Lawful endless 480 endless-Honest

slab_of-Lawful_example : Lawful (slab_of endless) (contract 480)
slab_of-Lawful_example = slab_of-Lawful endless 480 endless-Honest

abbrev env : Env
env = record {
  hash = λ k. elim k [ [] ↦ 0 | b ∷ rest ↦ b ];
  sizeof_item = 72;
  lexical_cast = λ bs. elim bs [ [] ↦ none | b ∷ rest ↦ some b ];
  to_sstring = λ n. n ∷ [];
  has_memory = λ n. true;
}

abbrev first : Insertion
first = record { key = 97 ∷ 98 ∷ []; ascii_prefix = 32 ∷ 48 ∷ []; value = 55 ∷ []; expiry = 1000 }

abbrev second : Insertion
second = record { key = 99 ∷ []; ascii_prefix = 32 ∷ []; value = 56 ∷ 57 ∷ []; expiry = 2000 }

abbrev sizes : List ℕ
sizes = 96 ∷ 120 ∷ 152 ∷ 192 ∷ 240 ∷ 304 ∷ 384 ∷ 480 ∷ 1024 ∷ []

abbrev no_pages : Allocator
no_pages = with_sizes true 0 1024 sizes

no_pages-Usable : Usable 480 no_pages
no_pages-Usable = record {
  valid = with_sizes-IsValid 0 1024 true sizes (ground arith) (ground arith);
  evicts = refl;
  largest = (7, (omega arith, omega arith));
}

abbrev empty : Cache Allocator
empty = new_cache no_pages 0 0

empty-IsValid : IsValid env (slab_of endless) endless-Lawful empty
empty-IsValid =
    new_cache-IsValid env (slab_of endless) endless-Lawful no_pages 0 0 no_pages-Usable
      (λ a (c, l). omega (arith, l))

abbrev commands : List Command
commands = set_of first ∷ add_of second ∷ cas_of first 1 ∷ remove_of second.key ∷ flush_all_now ∷ []

first-Proper : Proper env (slab_of endless) endless-Lawful (set_of first)
unfolding insertion_size
first-Proper = (((omega arith, (omega arith, omega arith)), omega arith), λ h. omega arith)

second-Proper : Proper env (slab_of endless) endless-Lawful (set_of second)
unfolding insertion_size
second-Proper = (((omega arith, (omega arith, omega arith)), omega arith), λ h. omega arith)

run-IsValid_example :
    (d : Cache Allocator) × ((run env (slab_of endless) commands empty ≡ some d)
      × IsValid env (slab_of endless) endless-Lawful d)
run-IsValid_example =
    run-IsValid env (slab_of endless) endless-Lawful commands empty empty-IsValid
      (first-Proper, (second-Proper, (first-Proper, (tt, (tt, tt)))))

-- The cache with the first item
abbrev one : Cache Allocator
one = state_of env (slab_of endless) endless-Lawful empty (set env (slab_of endless) first empty)

first-Storable : Storable env (slab_of endless) endless-Lawful first
unfolding insertion_size
first-Storable = ((omega arith, (omega arith, omega arith)), omega arith)

one-IsValid : IsValid env (slab_of endless) endless-Lawful one
one-IsValid =
    Stores-IsValid env (slab_of endless) endless-Lawful first
      (next_version env (slab_of endless) endless-Lawful
        (find env (slab_of endless) first.key empty))
      (λ b.
        b
        ≡ is_some env (slab_of endless) endless-Lawful (find env (slab_of endless) first.key empty))
      empty (set env (slab_of endless) first empty)
      (set-Stores env (slab_of endless) endless-Lawful first empty empty-IsValid first-Storable
        (λ h. omega arith))

abbrev its_item : Item
its_item = record (make_item env 4096 0 (λ i. 0) first 1) { ref_count = 1 }

abbrev its_page : Page
its_page = new_page 4096 10 96 0 0

one-find : find env (slab_of endless) first.key one ≡ some its_item
unfolding set find add_new Cache.create link hash_insert maybe_rehash add_ref new_cache make_item
    key_matches key layout insertion_size create class_for create_in can_allocate_page
    create_from_new_page create_item
one-find = refl

one-page : one.slab.slab_pages_vector (one.slab.slab_page_index its_item.id) ≡ some its_page
unfolding set find add_new Cache.create link hash_insert maybe_rehash add_ref new_cache make_item
    key_matches key layout insertion_size create class_for create_in can_allocate_page
    create_from_new_page create_item
one-page = refl

remove-Dangling_example :
    Dangling endless env its_item.id
      (remove env (slab_of endless) first.key (get env (slab_of endless) first.key one).0).0
remove-Dangling_example =
    remove-Dangling endless 480 env endless-Lawful first.key its_item one its_page one-IsValid
      one-find one-page (ground arith)
