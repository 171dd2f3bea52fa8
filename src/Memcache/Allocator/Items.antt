-- ===== src/Memcache/Allocator/Items.antt =====
-- include/memcached/slab.hh: an item enters the list of its class, or leaves it.
use mseastar.Prelude.{
  ℕ, ◌+◌, ◌≤◌, ◌<◌, ◌≡◌, ◌≢◌, refl, sym, ap, ◌∙◌, subst, some, List, arith, inl, inr,
}
use mseastar.Memcache.Allocator.{
  Allocator, with_lru, create_item, insert_item_into_lru, remove_item_from_lru,
}
use mseastar.Memcache.Allocator.Lists.{
  update, copies, one, push_front, take_out, take_out-some, copies-push, same_or, update-at,
  update-other, one_other,
}
use mseastar.Memcache.Allocator.Inv.{Holds, Live, IsValid}
use mseastar.Memcache.Allocator.Steps.{kept}

-- The lists of a valid allocator may change to lists of items in use, each at most once.
pub with_lru-IsValid :
    (c : ℕ) (l : List ℕ) (s : Allocator)
    → IsValid s
    → ((a : ℕ) → copies a l ≤ 1)
    → ((a : ℕ) → 0 < copies a l → Live s c a)
    → IsValid (with_lru c l s)
with_lru-IsValid c l s h o k =
    let new = record (s.slab_classes c) { lru = l } in
    record {
      sized = λ d. kept (λ z. z.size) s.slab_classes c new d refl ∙ h.sized d;
      numbered = λ d. kept (λ z. z.slab_class_id) s.slab_classes c new d refl ∙ h.numbered d;
      fits = h.fits;
      paged = h.paged;
      apart = h.apart;
      listing = λ d i.
          ap (copies i) (kept (λ z. z.free_slab_pages) s.slab_classes c new d refl) ∙ h.listing d i;
      single = λ d a. elim (same_or d c) [
        | inl y ↦ subst (λ z. copies a z.lru ≤ 1) (sym (update-at s.slab_classes c d new y)) (o a)
        | inr n ↦
            subst (λ z. copies a z.lru ≤ 1) (sym (update-other s.slab_classes c d new n))
              (h.single d a)
      ];
      held = λ d a u. elim (same_or d c) [
        | inl y ↦
            subst (λ z. Live s z a) (sym y)
              (k a (subst (λ z. 0 < copies a z.lru) (update-at s.slab_classes c d new y) u))
        | inr n ↦
            h.held d a (subst (λ z. 0 < copies a z.lru) (update-other s.slab_classes c d new n) u)
      ];
      aging = h.aging;
    }

-- No class lists the item.
abbrev pub Uncached : Allocator → ℕ → Type 0
Uncached s a = (c : ℕ) → copies a (s.slab_classes c).lru ≡ 0

-- The index of the page of an item that no class lists may be written.
index-IsValid :
    (a i : ℕ) (s : Allocator)
    → IsValid s
    → Uncached s a
    → IsValid (record s { slab_page_index = update s.slab_page_index a i })
index-IsValid a i s h u = record {
  sized = h.sized;
  numbered = h.numbered;
  fits = h.fits;
  paged = h.paged;
  apart = h.apart;
  listing = h.listing;
  single = h.single;
  held = λ c b k.
      let n : b ≢ a = λ y. omega (arith, k, u c, ap (λ z. copies z (s.slab_classes c).lru) y) in
      subst (λ z. Holds s z c b) (sym (update-other s.slab_page_index a b i n)) (h.held c b k);
  aging = h.aging;
}

pub insert_item_into_lru-IsValid :
    (a c : ℕ) (s : Allocator)
    → IsValid s
    → Live s c a
    → Uncached s a
    → IsValid (insert_item_into_lru a c s)
insert_item_into_lru-IsValid a c s h k u =
    let l = (s.slab_classes c).lru in
    with_lru-IsValid c (push_front a l) s h
      (λ b. elim (same_or a b) [
        | inl y ↦
            omega (arith, copies-push b a l, u c, ap (λ z. copies z l) y, h.single c b, once b a)
        | inr n ↦ omega (arith, copies-push b a l, h.single c b, one_other b a n)
      ])
      (λ b o. elim (same_or a b) [
        | inl y ↦ subst (Live s c) y k
        | inr n ↦ h.held c b (omega (arith, o, copies-push b a l, one_other b a n))
      ])
  where
    once : (b a : ℕ) → one b a ≤ 1
    once b a = ground arith

pub create_item-IsValid :
    (c a i : ℕ) (s : Allocator)
    → IsValid s
    → Holds s i c a
    → Uncached s a
    → IsValid (create_item c a i s)
unfolding create_item
create_item-IsValid c a i s h k u =
    let t = record s { slab_page_index = update s.slab_page_index a i } in
    insert_item_into_lru-IsValid a c t (index-IsValid a i s h u)
      (subst (λ z. Holds s z c a) (sym (update-at s.slab_page_index a a i refl)) k) u

-- An item that its class lists leaves the list.
pub remove_item_from_lru-some :
    (a c : ℕ) (s : Allocator)
    → IsValid s
    → 0 < copies a (s.slab_classes c).lru
    → (l : List ℕ) × ((remove_item_from_lru a c s ≡ some (with_lru c l s))
        × (IsValid (with_lru c l s)
            × ((b : ℕ) → copies b (s.slab_classes c).lru ≡ one b a + copies b l)))
remove_item_from_lru-some a c s h k = removed (take_out-some a (s.slab_classes c).lru k)
  where
    removed :
        ((l : List ℕ) × ((take_out a (s.slab_classes c).lru ≡ some l)
            × ((y : ℕ) → copies y (s.slab_classes c).lru ≡ one y a + copies y l)))
        → (l : List ℕ) × ((remove_item_from_lru a c s ≡ some (with_lru c l s))
            × (IsValid (with_lru c l s)
                × ((b : ℕ) → copies b (s.slab_classes c).lru ≡ one b a + copies b l)))
    removed (l, (e, n)) = (
      l,
      (
        rw (e, remove_item_from_lru) refl,
        (
          with_lru-IsValid c l s h (λ b. omega (arith, n b, h.single c b))
              (λ b o. h.held c b (omega (arith, n b, o))),
          n,
        ),
      ),
    )
