-- ===== src/Memcache/Allocator/Taken.antt =====
-- include/memcached/slab.hh: an object is taken from a page with free objects, and an item made there.
use mseastar.Prelude.{
  ℕ, zero, suc, ◌+◌, ◌<◌, ◌≡◌, ◌≢◌, refl, sym, ap, ◌∙◌, subst, false, some, List, [], ◌∷◌, ◌++◌,
  ◌==◌, if◌then◌else◌, arith, Bool-cases, inl, inr,
}
use mseastar.Memcache.Allocator.{
  Page, SlabClass, Allocator, made, create_item, create_from_page, with_page, with_free_pages,
}
use mseastar.Memcache.Allocator.Lists.{
  update, push_front, copies, one, is_empty, update-at, update-other, one_self, one_other,
  copies-push,
}
use mseastar.Memcache.Allocator.Inv.{Slot, object_size, PageOk, listed, Holds, Live, IsValid}
use mseastar.Memcache.Allocator.Items.{Uncached, create_item-IsValid}
use mseastar.Memcache.Allocator.Steps.{Holds-replace, Holds-place, kept}
use mseastar.Memcache.Allocator.Pages.{
  page-IsValid, listing-keep, listing-change, aging-keep, listed-some, listed-own, listed-other,
}

-- What no operation changes.
abbrev pub Same : Allocator → Allocator → Type 0
Same s t = (t.slab_class_sizes ≡ s.slab_class_sizes) × (t.has_erase_func ≡ s.has_erase_func)

-- How often class `d` lists `b` more, when class `c` lists `a` anew.
abbrev pub once_more : ℕ → ℕ → ℕ → ℕ → ℕ
once_more c a d b = if d == c then one b a else 0

-- An object of class `c` that no class lists stands ready for an item; `s` is the allocator before.
pub record Ready (s u : Allocator) (i c a : ℕ) : Type 0 where
  pub valid : IsValid u
  pub holds : Holds u i c a
  pub uncached : Uncached u a
  pub same : Same s u
  pub same_index : u.slab_page_index ≡ s.slab_page_index
  pub stays : (d b : ℕ) → b ≢ a → Live s d b → Live u d b

-- Class `c` lists the item at `a` last, behind the others; the other classes
-- list what they listed.
abbrev pub Listing : Allocator → Allocator → ℕ → ℕ → List ℕ → Type 0
Listing s t c a others =
    ((t.slab_classes c).lru ≡ others ++ a ∷ [])
    × ((d : ℕ) → d ≢ c → (t.slab_classes d).lru ≡ (s.slab_classes d).lru)

-- An item has been made at `a`.
pub record Grows (s t : Allocator) (c a : ℕ) : Type 0 where
  pub valid : IsValid t
  pub same : Same s t
  pub live : Live t c a
  pub kept : (d b : ℕ) → b ≢ a → Live s d b → Live t d b
  pub cached :
      (d b : ℕ)
      → copies b (t.slab_classes d).lru ≡ copies b (s.slab_classes d).lru + once_more c a d b
  pub ordered : Listing s t c a (s.slab_classes c).lru

pub create_item-cached :
    (c a i : ℕ) (u : Allocator) (d b : ℕ)
    → copies b ((create_item c a i u).slab_classes d).lru
      ≡ copies b (u.slab_classes d).lru + once_more c a d b
unfolding create_item
create_item-cached c a i u d b =
    let l = (u.slab_classes c).lru in
    elim (Bool-cases (d == c)) [
      | inl t ↦
          let y : d ≡ c = ground arith in
          let q : copies b (u.slab_classes d).lru ≡ copies b l =
            ap (λ z. copies b (u.slab_classes z).lru) y in
          rw t (omega (arith, copies-push b a l, q))
      | inr f ↦ rw f (omega arith)
    ]

pub create_item-Grows :
    (s u : Allocator) (i c a : ℕ)
    → Ready s u i c a
    → ((d : ℕ) → (u.slab_classes d).lru ≡ (s.slab_classes d).lru)
    → Grows s (create_item c a i u) c a
unfolding create_item
create_item-Grows s u i c a r l = record {
  valid = create_item-IsValid c a i u r.valid r.holds r.uncached;
  same = r.same;
  live = subst (λ z. Holds u z c a) (sym (update-at u.slab_page_index a a i refl)) r.holds;
  kept = λ d b n k.
      subst (λ z. Holds u z d b) (sym (update-other u.slab_page_index a b i n)) (r.stays d b n k);
  cached =
      λ d b. create_item-cached c a i u d b ∙ ap (λ z. z + once_more c a d b) (ap (copies b) (l d));
  ordered = (
    ap (λ z. z.lru) (update-at u.slab_classes c c (newest u) refl) ∙ ap (λ z. z ++ a ∷ []) (l c),
    λ d n. ap (λ z. z.lru) (update-other u.slab_classes c d (newest u) n) ∙ l d,
  );
}
  where
    newest : Allocator → SlabClass
    newest u = record (u.slab_classes c) { lru = push_front a (u.slab_classes c).lru }

-- A free object of a page is not in use.
pub free-unused :
    (s : Allocator) (i a : ℕ) (p : Page)
    → IsValid s
    → s.slab_pages_vector i ≡ some p
    → 0 < copies a p.free_objects
    → (d : ℕ) → Live s d a
    → ⊥
free-unused s i a p h e k d l =
    let y = Holds-place s i (s.slab_page_index a) 0 d a h p e ((h.paged i p e).inside a k) l in
    gone y l
  where
    gone : i ≡ s.slab_page_index a → Live s d a → ⊥
    gone y (q, (g, (x, (m, v)))) =
        let o : some q ≡ some p = sym g ∙ ap s.slab_pages_vector (sym y) ∙ e in
        let w : q ≡ p = ground arith in omega (arith, k, v, ap (λ z. copies a z.free_objects) w)

pub unused-Uncached :
    (s : Allocator) (a : ℕ) → IsValid s → ((d : ℕ) → Live s d a → ⊥) → Uncached s a
unused-Uncached s a h u c = zero_or (copies a (s.slab_classes c).lru) (λ k. u c (h.held c a k))
  where
    zero_or : (n : ℕ) → (0 < n → ⊥) → n ≡ 0
    zero_or zero f = refl
    zero_or (suc n) f = absurd (f (omega arith))

-- The allocator after an object is taken from the page at the head of its class's list.
abbrev taken : ℕ → ℕ → Page → List ℕ → Allocator → Allocator
taken c i q pages s =
    let t = with_page i (some q) s in
    if is_empty q.free_objects then with_free_pages c pages t else t

-- The page without the object is one that stands at its place.
taken-PageOk :
    (sizes : List ℕ) (max n i a : ℕ) (p : Page) (free : List ℕ)
    → PageOk sizes max n i p
    → p.free_objects ≡ a ∷ free
    → PageOk sizes max n i (record p { free_objects = free })
taken-PageOk sizes max n i a p free o f =
    let m : (b : ℕ) → copies b p.free_objects ≡ one b a + copies b free = λ b. ap (copies b) f in
    record {
      indexed = o.indexed;
      signed = o.signed;
      known = o.known;
      small = o.small;
      inside = λ b k. o.inside b (omega (arith, m b, k));
      once = λ b. omega (arith, m b, o.once b);
    }

taken-IsValid :
    (c i a : ℕ) (p : Page) (pages free : List ℕ) (s : Allocator)
    → IsValid s
    → (s.slab_classes c).free_slab_pages ≡ i ∷ pages
    → s.slab_pages_vector i ≡ some p
    → p.slab_class_id ≡ c
    → p.free_objects ≡ a ∷ free
    → IsValid (taken c i (record p { free_objects = free }) pages s)
taken-IsValid c i a p pages [] s h e g k f =
    let q = record p { free_objects = [] } in
    let new = record (s.slab_classes c) { free_slab_pages = pages } in
    let o =
      taken-PageOk s.slab_class_sizes s.max_object_size s.slab_pages i a p [] (h.paged i p g) f in
    let m : (j : ℕ) → copies j (s.slab_classes c).free_slab_pages ≡ one j i + copies j pages =
      λ j. ap (copies j) e in
    let w : listed c (some p) ≡ 1 = listed-own c p k ∙ ap (λ l. if is_empty l then 0 else 1) f in
    page-IsValid s i p q (update s.slab_classes c new) s.slab_page_desc_lru h g refl refl o
      (λ d. (
        kept (λ z. z.size) s.slab_classes c new d refl,
        (
          kept (λ z. z.slab_class_id) s.slab_classes c new d refl,
          kept (λ z. z.lru) s.slab_classes c new d refl,
        ),
      ))
      (listing-change s i c q pages h k
        (λ d n. ap (listed d) g ∙ listed-other d p (λ y. n (sym y ∙ k)))
        (omega (arith, m i, one_self i, h.listing c i, w, ap (listed c) g))
        (λ j n. omega (arith, m j, one_other j i (λ y. n (sym y)))))
      (aging-keep s i p q h g refl) (λ d b u z. refl)
taken-IsValid c i a p pages (x ∷ free) s h e g k f =
    let q = record p { free_objects = x ∷ free } in
    let m : (b : ℕ) → copies b p.free_objects ≡ one b a + copies b (x ∷ free) =
      λ b. ap (copies b) f in
    page-IsValid s i p q s.slab_classes s.slab_page_desc_lru h g refl refl
      (taken-PageOk s.slab_class_sizes s.max_object_size s.slab_pages i a p (x ∷ free)
        (h.paged i p g) f)
      (λ d. (refl, (refl, refl)))
      (listing-keep s i p q h g
        (λ d. ap (λ l. if p.slab_class_id == d then if is_empty l then 0 else 1 else 0) (sym f)))
      (aging-keep s i p q h g refl) (λ d b u z. omega (arith, m b, z))

module _ (c i a : ℕ) (p : Page) (pages : List ℕ) (s : Allocator) where
  taken-lru :
      (free : List ℕ) (d : ℕ)
      → ((taken c i (record p { free_objects = free }) pages s).slab_classes d).lru
        ≡ (s.slab_classes d).lru
  taken-lru [] d =
      kept (λ z. z.lru) s.slab_classes c (record (s.slab_classes c) { free_slab_pages = pages }) d
        refl
  taken-lru (x ∷ free) d = refl

  taken-Holds :
      (free : List ℕ) (j d b : ℕ)
      → Holds
          (record s {
            slab_pages_vector =
                update s.slab_pages_vector i (some (record p { free_objects = free }));
          })
          j
          d
          b
      → Holds (taken c i (record p { free_objects = free }) pages s) j d b
  taken-Holds [] j d b h = h
  taken-Holds (x ∷ free) j d b h = h

  taken-index :
      (free : List ℕ)
      → (taken c i (record p { free_objects = free }) pages s).slab_page_index ≡ s.slab_page_index
  taken-index [] = refl
  taken-index (x ∷ free) = refl

  taken-Same : (free : List ℕ) → Same s (taken c i (record p { free_objects = free }) pages s)
  taken-Same [] = (refl, refl)
  taken-Same (x ∷ free) = (refl, refl)

  pub taken-Ready :
      (free : List ℕ)
      → IsValid s
      → (s.slab_classes c).free_slab_pages ≡ i ∷ pages
      → s.slab_pages_vector i ≡ some p
      → p.slab_class_id ≡ c
      → p.free_objects ≡ a ∷ free
      → Ready s (taken c i (record p { free_objects = free }) pages s) i c a
  taken-Ready free h e g k f =
      let q = record p { free_objects = free } in
      let ok = h.paged i p g in
      let n : (b : ℕ) → copies b p.free_objects ≡ one b a + copies b free = λ b. ap (copies b) f in
      let has : 0 < copies a p.free_objects = omega (arith, n a, one_self a) in
      let unused = unused-Uncached s a h (free-unused s i a p h g has) in
      record {
        valid = taken-IsValid c i a p pages free s h e g k f;
        holds = taken-Holds free i c a (
          q,
          (
            update-at s.slab_pages_vector i i (some q) refl,
            (
              k,
              (
                subst (λ z. Slot s.max_object_size (object_size s z) p.slab_page a) k
                    (ok.inside a has),
                omega (arith, n a, one_self a, ok.once a),
              ),
            ),
          ),
        );
        uncached = λ d. ap (copies a) (taken-lru free d) ∙ unused d;
        same = taken-Same free;
        same_index = taken-index free;
        stays = λ d b m l. taken-Holds free ((taken c i q pages s).slab_page_index b) d b (
            subst
              (λ z.
                Holds (record s { slab_pages_vector = update s.slab_pages_vector i (some q) }) (z b)
                  d b)
              (sym (taken-index free))
              (Holds-replace s i p q (s.slab_page_index b) d b g refl refl
                (λ z y. omega (arith, n b, z)) l));
      }

  pub taken-Grows :
      (free : List ℕ)
      → IsValid s
      → (s.slab_classes c).free_slab_pages ≡ i ∷ pages
      → s.slab_pages_vector i ≡ some p
      → p.slab_class_id ≡ c
      → p.free_objects ≡ a ∷ free
      → Grows s (create_item c a i (taken c i (record p { free_objects = free }) pages s)) c a
  taken-Grows free h e g k f =
      create_item-Grows s (taken c i (record p { free_objects = free }) pages s) i c a
        (taken-Ready free h e g k f) (taken-lru free)

-- What `create` does when the class lists a page with free objects.
pub create_from_page-some :
    (c : ℕ) (s : Allocator)
    → IsValid s
    → is_empty (s.slab_classes c).free_slab_pages ≡ false
    → (a : ℕ) × ((i : ℕ) × ((t : Allocator) × ((create_from_page c s ≡ some (made a i, t))
            × (((d : ℕ) → Live s d a → ⊥) × Grows s t c a))))
unfolding create_from_page
create_from_page-some c s h n = go (s.slab_classes c).free_slab_pages refl n
  where
    at :
        (i : ℕ) (pages : List ℕ)
        → (s.slab_classes c).free_slab_pages ≡ i ∷ pages
        → ((p : Page) × ((a : ℕ) × ((free : List ℕ) × ((s.slab_pages_vector i ≡ some p)
                  × ((p.slab_class_id ≡ c) × (p.free_objects ≡ a ∷ free))))))
        → (a : ℕ) × ((i : ℕ) × ((t : Allocator) × ((create_from_page c s ≡ some (made a i, t))
                × (((d : ℕ) → Live s d a → ⊥) × Grows s t c a))))
    at i pages e (p, (a, (free, (g, (k, f))))) =
        let q = record p { free_objects = free } in
        let y = (h.paged i p g).indexed in
        let t = taken c i q pages s in
        (
          a,
          (
            i,
            (
              create_item c a i t,
              (
                rw (e, create_from_page)
                    (rw (g, create_from_page)
                      (rw (f, create_from_page)
                        (ap (λ z. some (made a z, create_item c a z t)) y))),
                (
                  free-unused s i a p h g (omega (arith, ap (copies a) f, one_self a)),
                  taken-Grows c i a p pages s free h e g k f,
                ),
              ),
            ),
          ),
        )

    go :
        (l : List ℕ)
        → (s.slab_classes c).free_slab_pages ≡ l
        → is_empty l ≡ false
        → (a : ℕ) × ((i : ℕ) × ((t : Allocator) × ((create_from_page c s ≡ some (made a i, t))
                × (((d : ℕ) → Live s d a → ⊥) × Grows s t c a))))
    go [] e m = ground arith
    go (i ∷ pages) e m = at i pages e (
        listed-some c (s.slab_pages_vector i)
          (omega (arith, ap (copies i) e, one_self i, h.listing c i)))
