-- ===== src/Memcache/Allocator/Lock.antt =====
-- include/memcached/slab.hh: `lock_item` and `unlock_item`, for an item that is in use by more than the
-- cache, and `touch`.
use mseastar.Prelude.{
  ℕ, ◌+◌, ◌-◌, ◌^◌, ◌<◌, ◌≡◌, ◌≢◌, refl, sym, ap, ◌∙◌, subst, Bool, true, false, some, List, ◌==◌,
  if◌then◌else◌, arith, Bool-cases, inl, inr,
}
use mseastar.Memcache.Allocator.{
  Page, Allocator, pin, unpin, lock_item, unlock_item, touch, with_lru, remove_item_from_lru,
  insert_item_into_lru,
}
use mseastar.Memcache.Allocator.Lists.{copies, one, copies-push}
use mseastar.Memcache.Allocator.Inv.{Holds, Live, IsValid}
use mseastar.Memcache.Allocator.Items.{
  Uncached, remove_item_from_lru-some, insert_item_into_lru-IsValid,
}
use mseastar.Memcache.Allocator.Taken.{once_more}
use mseastar.Memcache.Allocator.Free.{page_of-some, without-lru, without-Uncached}
use mseastar.Memcache.Allocator.Pin.{Pinned, pin-some, unpin-lem}

-- The page of the item, with another count.
abbrev pub page_with : ℕ → Page → Page
page_with n p = record p { refcnt = n }

-- The item of class `c` at `a`, whose page was `p`, is locked: no class lists it, and its page is not
-- one to reclaim.
pub record Locks (s t : Allocator) (c a : ℕ) (p : Page) : Type 0 where
  pub valid : IsValid t
  pub live : Live t c a
  pub uncached : Uncached t a
  pub kept : (d b : ℕ) → Live s d b → Live t d b
  pub cached :
      (d b : ℕ)
      → copies b (t.slab_classes d).lru + once_more c a d b ≡ copies b (s.slab_classes d).lru
  pub same_index : t.slab_page_index ≡ s.slab_page_index
  pub same_reclaimer : t.reclaimer ≡ s.reclaimer
  pub paged :
      t.slab_pages_vector (s.slab_page_index a)
      ≡ some (page_with (if s.reclaimer then p.refcnt + 1 else p.refcnt) p)
  pub unlisted : s.reclaimer ≡ true → copies (s.slab_page_index a) t.slab_page_desc_lru ≡ 0

insert-cached :
    (a c : ℕ) (u : Allocator) (d b : ℕ)
    → copies b ((insert_item_into_lru a c u).slab_classes d).lru
      ≡ copies b (u.slab_classes d).lru + once_more c a d b
insert-cached a c u d b =
    let l = (u.slab_classes c).lru in
    elim (Bool-cases (d == c)) [
      | inl t ↦
          let y : d ≡ c = ground arith in
          let q : copies b (u.slab_classes d).lru ≡ copies b l =
            ap (λ z. copies b (u.slab_classes z).lru) y in
          rw t (omega (arith, copies-push b a l, q))
      | inr f ↦ rw f (omega arith)
    ]

module _ (a c : ℕ) (s : Allocator) (h : IsValid s) where
  -- An item that its class lists can be locked, as long as its page counts fewer than 2 ^ 32 - 1.
  pub lock_item-Locks :
      (p : Page)
      → s.slab_pages_vector (s.slab_page_index a) ≡ some p
      → p.refcnt + 1 < 2 ^ 32
      → 0 < copies a (s.slab_classes c).lru
      → (t : Allocator) × ((lock_item a s ≡ some t) × Locks s t c a p)
  unfolding lock_item
  lock_item-Locks p e small has =
      let (r, (g, (k, x))) = h.held c a has in
      let same : some r ≡ some p = sym g ∙ e in
      let w : r ≡ p = ground arith in
      go (ap (λ z. z.slab_class_id) (sym w) ∙ k) (pin-some (s.slab_page_index a) p s h e small)
    where
      removed :
          (u : Allocator)
          → p.slab_class_id ≡ c
          → pin (s.slab_page_index a) p s ≡ some u
          → Pinned (s.slab_page_index a) p s u
          → u.slab_pages_vector (s.slab_page_index a)
            ≡ some (page_with (if s.reclaimer then p.refcnt + 1 else p.refcnt) p)
          → (s.reclaimer ≡ true → copies (s.slab_page_index a) u.slab_page_desc_lru ≡ 0)
          → u.reclaimer ≡ s.reclaimer
          → ((l : List ℕ) × ((remove_item_from_lru a c u ≡ some (with_lru c l u))
                × (IsValid (with_lru c l u)
                    × ((b : ℕ) → copies b (u.slab_classes c).lru ≡ one b a + copies b l))))
          → (t : Allocator) × ((lock_item a s ≡ some t) × Locks s t c a p)
      removed u k g (v, (live, (same, index))) page free reclaims (l, (y, (w, n))) =
          let stays : (d b : ℕ) → Live s d b → Live u d b = λ d b m.
            subst (λ f. Holds u (f b) d b) (sym index) (live (s.slab_page_index b) d b m) in
          (
            with_lru c l u,
            (
              rw (page_of-some a c s p h e k, lock_item) (rw (g, lock_item) y),
              record {
                valid = w;
                live = stays c a (h.held c a has);
                uncached = without-Uncached a c u v l n;
                kept = stays;
                cached = λ d b. without-lru a c u v l n d b ∙ ap (λ f. copies b (f d).lru) same;
                same_index = index;
                same_reclaimer = reclaims;
                paged = page;
                unlisted = free;
              },
            ),
          )

      go :
          p.slab_class_id ≡ c
          → ((t : Allocator) × ((pin (s.slab_page_index a) p s ≡ some t)
                × (Pinned (s.slab_page_index a) p s t
                    × ((t.slab_pages_vector (s.slab_page_index a)
                          ≡ some (page_with (if s.reclaimer then p.refcnt + 1 else p.refcnt) p))
                        × ((s.reclaimer ≡ true
                              → copies (s.slab_page_index a) t.slab_page_desc_lru ≡ 0)
                            × ((t.reclaimer ≡ s.reclaimer)
                                × ((j : ℕ)
                                    → j ≢ s.slab_page_index a
                                    → copies j t.slab_page_desc_lru
                                      ≡ copies j s.slab_page_desc_lru)))))))
          → (t : Allocator) × ((lock_item a s ≡ some t) × Locks s t c a p)
      go k (u, (g, (pinned, (page, (free, (reclaims, other)))))) =
          removed u k g pinned page free reclaims (
            remove_item_from_lru-some a c u pinned.0
              (subst (λ f. 0 < copies a (f c).lru) (sym pinned.1.1.0) has))

-- An item in use that no class lists is back in the list of its class.
pub record Unlocks (s t : Allocator) (c a : ℕ) (p : Page) : Type 0 where
  pub valid : IsValid t
  pub kept : (d b : ℕ) → Live s d b → Live t d b
  pub cached :
      (d b : ℕ)
      → copies b (t.slab_classes d).lru ≡ copies b (s.slab_classes d).lru + once_more c a d b
  pub paged :
      t.slab_pages_vector (s.slab_page_index a)
      ≡ some (page_with (if s.reclaimer then p.refcnt - 1 else p.refcnt) p)

pub unlock_item-Unlocks :
    (a c : ℕ) (s : Allocator) (p : Page)
    → IsValid s
    → Live s c a
    → Uncached s a
    → s.slab_pages_vector (s.slab_page_index a) ≡ some p
    → (s.reclaimer ≡ true → 0 < p.refcnt)
    → p.refcnt < 2 ^ 32
    → (t : Allocator) × ((unlock_item a s ≡ some t) × Unlocks s t c a p)
unfolding unlock_item
unlock_item-Unlocks a c s p h k u e z l = at k
  where
    relisted :
        p.slab_class_id ≡ c
        → Pinned (s.slab_page_index a) p s (unpin (s.slab_page_index a) p s)
          × ((unpin (s.slab_page_index a) p s).slab_pages_vector (s.slab_page_index a)
              ≡ some (page_with (if s.reclaimer then p.refcnt - 1 else p.refcnt) p))
        → (t : Allocator) × ((unlock_item a s ≡ some t) × Unlocks s t c a p)
    relisted w ((v, (live, (same, index))), page) =
        let t = unpin (s.slab_page_index a) p s in
        let stays : (d b : ℕ) → Live s d b → Live t d b =
          λ d b m. subst (λ f. Holds t (f b) d b) (sym index) (live (s.slab_page_index b) d b m) in
        (
          insert_item_into_lru a c t,
          (
            rw (page_of-some a c s p h e w, unlock_item) refl,
            record {
              valid =
                  insert_item_into_lru-IsValid a c t v (stays c a k)
                    (λ d. ap (λ f. copies a (f d).lru) same ∙ u d);
              kept = stays;
              cached = λ d b.
                  insert-cached a c t d b ∙ ap (λ f. copies b (f d).lru + once_more c a d b) same;
              paged = page;
            },
          ),
        )

    at : Live s c a → (t : Allocator) × ((unlock_item a s ≡ some t) × Unlocks s t c a p)
    at (r, (g, (x, y))) =
        let same : some r ≡ some p = sym g ∙ e in
        let w : r ≡ p = ground arith in
        relisted (ap (λ q. q.slab_class_id) (sym w) ∙ x)
          (unpin-lem (s.slab_page_index a) p s h e z l)

-- Locking an item that its class lists and unlocking it again is never undefined in a valid
-- allocator, while its page counts fewer than 2 ^ 32 - 1 items; every class lists what it listed,
-- the page counts what it counted, and the allocator is valid.
pub unlock_item-lock_item :
    (a c : ℕ) (s : Allocator) (p : Page)
    → IsValid s
    → s.slab_pages_vector (s.slab_page_index a) ≡ some p
    → p.refcnt + 1 < 2 ^ 32
    → 0 < copies a (s.slab_classes c).lru
    → (t : Allocator) × ((lock_item a s ≡ some t)
        × (Locks s t c a p
            × ((u : Allocator) × ((unlock_item a t ≡ some u)
                  × (IsValid u
                      × ((u.slab_pages_vector (s.slab_page_index a) ≡ some p)
                          × ((d b : ℕ)
                              → copies b (u.slab_classes d).lru
                                ≡ copies b (s.slab_classes d).lru)))))))
unlock_item-lock_item a c s p h e small has = go (lock_item-Locks a c s h p e small has)
  where
    same_page :
        (b : Bool)
        → s.reclaimer ≡ b
        → page_with
            (if b
              then (if b then p.refcnt + 1 else p.refcnt) - 1
              else if b
              then p.refcnt + 1
              else p.refcnt)
            p
          ≡ p
    same_page true y = ap (λ n. page_with n p) (omega arith)
    same_page false y = refl

    positive : (b : Bool) → b ≡ true → 0 < (if b then p.refcnt + 1 else p.refcnt)
    positive true y = omega arith
    positive false y = ground arith

    small_too : (b : Bool) → (if b then p.refcnt + 1 else p.refcnt) < 2 ^ 32
    small_too true = omega (arith, small)
    small_too false = omega (arith, small)

    go :
        ((t : Allocator) × ((lock_item a s ≡ some t) × Locks s t c a p))
        → (t : Allocator) × ((lock_item a s ≡ some t)
            × (Locks s t c a p
                × ((u : Allocator) × ((unlock_item a t ≡ some u)
                      × (IsValid u
                          × ((u.slab_pages_vector (s.slab_page_index a) ≡ some p)
                              × ((d b : ℕ)
                                  → copies b (u.slab_classes d).lru
                                    ≡ copies b (s.slab_classes d).lru)))))))
    go (t, (g, k)) =
        let n = if s.reclaimer then p.refcnt + 1 else p.refcnt in
        let (u, (o, w)) =
          unlock_item-Unlocks a c t (page_with n p) k.valid k.live k.uncached
            (ap (λ f. t.slab_pages_vector (f a)) k.same_index ∙ k.paged)
            (λ y. positive s.reclaimer (sym k.same_reclaimer ∙ y)) (small_too s.reclaimer) in
        (
          t,
          (
            g,
            (
              k,
              (
                u,
                (
                  o,
                  (
                    w.valid,
                    (
                      ap (λ f. u.slab_pages_vector (f a)) (sym k.same_index)
                          ∙ w.paged
                          ∙ ap (λ r. some (page_with (if r then n - 1 else n) p)) k.same_reclaimer
                          ∙ ap some (same_page s.reclaimer refl),
                      λ d b. w.cached d b ∙ k.cached d b,
                    ),
                  ),
                ),
              ),
            ),
          ),
        )

-- `touch` of an item that its class lists keeps the allocator valid, and what every class lists.
pub touch-IsValid :
    (a c : ℕ) (s : Allocator)
    → IsValid s
    → 0 < copies a (s.slab_classes c).lru
    → (t : Allocator) × ((touch a s ≡ some t)
        × (IsValid t
            × ((d b : ℕ) → copies b (t.slab_classes d).lru ≡ copies b (s.slab_classes d).lru)))
unfolding touch
touch-IsValid a c s h has = go (h.held c a has) (remove_item_from_lru-some a c s h has)
  where
    go :
        Live s c a
        → ((l : List ℕ) × ((remove_item_from_lru a c s ≡ some (with_lru c l s))
              × (IsValid (with_lru c l s)
                  × ((b : ℕ) → copies b (s.slab_classes c).lru ≡ one b a + copies b l))))
        → (t : Allocator) × ((touch a s ≡ some t)
            × (IsValid t
                × ((d b : ℕ) → copies b (t.slab_classes d).lru ≡ copies b (s.slab_classes d).lru)))
    go (p, (g, (k, x))) (l, (e, (v, n))) =
        let u = with_lru c l s in
        (
          insert_item_into_lru a c u,
          (
            rw (page_of-some a c s p h g k, touch) (rw (e, touch) refl),
            (
              insert_item_into_lru-IsValid a c u v (h.held c a has) (without-Uncached a c s h l n),
              λ d b. insert-cached a c u d b ∙ without-lru a c s h l n d b,
            ),
          ),
        )
