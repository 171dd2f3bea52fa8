-- ===== src/Memcache/Allocator/Steps.antt =====
-- include/memcached/slab.hh: what the steps of the allocator's operations keep: a page that changes, an
-- item that enters or leaves the list of its class.
use mseastar.Prelude.{
  ℕ, suc, ◌+◌, ◌*◌, ◌/◌, ◌≤◌, ◌<◌, ◌≡◌, ◌≢◌, ◌⊎◌, sym, ap, ◌∙◌, subst, Option, some, List, arith,
  inl, inr,
}
use mseastar.Memcache.Allocator.{Page, SlabClass, Allocator}
use mseastar.Memcache.Allocator.Lists.{update, copies, same_or, update-at, update-other}
use mseastar.Memcache.Allocator.Inv.{Slot, object_size, PageOk, Apart, Holds, IsValid}
use native.Mathlib.Nat.{div-mul-le_self, mul-le-mul_right}

pub Slot-bounds :
    (max size base a : ℕ) → Slot max size base a → (base ≤ a) × (a + size ≤ base + max)
Slot-bounds max size base a (k, (h, e)) =
    let m : suc k * size ≤ max / size * size = mul-le-mul_right size (omega (arith, h)) in
    let d = div-mul-le_self max size in (omega (arith, e), omega (arith, e, m, d))

-- What stands at a place after one place has changed.
pub found :
    (f : ℕ → Option Page) (i j : ℕ) (q r : Page)
    → update f i (some q) j ≡ some r
    → ((j ≡ i) × (q ≡ r)) ⊎ ((j ≢ i) × (f j ≡ some r))
found f i j q r e = elim (same_or j i) [
  | inl y ↦ let g : some q ≡ some r = sym (update-at f i j (some q) y) ∙ e in inl (y, ground arith)
  | inr n ↦ inr (n, sym (update-other f i j (some q) n) ∙ e)
]

pub PageOk-update :
    (sizes : List ℕ) (max n i : ℕ) (q : Page) (f : ℕ → Option Page)
    → ((j : ℕ) (r : Page) → f j ≡ some r → PageOk sizes max n j r)
    → PageOk sizes max n i q
    → (j : ℕ) (r : Page) → update f i (some q) j ≡ some r
    → PageOk sizes max n j r
PageOk-update sizes max n i q f h k j r e = elim (found f i j q r e) [
  | inl (y, g) ↦
      subst (λ z. PageOk sizes max n z r) (sym y) (subst (λ z. PageOk sizes max n i z) g k)
  | inr (m, g) ↦ h j r g
]

Apart-sym : (max a b : ℕ) → Apart max a b → Apart max b a
Apart-sym max a b (inl h) = inr h
Apart-sym max a b (inr h) = inl h

-- A page is put at a place where its memory is apart from that of the others.
pub Apart-update :
    (max i : ℕ) (q : Page) (f : ℕ → Option Page)
    → ((j k : ℕ) (r t : Page)
        → f j ≡ some r
        → f k ≡ some t
        → j ≢ k
        → Apart max r.slab_page t.slab_page)
    → ((j : ℕ) (r : Page) → j ≢ i → f j ≡ some r → Apart max q.slab_page r.slab_page)
    → (j k : ℕ) (r t : Page) → update f i (some q) j ≡ some r
    → update f i (some q) k ≡ some t
    → j ≢ k
    → Apart max r.slab_page t.slab_page
Apart-update max i q f h o j k r t d e n = elim (found f i j q r d) [
  | inl (y, g) ↦ elim (found f i k q t e) [
    | inl (z, u) ↦ absurd (n (y ∙ sym z))
    | inr (m, u) ↦ subst (λ z. Apart max z.slab_page t.slab_page) g (o k t m u)
  ]
  | inr (m, g) ↦ elim (found f i k q t e) [
    | inl (z, u) ↦
        subst (λ z. Apart max r.slab_page z.slab_page) u
          (Apart-sym max q.slab_page r.slab_page (o j r m g))
    | inr (l, u) ↦ h j k r t g u n
  ]
]

-- A page that takes the place of one with the same memory.
pub Apart-replace :
    (max i : ℕ) (p q : Page) (f : ℕ → Option Page)
    → ((j k : ℕ) (r t : Page)
        → f j ≡ some r
        → f k ≡ some t
        → j ≢ k
        → Apart max r.slab_page t.slab_page)
    → f i ≡ some p
    → q.slab_page ≡ p.slab_page
    → (j k : ℕ) (r t : Page) → update f i (some q) j ≡ some r
    → update f i (some q) k ≡ some t
    → j ≢ k
    → Apart max r.slab_page t.slab_page
Apart-replace max i p q f h e s =
    Apart-update max i q f h
      (λ j r n g. subst (λ z. Apart max z r.slab_page) (sym s) (h i j p r e g (λ y. n (sym y))))

-- An object in use stays so when its page changes but for its memory and class, and is not freed.
pub Holds-replace :
    (s : Allocator) (i : ℕ) (p q : Page) (j c a : ℕ)
    → s.slab_pages_vector i ≡ some p
    → q.slab_page ≡ p.slab_page
    → q.slab_class_id ≡ p.slab_class_id
    → (copies a p.free_objects ≡ 0 → j ≡ i → copies a q.free_objects ≡ 0)
    → Holds s j c a
    → Holds (record s { slab_pages_vector = update s.slab_pages_vector i (some q) }) j c a
Holds-replace s i p q j c a e b k u (r, (g, (x, (l, v)))) = elim (same_or j i) [
  | inl y ↦
      let o : some r ≡ some p = sym g ∙ ap s.slab_pages_vector y ∙ e in
      let w : r ≡ p = ground arith in
      (
        q,
        (
          update-at s.slab_pages_vector i j (some q) y,
          (
            k ∙ ap (λ z. z.slab_class_id) (sym w) ∙ x,
            (
              subst (λ z. Slot s.max_object_size (object_size s c) z a)
                  (ap (λ z. z.slab_page) w ∙ sym b) l,
              u (ap (λ z. copies a z.free_objects) (sym w) ∙ v) y,
            ),
          ),
        ),
      )
  | inr n ↦ (r, (update-other s.slab_pages_vector i j (some q) n ∙ g, (x, (l, v))))
]

-- Two places hold no one object.
pub Holds-place :
    (s : Allocator) (i j c d a : ℕ)
    → IsValid s
    → (p : Page) → s.slab_pages_vector i ≡ some p
    → Slot s.max_object_size (object_size s p.slab_class_id) p.slab_page a
    → Holds s j d a
    → i ≡ j
Holds-place s i j c d a h p e l (q, (g, (x, (m, v)))) = elim (same_or i j) [
  | inl y ↦ y
  | inr n ↦
      let o = h.apart i j p q e g n in
      let kp = h.paged i p e in
      let kq = h.paged j q g in
      let b = Slot-bounds s.max_object_size (object_size s p.slab_class_id) p.slab_page a l in
      let t = Slot-bounds s.max_object_size (object_size s d) q.slab_page a m in
      let z = (h.fits p.slab_class_id kp.known).0 in
      let w : 0 < object_size s d =
        subst (λ y. 0 < object_size s y) x (h.fits q.slab_class_id kq.known).0 in
      absurd (elim o [
        | inl y ↦ omega (arith, y, b.0, b.1, t.0, t.1, z, w)
        | inr y ↦ omega (arith, y, b.0, b.1, t.0, t.1, z, w)
      ])
]

-- What a change of one class leaves as it is.
pub kept :
    {A : Type 0} (f : SlabClass → A) (g : ℕ → SlabClass) (c : ℕ) (k : SlabClass) (d : ℕ)
    → f k ≡ f (g c)
    → f (update g c k d) ≡ f (g d)
kept f g c k d h = elim (same_or d c) [
  | inl y ↦ ap f (update-at g c d k y) ∙ h ∙ ap (λ z. f (g z)) (sym y)
  | inr n ↦ ap f (update-other g c d k n)
]
