-- ===== src/Memcache/Allocator/Pin.antt =====
-- include/memcached/slab.hh: a page counts its items that are in use, and is not reclaimed while there are
-- any.
use mseastar.Prelude.{
  ℕ, ◌+◌, ◌-◌, ◌%◌, ◌^◌, ◌<◌, ◌≡◌, ◌≢◌, refl, sym, ap, ◌∙◌, subst, true, false, some, List, ◌==◌,
  if◌then◌else◌, arith, Bool-cases, inl, inr,
}
use mseastar.Memcache.Allocator.{
  Page, Allocator, pin, unpin, pin_page, unpin_page, unlist_page, with_page,
}
use mseastar.Memcache.Allocator.Lists.{
  copies, push_front, same_or, update-at, one_self, one_other, copies-push, take_out-some,
}
use mseastar.Memcache.Allocator.Inv.{aged, Holds, IsValid}
use mseastar.Memcache.Allocator.Steps.{Holds-replace}
use mseastar.Memcache.Allocator.Pages.{page-IsValid, listing-keep, aging-change}

module _ (i : ℕ) (p : Page) (s : Allocator) where
  -- The page counts `n` items in use, and `m` are the pages to reclaim.
  abbrev pub counting : ℕ → List ℕ → Allocator
  counting n m = record (with_page i (some (record p { refcnt = n })) s) { slab_page_desc_lru = m }

  counting-IsValid :
      (n : ℕ) (m : List ℕ)
      → IsValid s
      → s.slab_pages_vector i ≡ some p
      → copies i m ≡ aged s.reclaimer (some (record p { refcnt = n }))
      → ((j : ℕ) → j ≢ i → copies j m ≡ copies j s.slab_page_desc_lru)
      → IsValid (counting n m)
  counting-IsValid n m h e own other =
      let q = record p { refcnt = n } in
      let o = h.paged i p e in
      page-IsValid s i p q s.slab_classes m h e refl refl
        (record {
          indexed = o.indexed;
          signed = o.signed;
          known = o.known;
          small = o.small;
          inside = o.inside;
          once = o.once;
        })
        (λ d. (refl, (refl, refl))) (listing-keep s i p q h e (λ d. refl))
        (aging-change s i q m h own other) (λ d a u z. z)

  pub counting-Holds :
      (n : ℕ) (m : List ℕ) (j d b : ℕ)
      → s.slab_pages_vector i ≡ some p
      → Holds s j d b
      → Holds (counting n m) j d b
  counting-Holds n m j d b e k =
      Holds-replace s i p (record p { refcnt = n }) j d b e refl refl (λ z y. z) k

  -- What the counting of one more item comes to.
  abbrev pub Pinned : Allocator → Type 0
  Pinned t =
      IsValid t
      × (((j d b : ℕ) → Holds s j d b → Holds t j d b)
          × ((t.slab_classes ≡ s.slab_classes) × (t.slab_page_index ≡ s.slab_page_index)))

  aged-on :
      IsValid s
      → s.slab_pages_vector i ≡ some p
      → s.reclaimer ≡ true
      → copies i s.slab_page_desc_lru ≡ (if p.refcnt == 0 then 1 else 0)
  aged-on h e y = h.aging i ∙ ap (aged s.reclaimer) e ∙ ap (λ r. aged r (some p)) y

  counting-Pinned :
      (n : ℕ) (m : List ℕ)
      → IsValid s
      → s.slab_pages_vector i ≡ some p
      → s.reclaimer ≡ true
      → copies i m ≡ (if n == 0 then 1 else 0)
      → ((j : ℕ) → j ≢ i → copies j m ≡ copies j s.slab_page_desc_lru)
      → Pinned (counting n m)
  counting-Pinned n m h e y own other = (
    counting-IsValid n m h e (own ∙ ap (λ r. aged r (some (record p { refcnt = n }))) (sym y))
        other,
    (λ j d b. counting-Holds n m j d b e, (refl, refl)),
  )

  -- One more item of the page is in use, when there is a reclaimer: the page counts it, and is not one
  -- to reclaim.
  pin_page-some :
      IsValid s
      → s.slab_pages_vector i ≡ some p
      → s.reclaimer ≡ true
      → p.refcnt + 1 < 2 ^ 32
      → (m : List ℕ) × ((pin_page i p s ≡ some (counting (p.refcnt + 1) m))
          × (Pinned (counting (p.refcnt + 1) m)
              × ((copies i m ≡ 0)
                  × ((j : ℕ) → j ≢ i → copies j m ≡ copies j s.slab_page_desc_lru))))
  pin_page-some h e y l =
      let n : (p.refcnt + 1) % 2 ^ 32 ≡ p.refcnt + 1 = omega arith in
      let k = aged-on h e y in
      let big : ((p.refcnt + 1) == 0) ≡ false = ground arith in
      elim (same_or p.refcnt 0) [
        | inl z ↦
            let one_more : (p.refcnt + 1 == 1) ≡ true = ground arith in
            let w : (p.refcnt == 0) ≡ true = ground arith in
            let q : copies i s.slab_page_desc_lru ≡ 1 = k ∙ ap (λ b. if b then 1 else 0) w in
            let (m, (g, c)) = take_out-some i s.slab_page_desc_lru (omega (arith, q)) in
            let own : copies i m ≡ 0 = omega (arith, c i, one_self i, q) in
            let other : (j : ℕ) → j ≢ i → copies j m ≡ copies j s.slab_page_desc_lru =
              λ j o. omega (arith, c j, one_other j i (λ r. o (sym r))) in
            (
              m,
              (
                rw n (rw one_more (rw (g, unlist_page) refl)),
                (
                  counting-Pinned (p.refcnt + 1) m h e y
                      (own ∙ ap (λ b. if b then 1 else 0) (sym big)) other,
                  (own, other),
                ),
              ),
            )
        | inr z ↦
            let not_one : (p.refcnt + 1 == 1) ≡ false = ground arith in
            let w : (p.refcnt == 0) ≡ false = ground arith in
            let own : copies i s.slab_page_desc_lru ≡ 0 = k ∙ ap (λ b. if b then 1 else 0) w in
            (
              s.slab_page_desc_lru,
              (
                rw n (rw not_one refl),
                (
                  counting-Pinned (p.refcnt + 1) s.slab_page_desc_lru h e y
                      (own ∙ ap (λ b. if b then 1 else 0) (sym big)) (λ j o. refl),
                  (own, λ j o. refl),
                ),
              ),
            )
      ]

  -- One item less.
  unpin_page-lem :
      IsValid s
      → s.slab_pages_vector i ≡ some p
      → s.reclaimer ≡ true
      → 0 < p.refcnt
      → p.refcnt < 2 ^ 32
      → (m : List ℕ) × ((unpin_page i p s ≡ counting (p.refcnt - 1) m)
          × (Pinned (counting (p.refcnt - 1) m)
              × ((j : ℕ) → j ≢ i → copies j m ≡ copies j s.slab_page_desc_lru)))
  unpin_page-lem h e y z l =
      let n : (p.refcnt + 2 ^ 32 - 1) % 2 ^ 32 ≡ p.refcnt - 1 = omega arith in
      let old = s.slab_page_desc_lru in
      let w : (p.refcnt == 0) ≡ false = ground arith in
      let k : copies i old ≡ 0 = aged-on h e y ∙ ap (λ b. if b then 1 else 0) w in
      elim (Bool-cases (p.refcnt - 1 == 0)) [
        | inl t ↦
            let other : (j : ℕ) → j ≢ i → copies j (push_front i old) ≡ copies j old =
              λ j o. omega (arith, copies-push j i old, one_other j i (λ r. o (sym r))) in
            (
              push_front i old,
              (
                rw n (rw t refl),
                (
                  counting-Pinned (p.refcnt - 1) (push_front i old) h e y
                      (omega (arith, k, copies-push i i old, one_self i)
                        ∙ ap (λ b. if b then 1 else 0) (sym t))
                      other,
                  other,
                ),
              ),
            )
        | inr f ↦ (
          old,
          (
            rw n (rw f refl),
            (
              counting-Pinned (p.refcnt - 1) old h e y (k ∙ ap (λ b. if b then 1 else 0) (sym f))
                  (λ j o. refl),
              λ j o. refl,
            ),
          ),
        )
      ]

  -- The number of items in use that the page counts.
  abbrev pub counted : ℕ → Page
  counted n = record p { refcnt = n }

  pub pin-some :
      IsValid s
      → s.slab_pages_vector i ≡ some p
      → p.refcnt + 1 < 2 ^ 32
      → (t : Allocator) × ((pin i p s ≡ some t)
          × (Pinned t
              × ((t.slab_pages_vector i
                    ≡ some (counted (if s.reclaimer then p.refcnt + 1 else p.refcnt)))
                  × (((s.reclaimer ≡ true) → copies i t.slab_page_desc_lru ≡ 0)
                      × ((t.reclaimer ≡ s.reclaimer)
                          × ((j : ℕ)
                              → j ≢ i
                              → copies j t.slab_page_desc_lru ≡ copies j s.slab_page_desc_lru))))))
  pin-some h e l = elim (Bool-cases s.reclaimer) [
    | inl y ↦
        let (m, (g, (k, (own, other)))) = pin_page-some h e y l in
        (
          counting (p.refcnt + 1) m,
          (
            ap (λ r. if r then pin_page i p s else some s) y ∙ g,
            (
              k,
              (
                update-at s.slab_pages_vector i i (some (counted (p.refcnt + 1))) refl
                    ∙ ap (λ r. some (counted (if r then p.refcnt + 1 else p.refcnt))) (sym y),
                (λ w. own, (refl, other)),
              ),
            ),
          ),
        )
    | inr y ↦ (
      s,
      (
        ap (λ r. if r then pin_page i p s else some s) y,
        (
          (h, (λ j d b k. k, (refl, refl))),
          (
            e ∙ ap (λ r. some (counted (if r then p.refcnt + 1 else p.refcnt))) (sym y),
            (λ w. absurd (ground arith), (refl, λ j o. refl)),
          ),
        ),
      ),
    )
  ]

  pub unpin-lem :
      IsValid s
      → s.slab_pages_vector i ≡ some p
      → (s.reclaimer ≡ true → 0 < p.refcnt)
      → p.refcnt < 2 ^ 32
      → Pinned (unpin i p s)
        × ((unpin i p s).slab_pages_vector i
            ≡ some (counted (if s.reclaimer then p.refcnt - 1 else p.refcnt)))
  unpin-lem h e z l = elim (Bool-cases s.reclaimer) [
    | inl y ↦
        let (m, (g, (k, other))) = unpin_page-lem h e y (z y) l in
        let w : unpin i p s ≡ counting (p.refcnt - 1) m =
          ap (λ r. if r then unpin_page i p s else s) y ∙ g in
        subst
          (λ t.
            Pinned t
            × (t.slab_pages_vector i
                ≡ some (counted (if s.reclaimer then p.refcnt - 1 else p.refcnt))))
          (sym w)
          (
            k,
            update-at s.slab_pages_vector i i (some (counted (p.refcnt - 1))) refl
                ∙ ap (λ r. some (counted (if r then p.refcnt - 1 else p.refcnt))) (sym y),
          )
    | inr y ↦
        let w : unpin i p s ≡ s = ap (λ r. if r then unpin_page i p s else s) y in
        subst
          (λ t.
            Pinned t
            × (t.slab_pages_vector i
                ≡ some (counted (if s.reclaimer then p.refcnt - 1 else p.refcnt))))
          (sym w)
          (
            (h, (λ j d b k. k, (refl, refl))),
            e ∙ ap (λ r. some (counted (if r then p.refcnt - 1 else p.refcnt))) (sym y),
          )
  ]
