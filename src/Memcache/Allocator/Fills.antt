-- ===== src/Memcache/Allocator/Fills.antt =====
-- include/memcached/slab.hh: the slab allocator as what the cache asks of a slab.
use mseastar.Prelude.{
  ℕ, suc, ◌^◌, ◌≤◌, ◌<◌, ◌≡◌, ◌≢◌, ◌⊎◌, refl, sym, ap, ◌∙◌, subst, Bool, true, Option, none, some,
  ◌==◌, arith, get_or, length, Bool-cases, inl, inr,
}
use mseastar.Memcache.Slab.{
  Slab, Contract, Lawful, Created, Sound, bad_alloc, placed, evicting, aborts,
}
use mseastar.Memcache.Allocator.{
  Allocator, Answer, throws_bad_alloc, null_item, made, made_from, create, free, lock_item,
  unlock_item,
}
use mseastar.Memcache.Allocator.Lists.{copies, one_self, one_other}
use mseastar.Memcache.Allocator.Inv.{object_size, IsValid}
use mseastar.Memcache.Allocator.Taken.{Same, Grows, once_more}
use mseastar.Memcache.Allocator.Grown.{Fresh}
use mseastar.Memcache.Allocator.Create.{Answers, create-Answers}
use mseastar.Memcache.Allocator.Free.{Frees, free-Frees}

-- What `aligned_alloc` and `new slab_page_desc` answer, and what the memory holds at an address.
pub record System : Type 0 where
  pub aligned_alloc : Allocator → Option ℕ
  pub has_descriptor : Allocator → Bool
  pub contents : ℕ → ℕ → ℕ

-- The memory that `aligned_alloc` gives is that of no other page, and it is not for 2 ^ 32 pages.
abbrev pub Honest : System → Type 0
Honest sys =
    (s : Allocator) (base : ℕ)
    → IsValid s
    → sys.aligned_alloc s ≡ some base
    → (s.slab_pages < 2 ^ 32) × Fresh s base

module _ (sys : System) where
  -- A null item is one that the cache dereferences.
  abbrev pub created : Option (Answer × Allocator) → Created Allocator
  created none = aborts
  created (some (throws_bad_alloc, t)) = bad_alloc t
  created (some (null_item, t)) = aborts
  created (some (made a i, t)) = placed a i (sys.contents a) t
  created (some (made_from a i, t)) = evicting a i (sys.contents a) t

  -- `free`, `lock_item` and `unlock_item` of an item that is in use; the state stays as it is where an
  -- assertion fails.
  abbrev pub or_same : Allocator → Option Allocator → Allocator
  or_same s none = s
  or_same s (some t) = t

  abbrev pub slab_of : Slab Allocator
  slab_of = record {
    create =
        λ unlocked n s. created (create unlocked (sys.aligned_alloc s) (sys.has_descriptor s) n s);
    free = λ a s. or_same s (free a s);
    lock_item = λ a s. or_same s (lock_item a s);
    unlock_item = λ a s. or_same s (unlock_item a s);
  }

-- A class lists the item.
abbrev pub Listed : ℕ → Allocator → Type 0
Listed a s = (c : ℕ) × (0 < copies a (s.slab_classes c).lru)

-- The allocator is valid, evicts items, and has a class that is not the last one for so large an item.
pub record Usable (limit : ℕ) (s : Allocator) : Type 0 where
  pub valid : IsValid s
  pub evicts : s.has_erase_func ≡ true
  pub largest : (k : ℕ) × ((suc k < length s.slab_class_sizes) × (limit ≤ object_size s k))

abbrev pub contract : ℕ → Contract Allocator
contract limit = record { ok = Usable limit; lists = Listed; limit = limit }

kept-Usable : (limit : ℕ) (s t : Allocator) → Usable limit s → Same s t → IsValid t → Usable limit t
kept-Usable limit s t u (p, q) v =
    let (k, (l, m)) = u.largest in
    record {
      valid = v;
      evicts = q ∙ u.evicts;
      largest = (
        k,
        (subst (λ z. suc k < length z) (sym p) l, subst (λ z. limit ≤ get_or z k 0) (sym p) m),
      );
    }

once_more_other : (c a d b : ℕ) → b ≢ a → once_more c a d b ≡ 0
once_more_other c a d b n = elim (Bool-cases (d == c)) [
  | inl t ↦ rw t (one_other b a (λ y. n (sym y)))
  | inr f ↦ rw f refl
]

once_more_self : (c a : ℕ) → once_more c a c a ≡ 1
once_more_self c a = let t : (c == c) ≡ true = ground arith in rw t (one_self a)

either : (a b : ℕ) → (b ≡ a) ⊎ (b ≢ a)
either a b = elim (Bool-cases (b == a)) [
  | inl t ↦ inl (ground arith)
  | inr f ↦ inr (λ e. ground arith)
]

Grows-Listed :
    (s t : Allocator) (c a b : ℕ)
    → Grows s t c a
    → ((b ≡ a) ⊎ Listed b s → Listed b t) × (Listed b t → (b ≡ a) ⊎ Listed b s)
Grows-Listed s t c a b g = (to, from)
  where
    to : (b ≡ a) ⊎ Listed b s → Listed b t
    to (inl y) =
        subst (λ z. Listed z t) (sym y) (c, omega (arith, g.cached c a, once_more_self c a))
    to (inr (d, l)) = (d, omega (arith, g.cached d b, l))

    from : Listed b t → (b ≡ a) ⊎ Listed b s
    from (d, l) = elim (either a b) [
      | inl y ↦ inl y
      | inr n ↦ inr (d, omega (arith, l, g.cached d b, once_more_other c a d b n))
    ]

-- What is sound for the contract, of what the allocator answers.
created-Sound :
    (sys : System) (limit : ℕ) (s : Allocator) (c : ℕ) (o : Option (Answer × Allocator))
    → Usable limit s
    → Answers (λ a. true) (sys.aligned_alloc s) (sys.has_descriptor s) s c o
    → Sound (contract limit) s (created sys o)
created-Sound sys limit s c none u w = w
created-Sound sys limit s c (some (throws_bad_alloc, t)) u (e, m) =
    subst (λ z. Usable limit z × ((b : ℕ) → (Listed b s → Listed b z) × (Listed b z → Listed b s)))
      (sym e) (u, λ b. (λ l. l, λ l. l))
created-Sound sys limit s c (some (null_item, t)) u (e, m) = let y = u.evicts in ground arith
created-Sound sys limit s c (some (made a i, t)) u (n, g) = (
  λ (d, l). n d (u.valid.held d a l),
  (kept-Usable limit s t u g.same g.valid, λ b. Grows-Listed s t c a b g),
)
created-Sound sys limit s c (some (made_from a i, t)) u g =
    let (l, (e, o)) = g.oldest in
    (
      (c, omega (arith, ap (copies a) e, one_self a)),
      (
        kept-Usable limit s t u g.same g.valid,
        λ b. (
          λ (d, k). (d, omega (arith, k, g.cached d b)),
          λ (d, k). (d, omega (arith, k, g.cached d b)),
        ),
      ),
    )

free_lists-Frees :
    (s t : Allocator) (c a b : ℕ)
    → IsValid t
    → Frees s t c a
    → (b ≢ a → Listed b s → Listed b t) × (Listed b t → (b ≢ a) × Listed b s)
free_lists-Frees s t c a b v f = (
  λ n (d, l). (d, omega (arith, f.cached d b, l, once_more_other c a d b n)),
  λ (d, l). (
    λ y. f.gone d (v.held d a (subst (λ z. 0 < copies z (t.slab_classes d).lru) y l)),
    (d, omega (arith, l, f.cached d b)),
  ),
)

-- The slab allocator keeps the contract that the cache relies on, for items up to the size of a
-- class that is not the last one, and an `aligned_alloc` that gives no memory twice, nor for 2 ^ 32
-- pages.
pub slab_of-Lawful : (sys : System) (limit : ℕ) → Honest sys → Lawful (slab_of sys) (contract limit)
slab_of-Lawful sys limit h = record {
  create_sound = λ unlocked n s l u k.
      let (m, (p, q)) = u.largest in
      let (c, (z, w)) =
        create-Answers unlocked (sys.aligned_alloc s) (sys.has_descriptor s) s n m u.valid p
          (omega (arith, l, q)) (λ base e. h s base u.valid e) (λ d a y. k a (d, y)) in
      created-Sound sys limit s c (create unlocked (sys.aligned_alloc s) (sys.has_descriptor s) n s)
        u w;
  free_ok = λ a s u (c, l).
      let (t, (e, f)) = free-Frees a c s u.valid l in
      subst (λ o. Usable limit (or_same sys s o)) (sym e) (kept-Usable limit s t u f.same f.valid);
  free_lists = λ a b s u (c, l).
      let (t, (e, f)) = free-Frees a c s u.valid l in
      subst
        (λ o.
          (b ≢ a → Listed b s → Listed b (or_same sys s o))
          × (Listed b (or_same sys s o) → (b ≢ a) × Listed b s))
        (sym e) (free_lists-Frees s t c a b f.valid f);
}
