-- ===== src/Memcache/Cache/Create.antt =====
-- include/memcached/memcache.cc: the creation of an item, with the eviction that it may take.
use mseastar.Prelude.{
  ℕ, ◌^◌, ◌<◌, ◌≤◌, ◌≡◌, ◌≢◌, refl, sym, ap, ◌∙◌, subst, Bool, true, false, ◌⊎◌, none, some, List,
  ◌∷◌, arith, ◌==◌, if◌then◌else◌, Bool-cases, inl, inr, word_add,
}
use mseastar.Memcache.Item.{
  Env, Item, Insertion, same_item, insertion_size, ever_expires, make_item, key_matches,
}
use mseastar.Memcache.Item.Layout.{Fits}
use mseastar.Memcache.Item.Match.{linked, Holds, linked-Holds, key_matches-linked, item_size-linked}
use mseastar.Memcache.Slab.{
  Slab, Contract, Lawful, Created, Sound, bad_alloc, placed, evicting, aborts,
}
use mseastar.Memcache.Cache.{
  Cache, Outcome, returns, throws, undefined, find_by, any_by, drop_by, at_id, timer_of, add_ref,
  link, create, create_at, evict, hash_insert, unlink, is_unlocked,
}
use mseastar.Memcache.Cache.Keys.{timers, find_by-some, find_by-holds}
use mseastar.Memcache.Cache.Drop.{find_by-drop_none, find_by-All}
use mseastar.Memcache.Cache.Found.{any_by-same}
use mseastar.Memcache.Cache.Inv.{CoreOf, Backed, IsValid, Plain, unlink-Core}
use mseastar.Memcache.Cache.Erase.{any_by-drop_other, any_by-drop_back, any_by-drop_self}
use mseastar.TimerSet.{Timer, insert}
use mseastar.TimerSet.Inv
use mseastar.TimerSet.Inv.{occ, one_if, count, insert_lem}

-- A time that an item may have: never, or one that is not negative.
abbrev pub Timely : Insertion → Type 0
Timely ins = ever_expires ins.expiry ≡ true → ins.expiry < 2 ^ 63

module _ {S : Type 0} (env : Env) (slab : Slab S) where
  -- The cache with one more item.
  abbrev grown : Insertion → Item → Cache S → Cache S
  grown ins it c =
      let t = if ever_expires ins.expiry then insert (timer_of it) c.alive else (c.alive, false) in
      record c {
        items = it ∷ c.items;
        alive = t.0;
        timer = if t.1 then some it.expiry else c.timer;
        stats = record c.stats { bytes = word_add c.stats.bytes (insertion_size env ins) };
      }

  add_ref-made :
      (a page : ℕ) (m : ℕ → ℕ) (ins : Insertion) (v : ℕ) (s : S)
      → add_ref env slab (make_item env a page m ins v) s ≡ (linked env a page m ins v, s)
  unfolding add_ref make_item
  add_ref-made a page m ins v s = refl

  hash_insert-new :
      (it : Item) (its : List Item)
      → any_by (same_item it) its ≡ false
      → hash_insert env slab it its ≡ (it ∷ its, true)
  unfolding hash_insert
  hash_insert-new it its h = rw h refl

  link-new :
      (a page : ℕ) (m : ℕ → ℕ) (ins : Insertion) (v : ℕ) (c : Cache S)
      → any_by (same_item (linked env a page m ins v)) c.items ≡ false
      → link env slab ins (make_item env a page m ins v) c
        ≡ (grown ins (linked env a page m ins v) c, (linked env a page m ins v, true))
  unfolding link
  link-new a page m ins v c h =
      rw (add_ref-made a page m ins v c.slab, hash_insert-new (linked env a page m ins v) c.items h)
        refl

  grown-Core :
      (a page : ℕ) (m : ℕ → ℕ) (ins : Insertion) (v : ℕ) (c : Cache S)
      → CoreOf env c
      → Fits ins
      → Timely ins
      → any_by (at_id a) c.items ≡ false
      → any_by (same_item (linked env a page m ins v)) c.items ≡ false
      → CoreOf env (grown ins (linked env a page m ins v) c)
  unfolding make_item
  grown-Core a page m ins v c h f d i s =
      let it = linked env a page m ins v in
      let z = item_size-linked env a page m ins v f in
      let t : Inv.Inv
            (if ever_expires ins.expiry then insert (timer_of it) c.alive else (c.alive, false)).0
          × ((u : Timer)
              → count u
                  (if ever_expires ins.expiry
                    then insert (timer_of it) c.alive
                    else (c.alive, false)).0
                ≡ occ u (timers (it ∷ c.items))) =
        elim (Bool-cases (ever_expires ins.expiry)) [
          | inl y ↦
              let (w, n, r, o) = insert_lem (timer_of it) c.alive (d y) h.timed in
              rw y (w, λ u. omega (arith, n u, h.armed u))
          | inr y ↦ rw y (h.timed, h.armed)
        ] in
      record {
        unique = ((i, s), h.unique);
        plain = (record { once = refl; due = d }, h.plain);
        counted = omega (arith, h.counted, z);
        timed = t.0;
        armed = t.1;
      }

module _ {S : Type 0} {con : Contract S} (env : Env) (slab : Slab S) (law : Lawful slab con) where
  -- What the creation of an item comes to, when its key finds none: the item is in the cache, which is
  -- valid, and its key finds it; or there is no memory, and its key still finds none.
  abbrev pub Makes : Insertion → ℕ → Outcome S (Item × Bool) → Type 0
  Makes ins v (returns (it, inserted) d) =
      (inserted ≡ true)
      × (IsValid env slab law d
          × ((find_by (key_matches env ins.key) d.items ≡ some it) × Holds ins v it))
  Makes ins v (throws d) =
      IsValid env slab law d × (find_by (key_matches env ins.key) d.items ≡ none)
  Makes ins v undefined = ⊥

  -- The storage at `a` after the linking of an item in it.
  Grows : List Item → ℕ → S → Type 0
  Grows its a t =
      (con.ok t × con.lists a t)
      × (((b : ℕ) → any_by (at_id b) its ≡ true → con.lists b t)
          × ((b : ℕ) → con.lists b t → (b ≡ a) ⊎ (any_by (at_id b) its ≡ true)))

  link-Makes :
      (a page : ℕ) (m : ℕ → ℕ) (ins : Insertion) (v : ℕ) (c : Cache S)
      → CoreOf env c
      → Fits ins
      → Timely ins
      → any_by (at_id a) c.items ≡ false
      → find_by (key_matches env ins.key) c.items ≡ none
      → Grows c.items a c.slab
      → let r = link env slab ins (make_item env a page m ins v) c in Makes ins v (returns r.1 r.0)
  unfolding Grows make_item
  link-Makes a page m ins v c h f d i e g =
      let it = linked env a page m ins v in
      let k = key_matches-linked env a page m ins v f in
      let s = any_by-same env ins.key it c.items k e in
      subst (λ r. Makes ins v (returns r.1 r.0)) (sym (link-new env slab a page m ins v c s))
        (
          refl,
          (
            (
              grown-Core env slab a page m ins v c h f d i s,
              record {
                ok = g.0.0;
                stored = λ b l. elim (Bool-cases (at_id b it)) [
                  | inl y ↦ let q : a ≡ b = ground arith in subst (λ z. con.lists z c.slab) q g.0.1
                  | inr n ↦
                      g.1.0 b
                        (subst (λ z. (if z then true else any_by (at_id b) c.items) ≡ true) n l)
                ];
                cached = λ b l. elim (g.1.1 b l) [
                  | inl q ↦ let y : at_id b it ≡ true = ground arith in rw y refl
                  | inr r ↦ elim (Bool-cases (at_id b it)) [ inl y ↦ rw y refl | inr n ↦ rw n r ]
                ];
              },
            ),
            (rw k refl, linked-Holds env a page m ins v f),
          ),
        )

  -- The cache after the eviction of an item at `a`.
  evict-some :
      (a : ℕ) (c : Cache S)
      → CoreOf env c
      → any_by (at_id a) c.items ≡ true
      → (d : Cache S) × ((evict env slab a c ≡ some d)
          × (CoreOf env d × ((d.items ≡ drop_by (at_id a) c.items) × (d.slab ≡ c.slab))))
  unfolding evict unlink
  evict-some a c h k =
      let (it, e) = find_by-some (at_id a) c.items k in
      let t = find_by-holds (at_id a) c.items it e in
      let q : it.id ≡ a = ground arith in
      let u = unlink-Core env slab it c h (ap (λ z. find_by (at_id z) c.items) q ∙ e) in
      let o = unlink env slab it c in
      (
        record o { stats = record o.stats { evicted = word_add o.stats.evicted 1 } },
        (
          rw (e, evict) refl,
          (
            record {
              unique = u.unique;
              plain = u.plain;
              counted = u.counted;
              timed = u.timed;
              armed = u.armed;
            },
            (ap (λ z. drop_by (at_id z) c.items) q, refl),
          ),
        ),
      )

  Grows-placed :
      (its : List Item) (a : ℕ) (s t : S)
      → Backed slab law its s
      → con.ok t
      → ((b : ℕ)
          → ((b ≡ a) ⊎ con.lists b s → con.lists b t) × (con.lists b t → (b ≡ a) ⊎ con.lists b s))
      → Grows its a t
  unfolding Grows
  Grows-placed its a s t b o w = (
    (o, (w a).0 (inl refl)),
    (
      λ x k. (w x).0 (inr (b.stored x k)),
      λ x k. elim ((w x).1 k) [ inl q ↦ inl q | inr r ↦ inr (b.cached x r) ],
    ),
  )

  Grows-evicting :
      (its : List Item) (a : ℕ) (s t : S)
      → Backed slab law its s
      → con.lists a s
      → con.ok t
      → ((b : ℕ) → (con.lists b s → con.lists b t) × (con.lists b t → con.lists b s))
      → Grows (drop_by (at_id a) its) a t
  unfolding Grows
  Grows-evicting its a s t b l o w = (
    (o, (w a).0 l),
    (
      λ x k. (w x).0 (b.stored x (any_by-drop_back a x its k)),
      λ x k. elim (Bool-cases (x == a)) [
        | inl y ↦ inl (ground arith)
        | inr n ↦
            let m : x ≢ a = ground arith in
            inr (any_by-drop_other a x its m (b.cached x ((w x).1 k)))
      ],
    ),
  )

  -- The items that the slab lists are unlocked, as nothing but the cache refers to them.
  listed-unlocked :
      (c : Cache S) → IsValid env slab law c → (a : ℕ) → con.lists a c.slab → is_unlocked c a ≡ true
  unfolding is_unlocked
  listed-unlocked c (h, b) a l =
      let (it, e) = find_by-some (at_id a) c.items (b.cached a l) in
      let p = find_by-All (at_id a) Plain c.items it h.plain e in
      let o : (it.ref_count == 1) ≡ true = ap (λ n. n == 1) p.once in rw (e, is_unlocked) o

  create_at-evicting :
      (ins : Insertion) (v a page : ℕ) (m : ℕ → ℕ) (t : S) (c d : Cache S)
      → evict env slab a c ≡ some d
      → create_at env slab ins v c (evicting a page m t) ≡ (
          let r = link env slab ins (make_item env a page m ins v) (record d { slab = t }) in
          returns r.1 r.0)
  create_at-evicting ins v a page m t c d e = rw (e, create_at) refl

  create_at-Makes :
      (ins : Insertion) (v : ℕ) (c : Cache S) (r : Created S)
      → IsValid env slab law c
      → Fits ins
      → Timely ins
      → find_by (key_matches env ins.key) c.items ≡ none
      → Sound con c.slab r
      → Makes ins v (create_at env slab ins v c r)
  create_at-Makes ins v c (bad_alloc t) (h, b) f d e s = (
    (
      h,
      record {
        ok = s.0;
        stored = λ x k. (s.1 x).0 (b.stored x k);
        cached = λ x k. b.cached x ((s.1 x).1 k);
      },
    ),
    e,
  )
  create_at-Makes ins v c aborts (h, b) f d e s = s
  create_at-Makes ins v c (placed a page m t) (h, b) f d e s =
      let i : any_by (at_id a) c.items ≡ false = elim (Bool-cases (any_by (at_id a) c.items)) [
        | inl y ↦ absurd (s.0 (b.stored a y))
        | inr n ↦ n
      ] in
      link-Makes a page m ins v (record c { slab = t }) h f d i e
        (Grows-placed c.items a c.slab t b s.1.0 s.1.1)
  create_at-Makes ins v c (evicting a page m t) (h, b) f d e s =
      let (x, (p, (k, (q, w)))) = evict-some a c h (b.cached a s.0) in
      let i : any_by (at_id a) x.items ≡ false =
        ap (any_by (at_id a)) q ∙ any_by-drop_self a c.items h.unique in
      let n : find_by (key_matches env ins.key) x.items ≡ none =
        ap (find_by (key_matches env ins.key)) q
        ∙ find_by-drop_none (at_id a) (key_matches env ins.key) c.items e in
      subst (Makes ins v) (sym (create_at-evicting ins v a page m t c x p)) (
        link-Makes a page m ins v (record x { slab = t }) k f d i n
          (subst (λ l. Grows l a t) (sym q) (Grows-evicting c.items a c.slab t b s.0 s.1.0 s.1.1)))

  -- An insertion that makes an item which fits, of a size that the slab makes items of.
  abbrev pub Storable : Insertion → Type 0
  Storable ins = Fits ins × (insertion_size env ins ≤ con.limit)

  -- Creating an item whose key finds none in a valid cache is never undefined: either the item is in the
  -- cache, which is valid, and its key finds it with what was to be stored; or there is no memory, and
  -- the cache is valid and its key still finds none.
  pub create-Makes :
      (ins : Insertion) (v : ℕ) (c : Cache S)
      → IsValid env slab law c
      → Storable ins
      → Timely ins
      → find_by (key_matches env ins.key) c.items ≡ none
      → Makes ins v (create env slab ins v c)
  unfolding create
  create-Makes ins v c h f d e =
      create_at-Makes ins v c (slab.create (is_unlocked c) (insertion_size env ins) c.slab) h f.0 d
        e
        (law.create_sound (is_unlocked c) (insertion_size env ins) c.slab f.1 h.1.ok
          (listed-unlocked c h))
