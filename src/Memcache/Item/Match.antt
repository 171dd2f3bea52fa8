-- ===== src/Memcache/Item/Match.antt =====
-- include/memcached/memcache.cc: `item_key_cmp` and `operator==` of items.
use mseastar.Prelude.{
  ℕ, ◌≡◌, refl, sym, ap, ◌∙◌, ◌%◌, ◌^◌, ◌<◌, word, Bool, true, false, ◌&&◌, List, arith, ◌==◌,
  length,
}
use mseastar.Memcache.Item.{
  Env, Item, Insertion, same_item, key_matches, key, ascii_prefix, value, bytes_equal, read,
  make_item, item_size, insertion_size,
}
use mseastar.Memcache.Item.Layout.{
  bytes_equal-eq, bytes_equal_refl, Fits, make_item_lem, key_matches-made,
}

and-split : (a b c : Bool) → (a && (b && c)) ≡ true → (a ≡ true) × ((b ≡ true) × (c ≡ true))
and-split true true c h = (refl, (refl, h))
and-split true false c h = ground arith
and-split false b c h = ground arith

and-join : (a b c : Bool) → a ≡ true → b ≡ true → c ≡ true → (a && (b && c)) ≡ true
and-join a b c x y z = rw (x, y, z) refl

==_eq : (m n : ℕ) → (m == n) ≡ true → m ≡ n
==_eq m n h = ground arith

eq_== : (m n : ℕ) → m ≡ n → (m == n) ≡ true
eq_== m n h = ground arith

key_matches-split :
    (env : Env) (k : List ℕ) (x : Item)
    → key_matches env k x ≡ true
    → (x.key_hash ≡ env.hash k) × ((x.key_size ≡ length k) × (key x ≡ k))
unfolding key_matches
key_matches-split env k x h =
    let (a, (b, c)) =
      and-split (x.key_hash == env.hash k) (x.key_size == length k) (bytes_equal (key x) k) h in
    (==_eq x.key_hash (env.hash k) a, (==_eq x.key_size (length k) b, bytes_equal-eq (key x) k c))

key_matches-join :
    (env : Env) (k : List ℕ) (x : Item)
    → x.key_hash ≡ env.hash k
    → x.key_size ≡ length k
    → key x ≡ k
    → key_matches env k x ≡ true
unfolding key_matches
key_matches-join env k x a b c =
    and-join (x.key_hash == env.hash k) (x.key_size == length k) (bytes_equal (key x) k)
      (eq_== x.key_hash (env.hash k) a) (eq_== x.key_size (length k) b)
      (ap (λ l. bytes_equal l k) c ∙ bytes_equal_refl k)

same_item-split :
    (x y : Item)
    → same_item x y ≡ true
    → (x.key_hash ≡ y.key_hash) × ((x.key_size ≡ y.key_size) × (key x ≡ key y))
unfolding same_item key
same_item-split x y h =
    let (a, (b, c)) =
      and-split (x.key_hash == y.key_hash) (x.key_size == y.key_size)
        (bytes_equal (read x.bytes 0 x.key_size) (read y.bytes 0 x.key_size)) h in
    let s = ==_eq x.key_size y.key_size b in
    (
      ==_eq x.key_hash y.key_hash a,
      (
        s,
        bytes_equal-eq (read x.bytes 0 x.key_size) (read y.bytes 0 x.key_size) c
            ∙ ap (read y.bytes 0) s,
      ),
    )

same_item-join :
    (x y : Item)
    → x.key_hash ≡ y.key_hash
    → x.key_size ≡ y.key_size
    → key x ≡ key y
    → same_item x y ≡ true
unfolding same_item key
same_item-join x y a b c =
    and-join (x.key_hash == y.key_hash) (x.key_size == y.key_size)
      (bytes_equal (read x.bytes 0 x.key_size) (read y.bytes 0 x.key_size))
      (eq_== x.key_hash y.key_hash a) (eq_== x.key_size y.key_size b)
      (ap (λ l. bytes_equal l (read y.bytes 0 x.key_size)) (c ∙ ap (read y.bytes 0) (sym b))
        ∙ bytes_equal_refl (read y.bytes 0 x.key_size))

-- Two items that match one key are equal to each other, and what is equal to an item that matches a key
-- matches it.
pub key_matches-same :
    (env : Env) (k : List ℕ) (x y : Item)
    → key_matches env k x ≡ true
    → key_matches env k y ≡ true
    → same_item x y ≡ true
key_matches-same env k x y h l =
    let (a, (b, c)) = key_matches-split env k x h in
    let (d, (e, f)) = key_matches-split env k y l in
    same_item-join x y (a ∙ sym d) (b ∙ sym e) (c ∙ sym f)

pub same_item-matches :
    (env : Env) (k : List ℕ) (x y : Item)
    → key_matches env k x ≡ true
    → same_item x y ≡ true
    → key_matches env k y ≡ true
same_item-matches env k x y h l =
    let (a, (b, c)) = key_matches-split env k x h in
    let (d, (e, f)) = same_item-split x y l in
    key_matches-join env k y (sym d ∙ a) (sym e ∙ b) (sym f ∙ c)

pub item_size-lt : (env : Env) (it : Item) → item_size env it < word
unfolding item_size
item_size-lt env it = omega arith

-- An item that fits counts as many bytes as were allocated for it.
pub item_size-made :
    (env : Env) (id page : ℕ) (m : ℕ → ℕ) (ins : Insertion) (version : ℕ)
    → Fits ins
    → item_size env (make_item env id page m ins version) ≡ insertion_size env ins
unfolding item_size insertion_size make_item
item_size-made env id page m ins version (hk, (hp, hv)) =
    let ks : length ins.key % 2 ^ 8 ≡ length ins.key = omega (arith, hk) in
    let ps : length ins.ascii_prefix % 2 ^ 8 ≡ length ins.ascii_prefix = omega (arith, hp) in
    let vs : length ins.value % 2 ^ 32 ≡ length ins.value = omega (arith, hv) in
    rw (ks, ps, vs) refl

-- An item as it is linked, with the first reference.
abbrev pub linked : Env → ℕ → ℕ → (ℕ → ℕ) → Insertion → ℕ → Item
linked env id page m ins version = record (make_item env id page m ins version) { ref_count = 1 }

-- The item holds what was to be inserted.
abbrev pub Holds : Insertion → ℕ → Item → Type 0
Holds ins version it =
    ((key it ≡ ins.key) × ((ascii_prefix it ≡ ins.ascii_prefix) × (value it ≡ ins.value)))
    × ((it.version ≡ version) × (it.expiry ≡ ins.expiry))

pub linked-Holds :
    (env : Env) (id page : ℕ) (m : ℕ → ℕ) (ins : Insertion) (version : ℕ)
    → Fits ins
    → Holds ins version (linked env id page m ins version)
unfolding make_item key ascii_prefix value
linked-Holds env id page m ins version f = (make_item_lem env id page m ins version f, (refl, refl))

pub key_matches-linked :
    (env : Env) (id page : ℕ) (m : ℕ → ℕ) (ins : Insertion) (version : ℕ)
    → Fits ins
    → key_matches env ins.key (linked env id page m ins version) ≡ true
unfolding key_matches key make_item
key_matches-linked env id page m ins version f = key_matches-made env id page m ins version f

pub item_size-linked :
    (env : Env) (id page : ℕ) (m : ℕ → ℕ) (ins : Insertion) (version : ℕ)
    → Fits ins
    → item_size env (linked env id page m ins version) ≡ insertion_size env ins
unfolding item_size make_item insertion_size
item_size-linked env id page m ins version f = item_size-made env id page m ins version f

pub key_matches-ref :
    (env : Env) (k : List ℕ) (it : Item) (n : ℕ)
    → key_matches env k (record it { ref_count = n }) ≡ key_matches env k it
unfolding key_matches key
key_matches-ref env k it n = refl
