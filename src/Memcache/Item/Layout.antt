-- ===== src/Memcache/Item/Layout.antt =====
-- include/memcached/memcache.cc: the layout of an item's key, prefix and value behind one another.
use mseastar.Prelude.{
  ℕ, zero, suc, ◌+◌, ◌%◌, ◌^◌, ◌<◌, ◌≤◌, ◌≡◌, ◌≢◌, refl, ap, ap₂, ◌∙◌, true, false, ◌&&◌, List, [],
  ◌∷◌, arith, ◌==◌, if◌then◌else◌, length, take,
}
use mseastar.Memcache.Item.{
  Env, Insertion, memcpy, read, align_byte, key_size_of, prefix_size_of, value_size_of, layout,
  make_item, key, ascii_prefix, value, key_matches, bytes_equal,
}

memcpy-before : (m : ℕ → ℕ) (off j : ℕ) (bs : List ℕ) → j < off → memcpy m off bs j ≡ m j
memcpy-before m off j [] h = refl
memcpy-before m off j (b ∷ bs) h =
    let k : j < off + 1 = omega arith in
    let n : (j == off) ≡ false = ground arith in
    memcpy-before (λ i. if i == off then b else m i) (off + 1) j bs k ∙ rw n refl

read-ext :
    (f g : ℕ → ℕ) (off n : ℕ) → ((j : ℕ) → j < off + n → f j ≡ g j) → read f off n ≡ read g off n
read-ext f g off zero h = refl
read-ext f g off (suc n) h =
    let k : off < off + suc n = omega arith in
    ap₂ (λ x y. x ∷ y) (h off k) (read-ext f g (off + 1) n (λ j l. h j (omega (arith, l))))

read-before :
    (m : ℕ → ℕ) (off start n : ℕ) (bs : List ℕ)
    → start + n ≤ off
    → read (memcpy m off bs) start n ≡ read m start n
read-before m off start n bs h =
    read-ext (memcpy m off bs) m start n (λ j l. memcpy-before m off j bs (omega (arith, l, h)))

read-memcpy : (m : ℕ → ℕ) (off : ℕ) (bs : List ℕ) → read (memcpy m off bs) off (length bs) ≡ bs
read-memcpy m off [] = refl
read-memcpy m off (b ∷ bs) =
    let m' : ℕ → ℕ = λ i. if i == off then b else m i in
    let k : off < off + 1 = omega arith in
    let n : (off == off) ≡ true = ground arith in
    let e : m' off ≡ b = rw n refl in
    ap₂ (λ x y. x ∷ y) (memcpy-before m' (off + 1) off bs k ∙ e) (read-memcpy m' (off + 1) bs)

take-all : (xs : List ℕ) (n : ℕ) → length xs ≤ n → take n xs ≡ xs
take-all [] zero h = refl
take-all [] (suc n) h = refl
take-all (x ∷ xs) zero h = absurd (omega (arith, h))
take-all (x ∷ xs) (suc n) h = ap (λ l. x ∷ l) (take-all xs n (omega (arith, h)))

-- What a key, a prefix and a value must keep to: an aligned key and prefix below 256 bytes, and the
-- value's length on 32 bits.
abbrev pub Fits : Insertion → Type 0
Fits ins = (length ins.key ≤ 248) × ((length ins.ascii_prefix ≤ 248) × (length ins.value < 2 ^ 32))

-- The key, the prefix and the value of an item are those that it was made from, whatever the
-- storage held, for a key and a prefix of at most 248 bytes and a value below 2 ^ 32 bytes.
pub make_item_lem :
    (env : Env) (id page : ℕ) (m : ℕ → ℕ) (ins : Insertion) (version : ℕ)
    → Fits ins
    → let it = make_item env id page m ins version in
      (key it ≡ ins.key) × ((ascii_prefix it ≡ ins.ascii_prefix) × (value it ≡ ins.value))
unfolding make_item key ascii_prefix value layout
make_item_lem env id page m ins version (hk, (hp, hv)) =
    let ks : key_size_of ins ≡ length ins.key = omega (arith, hk) in
    let ps : prefix_size_of ins ≡ length ins.ascii_prefix = omega (arith, hp) in
    let vs : value_size_of ins ≡ length ins.value = omega (arith, hv) in
    let ka : length ins.key ≤ align_byte (length ins.key) = omega (arith, hk) in
    let pa : length ins.ascii_prefix ≤ align_byte (length ins.ascii_prefix) = omega (arith, hp) in
    let p = align_byte (length ins.key) in
    let v = p + align_byte (length ins.ascii_prefix) in
    let kv : 0 + length ins.key ≤ v = omega (arith, ka) in
    let kp : 0 + length ins.key ≤ p = omega (arith, ka) in
    let pv : p + length ins.ascii_prefix ≤ v = omega (arith, pa) in
    let m1 = memcpy m 0 ins.key in
    let m2 = memcpy m1 p ins.ascii_prefix in
    rw
      (
        ks,
        ps,
        vs,
        take-all ins.key (length ins.key) (omega arith),
        take-all ins.ascii_prefix (length ins.ascii_prefix) (omega arith),
        take-all ins.value (length ins.value) (omega arith),
      )
      (
        read-before m2 v 0 (length ins.key) ins.value kv
            ∙ read-before m1 p 0 (length ins.key) ins.ascii_prefix kp
            ∙ read-memcpy m 0 ins.key,
        (
          read-before m2 v p (length ins.ascii_prefix) ins.value pv
              ∙ read-memcpy m1 p ins.ascii_prefix,
          read-memcpy m2 v ins.value,
        ),
      )

pub bytes_equal_refl : (xs : List ℕ) → bytes_equal xs xs ≡ true
bytes_equal_refl [] = refl
bytes_equal_refl (x ∷ xs) = let n : (x == x) ≡ true = ground arith in rw n (bytes_equal_refl xs)

pub bytes_equal-eq : (xs ys : List ℕ) → bytes_equal xs ys ≡ true → xs ≡ ys
bytes_equal-eq [] [] h = refl
bytes_equal-eq [] (y ∷ ys) h = ground arith
bytes_equal-eq (x ∷ xs) [] h = ground arith
bytes_equal-eq (x ∷ xs) (y ∷ ys) h =
    let e : x ≡ y = ground arith in
    let t : bytes_equal xs ys ≡ true = ground arith in ap₂ (λ a b. a ∷ b) e (bytes_equal-eq xs ys t)

-- An item that fits is found by its key.
pub key_matches-made :
    (env : Env) (id page : ℕ) (m : ℕ → ℕ) (ins : Insertion) (version : ℕ)
    → Fits ins
    → key_matches env ins.key (make_item env id page m ins version) ≡ true
unfolding key_matches make_item
key_matches-made env id page m ins version f =
    let e = (make_item_lem env id page m ins version f).0 in rw e (made env id page m ins version f)
  where
    made :
        (env : Env) (id page : ℕ) (m : ℕ → ℕ) (ins : Insertion) (version : ℕ)
        → Fits ins
        → (env.hash ins.key == env.hash ins.key
            && (length ins.key % 2 ^ 8 == length ins.key && bytes_equal ins.key ins.key))
          ≡ true
    made env id page m ins version f =
        let a : (env.hash ins.key == env.hash ins.key) ≡ true = ground arith in
        let b : length ins.key % 2 ^ 8 ≡ length ins.key = omega (arith, f) in
        let c : (length ins.key % 2 ^ 8 == length ins.key) ≡ true = ground arith in
        rw (a, c) (bytes_equal_refl ins.key)

take_head : (n x : ℕ) (xs : List ℕ) → 1 ≤ n → (ys : List ℕ) × (take n (x ∷ xs) ≡ x ∷ ys)
take_head zero x xs h = absurd (omega (arith, h))
take_head (suc n) x xs h = (take n xs, refl)

read_head : (m : ℕ → ℕ) (off n : ℕ) → 1 ≤ n → (ys : List ℕ) × (read m off n ≡ m off ∷ ys)
read_head m off zero h = absurd (omega (arith, h))
read_head m off (suc n) h = (read m (off + 1) n, refl)

bytes_equal-head : (x y : ℕ) (xs ys : List ℕ) → x ≢ y → bytes_equal (x ∷ xs) (y ∷ ys) ≡ false
bytes_equal-head x y xs ys h = let n : (x == y) ≡ false = ground arith in rw n refl

memcpy-head : (m : ℕ → ℕ) (off b : ℕ) (bs : List ℕ) → memcpy m off (b ∷ bs) off ≡ b
memcpy-head m off b bs =
    let m' : ℕ → ℕ = λ i. if i == off then b else m i in
    let k : off < off + 1 = omega arith in
    let n : (off == off) ≡ true = ground arith in
    let e : m' off ≡ b = rw n refl in memcpy-before m' (off + 1) off bs k ∙ e

-- The first byte of an item whose key has 249 to 255 bytes is the first one of its prefix.
layout-overlap :
    (m : ℕ → ℕ) (ins : Insertion) (p : ℕ) (ps : List ℕ)
    → 249 ≤ length ins.key
    → length ins.key < 256
    → ins.ascii_prefix ≡ p ∷ ps
    → length ins.ascii_prefix ≤ 248
    → layout ins m 0 ≡ p
unfolding layout
layout-overlap m ins p ps lo hi e hp =
    let l : length ins.ascii_prefix ≡ suc (length ps) = ap length e in
    let z : align_byte (key_size_of ins) ≡ 0 = omega (arith, lo, hi) in
    let one : 1 ≤ prefix_size_of ins = omega (arith, hp, l) in
    let v : 0 < 0 + align_byte (prefix_size_of ins) = omega (arith, hp, l) in
    let (ys, t) = take_head (prefix_size_of ins) p ps one in
    let u : take (prefix_size_of ins) ins.ascii_prefix ≡ p ∷ ys =
      ap (take (prefix_size_of ins)) e ∙ t in
    let m1 = memcpy m 0 (take (key_size_of ins) ins.key) in
    rw (z, u)
      (memcpy-before (memcpy m1 0 (p ∷ ys)) (0 + align_byte (prefix_size_of ins)) 0
          (take (value_size_of ins) ins.value) v
        ∙ memcpy-head m1 0 p ys)

-- An item whose key has 249 to 255 bytes is not found by that key, when its prefix, of at most 248
-- bytes, begins with another byte than the key: the aligned key size wraps around to 0, and the
-- prefix is written over the key.
pub key_matches-overlap :
    (env : Env) (id page : ℕ) (m : ℕ → ℕ) (ins : Insertion) (version k p : ℕ) (ks ps : List ℕ)
    → 249 ≤ length ins.key
    → length ins.key < 256
    → ins.key ≡ k ∷ ks
    → ins.ascii_prefix ≡ p ∷ ps
    → length ins.ascii_prefix ≤ 248
    → p ≢ k
    → key_matches env ins.key (make_item env id page m ins version) ≡ false
unfolding key_matches make_item key
key_matches-overlap env id page m ins version k p ks ps lo hi ek ep hp ne =
    let one : 1 ≤ key_size_of ins = omega (arith, lo, hi) in
    let (ys, r) = read_head (layout ins m) 0 (key_size_of ins) one in
    let q : bytes_equal (read (layout ins m) 0 (key_size_of ins)) ins.key ≡ false =
      ap₂ bytes_equal (r ∙ ap (λ x. x ∷ ys) (layout-overlap m ins p ps lo hi ep hp)) ek
      ∙ bytes_equal-head p k ys ks ne in
    rw q (ground arith)
