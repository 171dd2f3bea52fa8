-- ===== src/Memcache/Item.antt =====
-- include/memcached/memcache.cc: `expiration`, `item` and `item_key_cmp`; include/util/align.hh:
-- `align_up`. A string is the list of its bytes. A time point is the 64 bits of its count.
pub mod Layout
pub mod Match
mod Tests
use mseastar.Prelude.{
  ℕ, zero, suc, ◌+◌, ◌-◌, ◌*◌, ◌/◌, ◌%◌, ◌^◌, Bool, true, false, ◌&&◌, not, Option, none, some,
  List, [], ◌∷◌, leb, ◌==◌, if◌then◌else◌, word_add, word_sub, word, length, take, get_or,
}

-- What comes from elsewhere: `std::hash<std::string>`, `sizeof(item)`, `boost::lexical_cast<uint64_t>`,
-- `to_sstring`, and whether there is memory for so many buckets.
pub record Env : Type 0 where
  pub hash : List ℕ → ℕ
  pub sizeof_item : ℕ
  pub lexical_cast : List ℕ → Option ℕ
  pub to_sstring : ℕ → List ℕ
  pub has_memory : ℕ → Bool

-- `duration::min()`
abbrev pub never_expire_timepoint : ℕ
never_expire_timepoint = 2 ^ 63

abbrev pub seconds_in_a_month : ℕ
seconds_in_a_month = 60 * 60 * 24 * 30

-- `expiration(wc_to_clock_type_delta, s)`, where `now` is the clock's and counts `ticks` a second.
pub expiration : ℕ → ℕ → ℕ → ℕ → ℕ
expiration now ticks delta s =
    if s == 0
    then never_expire_timepoint
    else if leb s seconds_in_a_month
    then word_add now (s * ticks % word)
    else word_add (s * ticks % word) delta

unfoldable pub ever_expires : ℕ → Bool
ever_expires time = not (time == never_expire_timepoint)

-- `alignof(void*)`
abbrev pub field_alignment : ℕ
field_alignment = 8

-- `align_up<T>` to a power of two, for an unsigned `T` of `modulus` values
abbrev pub align_up : ℕ → ℕ → ℕ → ℕ
align_up modulus v align = ((v + align - 1) - (v + align - 1) % align) % modulus

-- `align_up(_key_size, field_alignment)`, whose arguments are both `uint8_t`
abbrev pub align_byte : ℕ → ℕ
align_byte v = align_up (2 ^ 8) v field_alignment

abbrev pub memcpy : (ℕ → ℕ) → ℕ → List ℕ → ℕ → ℕ
memcpy mem off [] = mem
memcpy mem off (b ∷ bs) = memcpy (λ i. if i == off then b else mem i) (off + 1) bs

abbrev pub read : (ℕ → ℕ) → ℕ → ℕ → List ℕ
read mem off zero = []
read mem off (suc n) = mem off ∷ read mem (off + 1) n

pub record Item : Type 0 where
  pub id : ℕ
  pub version : ℕ
  pub key_hash : ℕ
  pub expiry : ℕ
  pub value_size : ℕ
  pub slab_page_index : ℕ
  pub ref_count : ℕ
  pub key_size : ℕ
  pub ascii_prefix_size : ℕ
  pub bytes : ℕ → ℕ

-- `item_insertion_data`
pub record Insertion : Type 0 where
  pub key : List ℕ
  pub ascii_prefix : List ℕ
  pub value : List ℕ
  pub expiry : ℕ

abbrev pub key_size_of : Insertion → ℕ
key_size_of ins = length ins.key % 2 ^ 8

abbrev pub prefix_size_of : Insertion → ℕ
prefix_size_of ins = length ins.ascii_prefix % 2 ^ 8

abbrev pub value_size_of : Insertion → ℕ
value_size_of ins = length ins.value % 2 ^ 32

-- `_data` (`bytes`) as the constructor leaves it; `memory` is what the slab's storage held before.
unfoldable pub layout : Insertion → (ℕ → ℕ) → ℕ → ℕ
layout ins memory =
    let with_key = memcpy memory 0 (take (key_size_of ins) ins.key) in
    let with_prefix =
      memcpy with_key (align_byte (key_size_of ins)) (take (prefix_size_of ins) ins.ascii_prefix) in
    memcpy with_prefix (align_byte (key_size_of ins) + align_byte (prefix_size_of ins))
      (take (value_size_of ins) ins.value)

-- The constructor of an item, in the storage at the address `id`.
unfoldable pub make_item : Env → ℕ → ℕ → (ℕ → ℕ) → Insertion → ℕ → Item
make_item env id page memory ins version = record {
  id = id;
  version = version;
  key_hash = env.hash ins.key;
  expiry = ins.expiry;
  value_size = value_size_of ins;
  slab_page_index = page;
  ref_count = 0;
  key_size = key_size_of ins;
  ascii_prefix_size = prefix_size_of ins;
  bytes = layout ins memory;
}

unfoldable pub key : Item → List ℕ
key it = read it.bytes 0 it.key_size

pub ascii_prefix : Item → List ℕ
ascii_prefix it = read it.bytes (align_byte it.key_size) it.ascii_prefix_size

pub value : Item → List ℕ
value it = read it.bytes (align_byte it.key_size + align_byte it.ascii_prefix_size) it.value_size

abbrev pub bytes_equal : List ℕ → List ℕ → Bool
bytes_equal [] [] = true
bytes_equal [] (y ∷ ys) = false
bytes_equal (x ∷ xs) [] = false
bytes_equal (x ∷ xs) (y ∷ ys) = x == y && bytes_equal xs ys

-- `operator==` of two items
pub same_item : Item → Item → Bool
same_item a b =
    a.key_hash == b.key_hash
    && (a.key_size == b.key_size
        && bytes_equal (read a.bytes 0 a.key_size) (read b.bytes 0 a.key_size))

-- `item_key_cmp::compare`
unfoldable pub key_matches : Env → List ℕ → Item → Bool
key_matches env k it =
    it.key_hash == env.hash k && (it.key_size == length k && bytes_equal (key it) k)

-- The length without the spaces at the end: `while (len && str[len - 1] == ' ') len--;`
abbrev pub strip : (ℕ → ℕ) → ℕ → ℕ → ℕ
strip mem off zero = 0
strip mem off (suc len) =
    let rest = strip mem off len in if mem (off + len) == 32 then rest else suc len

-- `data_as_integral`: 45 is the minus sign, 32 the space.
pub data_as_integral : Env → Item → Option ℕ
data_as_integral env it =
    let off = align_byte it.key_size + align_byte it.ascii_prefix_size in
    if it.bytes off == 45
    then none
    else env.lexical_cast (read it.bytes off (strip it.bytes off it.value_size))

-- `cache::item_size` of an item, and of what is to be inserted; `size_t`
pub item_size : Env → Item → ℕ
item_size env it =
    (env.sizeof_item
      + align_up word it.key_size field_alignment
      + align_up word it.ascii_prefix_size field_alignment
      + it.value_size)
    % word

unfoldable pub insertion_size : Env → Insertion → ℕ
insertion_size env ins =
    (env.sizeof_item
      + align_up word (length ins.key) field_alignment
      + align_up word (length ins.ascii_prefix) field_alignment
      + length ins.value)
    % word
