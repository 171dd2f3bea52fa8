-- ===== src/Memcache/Item/Tests.antt =====
-- include/memcached/memcache.cc: an item at work, and items at which the theorems apply.
use mseastar.Prelude.{◌≡◌, refl, true, false, none, some, [], ◌∷◌, arith, length, replicate}
use mseastar.Memcache.Item.{
  Env, Insertion, make_item, key, ascii_prefix, value, key_matches, data_as_integral, expiration,
  never_expire_timepoint, layout,
}
use mseastar.Memcache.Item.Layout.{make_item_lem, key_matches-made, key_matches-overlap}

-- A hash that is the key's length, and decimal numbers of one digit.
abbrev env : Env
env = record {
  hash = length;
  sizeof_item = 72;
  lexical_cast = λ bs. elim bs [ [] ↦ none | b ∷ rest ↦ some b ];
  to_sstring = λ n. n ∷ [];
  has_memory = λ n. true;
}

abbrev small : Insertion
small = record {
  key = 97 ∷ 98 ∷ [];
  ascii_prefix = 32 ∷ 48 ∷ [];
  value = 55 ∷ 32 ∷ [];
  expiry = never_expire_timepoint;
}

abbrev long : Insertion
long = record {
  key = 97 ∷ replicate 248 98;
  ascii_prefix = 32 ∷ 48 ∷ [];
  value = 55 ∷ [];
  expiry = never_expire_timepoint;
}

-- The space at the end of the value is taken off.
small-integral : data_as_integral env (make_item env 1 0 (λ i. 9) small 1) ≡ some 55
unfolding data_as_integral make_item layout
small-integral = refl

expires_in_a_minute : expiration 5 1000 7 60 ≡ 60005
unfolding expiration
expires_in_a_minute = refl

make_item_lem_example :
    let it = make_item env 1 0 (λ i. 9) small 1 in
    (key it ≡ 97 ∷ 98 ∷ []) × ((ascii_prefix it ≡ 32 ∷ 48 ∷ []) × (value it ≡ 55 ∷ 32 ∷ []))
make_item_lem_example =
    make_item_lem env 1 0 (λ i. 9) small 1 (omega arith, (omega arith, omega arith))

key_matches-made_example :
    key_matches env (97 ∷ 98 ∷ []) (make_item env 1 0 (λ i. 9) small 1) ≡ true
key_matches-made_example =
    key_matches-made env 1 0 (λ i. 9) small 1 (omega arith, (omega arith, omega arith))

key_matches-overlap_example : key_matches env long.key (make_item env 1 0 (λ i. 9) long 1) ≡ false
key_matches-overlap_example =
    key_matches-overlap env 1 0 (λ i. 9) long 1 97 32 (replicate 248 98) (48 ∷ []) (omega arith)
      (omega arith) refl refl (omega arith) (λ e. omega (arith, e))
