-- ===== src/Packet/Headroom.antt =====
-- include/future/packet.hh: the headroom of a packet whose first fragment lies in the packet.
use mseastar.Prelude.{
  ℕ, ◌+◌, ◌-◌, ◌%◌, ◌≤◌, ◌<◌, ◌≡◌, refl, ap, true, false, some, [], ◌∷◌, arith, leb, ltb, ◌==◌,
}
use mseastar.Packet.{
  Memory, Impl, allocate_headroom, move_first, trim_back, using_internal_data, internal_data_size,
  inside, first_base, uint,
}

-- A packet of one fragment, of `n` bytes in its internal data, with the headroom before it.
abbrev pub internal : ℕ → Impl → Impl
internal n i = record i {
  len = n;
  frags = record { base = i.internal_data + i.headroom; size = n } ∷ [];
}

inside-base :
    (place headroom : ℕ)
    → headroom < internal_data_size
    → inside place (some (place + headroom)) ≡ true
inside-base place headroom h =
    let x : leb place (place + headroom) ≡ true = ground arith in
    let y : ltb (place + headroom) (place + internal_data_size) ≡ true = ground arith in
    rw (x, y) refl

-- The packet after so many bytes are trimmed from its back, by `trim_back`.
abbrev pub cut : ℕ → ℕ → Impl → Impl
cut k n i = record i {
  len = n - k;
  frags = record { base = i.internal_data + i.headroom; size = n - k } ∷ [];
  headroom = i.headroom + k;
}

trim_back-cut :
    (k n : ℕ) (i : Impl)
    → i.headroom < internal_data_size
    → 0 < k
    → k < n
    → trim_back k (internal n i) ≡ some (cut k n i)
unfolding trim_back using_internal_data
trim_back-cut k n i h p q =
    let x : (k == 0) ≡ false = ground arith in
    let y : leb n k ≡ false = ground arith in
    let z : leb k n ≡ true = ground arith in
    let w : n - (n - k) ≡ k = omega arith in
    let u = inside-base i.internal_data i.headroom h in
    rw z (rw x (rw y (rw u (ap (λ m. some (record (cut k n i) { headroom = i.headroom + m })) w))))

-- Some bytes, but not all, trimmed from the back of a packet whose one fragment lies in its
-- internal data, behind the headroom and up to the end, count as headroom, although they do not
-- stand before the fragment: with this headroom used up, a header is placed so many bytes before
-- the data of the packet.
pub trim_back-overrun :
    (place k n : ℕ) (i : Impl) (mem : Memory)
    → i.headroom + n ≡ internal_data_size
    → internal_data_size ≤ i.internal_data
    → 0 < k
    → k < n
    → (j : Impl) × ((trim_back k (internal n i) ≡ some j)
        × ((q : Impl) × ((base : ℕ) × ((allocate_headroom place j.headroom j mem
                  ≡ some (true, (q, mem)))
                × ((first_base q.frags ≡ some base) × (base + k ≡ q.internal_data))))))
unfolding allocate_headroom using_internal_data
trim_back-overrun place k n i mem h d p q =
    let full = i.headroom + k in
    let small : i.headroom < internal_data_size = omega (arith, h, p, q) in
    let x : leb full full ≡ true = ground arith in
    let u = inside-base i.internal_data i.headroom small in
    (
      cut k n i,
      (
        trim_back-cut k n i small p q,
        (
          move_first full (record (cut k n i) { len = (n - k + full) % uint }),
          (
            i.internal_data + i.headroom - full,
            (rw x (rw u refl), (refl, omega (arith, d, h, p, q))),
          ),
        ),
      ),
    )
