-- ===== src/Packet/Share.antt =====
-- include/future/packet.hh: `share` of a part of a packet.
use mseastar.Prelude.{
  ℕ, zero, suc, ◌+◌, ◌-◌, ◌%◌, ◌^◌, ◌≤◌, ◌<◌, ◌≡◌, refl, sym, ap, ap₂, ◌∙◌, true, false, Option,
  none, some, List, [], ◌∷◌, ◌++◌, arith, ltb, ◌==◌, length, take, drop, append-nil, min, max,
  Bool-cases, inl, inr,
}
use mseastar.Packet.{
  Memory, Fragment, Impl, sum_sizes, take_bytes, share, allocate, unuse_first, unuse_internal_data,
  using_internal_data, default_nr_frags, internal_data_size, uint,
}
use mseastar.Packet.Bytes.{
  bytes_at, bytes, length-bytes_at, drop-bytes_at, take-bytes_at, drop-append_below,
  take-append_below, take-append_above, first_size, skip-lem,
}
use mseastar.Packet.Trim.{Measured}

take_bytes-zero : (r : ℕ) (fs : List Fragment) → take_bytes 0 r fs ≡ some []
take_bytes-zero r [] = refl
take_bytes-zero r (f ∷ fs) = refl

module _ (mem : Memory) where
  -- What stands behind an offset of the first fragment.
  behind :
      (r : ℕ) (f : Fragment) (fs : List Fragment)
      → r ≤ f.size
      → drop r (bytes mem (f ∷ fs)) ≡ bytes_at mem (f.base + r) (f.size - r) ++ bytes mem fs
  behind r f fs h =
      let w = length-bytes_at mem f.base f.size in
      drop-append_below r (bytes_at mem f.base f.size) (bytes mem fs) (omega (arith, w, h))
      ∙ ap (λ l. l ++ bytes mem fs) (drop-bytes_at mem r f.base f.size h)

  -- The loop over the fragments takes as many bytes as it is to take, from the offset on.
  pub take_bytes-lem :
      (len r : ℕ) (fs : List Fragment)
      → r ≤ first_size fs
      → len + r ≤ sum_sizes fs
      → (gs : List Fragment) × ((take_bytes len r fs ≡ some gs)
          × ((bytes mem gs ≡ take len (drop r (bytes mem fs))) × (sum_sizes gs ≡ len)))
  take_bytes-lem zero r fs h k = ([], (take_bytes-zero r fs, (refl, refl)))
  take_bytes-lem (suc n) r [] h k = absurd (omega (arith, k))
  take_bytes-lem (suc n) r (f ∷ fs) h k =
      let len = suc n in
      let fsize = min len (f.size - r) in
      let own = bytes_at mem (f.base + r) (f.size - r) in
      let w = length-bytes_at mem (f.base + r) (f.size - r) in
      let rest_fits : len - fsize + 0 ≤ sum_sizes fs = omega (arith, h, k) in
      let (gs, (e, (b, s))) = take_bytes-lem (len - fsize) 0 fs (omega arith) rest_fits in
      let z : (suc n == 0) ≡ false = ground arith in
      let joined : bytes_at mem (f.base + r) fsize ++ take (len - fsize) (bytes mem fs)
          ≡ take len (own ++ bytes mem fs) =
        elim (Bool-cases (ltb (f.size - r) len)) [
          | inl t ↦
              let m : f.size - r < len = ground arith in
              let x : fsize ≡ f.size - r = omega (arith, m) in
              let y : len - fsize ≡ len - length own = omega (arith, m, w) in
              ap₂ (λ p q. bytes_at mem (f.base + r) p ++ take q (bytes mem fs)) x y
              ∙ sym (take-append_above len own (bytes mem fs) (omega (arith, m, w)))
          | inr t ↦
              let m : len ≤ f.size - r = ground arith in
              let x : fsize ≡ len = omega (arith, m) in
              let y : len - fsize ≡ 0 = omega (arith, m) in
              ap₂ (λ p q. bytes_at mem (f.base + r) p ++ take q (bytes mem fs)) x y
              ∙ append-nil (bytes_at mem (f.base + r) len)
              ∙ sym (
                  take-append_below len own (bytes mem fs) (omega (arith, m, w))
                  ∙ take-bytes_at mem len (f.base + r) (f.size - r) m)
        ] in
      (
        record { base = f.base + r; size = fsize } ∷ gs,
        (
          rw (z, e) refl,
          (
            ap (λ x. bytes_at mem (f.base + r) fsize ++ x) b
                ∙ joined
                ∙ ap (take len) (sym (behind r f fs h)),
            omega (arith, s),
          ),
        ),
      )

unused_first :
    (buf : Option ℕ) (i : Impl) (mem : Memory) (fs : List Fragment)
    → using_internal_data i ≡ false
    → unuse_first buf i mem fs ≡ some (i, mem)
unused_first buf i mem [] u = refl
unused_first buf i mem (f ∷ fs) u = rw u refl

unused :
    (buf : Option ℕ) (i : Impl) (mem : Memory)
    → using_internal_data i ≡ false
    → unuse_internal_data buf i mem ≡ some (i, mem)
unfolding unuse_internal_data
unused buf i mem u = unused_first buf i mem i.frags u

-- `share(offset, len)` of a packet of fewer than 2 ^ 16 fragments and 2 ^ 32 bytes that does not
-- use its internal data, and holds these bytes, leaves it as it is; the new packet holds exactly
-- these bytes, in the same memory, has their number as its length, and shares the deleter.
pub share_lem :
    (place : ℕ) (buf : Option ℕ) (offset len : ℕ) (i : Impl) (mem : Memory)
    → using_internal_data i ≡ false
    → length i.frags < 2 ^ 16
    → i.len ≡ sum_sizes i.frags
    → offset + len ≤ i.len
    → i.len < 2 ^ 32
    → (n : Impl) × ((share place buf offset len i mem ≡ some ((i, n), mem))
        × ((bytes mem n.frags ≡ take len (drop offset (bytes mem i.frags)))
            × (Measured n × ((n.len ≡ len) × (n.deleter ≡ i.deleter)))))
unfolding share allocate
share_lem place buf offset len i mem u l m h s =
    let (gs, (r, (e, (k, (q, t))))) = skip-lem mem offset i.frags (omega (arith, h, m)) in
    let (taken, (g, (b, w))) = take_bytes-lem mem len r gs k (omega (arith, t, h, m)) in
    let y : ltb (max (length i.frags) default_nr_frags) (2 ^ 16) ≡ true = ground arith in
    (
      record {
        deleter = i.deleter;
        len = sum_sizes taken % uint;
        frags = taken;
        allocated_frags = max (length i.frags) default_nr_frags;
        offload_info = i.offload_info;
        rss_hash = none;
        internal_data = place;
        headroom = internal_data_size;
      },
      (
        rw (unused buf i mem u, share) (rw (y, share) (rw (e, share) (rw (g, share) refl))),
        (b ∙ ap (take len) (sym q), (omega (arith, w, h, s), (omega (arith, w, h, s), refl))),
      ),
    )
