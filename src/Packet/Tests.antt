-- ===== src/Packet/Tests.antt =====
-- include/future/packet.hh: packets at work, in a memory where each byte is its address modulo 256.
use mseastar.Prelude.{
  ℕ, ◌+◌, ◌-◌, ◌%◌, ◌≡◌, refl, true, false, none, some, [], ◌∷◌, take, drop, arith,
}
use mseastar.Packet.{
  Memory, Impl, trim_front, trim_back, share, allocate_headroom, using_internal_data, first_base,
}
use mseastar.Packet.Bytes.{bytes}
use mseastar.Packet.Trim.{Measured, Trimmed, trim_front-Trimmed, trim_back-Trimmed}
use mseastar.Packet.Share.{share_lem}
use mseastar.Packet.Headroom.{internal, trim_back-overrun}

abbrev memory : Memory
memory = λ a. a % 256

-- Three fragments, of 3, 2 and 4 bytes, and a packet of its own.
abbrev three : Impl
three = record {
  deleter = 100 ∷ [];
  len = 9;
  frags =
      record { base = 100; size = 3 }
      ∷ record { base = 200; size = 2 }
      ∷ record { base = 300; size = 4 }
      ∷ [];
  allocated_frags = 4;
  offload_info = 0;
  rss_hash = none;
  internal_data = 1000;
  headroom = 112;
}

three-external : using_internal_data three ≡ false
unfolding using_internal_data
three-external = refl

trim_front-Trimmed_example : Trimmed memory (trim_front 4 three) (drop 4 (bytes memory three.frags))
trim_front-Trimmed_example = trim_front-Trimmed memory 4 three refl (omega arith)

trim_back-Trimmed_example :
    Trimmed memory (trim_back 5 three) (take (9 - 5) (bytes memory three.frags))
trim_back-Trimmed_example = trim_back-Trimmed memory 5 three refl (omega arith)

share_lem_example :
    (n : Impl) × ((share 5000 none 2 5 three memory ≡ some ((three, n), memory))
      × ((bytes memory n.frags ≡ take 5 (drop 2 (bytes memory three.frags)))
          × (Measured n × ((n.len ≡ 5) × (n.deleter ≡ three.deleter)))))
share_lem_example =
    share_lem 5000 none 2 5 three memory three-external (omega arith) refl (omega arith)
      (omega arith)

-- The packet with 12 bytes of headroom, and 100 of its own.
abbrev own : Impl
own = record three { headroom = 12 }

trim_back-overrun_example :
    (j : Impl) × ((trim_back 7 (internal 100 own) ≡ some j)
      × ((q : Impl) × ((base : ℕ) × ((allocate_headroom 5000 j.headroom j memory
                ≡ some (true, (q, memory)))
              × ((first_base q.frags ≡ some base) × (base + 7 ≡ q.internal_data))))))
trim_back-overrun_example =
    trim_back-overrun 5000 7 100 own memory refl (omega arith) (omega arith) (omega arith)
