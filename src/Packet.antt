-- ===== src/Packet.antt =====
-- include/future/packet.hh: `net::packet`, a chain of fragments of memory, the first of which may lie in
-- the packet itself. Memory is a function from addresses to bytes; where `new` and `malloc` put what they
-- allocate is an argument. `none`: an assertion fails, or what is not there is read.
pub mod Bytes
pub mod Trim
pub mod Share
pub mod Headroom
mod Tests
use mseastar.Prelude.{
  ℕ, zero, suc, ◌+◌, ◌-◌, ◌*◌, ◌%◌, ◌^◌, Bool, true, false, ◌&&◌, Option, none, some, List, [], ◌∷◌,
  ◌++◌, ltb, leb, ◌==◌, if◌then◌else◌, length, min, max,
}

abbrev pub Memory : Type 0
Memory = ℕ → ℕ

pub record Fragment : Type 0 where
  pub base : ℕ
  pub size : ℕ

-- `packet::impl`: `internal_data` is the address of `_data`, and `deleter` the chain of what is to be destroyed.
-- `offload_info` and `rss_hash` are passed on as they are.
pub record Impl : Type 0 where
  pub deleter : List ℕ
  pub len : ℕ
  pub frags : List Fragment
  pub allocated_frags : ℕ
  pub offload_info : ℕ
  pub rss_hash : Option ℕ
  pub internal_data : ℕ
  pub headroom : ℕ

abbrev pub internal_data_size : ℕ
internal_data_size = 128 - 16

abbrev pub default_nr_frags : ℕ
default_nr_frags = 4

-- `unsigned`
abbrev pub uint : ℕ
uint = 2 ^ 32

-- `std::copy` of `n` bytes to where they do not overlap what is read
abbrev pub copy_bytes : Memory → ℕ → ℕ → ℕ → Memory
copy_bytes mem from n to a = if leb to a && ltb a (to + n) then mem (from + (a - to)) else mem a

abbrev pub first_base : List Fragment → Option ℕ
first_base [] = none
first_base (f ∷ fs) = some f.base

abbrev pub on_first : (Fragment → Fragment) → List Fragment → List Fragment
on_first g [] = []
on_first g (f ∷ fs) = g f ∷ fs

abbrev pub inside : ℕ → Option ℕ → Bool
inside place none = false
inside place (some base) = leb place base && ltb base (place + internal_data_size)

unfoldable pub using_internal_data : Impl → Bool
using_internal_data i = inside i.internal_data (first_base i.frags)

-- `impl(nr_frags)` by `operator new`, which asserts that the number is one of 16 bits
pub allocate : ℕ → ℕ → Option Impl
allocate place nr_frags =
    let nr = max nr_frags default_nr_frags in
    if ltb nr (2 ^ 16)
    then some (record {
      deleter = [];
      len = 0;
      frags = [];
      allocated_frags = nr;
      offload_info = 0;
      rss_hash = none;
      internal_data = place;
      headroom = internal_data_size;
    })
    else none

-- `copy_internal_fragment_to`: the memory, and the fragments of the copy at `place`.
pub copy_internal_fragment_to : Impl → ℕ → Memory → Memory × List Fragment
copy_internal_fragment_to i place mem = elim i.frags [
  | [] ↦ (mem, [])
  | f ∷ fs ↦
      let to = place + i.headroom in
      if using_internal_data i
      then (copy_bytes mem f.base f.size to, record f { base = to } ∷ fs)
      else (mem, i.frags)
]

-- `copy(old, nr)`
pub copy : ℕ → Impl → ℕ → Memory → Option (Impl × Memory)
copy place i nr mem = elim (allocate place nr) [
  | none ↦ none
  | some n ↦
      let r = copy_internal_fragment_to i place mem in
      some
        (record i { frags = r.1; allocated_frags = n.allocated_frags; internal_data = place }, r.0)
]

unfoldable pub allocate_if_needed : ℕ → Impl → ℕ → Memory → Option (Impl × Memory)
allocate_if_needed place i extra_frags mem =
    let nr = length i.frags in
    if leb (nr + extra_frags) i.allocated_frags
    then some (i, mem)
    else copy place i (max (nr + extra_frags) (2 * nr)) mem

-- What `malloc` answers: `none` makes the operation throw `std::bad_alloc`. The fragments are those of
-- the packet.
abbrev pub unuse_first : Option ℕ → Impl → Memory → List Fragment → Option (Impl × Memory)
unuse_first buf i mem [] = some (i, mem)
unuse_first buf i mem (f ∷ fs) =
    if using_internal_data i
    then elim buf [
      | none ↦ none
      | some b ↦ some (
        record i {
          frags = record f { base = b } ∷ fs;
          deleter = i.deleter ++ b ∷ [];
          headroom = internal_data_size;
        },
        copy_bytes mem f.base f.size b,
      )
    ]
    else some (i, mem)

unfoldable pub unuse_internal_data : Option ℕ → Impl → Memory → Option (Impl × Memory)
unuse_internal_data buf i mem = unuse_first buf i mem i.frags

-- `impl(frag)`, which copies the fragment
pub impl_of : ℕ → Option ℕ → Fragment → Memory → Option (Impl × Memory)
impl_of place buf frag mem = elim (allocate place default_nr_frags) [
  | none ↦ none
  | some n ↦
      let headroom = internal_data_size - frag.size in
      let base = place + headroom in
      if leb frag.size internal_data_size
      then some (
        record n {
          len = frag.size % uint;
          headroom = headroom;
          frags = record { base = base; size = frag.size } ∷ [];
        },
        copy_bytes mem frag.base frag.size base,
      )
      else elim buf [
        | none ↦ none
        | some b ↦ some (
          record n {
            len = frag.size % uint;
            deleter = b ∷ [];
            frags = record { base = b; size = frag.size } ∷ [];
          },
          copy_bytes mem frag.base frag.size b,
        )
      ]
]

abbrev pub sum_sizes : List Fragment → ℕ
sum_sizes [] = 0
sum_sizes (f ∷ fs) = f.size + sum_sizes fs

-- `packet(std::vector<fragment>, deleter)`, and `packet(fragment, deleter)` for one fragment
pub packet_of : ℕ → List Fragment → List ℕ → Option Impl
packet_of place frags deleter = elim (allocate place (length frags)) [
  | none ↦ none
  | some n ↦ some (record n { deleter = deleter; frags = frags; len = sum_sizes frags % uint })
]

-- `packet(packet&&, fragment, deleter)`: a fragment behind the others, not copied
pub append_fragment : ℕ → Impl → Fragment → List ℕ → Memory → Option (Impl × Memory)
append_fragment place x frag d mem = elim (allocate_if_needed place x 1 mem) [
  | none ↦ none
  | some (i, mem) ↦ some (
    record i {
      len = (i.len + frag.size) % uint;
      frags = i.frags ++ frag ∷ [];
      deleter = d ++ i.deleter;
    },
    mem,
  )
]

-- `packet(packet&&, fragment)`: a copy of the fragment in `buf`, behind the others
pub append_copy : ℕ → ℕ → Impl → Fragment → Memory → Option (Impl × Memory)
append_copy place buf x frag mem = elim (allocate_if_needed place x 1 mem) [
  | none ↦ none
  | some (i, mem) ↦ some (
    record i {
      len = (i.len + frag.size) % uint;
      frags = i.frags ++ record { base = buf; size = frag.size } ∷ [];
      deleter = i.deleter ++ buf ∷ [];
    },
    copy_bytes mem frag.base frag.size buf,
  )
]

-- `allocate_headroom`: the packet with the room, or `none` in the pair's second part if there is none.
abbrev pub move_first : ℕ → Impl → Impl
move_first size i = record i {
  headroom = i.headroom - size;
  frags = on_first (λ f. record { base = f.base - size; size = f.size + size }) i.frags;
}

abbrev pub internal_first : ℕ → Impl → Memory → Option (Impl × Memory)
internal_first place i mem =
    if using_internal_data i then some (i, mem) else elim (allocate_if_needed place i 1 mem) [
      | none ↦ none
      | some (j, m) ↦ some (
        record j {
          frags = record { base = j.internal_data + internal_data_size; size = 0 } ∷ j.frags;
        },
        m,
      )
    ]

unfoldable pub allocate_headroom : ℕ → ℕ → Impl → Memory → Option (Bool × (Impl × Memory))
allocate_headroom place size i mem =
    if leb size i.headroom
    then elim (internal_first place (record i { len = (i.len + size) % uint }) mem) [
      | none ↦ none
      | some (j, m) ↦ some (true, (move_first size j, m))
    ]
    else some (false, (i, mem))

-- The loop of `trim_front` and of `share` over the fragments before an offset: those that are left, and
-- the offset in the first of them.
abbrev pub skip : ℕ → List Fragment → Option (List Fragment × ℕ)
skip offset [] = if offset == 0 then some ([], 0) else none
skip offset (f ∷ fs) =
    let rest = skip (offset - f.size) fs in
    if offset == 0
    then some (f ∷ fs, 0)
    else if leb f.size offset
    then rest
    else some (f ∷ fs, offset)

-- What `trim_front` does to the fragments that are left and to the headroom.
abbrev pub trim_first : ℕ → Impl → Impl
trim_first how_much i =
    let room = if using_internal_data i then i.headroom else internal_data_size in
    let more = if using_internal_data i then room + how_much else room in
    record i {
      headroom = if how_much == 0 then room else more;
      frags =
          if how_much == 0
          then i.frags
          else on_first (λ f. record { base = f.base + how_much; size = f.size - how_much })
              i.frags;
    }

pub trim_front : ℕ → Impl → Option Impl
trim_front how_much i =
    if leb how_much i.len
    then elim (skip how_much i.frags) [
      | none ↦ none
      | some (frags, rest) ↦
          some (trim_first rest (record i { len = i.len - how_much; frags = frags }))
    ]
    else none

-- The loop of `trim_back`, which goes from the last fragment on: how many bytes are still to be trimmed
-- when it has gone through this one and those behind it, and the fragments that are left of these.
abbrev pub trim_last : ℕ → List Fragment → ℕ × List Fragment
trim_last how_much [] = (how_much, [])
trim_last how_much (f ∷ fs) =
    let (rest, left) = trim_last how_much fs in
    if rest == 0
    then (0, f ∷ left)
    else if leb f.size rest
    then (rest - f.size, left)
    else (0, record f { size = f.size - rest } ∷ left)

-- How many bytes are taken from the last fragment that is left, and whether that is the first one.
abbrev pub cut_of_first : List Fragment → List Fragment → ℕ
cut_of_first (f ∷ fs) (g ∷ []) = f.size - g.size
cut_of_first _ _ = 0

unfoldable pub trim_back : ℕ → Impl → Option Impl
trim_back how_much i =
    let r = trim_last how_much i.frags in
    if leb how_much i.len
    then if r.0 == 0
      then some (record i {
        len = i.len - how_much;
        frags = r.1;
        headroom =
            if using_internal_data (record i { frags = r.1 })
            then i.headroom + cut_of_first i.frags r.1
            else i.headroom;
      })
      else none
    else none

-- The loop of `share` that takes `len` bytes, from an offset of the first fragment on.
abbrev pub take_bytes : ℕ → ℕ → List Fragment → Option (List Fragment)
take_bytes len offset [] = if len == 0 then some [] else none
take_bytes len offset (f ∷ fs) =
    let fsize = min len (f.size - offset) in
    let rest = take_bytes (len - fsize) 0 fs in
    if len == 0 then some [] else elim rest [
      | none ↦ none
      | some gs ↦ some (record { base = f.base + offset; size = fsize } ∷ gs)
    ]

-- `share(offset, len)`: the packet, which does not use its internal data any more, and the new one.
pub share : ℕ → Option ℕ → ℕ → ℕ → Impl → Memory → Option ((Impl × Impl) × Memory)
share place buf offset len i mem = elim (unuse_internal_data buf i mem) [
  | none ↦ none
  | some (own, m) ↦ elim (allocate place (length own.frags)) [
    | none ↦ none
    | some n ↦ elim (skip offset own.frags) [
      | none ↦ none
      | some (frags, rest) ↦ elim (take_bytes len rest frags) [
        | none ↦ none
        | some taken ↦ some (
          (
            own,
            record n {
              frags = taken;
              len = sum_sizes taken % uint;
              offload_info = own.offload_info;
              deleter = own.deleter;
            },
          ),
          m,
        )
      ]
    ]
  ]
]

-- `append(p)`: the fragments of `p` behind those of the packet
pub append : ℕ → Option ℕ → Impl → Impl → Memory → Option (Impl × Memory)
append place buf p i mem =
    if i.len == 0 then some (p, mem) else elim (allocate_if_needed place i (length p.frags) mem) [
      | none ↦ none
      | some (j, m) ↦ elim (unuse_internal_data buf p m) [
        | none ↦ none
        | some (q, k) ↦ some (
          record j {
            len = (j.len + q.len) % uint;
            frags = j.frags ++ q.frags;
            deleter = q.deleter ++ j.deleter;
          },
          k,
        )
      ]
    ]

-- `prepend_uninitialized_header(size)`
pub prepend_uninitialized_header : ℕ → Option ℕ → ℕ → ℕ → Impl → Memory → Option (Impl × Memory)
prepend_uninitialized_header place buf header size i mem =
    elim (allocate_headroom place size i mem) [
      | none ↦ none
      | some (true, r) ↦ some r
      | some (false, r) ↦ elim (unuse_internal_data buf r.0 r.1) [
        | none ↦ none
        | some (j, m) ↦ elim (allocate_headroom place size j m) [
          | none ↦ none
          | some (true, q) ↦ some q
          | some (false, q) ↦
              elim (allocate_if_needed place (record q.0 { len = (q.0.len + size) % uint }) 1 q.1) [
                | none ↦ none
                | some (k, l) ↦ some (
                  record k {
                    frags = record { base = header; size = size } ∷ k.frags;
                    deleter = k.deleter ++ header ∷ [];
                  },
                  l,
                )
              ]
        ]
      ]
    ]

-- `reserve(n_frags)`
pub reserve : ℕ → ℕ → Impl → Memory → Option (Impl × Memory)
reserve place n_frags i mem =
    if ltb (length i.frags) n_frags
    then allocate_if_needed place i (n_frags - length i.frags) mem
    else some (i, mem)

-- `get_header(offset, size)`, where the header lies in one fragment: `some none` is a null pointer, and
-- `none` where `linearize` is called, which is not defined in the repository.
pub get_header : ℕ → ℕ → Impl → Option (Option ℕ)
get_header offset size i = if ltb i.len (offset + size) then some none else header_in offset i.frags
  where
    header_in : ℕ → List Fragment → Option (Option ℕ)
    header_in offset [] = some none
    header_in offset (f ∷ fs) =
        let rest = header_in (offset - f.size) fs in
        if leb f.size offset
        then rest
        else if ltb f.size (offset + size)
        then none
        else some (some (f.base + offset))
