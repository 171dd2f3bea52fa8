-- ===== src/TimerSet/Next.antt =====
-- The end of `timer_set::expire`: `_next` is no later than any timer that is left.
use mseastar.Bitset.{any, get_last_set, IsLast, get_last_set-IsLast, get_or-none}
use mseastar.Prelude.{
  ℕ, zero, suc, ◌+◌, ◌^◌, ◌≤◌, ◌<◌, ◌≡◌, refl, ap, ◌∙◌, subst, ◌⊎◌, inl, inr, Bool, true, false,
  not, List, [], ◌∷◌, arith, ltb, leb, ◌==◌, ◌&&◌, if◌then◌else◌, min, Bool-cases, get_or, ltb→lt,
}
use mseastar.TimerSet.{
  Timer, TimerSet, n_buckets, max_timestamp, is_nil, bits, get_index, min_timeout, settle_next,
  same_timer,
}
use mseastar.TimerSet.Index.{get_index_bounds, sooner}
use mseastar.TimerSet.Inv.{occ, same_timer_refl, same_timer-eq}

min_timeout-le : (l : List Timer) (n : ℕ) → min_timeout l n ≤ n
min_timeout-le [] n = omega arith
min_timeout-le (t ∷ ts) n = omega (arith, min_timeout-le ts (min n t.timeout))

min_timeout-lower : (l : List Timer) (n : ℕ) (u : Timer) → 0 < occ u l → min_timeout l n ≤ u.timeout
min_timeout-lower [] n u h = absurd (omega arith)
min_timeout-lower (t ∷ ts) n u h = elim (Bool-cases (same_timer u t)) [
  | inl e ↦
      let ut : u.timeout ≡ t.timeout = ap (λ (x : Timer). x.timeout) (same_timer-eq u t e) in
      omega (arith, ut, min_timeout-le ts (min n t.timeout))
  | inr e ↦ min_timeout-lower ts (min n t.timeout) u (ground arith)
]

min_timeout-taken :
    (l : List Timer) (n : ℕ)
    → (min_timeout l n ≡ n) ⊎ ((u : Timer) × ((0 < occ u l) × (min_timeout l n ≡ u.timeout)))
min_timeout-taken [] n = inl refl
min_timeout-taken (t ∷ ts) n = elim (min_timeout-taken ts (min n t.timeout)) [
  | inr (u, (h, e)) ↦ inr (u, (omega arith, e))
  | inl e ↦ elim (Bool-cases (leb n t.timeout)) [
    | inl k ↦ inl (e ∙ ground arith)
    | inr k ↦ inr (t, (ground (arith, same_timer_refl t), e ∙ ground arith))
  ]
]

get_or-bits : (f : ℕ → Bool) (n k i : ℕ) → i < n → get_or (bits f n k) i false ≡ f (k + i)
get_or-bits f zero k i h = absurd (omega arith)
get_or-bits f (suc n) k zero h = ap f (omega arith)
get_or-bits f (suc n) k (suc i) h = get_or-bits f n (suc k) i (omega arith) ∙ ap f (omega arith)

get_or-bits_out : (f : ℕ → Bool) (n k i : ℕ) → n ≤ i → get_or (bits f n k) i false ≡ false
get_or-bits_out f zero k i h = refl
get_or-bits_out f (suc n) k zero h = absurd (omega arith)
get_or-bits_out f (suc n) k (suc i) h = get_or-bits_out f n (suc k) i (omega arith)

any-of : (bs : List Bool) (i : ℕ) → get_or bs i false ≡ true → any bs ≡ true
any-of bs i h = elim (Bool-cases (any bs)) [ inl e ↦ e | inr e ↦ absurd (cc (get_or-none bs i e)) ]

occ-head : (l : List Timer) → is_nil l ≡ false → (u : Timer) × (0 < occ u l)
occ-head [] h = cc
occ-head (x ∷ l) h = (x, ground (arith, same_timer_refl x))

member_flag : (l : List Timer) (u : Timer) → 0 < occ u l → not (is_nil l) ≡ true
member_flag [] u h = absurd (omega arith)
member_flag (x ∷ l) u h = refl

-- The timers of `s` are later than `_last`, and stand in their buckets.
module _ (s : TimerSet)
    (placed : (j : ℕ) (u : Timer)
      → 0 < occ u (s.buckets j)
      → (u.timeout < 2 ^ 63) × (s.last < u.timeout) × (get_index s.last u.timeout ≡ j))
    (flagged : (j : ℕ) → s.non_empty j ≡ not (is_nil (s.buckets j))) where
  abbrev flags : List Bool
  flags = bits s.non_empty n_buckets 0

  bucket_bound : (j : ℕ) (u : Timer) → 0 < occ u (s.buckets j) → j < 64
  bucket_bound j u h =
      let (small, later, at) = placed j u h in
      omega (arith, (get_index_bounds s.last u.timeout small).0, at)

  flag_at : (j : ℕ) → j < 64 → get_or flags j false ≡ s.non_empty j
  flag_at j h = get_or-bits s.non_empty n_buckets 0 j h ∙ ap s.non_empty (omega arith)

  flag_of : (j : ℕ) (u : Timer) → 0 < occ u (s.buckets j) → get_or flags j false ≡ true
  flag_of j u h = flag_at j (bucket_bound j u h) ∙ flagged j ∙ member_flag (s.buckets j) u h

  last_filled : any flags ≡ true → is_nil (s.buckets (get_last_set flags)) ≡ false
  last_filled h =
      let found = get_last_set-IsLast flags h in
      let in_range = range (get_last_set flags) found.0 in
      ground (arith, found.0, flag_at (get_last_set flags) in_range, flagged (get_last_set flags))
    where
      range : (b : ℕ) → get_or flags b false ≡ true → b < 64
      range b e = elim (Bool-cases (ltb b 64)) [
        | inl k ↦ ltb→lt b 64 k
        | inr k ↦
            let ge : 64 ≤ b = ground arith in
            absurd (cc (e, get_or-bits_out s.non_empty n_buckets 0 b ge))
      ]

  -- The last bucket that is not empty holds the soonest timers.
  last_bucket :
      (j : ℕ) (u : Timer)
      → 0 < occ u (s.buckets j)
      → min_timeout (s.buckets (get_last_set flags)) s.next ≤ u.timeout
  last_bucket j u h = elim (Bool-cases (j == b)) [
    | inl e ↦
        let jb : j ≡ b = ground arith in
        min_timeout-lower (s.buckets b) s.next u (subst (λ (x : ℕ). 0 < occ u (s.buckets x)) jb h)
    | inr e ↦ elim (Bool-cases (ltb b j)) [
      | inl d ↦ absurd (cc (found.1 j (ltb→lt b j d), flag_of j u h))
      | inr d ↦
          let (w, hw) = occ-head (s.buckets b) (last_filled (any-of flags j (flag_of j u h))) in
          let (us, ul, up) = placed j u h in
          let (ws, wl, wp) = placed b w hw in
          let first = sooner s.last u.timeout w.timeout us ws ul (ground (arith, up, wp)) in
          omega (arith, first, min_timeout-lower (s.buckets b) s.next w hw)
    ]
  ]
    where
      b : ℕ
      b = get_last_set flags

      found : IsLast flags b
      found = get_last_set-IsLast flags (any-of flags j (flag_of j u h))

  -- `_next` stays as it is where a timer has set it or the set is empty; otherwise a timer has it.
  pub settle_next-taken :
      (((s.next == max_timestamp) && any flags) ≡ false) × ((settle_next s).next ≡ s.next)
      ⊎ ((j : ℕ) × ((u : Timer) × ((0 < occ u (s.buckets j)) × ((settle_next s).next ≡ u.timeout))))
  unfolding settle_next
  settle_next-taken = elim (Bool-cases ((s.next == max_timestamp) && any flags)) [
    | inr f ↦ inl (f, ap (λ c. (if c then filled else s).next) f)
    | inl t ↦
        let full : any flags ≡ true = ground arith in
        let top : s.next ≡ max_timestamp = ground arith in
        let b = get_last_set flags in
        let (w, hw) = occ-head (s.buckets b) (last_filled full) in
        let (small, late, at) = placed b w hw in
        let low = min_timeout-lower (s.buckets b) s.next w hw in
        let e : (settle_next s).next ≡ min_timeout (s.buckets b) s.next =
          ap (λ c. (if c then filled else s).next) t in
        inr (elim (min_timeout-taken (s.buckets b) s.next) [
          | inl k ↦ (b, (w, (hw, e ∙ omega (arith, k, top, low, small))))
          | inr (u, (hu, k)) ↦ (b, (u, (hu, e ∙ k)))
        ])
  ]
    where
      filled : TimerSet
      filled = record s { next = min_timeout (s.buckets (get_last_set flags)) s.next }

  pub all_empty : any flags ≡ false → (j : ℕ) (u : Timer) → occ u (s.buckets j) ≡ 0
  all_empty f j u = elim (Bool-cases (occ u (s.buckets j) == 0)) [
    | inl e ↦ ground arith
    | inr e ↦ absurd (cc (f, any-of flags j (flag_of j u (ground arith))))
  ]

  pub settle_next-le :
      (j : ℕ) (u : Timer)
      → 0 < occ u (s.buckets j)
      → (s.next ≡ max_timestamp) ⊎ (s.next ≤ u.timeout)
      → (settle_next s).next ≤ u.timeout
  unfolding settle_next
  settle_next-le j u h k = ground (arith, k, any-of flags j (flag_of j u h), last_bucket j u h)

pub settle_next_keeps :
    (s : TimerSet)
    → ((settle_next s).buckets ≡ s.buckets)
      × ((settle_next s).last ≡ s.last)
      × ((settle_next s).non_empty ≡ s.non_empty)
unfolding settle_next
settle_next_keeps s = ground arith

pub settle_next-no_later : (s : TimerSet) → (settle_next s).next ≤ s.next
unfolding settle_next
settle_next-no_later s =
    ground (arith, min_timeout-le (s.buckets (get_last_set (bits s.non_empty n_buckets 0))) s.next)
