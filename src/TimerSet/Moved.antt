-- ===== src/TimerSet/Moved.antt =====
-- Where the timers are after the two loops of `timer_set::expire`.
use mseastar.Prelude.{
  ltb→lt, ℕ, ◌+◌, ◌-◌, ◌^◌, ◌≤◌, ◌<◌, ◌≡◌, sym, ap, ◌∙◌, subst, ◌⊎◌, inl, inr, true, false, List,
  [], ◌&&◌, arith, leb, ltb, ◌==◌, if◌then◌else◌, Bool-cases,
}
use mseastar.TimerSet.{Timer, TimerSet, get_index, max_timestamp}
use mseastar.TimerSet.Index.{
  get_index_bounds, get_index-late, sooner, rebase_far, rebase_near, expired_above,
}
use mseastar.TimerSet.Inv.{occ, count, Inv, occ-elsewhere}
use mseastar.TimerSet.Splice.{Spliced}
use mseastar.TimerSet.Drain.{Drained}

abbrev pub due : ℕ → TimerSet → TimerSet
due now s = record s { last = now; next = max_timestamp }

module _ (s s' t : TimerSet) (exp exp' : List Timer) (now : ℕ) (v : Inv s) (small : now < 2 ^ 63)
    (le : s.last ≤ now)
    (first : Spliced (get_index s.last now + 1) (64 - (get_index s.last now + 1)) s s' [] exp)
    (second : Drained
      (get_index s.last now)
      now
      (s'.buckets (get_index s.last now))
      (due now s')
      t
      exp
      exp') where
  abbrev i : ℕ
  i = get_index s.last now

  i_bound : i ≤ 63
  i_bound = (get_index_bounds s.last now small).0

  same_bucket : s'.buckets i ≡ s.buckets i
  same_bucket = first.stayed i (inl (omega arith))

  -- A timer in a bucket below that of `now` is not due.
  below_later : (u : Timer) → u.timeout < 2 ^ 63 → get_index s.last u.timeout < i → now < u.timeout
  below_later u us lt = elim (Bool-cases (leb u.timeout s.last)) [
    | inl e ↦ absurd (omega (arith, get_index-late s.last u.timeout (ground arith), i_bound))
    | inr e ↦ sooner s.last u.timeout now us small (ground arith) lt
  ]

  -- A timer left after the loops was in the set, is not due, and stands in its bucket for the new
  -- `_last`; it either stood in the bucket of `now`, or in a lower one.
  pub record Left (j : ℕ) (u : Timer) : Type 0 where
    pub small' : u.timeout < 2 ^ 63
    pub later : now < u.timeout
    pub placed : get_index now u.timeout ≡ j
    pub old : (0 < occ u (s'.buckets i)) ⊎ (get_index s.last u.timeout < i)

  from_lower : (j : ℕ) (u : Timer) → (i == j) ≡ false → 0 < occ u (s'.buckets j) → Left j u
  from_lower j u ne h = elim (Bool-cases (ltb j (i + 1))) [
    | inl e ↦
        let kept : s'.buckets j ≡ s.buckets j = first.stayed j (inl (ground arith)) in
        let m = v.members j u (subst (λ (l : List Timer). 0 < occ u l) kept h) in
        let lower : get_index s.last u.timeout < i = ground (arith, m.placed) in
        let later = below_later u m.small lower in
        record {
          small' = m.small;
          later = later;
          placed = rebase_far s.last now u.timeout m.small le later lower ∙ m.placed;
          old = inr lower;
        }
    | inr e ↦ elim (Bool-cases (ltb j 64)) [
      | inl d ↦
          let gone : s'.buckets j ≡ [] =
            first.moved j (ground arith) (omega (arith, i_bound, ltb→lt j 64 d)) in
          absurd (omega (arith, h, ap (occ u) gone))
      | inr d ↦
          let kept : s'.buckets j ≡ s.buckets j =
            first.stayed j (inr (omega (arith, i_bound, ge j d))) in
          let m = v.members j u (subst (λ (l : List Timer). 0 < occ u l) kept h) in
          absurd (omega (arith, m.placed, (get_index_bounds s.last u.timeout m.small).0, ge j d))
    ]
  ]
    where
      ge : (j : ℕ) → ltb j 64 ≡ false → 64 ≤ j
      ge j d = ground arith

  from_here :
      (j : ℕ) (u : Timer)
      → 0 < (
          if leb u.timeout now
          then 0
          else if get_index now u.timeout == j
          then occ u (s'.buckets i)
          else 0)
      → Left j u
  from_here j u h =
      let member : 0 < occ u (s'.buckets i) = ground arith in
      let m = v.members i u (subst (λ (l : List Timer). 0 < occ u l) same_bucket member) in
      record { small' = m.small; later = ground arith; placed = ground arith; old = inl member }

  pub left_lem : (j : ℕ) (u : Timer) → 0 < occ u (t.buckets j) → Left j u
  left_lem j u h = elim (Bool-cases (i == j)) [
    | inl e ↦
        let ij : i ≡ j = ground arith in
        let gone : t.buckets j ≡ [] = subst (λ (x : ℕ). t.buckets x ≡ []) ij second.cleared in
        absurd (omega (arith, h, ap (occ u) gone))
    | inr e ↦ elim (Bool-cases (occ u (s'.buckets j) == 0)) [
      | inr d ↦ from_lower j u e (ground arith)
      | inl d ↦ from_here j u (omega (arith, h, second.moved u j e, eq0 (occ u (s'.buckets j)) d))
    ]
  ]
    where
      eq0 : (n : ℕ) → (n == 0) ≡ true → n ≡ 0
      eq0 n d = ground arith

  none_at :
      (u : Timer) (j : ℕ) → (get_index s.last u.timeout == j) ≡ false → occ u (s.buckets j) ≡ 0
  none_at u j ne = occ-elsewhere s v j u ne

  here : (u : Timer) → occ u (s'.buckets i) ≡ occ u (s.buckets i)
  here u = ap (occ u) same_bucket

  -- The expired list has each timer that is due as often as the set had it, and no other.
  pub expired_count :
      (u : Timer) → u.timeout < 2 ^ 63 → occ u exp' ≡ (if leb u.timeout now then count u s else 0)
  expired_count u us = elim (Bool-cases (ltb j i)) [
    | inl lower ↦
        let later = below_later u us (ltb→lt j i lower) in
        ground (arith, second.gained u, gained, later)
    | inr d ↦ elim (Bool-cases (j == i)) [
      | inl f ↦
          let same_place : count u s ≡ occ u (s.buckets i) =
            ap (λ (x : ℕ). occ u (s.buckets x)) (eq j i f) in
          ground (arith, second.gained u, gained, here u, same_place)
      | inr f ↦
          let past = expired_above s.last now u.timeout us small le (ground arith) in
          let bound = (get_index_bounds s.last u.timeout us).0 in
          let elsewhere : occ u (s.buckets i) ≡ 0 = none_at u i f in
          ground (arith, second.gained u, gained, here u, elsewhere, past, bound)
    ]
  ]
    where
      j : ℕ
      j = get_index s.last u.timeout

      eq : (a b : ℕ) → (a == b) ≡ true → a ≡ b
      eq a b e = ground arith

      gained :
          occ u exp ≡ (if leb (i + 1) j && ltb j (i + 1 + (64 - (i + 1))) then count u s else 0)
      gained = first.gained u j (λ k ne. none_at u k ne) ∙ omega arith

  -- The set keeps each timer that is not due as often as it had it, and no other.
  pub left_count :
      (u : Timer)
      → u.timeout < 2 ^ 63
      → occ u (t.buckets (get_index now u.timeout)) ≡ (if leb u.timeout now then 0 else count u s)
  left_count u us = elim (Bool-cases (leb u.timeout now)) [
    | inl past ↦ rw past (elim (Bool-cases (occ u (t.buckets (get_index now u.timeout)) == 0)) [
      | inl z ↦ ground arith
      | inr z ↦
          let l = left_lem (get_index now u.timeout) u (ground arith) in
          absurd (ground (arith, l.later))
    ])
    | inr later ↦ rw later (elim (Bool-cases (ltb (get_index s.last u.timeout) i)) [
      | inl lower ↦ far later (ltb→lt _ _ lower)
      | inr d ↦ elim (Bool-cases (get_index s.last u.timeout == i)) [
        | inl f ↦ near later (ground arith)
        | inr f ↦
            let past = expired_above s.last now u.timeout us small le (ground arith) in
            absurd (ground arith)
      ]
    ])
  ]
    where
      far :
          leb u.timeout now ≡ false
          → get_index s.last u.timeout < i
          → occ u (t.buckets (get_index now u.timeout)) ≡ count u s
      far later lower =
          let later' : now < u.timeout = ground arith in
          let stays = rebase_far s.last now u.timeout us le later' lower in
          let ne : (i == get_index s.last u.timeout) ≡ false = ground arith in
          let elsewhere : occ u (s.buckets i) ≡ 0 = none_at u i (ground arith) in
          let kept : occ u (s'.buckets (get_index s.last u.timeout)) ≡ count u s =
            ap (occ u) (first.stayed (get_index s.last u.timeout) (inl (omega arith))) in
          ap (λ (x : ℕ). occ u (t.buckets x)) stays
          ∙ second.moved u (get_index s.last u.timeout) ne
          ∙ ground (arith, kept, here u, elsewhere)

      near :
          leb u.timeout now ≡ false
          → get_index s.last u.timeout ≡ i
          → occ u (t.buckets (get_index now u.timeout)) ≡ count u s
      near later f =
          let later' : now < u.timeout = ground arith in
          let up = rebase_near s.last now u.timeout us le later' f in
          let bound = (get_index_bounds now u.timeout us).0 in
          let ne : (i == get_index now u.timeout) ≡ false = ground arith in
          let gone : s'.buckets (get_index now u.timeout) ≡ [] =
            first.moved (get_index now u.timeout) (omega arith) (omega (arith, i_bound)) in
          let mine : occ u (s'.buckets i) ≡ count u s =
            here u ∙ ap (λ (x : ℕ). occ u (s.buckets x)) (sym f) in
          second.moved u (get_index now u.timeout) ne ∙ ground (arith, ap (occ u) gone, mine)
