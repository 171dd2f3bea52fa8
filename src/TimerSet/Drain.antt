-- ===== src/TimerSet/Drain.antt =====
-- The second loop of `timer_set::expire`, over the timers in the bucket of the time `now`.
use mseastar.Prelude.{
  ℕ, suc, ◌+◌, ◌≤◌, ◌<◌, ◌≡◌, refl, ap, ◌∙◌, ◌⊎◌, inl, inr, true, false, not, some, List, [], ◌∷◌,
  ◌++◌, arith, leb, ◌==◌, if◌then◌else◌, Bool-cases, length,
}
use mseastar.TimerSet.{Timer, TimerSet, update, is_nil, get_index, insert, same_timer, drain}
use mseastar.TimerSet.Inv.{
  one_if, occ, occ-append, same_timer_refl, same_timer-eq, occ-insert, last-insert, next-insert,
  buckets-insert, flagged-insert,
}

-- What the loop has done with the timers `l` of bucket `i`.
pub record Drained (i now : ℕ) (l : List Timer) (s t : TimerSet) (exp exp' : List Timer)
    : Type 0 where
  pub last_kept : t.last ≡ s.last
  pub cleared : t.buckets i ≡ []
  pub gained : (u : Timer) → occ u exp' ≡ occ u exp + (if leb u.timeout now then occ u l else 0)
  pub moved :
      (u : Timer) (j : ℕ)
      → (i == j) ≡ false
      → occ u (t.buckets j)
        ≡ occ u (s.buckets j)
          + (if leb u.timeout now then 0 else if get_index now u.timeout == j then occ u l else 0)
  pub flags :
      (j : ℕ)
      → (i == j) ≡ false
      → s.non_empty j ≡ not (is_nil (s.buckets j))
      → t.non_empty j ≡ not (is_nil (t.buckets j))
  pub no_later : t.next ≤ s.next
  pub lower : (u : Timer) → 0 < occ u l → now < u.timeout → t.next ≤ u.timeout
  pub from :
      (t.next ≡ s.next) ⊎ ((u : Timer) × (0 < occ u l) × (now < u.timeout) × (t.next ≡ u.timeout))

abbrev popped : ℕ → List Timer → TimerSet → TimerSet
popped i rest s = record s { buckets = update s.buckets i rest }

Drained-none :
    (i now : ℕ) (s : TimerSet) (exp : List Timer) → s.buckets i ≡ [] → Drained i now [] s s exp exp
Drained-none i now s exp e = record {
  last_kept = refl;
  cleared = e;
  gained = λ u. ground arith;
  moved = λ u j ne. ground arith;
  flags = λ j ne h. h;
  no_later = omega arith;
  lower = λ u h. absurd (omega arith);
  from = inl refl;
}

-- A timer that is due goes to the expired list.
Drained-due :
    (i now : ℕ) (x : Timer) (rest : List Timer) (s t : TimerSet) (exp exp' : List Timer)
    → leb x.timeout now ≡ true
    → Drained i now rest (popped i rest s) t (exp ++ x ∷ []) exp'
    → Drained i now (x ∷ rest) s t exp exp'
Drained-due i now x rest s t exp exp' due r = record {
  last_kept = r.last_kept;
  cleared = r.cleared;
  gained = gained;
  moved = moved;
  flags = λ j ne h. r.flags j ne (rw ne h);
  no_later = r.no_later;
  lower = lower;
  from = from r.from;
}
  where
    gained :
        (u : Timer) → occ u exp' ≡ occ u exp + (if leb u.timeout now then occ u (x ∷ rest) else 0)
    gained u = elim (Bool-cases (same_timer u x)) [
      | inl e ↦
          let ux = same_timer-eq u x e in
          let at : leb u.timeout now ≡ true = rw ux due in
          ground (arith, r.gained u, occ-append u exp (x ∷ []))
      | inr e ↦ ground (arith, r.gained u, occ-append u exp (x ∷ []))
    ]

    moved :
        (u : Timer) (j : ℕ)
        → (i == j) ≡ false
        → occ u (t.buckets j)
          ≡ occ u (s.buckets j)
            + (if leb u.timeout now
                then 0
                else if get_index now u.timeout == j
                then occ u (x ∷ rest)
                else 0)
    moved u j ne =
        r.moved u j ne
        ∙ rw ne (elim (Bool-cases (same_timer u x)) [
          | inl e ↦
              let ux = same_timer-eq u x e in
              let at : leb u.timeout now ≡ true = rw ux due in ground arith
          | inr e ↦ ground arith
        ])

    lower : (u : Timer) → 0 < occ u (x ∷ rest) → now < u.timeout → t.next ≤ u.timeout
    lower u h later = elim (Bool-cases (same_timer u x)) [
      | inl e ↦
          let ux = same_timer-eq u x e in
          let at : leb u.timeout now ≡ true = rw ux due in absurd (ground arith)
      | inr e ↦ r.lower u (ground arith) later
    ]

    from :
        ((t.next ≡ s.next)
          ⊎ ((u : Timer) × (0 < occ u rest) × (now < u.timeout) × (t.next ≡ u.timeout)))
        → (t.next ≡ s.next)
          ⊎ ((u : Timer) × (0 < occ u (x ∷ rest)) × (now < u.timeout) × (t.next ≡ u.timeout))
    from (inl h) = inl h
    from (inr (u, h, later, e)) = inr (u, omega arith, later, e)

abbrev again : ℕ → Timer → List Timer → TimerSet → TimerSet
again i x rest s = (insert x (popped i rest s)).0

-- A timer that is not due goes to another bucket.
module _ (i now : ℕ) (x : Timer) (rest : List Timer) (s : TimerSet) (at_now : s.last ≡ now)
    (not_due : leb x.timeout now ≡ false) (away : (get_index now x.timeout == i) ≡ false) where
  index : get_index s.last x.timeout ≡ get_index now x.timeout
  index = ap (λ (l : ℕ). get_index l x.timeout) at_now

  -- The bucket that is being drained does not get the timer back.
  pub again_here : (again i x rest s).buckets i ≡ rest
  again_here =
      ap (λ (f : ℕ → List Timer). f i) (buckets-insert x (popped i rest s)) ∙ rw (index, away) here
    where
      here : (popped i rest s).buckets i ≡ rest
      here = ground arith

  again_elsewhere :
      (u : Timer) (j : ℕ)
      → (i == j) ≡ false
      → occ u ((again i x rest s).buckets j)
        ≡ occ u (s.buckets j) + (if get_index now x.timeout == j then one_if u x else 0)
  again_elsewhere u j ne = occ-insert u x (popped i rest s) j ∙ rw (ne, index) refl

  pub Drained-again :
      (t : TimerSet) (exp exp' : List Timer)
      → Drained i now rest (again i x rest s) t exp exp'
      → Drained i now (x ∷ rest) s t exp exp'
  Drained-again t exp exp' r = record {
    last_kept = r.last_kept ∙ last-insert x (popped i rest s);
    cleared = r.cleared;
    gained = gained;
    moved = moved;
    flags = λ j ne h. r.flags j ne (flagged-insert x (popped i rest s) j (rw ne h));
    no_later = omega (arith, r.no_later, next-insert x (popped i rest s));
    lower = lower;
    from = from r.from;
  }
    where
      gained :
          (u : Timer) → occ u exp' ≡ occ u exp + (if leb u.timeout now then occ u (x ∷ rest) else 0)
      gained u = elim (Bool-cases (same_timer u x)) [
        | inl e ↦
            let ux = same_timer-eq u x e in
            let at : leb u.timeout now ≡ false = rw ux not_due in ground (arith, r.gained u)
        | inr e ↦ ground (arith, r.gained u)
      ]

      moved :
          (u : Timer) (j : ℕ)
          → (i == j) ≡ false
          → occ u (t.buckets j)
            ≡ occ u (s.buckets j)
              + (if leb u.timeout now
                  then 0
                  else if get_index now u.timeout == j
                  then occ u (x ∷ rest)
                  else 0)
      moved u j ne = elim (Bool-cases (same_timer u x)) [
        | inl e ↦
            let ux = same_timer-eq u x e in
            let at : leb u.timeout now ≡ false = rw ux not_due in
            let to : get_index now u.timeout ≡ get_index now x.timeout =
              ap (λ (y : Timer). get_index now y.timeout) ux in
            ground (arith, r.moved u j ne, again_elsewhere u j ne, to)
        | inr e ↦ ground (arith, r.moved u j ne, again_elsewhere u j ne)
      ]

      lower : (u : Timer) → 0 < occ u (x ∷ rest) → now < u.timeout → t.next ≤ u.timeout
      lower u h later = elim (Bool-cases (same_timer u x)) [
        | inl e ↦
            let ux : u.timeout ≡ x.timeout = ap (λ (y : Timer). y.timeout) (same_timer-eq u x e) in
            omega (arith, ux, r.no_later, next-insert x (popped i rest s))
        | inr e ↦ r.lower u (ground arith) later
      ]

      self_in : 0 < occ x (x ∷ rest)
      self_in = ground (arith, same_timer_refl x)

      from :
          ((t.next ≡ (again i x rest s).next)
            ⊎ ((u : Timer) × (0 < occ u rest) × (now < u.timeout) × (t.next ≡ u.timeout)))
          → (t.next ≡ s.next)
            ⊎ ((u : Timer) × (0 < occ u (x ∷ rest)) × (now < u.timeout) × (t.next ≡ u.timeout))
      from (inr (u, h, later, e)) = inr (u, omega arith, later, e)
      from (inl h) = elim (Bool-cases (leb s.next x.timeout)) [
        | inl e ↦ inl (ground (arith, h, next-insert x (popped i rest s)))
        | inr e ↦ inr (x, self_in, ground arith, ground (arith, h, next-insert x (popped i rest s)))
      ]

drain-due :
    (fuel i now : ℕ) (x : Timer) (rest : List Timer) (s : TimerSet) (exp : List Timer)
    → s.buckets i ≡ x ∷ rest
    → leb x.timeout now ≡ true
    → drain (suc fuel) i now (s, exp) ≡ drain fuel i now (popped i rest s, exp ++ x ∷ [])
unfolding drain
drain-due fuel i now x rest s exp e due = rw (e, due)

drain-again :
    (fuel i now : ℕ) (x : Timer) (rest : List Timer) (s : TimerSet) (exp : List Timer)
    → s.buckets i ≡ x ∷ rest
    → leb x.timeout now ≡ false
    → drain (suc fuel) i now (s, exp) ≡ drain fuel i now (again i x rest s, exp)
unfolding drain
drain-again fuel i now x rest s exp e due = rw (e, due)

drain-nil :
    (i now : ℕ) (s : TimerSet) (exp : List Timer)
    → s.buckets i ≡ []
    → drain 0 i now (s, exp) ≡ some (s, exp)
unfolding drain
drain-nil i now s exp e = rw e

-- One round for each timer in the bucket is enough.
pub second_loop :
    (l : List Timer) (i now : ℕ) (s : TimerSet) (exp : List Timer)
    → s.last ≡ now
    → s.buckets i ≡ l
    → ((u : Timer) → 0 < occ u l → now < u.timeout → (get_index now u.timeout == i) ≡ false)
    → (t : TimerSet) × (exp' : List Timer) × (drain (length l) i now (s, exp) ≡ some (t, exp'))
      × Drained i now l s t exp exp'
second_loop [] i now s exp at_now e away =
    (s, exp, drain-nil i now s exp e, Drained-none i now s exp e)
second_loop (x ∷ rest) i now s exp at_now e away = elim (Bool-cases (leb x.timeout now)) [
  | inl due ↦
      let (t, exp', runs, r) =
        second_loop rest i now (popped i rest s) (exp ++ x ∷ []) at_now (ground arith)
          (λ u h. away u (omega arith)) in
      (
        t,
        exp',
        drain-due (length rest) i now x rest s exp e due ∙ runs,
        Drained-due i now x rest s t exp exp' due r,
      )
  | inr later ↦
      let elsewhere : (get_index now x.timeout == i) ≡ false =
        away x (ground (arith, same_timer_refl x)) (ground arith) in
      let (t, exp', runs, r) =
        second_loop rest i now (again i x rest s) exp (last-insert x (popped i rest s) ∙ at_now)
          (again_here i now x rest s at_now later elsewhere) (λ u h. away u (omega arith)) in
      (
        t,
        exp',
        drain-again (length rest) i now x rest s exp e later ∙ runs,
        Drained-again i now x rest s at_now later elsewhere t exp exp' r,
      )
]
