-- ===== src/TimerSet/Expire.antt =====
-- `timer_set::expire` as a whole.
use mseastar.Bitset.{for_each_set, any}
use mseastar.Prelude.{
  ℕ, ◌+◌, ◌-◌, ◌^◌, ◌≤◌, ◌<◌, ◌≡◌, refl, sym, ap, ◌∙◌, subst, ◌⊎◌, inl, inr, Bool, true, false, not,
  none, some, List, [], arith, leb, ltb, ◌==◌, ◌&&◌, if◌then◌else◌, Bool-cases, length, ltb→lt,
}
use mseastar.TimerSet.{
  Timer, TimerSet, n_buckets, max_timestamp, update, is_nil, bits, get_index, splice, drain, finish,
  expire, settle_next, get_next_timeout,
}
use mseastar.TimerSet.Index.{get_index_bounds, sooner, rebase_near}
use mseastar.TimerSet.Inv.{occ, count, Inv, Member}
use mseastar.TimerSet.Splice.{Spliced, first_loop}
use mseastar.TimerSet.Drain.{Drained, second_loop}
use mseastar.TimerSet.Moved.{due, Left, left_lem, expired_count, left_count}
use mseastar.TimerSet.Next.{
  settle_next-le, settle_next-taken, all_empty, settle_next_keeps, settle_next-no_later,
}

-- `get_next_timeout` is the timeout of the soonest timer of the set, or the last timestamp if it is empty.
abbrev pub Soonest : TimerSet → Type 0
Soonest t =
    (((u : Timer) → count u t ≡ 0) × (get_next_timeout t ≡ max_timestamp))
    ⊎ ((u : Timer) × ((0 < count u t)
          × ((get_next_timeout t ≡ u.timeout)
              × ((v : Timer) → 0 < count v t → u.timeout ≤ v.timeout))))

-- What `expire` returns, and what it leaves.
pub record Expired (now : ℕ) (s t : TimerSet) (exp : List Timer) : Type 0 where
  pub inv : Inv t
  pub moved_on : t.last ≡ now
  pub expired :
      (u : Timer) → u.timeout < 2 ^ 63 → occ u exp ≡ (if leb u.timeout now then count u s else 0)
  pub kept :
      (u : Timer) → u.timeout < 2 ^ 63 → count u t ≡ (if leb u.timeout now then 0 else count u s)
  pub soonest : Soonest t
  pub small : (u : Timer) → 0 < occ u exp → u.timeout < 2 ^ 63

abbrev flagged_at : ℕ → TimerSet → TimerSet
flagged_at i t = record t {
  non_empty = update t.non_empty i (if is_nil (t.buckets i) then false else true);
}

expire_runs :
    (now : ℕ) (s : TimerSet) (p : TimerSet × List Timer)
    → s.last ≤ now
    → let i = get_index s.last now in
      let (s', exp) = splice (for_each_set (bits s.non_empty n_buckets 0) (i + 1)) (s, []) in
      let d = due now s' in
      drain (length (d.buckets i)) i now (d, exp) ≡ some p
      → expire now s ≡ some (settle_next (flagged_at i p.0), p.1)
unfolding expire finish
expire_runs now s p le h = let back : ltb now s.last ≡ false = ground arith in rw (back, h)

module _ (s s' t : TimerSet) (exp exp' : List Timer) (now : ℕ) (v : Inv s) (small : now < 2 ^ 63)
    (le : s.last ≤ now)
    (first : Spliced (get_index s.last now + 1) (64 - (get_index s.last now + 1)) s s' [] exp)
    (second : Drained
      (get_index s.last now)
      now
      (s'.buckets (get_index s.last now))
      (due now s')
      t
      exp
      exp') where
  abbrev i : ℕ
  i = get_index s.last now

  left :
      (j : ℕ) (u : Timer)
      → 0 < occ u (t.buckets j)
      → Left s s' t exp exp' now v small le first second j u
  left = left_lem s s' t exp exp' now v small le first second

  abbrev closed : TimerSet
  closed = flagged_at i t

  at_now : t.last ≡ now
  at_now = second.last_kept

  placed :
      (j : ℕ) (u : Timer)
      → 0 < occ u (closed.buckets j)
      → (u.timeout < 2 ^ 63) × (closed.last < u.timeout) × (get_index closed.last u.timeout ≡ j)
  placed j u h =
      let l = left j u h in
      (
        l.small',
        omega (arith, l.later, at_now),
        ap (λ (x : ℕ). get_index x u.timeout) at_now ∙ l.placed,
      )

  flagged : (j : ℕ) → closed.non_empty j ≡ not (is_nil (closed.buckets j))
  flagged j = elim (Bool-cases (i == j)) [
    | inl e ↦ let ij : i ≡ j = ground arith in rw e (flag ij)
    | inr e ↦ rw e (second.flags j e (first.flags j))
  ]
    where
      flag : i ≡ j → (if is_nil (t.buckets i) then false else true) ≡ not (is_nil (t.buckets j))
      flag ij = ap (λ (x : ℕ). if is_nil (t.buckets x) then false else true) ij ∙ ground arith

  -- `_next` was left as it was, or set by a timer that was inserted again.
  next_so_far :
      (j : ℕ) (u : Timer)
      → 0 < occ u (t.buckets j)
      → (t.next ≡ max_timestamp) ⊎ (t.next ≤ u.timeout)
  next_so_far j u h = cases second.from
    where
      l : Left s s' t exp exp' now v small le first second j u
      l = left j u h

      by_origin :
          (w : Timer)
          → 0 < occ w (s'.buckets i)
          → t.next ≡ w.timeout
          → (0 < occ u (s'.buckets i)) ⊎ (get_index s.last u.timeout < i)
          → t.next ≤ u.timeout
      by_origin w hw e (inl here) = second.lower u here l.later
      by_origin w hw e (inr lower) =
          let same_bucket : s'.buckets i ≡ s.buckets i = first.stayed i (inl (omega arith)) in
          let m = v.members i w (subst (λ (x : List Timer). 0 < occ w x) same_bucket hw) in
          let earlier =
            sooner s.last u.timeout w.timeout l.small' m.small (omega (arith, le, l.later))
              (omega (arith, lower, m.placed)) in
          omega (arith, e, earlier)

      cases :
          ((t.next ≡ max_timestamp)
            ⊎ ((w : Timer) × (0 < occ w (s'.buckets i)) × (now < w.timeout) × (t.next ≡ w.timeout)))
          → (t.next ≡ max_timestamp) ⊎ (t.next ≤ u.timeout)
      cases (inl e) = inl e
      cases (inr (w, hw, later, e)) = inr (by_origin w hw e l.old)

  abbrev final : TimerSet
  final = settle_next closed

  same_buckets : final.buckets ≡ t.buckets
  same_buckets = (settle_next_keeps closed).0

  final_last : final.last ≡ now
  final_last = (settle_next_keeps closed).1 ∙ at_now

  in_closed : (j : ℕ) (u : Timer) → occ u (final.buckets j) ≡ occ u (t.buckets j)
  in_closed j u = ap (λ (f : ℕ → List Timer). occ u (f j)) same_buckets

  member : (j : ℕ) (u : Timer) → 0 < occ u (final.buckets j) → Member final j u
  member j u h =
      let h' : 0 < occ u (t.buckets j) = omega (arith, in_closed j u) in
      let l = left j u h' in
      record {
        placed = ap (λ (x : ℕ). get_index x u.timeout) final_last ∙ l.placed;
        small = l.small';
        announced = omega (arith, settle_next-le closed placed flagged j u h' (next_so_far j u h'));
      }

  final-Inv : Inv final
  final-Inv = record {
    last_small = subst (λ (x : ℕ). x < 2 ^ 63) (sym final_last) small;
    next_small = omega (arith, settle_next-no_later closed, second.no_later);
    members = member;
    flagged = λ j.
        ap (λ (f : ℕ → Bool). f j) (settle_next_keeps closed).2
        ∙ flagged j
        ∙ ap (λ (f : ℕ → List Timer). not (is_nil (f j))) (sym same_buckets);
  }

  final_kept :
      (u : Timer)
      → u.timeout < 2 ^ 63
      → count u final ≡ (if leb u.timeout now then 0 else count u s)
  final_kept u us =
      ap (λ (x : ℕ). occ u (final.buckets (get_index x u.timeout))) final_last
      ∙ in_closed (get_index now u.timeout) u
      ∙ left_count s s' t exp exp' now v small le first second u us

  -- A timer of the set that has `_next` is the soonest one.
  Soonest-at :
      (j : ℕ) (u : Timer) → 0 < occ u (t.buckets j) → final.next ≡ u.timeout → Soonest final
  unfolding get_next_timeout
  Soonest-at j u h e =
      let l = left j u h in
      let at : get_index final.last u.timeout ≡ j =
        ap (λ (x : ℕ). get_index x u.timeout) final_last ∙ l.placed in
      let here : count u final ≡ occ u (t.buckets j) =
        ap (λ (x : ℕ). occ u (final.buckets x)) at ∙ in_closed j u in
      let past = l.later in
      inr (
        u,
        (
          omega (arith, here, h),
          (
            omega (arith, e, past, final_last),
            λ w k.
                let h' : 0 < occ w (t.buckets (get_index final.last w.timeout)) =
                  omega (arith, k, in_closed (get_index final.last w.timeout) w) in
                let n =
                  settle_next-le closed placed flagged (get_index final.last w.timeout) w h'
                    (next_so_far (get_index final.last w.timeout) w h') in
                omega (arith, n, e),
          ),
        ),
      )

  Soonest-left :
      (((closed.next == max_timestamp) && any (bits closed.non_empty n_buckets 0)) ≡ false)
      → final.next ≡ closed.next
      → (t.next ≡ max_timestamp)
        ⊎ ((w : Timer) × (0 < occ w (s'.buckets i)) × (now < w.timeout) × (t.next ≡ w.timeout))
      → Soonest final
  unfolding get_next_timeout
  Soonest-left f e (inl top) =
      let none_left : any (bits closed.non_empty n_buckets 0) ≡ false = ground arith in
      inl (
        λ u.
            in_closed (get_index final.last u.timeout) u
            ∙ all_empty closed placed flagged none_left (get_index final.last u.timeout) u,
        omega (arith, e, top, final_last, small),
      )
  Soonest-left f e (inr (w, hw, later, q)) =
      let same_bucket : s'.buckets i ≡ s.buckets i = first.stayed i (inl (omega arith)) in
      let m = v.members i w (subst (λ (x : List Timer). 0 < occ w x) same_bucket hw) in
      let had : count w s ≡ occ w (s'.buckets i) =
        ap (λ (x : ℕ). occ w (s.buckets x)) m.placed ∙ ap (occ w) (sym same_bucket) in
      let no : leb w.timeout now ≡ false = ground arith in
      let k : occ w (t.buckets (get_index now w.timeout)) ≡ count w s =
        left_count s s' t exp exp' now v small le first second w m.small ∙ rw no refl in
      Soonest-at (get_index now w.timeout) w (omega (arith, k, had, hw)) (e ∙ q)

  final-Soonest : Soonest final
  final-Soonest = elim (settle_next-taken closed placed flagged) [
    | inl (f, e) ↦ Soonest-left f e second.from
    | inr (j, (u, (h, e))) ↦ Soonest-at j u h e
  ]

  -- Only timers that were in the set expire.
  exp_small : (u : Timer) → 0 < occ u exp' → u.timeout < 2 ^ 63
  exp_small u h = elim (Bool-cases (ltb u.timeout (2 ^ 63))) [
    | inl k ↦ ltb→lt u.timeout (2 ^ 63) k
    | inr f ↦
        let none_at : (j : ℕ) → occ u (s.buckets j) ≡ 0 = λ j.
          elim (Bool-cases (occ u (s.buckets j) == 0)) [
            | inl e ↦ ground arith
            | inr e ↦ absurd (ground (arith, (v.members j u (ground arith)).small, f))
          ] in
        let a = first.gained u i (λ j ne. none_at j) in
        let b : occ u (s'.buckets i) ≡ occ u (s.buckets i) =
          ap (occ u) (first.stayed i (inl (omega arith))) in
        let at_i = none_at i in absurd (ground (arith, second.gained u, a, b, at_i, h))
  ]

  pub finished : Expired now s final exp'
  finished = record {
    inv = final-Inv;
    moved_on = final_last;
    expired = expired_count s s' t exp exp' now v small le first second;
    kept = final_kept;
    soonest = final-Soonest;
    small = exp_small;
  }

-- expire(now) of a well-formed set, at a time that is not before the last one, ends and does not
-- abort. It returns each timer whose timeout is now or earlier as often as the set held it, and no
-- other; the set keeps exactly the later ones, and is well formed for the new _last, and
-- get_next_timeout is then the timeout of its soonest timer, or the last timestamp if it is empty.
pub expire_lem :
    (now : ℕ) (s : TimerSet)
    → Inv s
    → now < 2 ^ 63
    → s.last ≤ now
    → (t : TimerSet) × (exp : List Timer) × (expire now s ≡ some (t, exp)) × Expired now s t exp
expire_lem now s v small le =
    let i = get_index s.last now in
    let p = splice (for_each_set (bits s.non_empty n_buckets 0) (i + 1)) (s, []) in
    let first =
      first_loop (i + 1) s (omega (arith, (get_index_bounds s.last now small).0)) v.flagged in
    let (t, exp', runs, second) =
      second_loop (p.0.buckets i) i now (due now p.0) p.1 refl refl (λ u h later.
        let m =
          v.members i u
            (subst (λ (l : List Timer). 0 < occ u l) (first.stayed i (inl (omega arith))) h) in
        let up = rebase_near s.last now u.timeout m.small le later m.placed in ground arith) in
    (
      settle_next (flagged_at i t),
      exp',
      expire_runs now s (t, exp') le runs,
      finished s p.0 t p.1 exp' now v small le first second,
    )

-- The clock must not go back: `expire` aborts exactly then.
pub expire_back : (now : ℕ) (s : TimerSet) → now < s.last → expire now s ≡ none
unfolding expire
expire_back now s h = let back : ltb now s.last ≡ true = ground arith in rw back
