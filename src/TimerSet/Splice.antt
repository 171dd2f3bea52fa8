-- ===== src/TimerSet/Splice.antt =====
-- The first loop of `timer_set::expire`, which empties the buckets above that of the time `now`.
use native.Mathlib.Nat.{add-zero}
use mseastar.Bitset.{for_each_set, places, for_each_set-places}
use mseastar.Prelude.{
  ℕ, zero, suc, ◌+◌, ◌-◌, ◌≤◌, ◌<◌, ◌≡◌, refl, sym, ap, ap₂, ◌∙◌, subst, ◌⊎◌, inl, inr, Bool, false,
  not, List, [], ◌∷◌, ◌++◌, arith, ltb, leb, ◌==◌, ◌&&◌, if◌then◌else◌, Bool-cases, drop,
}
use mseastar.TimerSet.{Timer, TimerSet, n_buckets, update, is_nil, bits, splice}
use mseastar.TimerSet.Inv.{occ, occ-append}

-- The buckets from `k` up to `k + n` have moved, and nothing else.
pub record Spliced (k n : ℕ) (s t : TimerSet) (exp exp' : List Timer) : Type 0 where
  pub last_kept : t.last ≡ s.last
  pub next_kept : t.next ≡ s.next
  pub moved : (j : ℕ) → k ≤ j → j < k + n → t.buckets j ≡ []
  pub stayed : (j : ℕ) → (j < k) ⊎ (k + n ≤ j) → t.buckets j ≡ s.buckets j
  pub flags : (j : ℕ) → t.non_empty j ≡ not (is_nil (t.buckets j))
  pub gained :
      (u : Timer) (i : ℕ)
      → ((j : ℕ) → (i == j) ≡ false → occ u (s.buckets j) ≡ 0)
      → occ u exp' ≡ occ u exp + (if leb k i && ltb i (k + n) then occ u (s.buckets i) else 0)

-- The number at place `k` and those above it.
abbrev within : ℕ → ℕ → ℕ → Bool
within k n i = leb k i && ltb i (k + n)

-- The bucket `k` was empty.
skip-Spliced :
    (k n : ℕ) (s t : TimerSet) (exp exp' : List Timer)
    → s.buckets k ≡ []
    → Spliced (suc k) n s t exp exp'
    → Spliced k (suc n) s t exp exp'
skip-Spliced k n s t exp exp' empty r = record {
  last_kept = r.last_kept;
  next_kept = r.next_kept;
  moved = moved;
  stayed = stayed;
  flags = r.flags;
  gained = gained;
}
  where
    moved : (j : ℕ) → k ≤ j → j < k + suc n → t.buckets j ≡ []
    moved j a b = elim (Bool-cases (k == j)) [
      | inl e ↦
          let kj : k ≡ j = ground arith in
          r.stayed j (inl (omega (arith, kj))) ∙ subst (λ (x : ℕ). s.buckets x ≡ []) kj empty
      | inr e ↦ r.moved j (ground arith) (omega arith)
    ]

    stayed : (j : ℕ) → (j < k) ⊎ (k + suc n ≤ j) → t.buckets j ≡ s.buckets j
    stayed j (inl h) = r.stayed j (inl (omega arith))
    stayed j (inr h) = r.stayed j (inr (omega arith))

    gained :
        (u : Timer) (i : ℕ)
        → ((j : ℕ) → (i == j) ≡ false → occ u (s.buckets j) ≡ 0)
        → occ u exp' ≡ occ u exp + (if within k (suc n) i then occ u (s.buckets i) else 0)
    gained u i away = elim (Bool-cases (i == k)) [
      | inl e ↦
          let ik : i ≡ k = ground arith in
          let none_here : occ u (s.buckets i) ≡ 0 =
            ap (λ (x : ℕ). occ u (s.buckets x)) ik ∙ ap (occ u) empty in
          ground (arith, r.gained u i away, none_here)
      | inr e ↦ ground (arith, r.gained u i away)
    ]

abbrev emptied : ℕ → TimerSet → TimerSet
emptied k s = record s { buckets = update s.buckets k []; non_empty = update s.non_empty k false }

-- The bucket `k` moves.
take-Spliced :
    (k n : ℕ) (s t : TimerSet) (exp exp' : List Timer)
    → Spliced (suc k) n (emptied k s) t (exp ++ s.buckets k) exp'
    → Spliced k (suc n) s t exp exp'
take-Spliced k n s t exp exp' r = record {
  last_kept = r.last_kept;
  next_kept = r.next_kept;
  moved = moved;
  stayed = stayed;
  flags = r.flags;
  gained = gained;
}
  where
    moved : (j : ℕ) → k ≤ j → j < k + suc n → t.buckets j ≡ []
    moved j a b = elim (Bool-cases (k == j)) [
      | inl e ↦ let kj : k ≡ j = ground arith in r.stayed j (inl (omega (arith, kj))) ∙ rw e refl
      | inr e ↦ r.moved j (ground arith) (omega arith)
    ]

    other : (j : ℕ) → (k == j) ≡ false → (emptied k s).buckets j ≡ s.buckets j
    other j e = rw e refl

    stayed : (j : ℕ) → (j < k) ⊎ (k + suc n ≤ j) → t.buckets j ≡ s.buckets j
    stayed j (inl h) = r.stayed j (inl (omega arith)) ∙ other j (ground arith)
    stayed j (inr h) = r.stayed j (inr (omega arith)) ∙ other j (ground arith)

    gained :
        (u : Timer) (i : ℕ)
        → ((j : ℕ) → (i == j) ≡ false → occ u (s.buckets j) ≡ 0)
        → occ u exp' ≡ occ u exp + (if within k (suc n) i then occ u (s.buckets i) else 0)
    gained u i away = elim (Bool-cases (k == i)) [
      | inl e ↦
          let ki : k ≡ i = ground arith in
          let here : occ u (s.buckets k) ≡ occ u (s.buckets i) =
            ap (λ (x : ℕ). occ u (s.buckets x)) ki in
          ground (arith, r.gained u i still_away, occ-append u exp (s.buckets k), here)
      | inr e ↦
          let none_here : occ u (s.buckets k) ≡ 0 = away k (ground arith) in
          ground (arith, r.gained u i still_away, occ-append u exp (s.buckets k), none_here)
    ]
      where
        still_away : (j : ℕ) → (i == j) ≡ false → occ u ((emptied k s).buckets j) ≡ 0
        still_away j ne = elim (Bool-cases (k == j)) [
          | inl e ↦ rw e refl
          | inr e ↦ rw e (away j ne)
        ]

nil_of_flag : (xs : List Timer) → not (is_nil xs) ≡ false → xs ≡ []
nil_of_flag [] h = refl
nil_of_flag (x ∷ xs) h = cc

splice-Spliced :
    (n k : ℕ) (f : ℕ → Bool) (s : TimerSet) (exp : List Timer)
    → ((j : ℕ) → s.non_empty j ≡ not (is_nil (s.buckets j)))
    → ((j : ℕ) → k ≤ j → f j ≡ s.non_empty j)
    → let (t, exp') = splice (places k (bits f n k)) (s, exp) in Spliced k n s t exp exp'
unfolding splice
splice-Spliced zero k f s exp flagged same = record {
  last_kept = refl;
  next_kept = refl;
  moved = λ j a b. absurd (omega arith);
  stayed = λ j h. refl;
  flags = flagged;
  gained = λ u i h. ground arith;
}
splice-Spliced (suc n) k f s exp flagged same = elim (Bool-cases (f k)) [
  | inl e ↦ rw e (
      take-Spliced k n s _ exp _
        (splice-Spliced n (suc k) f (emptied k s) (exp ++ s.buckets k) flags' same'))
  | inr e ↦ rw e (
      skip-Spliced k n s _ exp _
        (nil_of_flag (s.buckets k) (sym (flagged k) ∙ sym (same k (omega arith)) ∙ e))
        (splice-Spliced n (suc k) f s exp flagged (λ j h. same j (omega arith))))
]
  where
    flags' : (j : ℕ) → (emptied k s).non_empty j ≡ not (is_nil ((emptied k s).buckets j))
    flags' j = elim (Bool-cases (k == j)) [ inl e ↦ rw e refl | inr e ↦ rw e (flagged j) ]

    same' : (j : ℕ) → suc k ≤ j → f j ≡ (emptied k s).non_empty j
    same' j h = let ne : (k == j) ≡ false = ground arith in rw ne (same j (omega arith))

drop-bits : (k n i : ℕ) (f : ℕ → Bool) → drop k (bits f (k + n) i) ≡ bits f n (k + i)
drop-bits zero n i f = ap₂ (bits f) (omega arith) (omega arith)
drop-bits (suc k) n i f =
    let e : suc k + n ≡ suc (k + n) = omega arith in
    let d : k + suc i ≡ suc k + i = omega arith in
    ap (λ (m : ℕ). drop (suc k) (bits f m i)) e ∙ drop-bits k n (suc i) f ∙ ap (bits f n) d

-- The loop over `for_each_set(_non_empty_buckets, k)` moves the buckets from `k` on.
pub first_loop :
    (k : ℕ) (s : TimerSet)
    → k ≤ 64
    → ((j : ℕ) → s.non_empty j ≡ not (is_nil (s.buckets j)))
    → let (t, exp) = splice (for_each_set (bits s.non_empty n_buckets 0) k) (s, []) in
      Spliced k (64 - k) s t [] exp
first_loop k s h flagged =
    subst (λ (l : List ℕ). let (t, exp) = splice l (s, []) in Spliced k (64 - k) s t [] exp)
      (sym walk) (splice-Spliced (64 - k) k s.non_empty s [] flagged (λ j le. refl))
  where
    all_bits : n_buckets ≡ k + (64 - k)
    all_bits = omega arith

    walk : for_each_set (bits s.non_empty n_buckets 0) k ≡ places k (bits s.non_empty (64 - k) k)
    walk =
        for_each_set-places (bits s.non_empty n_buckets 0) k
        ∙ ap (λ (m : ℕ). places k (drop k (bits s.non_empty m 0))) all_bits
        ∙ ap (places k) (drop-bits k (64 - k) 0 s.non_empty)
        ∙ ap (λ (m : ℕ). places k (bits s.non_empty (64 - k) m)) (add-zero k)
