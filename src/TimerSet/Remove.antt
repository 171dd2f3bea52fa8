-- ===== src/TimerSet/Remove.antt =====
-- `timer_set::remove`.
use mseastar.Prelude.{
  ℕ, ◌+◌, ◌≤◌, ◌<◌, ◌≡◌, refl, ap, ◌∙◌, subst, inl, inr, true, false, not, List, [], ◌∷◌, arith,
  ◌==◌, if◌then◌else◌, Bool-cases,
}
use mseastar.TimerSet.{Timer, TimerSet, update, is_nil, get_index, same_timer, erase, remove}
use mseastar.TimerSet.Inv.{one_if, occ, same_timer_refl, same_timer-eq, Inv, count, one_if-bucket}

occ-erase :
    (u t : Timer) (xs : List Timer) → 0 < occ t xs → occ u (erase t xs) + one_if u t ≡ occ u xs
unfolding erase
occ-erase u t [] h = absurd (omega arith)
occ-erase u t (x ∷ xs) h = elim (Bool-cases (same_timer t x)) [
  | inl e ↦ let tx = same_timer-eq t x e in rw (tx, same_timer_refl x) (omega arith)
  | inr e ↦ rw e (omega (arith, occ-erase u t xs (ground arith)))
]

occ-erase-le : (u t : Timer) (xs : List Timer) → occ u (erase t xs) ≤ occ u xs
unfolding erase
occ-erase-le u t [] = omega arith
occ-erase-le u t (x ∷ xs) = ground (arith, occ-erase-le u t xs)

erase-nil : (t : Timer) (xs : List Timer) → is_nil xs ≡ true → is_nil (erase t xs) ≡ true
unfolding erase
erase-nil t [] h = refl
erase-nil t (x ∷ xs) h = cc

abbrev without : Timer → TimerSet → ℕ → List Timer
without t s i = erase t (s.buckets i)

buckets-remove :
    (t : Timer) (s : TimerSet)
    → (remove t s).buckets
      ≡ update s.buckets (get_index s.last t.timeout) (without t s (get_index s.last t.timeout))
unfolding remove
buckets-remove t s = refl

occ-remove-le :
    (u t : Timer) (s : TimerSet) (i : ℕ) → occ u ((remove t s).buckets i) ≤ occ u (s.buckets i)
unfolding remove
occ-remove-le u t s i = go (get_index s.last t.timeout)
  where
    go : (j : ℕ) → occ u (update s.buckets j (without t s j) i) ≤ occ u (s.buckets i)
    go j = elim (Bool-cases (j == i)) [
      | inl e ↦ let ji : j ≡ i = ground arith in rw (e, ji) (occ-erase-le u t (s.buckets i))
      | inr e ↦ rw e (omega arith)
    ]

flagged-remove :
    (t : Timer) (s : TimerSet) (i : ℕ)
    → s.non_empty i ≡ not (is_nil (s.buckets i))
    → (remove t s).non_empty i ≡ not (is_nil ((remove t s).buckets i))
unfolding remove
flagged-remove t s i h = go (get_index s.last t.timeout)
  where
    go :
        (j : ℕ)
        → (if is_nil (without t s j) then update s.non_empty j false else s.non_empty) i
          ≡ not (is_nil (update s.buckets j (without t s j) i))
    go j = elim (Bool-cases (j == i)) [
      | inl e ↦
          let ji : j ≡ i = ground arith in
          elim (Bool-cases (is_nil (without t s i))) [
            | inl n ↦ rw (e, ji, n) (ground arith)
            | inr n ↦ rw (e, ji, n) (ground (arith, h, erase-nil t (s.buckets i)))
          ]
      | inr e ↦ elim (Bool-cases (is_nil (without t s j))) [
        | inl n ↦ rw (n, e) (ground arith)
        | inr n ↦ rw (n, e) h
      ]
    ]

count-remove :
    (u t : Timer) (s : TimerSet) → 0 < count t s → count u (remove t s) + one_if u t ≡ count u s
unfolding remove
count-remove u t s h = go (get_index s.last) h
  where
    go :
        (f : ℕ → ℕ)
        → 0 < occ t (s.buckets (f t.timeout))
        → occ u (update s.buckets (f t.timeout) (without t s (f t.timeout)) (f u.timeout))
            + one_if u t
          ≡ occ u (s.buckets (f u.timeout))
    go f k = elim (Bool-cases (f t.timeout == f u.timeout)) [
      | inl e ↦
          let same_place : f t.timeout ≡ f u.timeout = ground arith in
          rw e (
            ap (λ (j : ℕ). occ u (without t s j) + one_if u t) same_place
            ∙ occ-erase u t (s.buckets (f u.timeout))
                (subst (λ (j : ℕ). 0 < occ t (s.buckets j)) same_place k))
      | inr e ↦ rw e (ground (arith, one_if-bucket u t f))
    ]

-- `remove` of a timer in the set keeps the invariant and takes it away once, and no other.
pub remove_lem :
    (t : Timer) (s : TimerSet)
    → Inv s
    → 0 < count t s
    → Inv (remove t s) × ((u : Timer) → count u (remove t s) + one_if u t ≡ count u s)
unfolding remove
remove_lem t s v h = (
  record {
    last_small = v.last_small;
    next_small = v.next_small;
    members = λ i u k.
        let m = v.members i u (omega (arith, k, occ-remove-le u t s i)) in
        record { placed = m.placed; small = m.small; announced = m.announced };
    flagged = λ i. flagged-remove t s i (v.flagged i);
  },
  λ u. count-remove u t s h,
)
