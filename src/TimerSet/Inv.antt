-- ===== src/TimerSet/Inv.antt =====
-- The representation invariant of `timer_set`, and the operations on one timer.
use mseastar.Prelude.{
  ℕ, ◌+◌, ◌^◌, ◌≤◌, ◌<◌, ◌≡◌, refl, sym, ap, ◌∙◌, subst, inl, inr, Bool, true, false, not, List, [],
  ◌∷◌, ◌++◌, arith, ltb, ◌==◌, if◌then◌else◌, min, max, Bool-cases,
}
use mseastar.TimerSet.{
  Timer, TimerSet, max_timestamp, update, is_nil, init, get_index, insert, same_timer,
  get_next_timeout,
}

-- 1 for the timer itself, and 0 for any other.
abbrev pub one_if : Timer → Timer → ℕ
one_if t u = if same_timer t u then 1 else 0

-- How often a timer stands in a list.
abbrev pub occ : Timer → List Timer → ℕ
occ t [] = 0
occ t (u ∷ us) = one_if t u + occ t us

pub same_timer_refl : (t : Timer) → same_timer t t ≡ true
unfolding same_timer
same_timer_refl t = ground arith

pub same_timer-eq : (t u : Timer) → same_timer t u ≡ true → t ≡ u
unfolding same_timer
same_timer-eq t u h = ground arith

pub occ-append : (t : Timer) (xs ys : List Timer) → occ t (xs ++ ys) ≡ occ t xs + occ t ys
occ-append t [] ys = omega arith
occ-append t (x ∷ xs) ys = omega (arith, occ-append t xs ys)

pub occ-nil : (xs : List Timer) → ((t : Timer) → occ t xs ≡ 0) → is_nil xs ≡ true
occ-nil [] h = refl
occ-nil (x ∷ xs) h = absurd (ground (arith, h x, same_timer_refl x))

pub is_nil-append : (xs : List Timer) (t : Timer) → is_nil (xs ++ t ∷ []) ≡ false
is_nil-append [] t = refl
is_nil-append (x ∷ xs) t = refl

pub record Member (s : TimerSet) (i : ℕ) (t : Timer) : Type 0 where
  pub placed : get_index s.last t.timeout ≡ i
  pub small : t.timeout < 2 ^ 63
  pub announced : s.next ≤ max s.last t.timeout

-- Each timer stands in the bucket of its timeout, which is no sooner than `_next` (or than `_last`);
-- the flags tell which buckets are empty.
pub record Inv (s : TimerSet) : Type 0 where
  pub last_small : s.last < 2 ^ 63
  pub next_small : s.next ≤ max_timestamp
  pub members : (i : ℕ) (t : Timer) → 0 < occ t (s.buckets i) → Member s i t
  pub flagged : (i : ℕ) → s.non_empty i ≡ not (is_nil (s.buckets i))

-- How often a timer is in the set.
abbrev pub count : Timer → TimerSet → ℕ
count t s = occ t (s.buckets (get_index s.last t.timeout))

-- A timer is in no bucket but its own.
pub occ-elsewhere :
    (s : TimerSet)
    → Inv s
    → (i : ℕ) (t : Timer) → (get_index s.last t.timeout == i) ≡ false
    → occ t (s.buckets i) ≡ 0
occ-elsewhere s v i t ne = elim (Bool-cases (occ t (s.buckets i) == 0)) [
  | inl e ↦ ground arith
  | inr e ↦ absurd (ground (arith, (v.members i t (ground arith)).placed))
]

pub init-Inv : Inv init
unfolding init
init-Inv = record {
  last_small = omega arith;
  next_small = omega arith;
  members = λ i t h. absurd (omega arith);
  flagged = λ i. refl;
}

pub count-init : (t : Timer) → count t init ≡ 0
unfolding init
count-init t = refl

pub next-insert : (t : Timer) (s : TimerSet) → (insert t s).0.next ≡ min t.timeout s.next
unfolding insert
next-insert t s = ground arith

pub last-insert : (t : Timer) (s : TimerSet) → (insert t s).0.last ≡ s.last
unfolding insert
last-insert t s = ground arith

pub buckets-insert :
    (t : Timer) (s : TimerSet)
    → let i = get_index s.last t.timeout in
      (insert t s).0.buckets ≡ update s.buckets i (s.buckets i ++ t ∷ [])
unfolding insert
buckets-insert t s = ground arith

pub non_empty-insert :
    (t : Timer) (s : TimerSet)
    → (insert t s).0.non_empty ≡ update s.non_empty (get_index s.last t.timeout) true
unfolding insert
non_empty-insert t s = ground arith

-- The bucket that gets a timer: one more of it.
pub occ-insert :
    (u t : Timer) (s : TimerSet) (j : ℕ)
    → occ u ((insert t s).0.buckets j)
      ≡ occ u (s.buckets j) + (if get_index s.last t.timeout == j then one_if u t else 0)
occ-insert u t s j =
    ap (λ (f : ℕ → List Timer). occ u (f j)) (buckets-insert t s)
    ∙ ground (arith, occ-append u (s.buckets j) (t ∷ []), same_bucket (get_index s.last t.timeout))
  where
    same_bucket :
        (i : ℕ)
        → occ u (update s.buckets i (s.buckets i ++ t ∷ []) j)
          ≡ occ u (s.buckets j) + (if i == j then one_if u t else 0)
    same_bucket i = elim (Bool-cases (i == j)) [
      | inl e ↦
          let ij : i ≡ j = ground arith in
          rw (e, ij) (occ-append u (s.buckets j) (t ∷ []) ∙ omega arith)
      | inr e ↦ rw e (omega arith)
    ]

told-insert : (t : Timer) (s : TimerSet) → (insert t s).1 ≡ ltb t.timeout s.next
unfolding insert
told-insert t s = ground arith

-- A timer that is the same goes to the same bucket.
pub one_if-bucket :
    (u t : Timer) (f : ℕ → ℕ) → (if f t.timeout == f u.timeout then one_if u t else 0) ≡ one_if u t
one_if-bucket u t f = elim (Bool-cases (same_timer u t)) [
  | inl e ↦ rw (same_timer-eq u t e) (ground arith)
  | inr e ↦ rw e (ground arith)
]

count-insert : (u t : Timer) (s : TimerSet) → count u (insert t s).0 ≡ count u s + one_if u t
count-insert u t s =
    ap (λ (l : ℕ). occ u ((insert t s).0.buckets (get_index l u.timeout))) (last-insert t s)
    ∙ occ-insert u t s (get_index s.last u.timeout)
    ∙ ap (λ (n : ℕ). count u s + n) (one_if-bucket u t (get_index s.last))

Member-insert :
    (t : Timer) (s : TimerSet) (i : ℕ) (u : Timer) → Member s i u → Member (insert t s).0 i u
Member-insert t s i u m = record {
  placed = ap (λ (l : ℕ). get_index l u.timeout) (last-insert t s) ∙ m.placed;
  small = m.small;
  announced = omega (arith, m.announced, next-insert t s, last-insert t s);
}

Member-insert_self :
    (t : Timer) (s : TimerSet)
    → t.timeout < 2 ^ 63
    → Member (insert t s).0 (get_index s.last t.timeout) t
Member-insert_self t s small = record {
  placed = ap (λ (l : ℕ). get_index l t.timeout) (last-insert t s);
  small = small;
  announced = omega (arith, next-insert t s, last-insert t s);
}

members-insert :
    (t : Timer) (s : TimerSet) (i : ℕ) (u : Timer)
    → t.timeout < 2 ^ 63
    → (0 < occ u (s.buckets i) → Member s i u)
    → 0 < occ u ((insert t s).0.buckets i)
    → Member (insert t s).0 i u
members-insert t s i u small old h = elim (Bool-cases (occ u (s.buckets i) == 0)) [
  | inr e ↦ Member-insert t s i u (old (ground arith))
  | inl e ↦
      let here : (get_index s.last t.timeout ≡ i) × (same_timer u t ≡ true) =
        (ground (arith, occ-insert u t s i), ground (arith, occ-insert u t s i)) in
      rw (← here.0, same_timer-eq u t here.1) (Member-insert_self t s small)
]

pub flagged-insert :
    (t : Timer) (s : TimerSet) (i : ℕ)
    → s.non_empty i ≡ not (is_nil (s.buckets i))
    → (insert t s).0.non_empty i ≡ not (is_nil ((insert t s).0.buckets i))
flagged-insert t s i h =
    ap (λ (f : ℕ → Bool). f i) (non_empty-insert t s)
    ∙ flags (get_index s.last t.timeout)
    ∙ ap (λ (f : ℕ → List Timer). not (is_nil (f i))) (sym (buckets-insert t s))
  where
    flags :
        (j : ℕ)
        → update s.non_empty j true i ≡ not (is_nil (update s.buckets j (s.buckets j ++ t ∷ []) i))
    flags j = elim (Bool-cases (j == i)) [
      | inl e ↦ rw e (ap not (sym (is_nil-append (s.buckets j) t)))
      | inr e ↦ rw e h
    ]

-- insert of a timer with a timestamp below 2 ^ 63 keeps the invariant. It adds the timer once and
-- changes no other, it sets _next to the sooner of the old one and the timer's, and it returns
-- whether _next has become sooner.
pub insert_lem :
    (t : Timer) (s : TimerSet)
    → t.timeout < 2 ^ 63
    → Inv s
    → Inv (insert t s).0
      × ((u : Timer) → count u (insert t s).0 ≡ count u s + one_if u t)
      × ((insert t s).0.next ≡ min t.timeout s.next)
      × ((insert t s).1 ≡ ltb t.timeout s.next)
insert_lem t s small v = (
  record {
    last_small = subst (λ (l : ℕ). l < 2 ^ 63) (sym (last-insert t s)) v.last_small;
    next_small = omega (arith, next-insert t s, v.next_small);
    members = λ i u h. members-insert t s i u small (v.members i u) h;
    flagged = λ i. flagged-insert t s i (v.flagged i);
  },
  (λ u. count-insert u t s),
  next-insert t s,
  told-insert t s,
)

-- No timer of a well-formed set is due before the time that get_next_timeout gives, unless it was
-- due when the set was last expired.
pub get_next_timeout-le :
    (s : TimerSet) (t : Timer) → Inv s → 0 < count t s → get_next_timeout s ≤ max s.last t.timeout
unfolding get_next_timeout
get_next_timeout-le s t v h = omega (arith, (v.members (get_index s.last t.timeout) t h).announced)
