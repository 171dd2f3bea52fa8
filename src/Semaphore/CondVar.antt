-- ===== src/Semaphore/CondVar.antt =====
-- include/future/semaphore.hh: `condition_variable`, a semaphore that holds no units.
use mseastar.Prelude.{
  ℕ, ◌+◌, ◌^◌, ◌<◌, ◌≤◌, ◌≡◌, refl, sym, ap, ◌∙◌, subst, ◌⊎◌, inl, inr, true, Option, some, List,
  [], ◌∷◌, ◌++◌, map, arith, length, length-append, word_add, word_sub, All-append, ◌==◌,
  if◌then◌else◌, append-nil, All, All-append_left, All-append_right,
}
use mseastar.ExpiringFifo.{time_point_max}
use mseastar.Semaphore
use mseastar.Semaphore.{Semaphore, Waiter, Event, granted, Future, ready, pending, has_available}
use mseastar.Semaphore.Served.{waiting, units, CannotServe, Served, signal-Served}
use mseastar.Semaphore.Ledger.{Inv, Balanced, waits, reply, wait_until-Balanced}
use mseastar.Semaphore.Settled.{wait_until-Waits}

pub new : Semaphore
new = Semaphore.init 0

pub wait : ℕ → Semaphore → Semaphore × Future
wait pr s = Semaphore.wait pr 1 s

-- `if (_sem.waiters()) { _sem.signal(); }`
pub signal : Semaphore → Option (Semaphore × List Event)
signal s = if Semaphore.waiters s == 0 then some (s, []) else Semaphore.signal 1 s

pub broadcast : Semaphore → Option (Semaphore × List Event)
broadcast s = Semaphore.signal (Semaphore.waiters s) s

-- No units are kept, and every fiber waits for one.
pub record IsIdle (s : Semaphore) : Type 0 where
  pub inv : Inv s
  pub no_units : s.count ≡ 0
  pub ones : All (λ (w : Waiter). w.nr ≡ 1) (waiting s)
  pub bounded : s.wait_list.size < 2 ^ 63

units-ones : (ws : List Waiter) → All (λ (w : Waiter). w.nr ≡ 1) ws → units ws ≡ length ws
units-ones [] h = refl
units-ones (w ∷ ws) h = omega (arith, h.0, units-ones ws h.1)

-- What is left when `n` units are signalled to at least `n` fibers that wait for one each.
pub record Woken (n : ℕ) (s t : Semaphore) (events : List Event) : Type 0 where
  pub woken : List Waiter
  pub how_many : length woken ≡ n
  pub in_order : waiting s ≡ woken ++ waiting t
  pub resolved : events ≡ map granted woken
  pub idle : IsIdle t

-- Where the head of the queue cannot have one unit, and units are left, nobody waits.
used_up :
    (c : ℕ) (ws : List Waiter)
    → All (λ (w : Waiter). w.nr ≡ 1) ws
    → CannotServe c ws
    → c < 2 ^ 63
    → (ws ≡ []) ⊎ (c ≡ 0)
used_up c [] h b k = inl refl
used_up c (w ∷ ws) h b k = ground arith

waiters-length : (s : Semaphore) → IsIdle s → Semaphore.waiters s ≡ length (waiting s)
unfolding Semaphore.waiters
waiters-length s v = v.inv.queue.counted

pub wakes :
    (n : ℕ) (s : Semaphore)
    → IsIdle s
    → n ≤ Semaphore.waiters s
    → (t : Semaphore) × (events : List Event) × (Semaphore.signal n s ≡ some (t, events))
      × Woken n s t events
wakes n s v le =
    let (t, events, runs, r) = Semaphore.Served.signal-Served n s v.inv.queue v.inv.unbroken in
    (t, events, runs, of_served t events r)
  where
    of_served :
        (t : Semaphore) (events : List Event)
        → Served s (word_add s.count n) t events
        → Woken n s t events
    of_served t events r = record {
      woken = r.served;
      how_many = counts.0;
      in_order = r.in_order;
      resolved = r.resolved;
      idle = record {
        inv = record { queue = r.valid; unbroken = r.ex_kept ∙ v.inv.unbroken };
        no_units = counts.1;
        ones = left_ones;
        bounded = omega (arith, r.valid.counted, lengths, sized, v.bounded);
      };
    }
      where
        all_ones : All (λ (w : Waiter). w.nr ≡ 1) (r.served ++ waiting t)
        all_ones = subst (All (λ w. w.nr ≡ 1)) r.in_order v.ones

        left_ones : All (λ (w : Waiter). w.nr ≡ 1) (waiting t)
        left_ones = All-append_right _ r.served (waiting t) all_ones

        sized : s.wait_list.size ≡ length (waiting s)
        sized = v.inv.queue.counted

        lengths : length (waiting s) ≡ length r.served + length (waiting t)
        lengths = ap length r.in_order ∙ length-append r.served (waiting t)

        one_each : units r.served ≡ length r.served
        one_each = units-ones r.served (All-append_left _ r.served (waiting t) all_ones)

        few : n < 2 ^ 63
        few = omega (arith, le, waiters-length s v, v.bounded, sized)

        below : t.count < 2 ^ 63
        below = r.nonneg (omega (arith, v.no_units, few))

        by_rest : (waiting t ≡ []) ⊎ (t.count ≡ 0) → (length r.served ≡ n) × (t.count ≡ 0)
        by_rest (inl e) = omega (
          arith,
          r.conserved,
          one_each,
          lengths,
          ap length e,
          le,
          waiters-length s v,
          v.no_units,
          below,
          few,
          sized,
          v.bounded,
        )
        by_rest (inr e) =
            omega (arith, r.conserved, one_each, lengths, le, v.no_units, few, sized, v.bounded)

        counts : (length r.served ≡ n) × (t.count ≡ 0)
        counts = by_rest (used_up t.count (waiting t) left_ones r.settled below)

one_of :
    (woken rest : List Waiter) (w : Waiter) (ws : List Waiter)
    → length woken ≡ 1
    → woken ++ rest ≡ w ∷ ws
    → (woken ≡ w ∷ []) × (rest ≡ ws)
one_of [] rest w ws h e = absurd (omega arith)
one_of (x ∷ []) rest w ws h e = (ground arith, ground arith)
one_of (x ∷ y ∷ l) rest w ws h e = absurd (omega arith)

signal_idle : (s : Semaphore) → Semaphore.waiters s ≡ 0 → signal s ≡ some (s, [])
unfolding signal
signal_idle s h = ground arith

signal_busy : (s : Semaphore) → 1 ≤ Semaphore.waiters s → signal s ≡ Semaphore.signal 1 s
unfolding signal
signal_busy s h = ground arith

length-zero : (ws : List Waiter) → length ws ≡ 0 → ws ≡ []
length-zero [] h = refl
length-zero (w ∷ ws) h = absurd (omega arith)

-- broadcast on a condition variable with no units kept wakes every fiber that waits, the longest
-- waiter first, and leaves nobody waiting and no units kept.
pub broadcast-wakes_all :
    (s : Semaphore)
    → IsIdle s
    → (t : Semaphore) × (broadcast s ≡ some (t, map granted (waiting s)))
      × (waiting t ≡ [])
      × IsIdle t
unfolding broadcast
broadcast-wakes_all s v =
    let (t, events, runs, k) = wakes (Semaphore.waiters s) s v (omega arith) in
    let nobody : waiting t ≡ [] = length-zero (waiting t) (
      omega (
        arith,
        k.how_many,
        waiters-length s v,
        ap length k.in_order,
        length-append k.woken (waiting t),
      )) in
    let everyone : waiting s ≡ k.woken =
      k.in_order ∙ ap (λ l. k.woken ++ l) nobody ∙ append-nil k.woken in
    (t, rw everyone (runs ∙ ap (λ l. some (t, l)) k.resolved), nobody, k.idle)

-- `signal` wakes the longest waiter alone; with nobody waiting it does nothing, so no signal is
-- kept for a later `wait`.
pub signal-wakes_one :
    (s : Semaphore)
    → IsIdle s
    → ((waiting s ≡ []) × (signal s ≡ some (s, [])))
      ⊎ ((w : Waiter) × (ws : List Waiter) × (t : Semaphore) × (waiting s ≡ w ∷ ws)
          × (signal s ≡ some (t, granted w ∷ []))
          × (waiting t ≡ ws)
          × IsIdle t)
signal-wakes_one s v = go (waiting s) refl
  where
    go :
        (l : List Waiter)
        → waiting s ≡ l
        → ((waiting s ≡ []) × (signal s ≡ some (s, [])))
          ⊎ ((w : Waiter) × (ws : List Waiter) × (t : Semaphore) × (waiting s ≡ w ∷ ws)
              × (signal s ≡ some (t, granted w ∷ []))
              × (waiting t ≡ ws)
              × IsIdle t)
    go [] e = inl (e, signal_idle s (omega (arith, waiters-length s v, ap length e)))
    go (w ∷ ws) e =
        let some_wait : 1 ≤ Semaphore.waiters s = omega (arith, waiters-length s v, ap length e) in
        let (t, events, runs, k) = wakes 1 s v some_wait in
        let (r, at) = one_of k.woken (waiting t) w ws k.how_many (sym k.in_order ∙ e) in
        inr (
          w,
          ws,
          t,
          e,
          signal_busy s some_wait ∙ runs ∙ ap (λ l. some (t, l)) (k.resolved ∙ ap (map granted) r),
          at,
          k.idle,
        )

-- A fiber that calls `wait` always waits, as the last of the queue, whatever was signalled before.
pub wait-queues :
    (pr : ℕ) (s : Semaphore)
    → IsIdle s
    → s.wait_list.size + 1 < 2 ^ 63
    → let (t, f) = wait pr s in
      (f ≡ pending pr) × (waiting t ≡ waiting s ++ record { pr = pr; nr = 1 } ∷ []) × IsIdle t
unfolding wait Semaphore.wait
wait-queues pr s v room = (
  queued.0,
  queued.2,
  record {
    inv = b.inv;
    no_units = queued.1 ∙ v.no_units;
    ones =
        subst (All (λ w. w.nr ≡ 1)) (sym queued.2) (All-append _ (waiting s) _ v.ones (refl, tt));
    bounded = omega (arith, b.grows, room);
  },
)
  where
    b : Balanced (waits pr time_point_max 1) s (wait pr s).0 (reply pr 1 (wait pr s).1)
    b = wait_until-Balanced pr time_point_max 1 s v.inv (omega arith)

    branches :
        ((waiting s ≡ [])
            × (has_available s.count 1 ≡ true)
            × ((wait pr s).1 ≡ ready)
            × (waiting (wait pr s).0 ≡ [])
            × ((wait pr s).0.count ≡ word_sub s.count 1))
          ⊎ (((wait pr s).1 ≡ pending pr)
              × ((wait pr s).0.count ≡ s.count)
              × (waiting (wait pr s).0 ≡ waiting s ++ record { pr = pr; nr = 1 } ∷ []))
        → ((wait pr s).1 ≡ pending pr)
          × ((wait pr s).0.count ≡ s.count)
          × (waiting (wait pr s).0 ≡ waiting s ++ record { pr = pr; nr = 1 } ∷ [])
    branches (inl h) = absurd (no_unit h.1)
      where
        no_unit : has_available s.count 1 ≡ true → ⊥
        no_unit e = ground (arith, v.no_units)
    branches (inr h) = h

    queued :
        ((wait pr s).1 ≡ pending pr)
        × ((wait pr s).0.count ≡ s.count)
        × (waiting (wait pr s).0 ≡ waiting s ++ record { pr = pr; nr = 1 } ∷ [])
    queued = branches (wait_until-Waits pr time_point_max 1 s v.inv).branch
