-- ===== src/Semaphore/Settled.antt =====
-- Who waits on a `basic_semaphore`, and whether anybody waits for units that are there.
use mseastar.Prelude.{
  ℕ, ◌+◌, ◌^◌, ◌%◌, Option-cases, ◌<◌, ◌≤◌, ◌≡◌, refl, sym, ap, ◌∙◌, subst, ◌⊎◌, inl, inr, true,
  false, none, some, List, [], ◌∷◌, ◌++◌, arith, word, word_sub, Bool-cases,
}
use mseastar.ExpiringFifo
use mseastar.ExpiringFifo.View.{empty_iff, contents-push_back_until, expire_front}
use mseastar.Semaphore.{
  Semaphore, Waiter, Event, Future, ready, pending, has_available, may_proceed, wait_until, consume,
  expire,
}
use mseastar.Semaphore.Served.{waiting, CannotServe, IsSettled}
use mseastar.Semaphore.Ledger.{Inv, expire_parts}

-- What `wait` does: with enough units and nobody in front, it takes the units at once; otherwise the
-- fiber goes to the end of the queue and the count stays.
pub record Waits (pr nr : ℕ) (s t : Semaphore) (f : Future) : Type 0 where
  pub branch :
      ((waiting s ≡ [])
        × (has_available s.count nr ≡ true)
        × (f ≡ ready)
        × (waiting t ≡ [])
        × (t.count ≡ word_sub s.count nr))
      ⊎ ((f ≡ pending pr)
          × (t.count ≡ s.count)
          × (waiting t ≡ waiting s ++ record { pr = pr; nr = nr } ∷ []))
  pub keeps : IsSettled s → IsSettled t

CannotServe-append :
    (c : ℕ) (ws : List Waiter) (w : Waiter)
    → CannotServe c ws
    → (ws ≡ [] → has_available c w.nr ≡ false)
    → CannotServe c (ws ++ w ∷ [])
CannotServe-append c [] w h k = k refl
CannotServe-append c (x ∷ ws) w h k = h

abbrev after_push : ℕ → ℕ → ℕ → Semaphore → Semaphore
after_push pr timeout nr s = record s {
  wait_list = ExpiringFifo.push_back_until (record { pr = pr; nr = nr }) timeout s.wait_list;
}

wait_proceeds :
    (pr timeout nr : ℕ) (s : Semaphore)
    → may_proceed s nr ≡ true
    → wait_until pr timeout nr s ≡ (record s { count = word_sub s.count nr }, ready)
unfolding wait_until
wait_proceeds pr timeout nr s h = ground arith

wait_queues :
    (pr timeout nr : ℕ) (s : Semaphore)
    → s.ex ≡ none
    → may_proceed s nr ≡ false
    → wait_until pr timeout nr s ≡ (after_push pr timeout nr s, pending pr)
unfolding wait_until
wait_queues pr timeout nr s e h = ground arith

proceed_parts :
    (s : Semaphore) (nr : ℕ)
    → may_proceed s nr ≡ true
    → (has_available s.count nr ≡ true) × (ExpiringFifo.empty s.wait_list ≡ true)
unfolding may_proceed
proceed_parts s nr h = ground arith

blocked_parts :
    (s : Semaphore) (nr : ℕ)
    → may_proceed s nr ≡ false
    → ExpiringFifo.empty s.wait_list ≡ true
    → has_available s.count nr ≡ false
unfolding may_proceed
blocked_parts s nr h e = ground arith

-- A fiber that calls wait on a semaphore that is well formed and not broken is served at once only
-- if nobody waits, and it then takes its units; otherwise it becomes the last of the queue and the
-- count stays. If nobody waited for units that were there, nobody does after it.
pub wait_until-Waits :
    (pr timeout nr : ℕ) (s : Semaphore)
    → Inv s
    → let (t, f) = wait_until pr timeout nr s in Waits pr nr s t f
wait_until-Waits pr timeout nr s v = elim (Bool-cases (may_proceed s nr)) [
  | inl h ↦
      let (enough, nobody) = proceed_parts s nr h in
      let no_one = (empty_iff s.wait_list v.queue).0 nobody in
      rw (wait_proceeds pr timeout nr s h) (record {
        branch = inl (no_one, enough, refl, no_one, refl);
        keeps = λ _. subst (CannotServe (word_sub s.count nr)) (sym no_one) tt;
      })
  | inr h ↦
      let pushed = contents-push_back_until (record { pr = pr; nr = nr }) timeout s.wait_list in
      rw (wait_queues pr timeout nr s v.unbroken h) (record {
        branch = inr (refl, refl, pushed);
        keeps = λ b. subst (CannotServe s.count) (sym pushed) (
            CannotServe-append s.count (waiting s) _ b
              (λ e. blocked_parts s nr h ((empty_iff s.wait_list v.queue).1 e)));
      })
]

CannotServe-mono :
    (c d : ℕ) (ws : List Waiter)
    → ((nr : ℕ) → has_available c nr ≡ false → has_available d nr ≡ false)
    → CannotServe c ws
    → CannotServe d ws
CannotServe-mono c d [] f h = tt
CannotServe-mono c d (w ∷ ws) f h = f w.nr h

-- `consume` that does not take the signed count below -2 ^ 63, where it would wrap to a positive
-- one, leaves nobody waiting for units that are there.
pub consume-IsSettled :
    (nr : ℕ) (s : Semaphore)
    → s.count < word
    → nr ≤ (s.count + 2 ^ 63) % word
    → IsSettled s
    → IsSettled (consume nr s)
unfolding consume
consume-IsSettled nr s small h b = elim (Option-cases s.ex) [
  | inl e ↦
      rw (e, consume)
        (CannotServe-mono s.count (word_sub s.count nr) (waiting s) (λ k no_units. ground arith) b)
  | inr (x, e) ↦ rw (e, consume) b
]

-- The lost wakeup. Where the longest waiter times out and the next one asks for no more units than
-- there are, the next one goes on waiting: the count stays, and afterwards somebody waits for units
-- that are there.
pub timeout_loses_wakeup :
    (s t : Semaphore) (events : List Event) (w x : Waiter) (ws : List Waiter)
    → waiting s ≡ w ∷ x ∷ ws
    → has_available s.count x.nr ≡ true
    → expire 0 s ≡ some (t, events)
    → (waiting t ≡ x ∷ ws) × (t.count ≡ s.count) × ¬ IsSettled t
timeout_loses_wakeup s t events w x ws e b h =
    let (a, rest, fired, et, ee) = expire_parts 0 s t events h in
    let (_, left) = expire_front s.wait_list a w rest (x ∷ ws) e fired in
    let now : waiting t ≡ x ∷ ws = ap waiting et ∙ left in
    let kept : t.count ≡ s.count = ap (λ (y : Semaphore). y.count) et in
    (now, kept, λ settled. unfit (subst (CannotServe t.count) now settled) kept)
  where
    unfit : has_available t.count x.nr ≡ false → t.count ≡ s.count → ⊥
    unfit no_units k = ground arith
