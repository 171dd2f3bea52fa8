-- ===== src/Semaphore/Reserve.antt =====
-- `ensure_space_for_waiters`, which resizes the deque of the entries in place of reserving memory.
use mseastar.Prelude.{ℕ, zero, suc, ◌<◌, ◌≡◌, ap, ◌∙◌, false, none, arith, length, word_add}
use mseastar.ExpiringFifo
use mseastar.ExpiringFifo.{time_point_max}
use mseastar.ExpiringFifo.View.{reserve-no_front}
use mseastar.Semaphore.{
  Semaphore, has_available, wait, signal, signal_loop, ensure_space_for_waiters,
}

loop_no_front :
    (fuel : ℕ) (s : Semaphore)
    → ExpiringFifo.empty s.wait_list ≡ false
    → ExpiringFifo.front s.wait_list ≡ none
    → signal_loop fuel s ≡ none
unfolding signal_loop
loop_no_front zero s e f = ground arith
loop_no_front (suc fuel) s e f = rw (e, f)

signal-signal_loop :
    (k : ℕ) (s : Semaphore)
    → s.ex ≡ none
    → signal k s ≡ signal_loop (length s.wait_list.list) (record s { count = word_add s.count k })
unfolding signal
signal-signal_loop k s e = ground arith

wait_queues :
    (pr nr : ℕ) (s : Semaphore)
    → s.ex ≡ none
    → has_available s.count nr ≡ false
    → (wait pr nr s).0 ≡ record s {
      wait_list =
          ExpiringFifo.push_back_until (record { pr = pr; nr = nr }) time_point_max s.wait_list;
    }
unfolding wait
wait_queues pr nr s e h = ground arith

-- Where nobody has waited yet, ensure_space_for_waiters(n) with 0 < n makes the next signal
-- undefined behaviour as soon as a fiber waits: whatever is signalled, the front of the queue that
-- signal reads is an entry with no payload.
pub reserve_breaks_signal :
    (n pr nr k : ℕ) (s : Semaphore)
    → s.ex ≡ none
    → s.wait_list ≡ ExpiringFifo.new
    → 0 < n
    → has_available s.count nr ≡ false
    → signal k (wait pr nr (ensure_space_for_waiters n s)).0 ≡ none
unfolding ensure_space_for_waiters
reserve_breaks_signal n pr nr k s e new pos no_units =
    let (more, no_front) = reserve-no_front n (record { pr = pr; nr = nr }) time_point_max pos in
    let list_is =
      ap
        (λ f.
          ExpiringFifo.push_back_until (record { pr = pr; nr = nr }) time_point_max
            (ExpiringFifo.reserve n f))
        new in
    rw (wait_queues pr nr (ensure_space_for_waiters n s) e no_units) (
      signal-signal_loop k _ e
      ∙ loop_no_front _ _ (ap ExpiringFifo.empty list_is ∙ more)
          (ap ExpiringFifo.front list_is ∙ no_front))
