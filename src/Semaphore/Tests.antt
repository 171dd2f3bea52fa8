-- ===== src/Semaphore/Tests.antt =====
-- Runs of the semaphore and of the condition variable, and the theorems at concrete inputs.
use mseastar.Prelude.{◌+◌, ◌%◌, ◌≡◌, refl, none, some, List, [], ◌∷◌, map, arith, word, word_add}
use mseastar.ExpiringFifo
use mseastar.ExpiringFifo.{Fifo, Entry}
use mseastar.ExpiringFifo.View.{Expires, expire-Expires}
use mseastar.Semaphore
use mseastar.Semaphore.{
  Semaphore, Waiter, Event, granted, refused, timed_out, pending, init, wait, wait_until, signal,
  consume, expire, ensure_space_for_waiters,
}
use mseastar.Semaphore.Served.{waiting, IsSettled, Served, signal-Served}
use mseastar.Semaphore.Ledger.{Inv, fires, run, run_books}
use mseastar.Semaphore.Settled.{Waits, wait_until-Waits, timeout_loses_wakeup}
use mseastar.Semaphore.CondVar
use mseastar.Semaphore.CondVar.{IsIdle, broadcast-wakes_all, signal-wakes_one, wait-queues}
use mseastar.Semaphore.Reserve.{reserve_breaks_signal}

abbrev big : Waiter
big = record { pr = 7; nr = 3 }

abbrev small : Waiter
small = record { pr = 8; nr = 1 }

-- One unit; a fiber waits for three until the time 50, and another for one.
abbrev two_wait : Semaphore
two_wait = record {
  count = 1;
  ex = none;
  wait_list = record {
    list =
        record { payload = some big; timeout = some 50 }
        ∷ record { payload = some small; timeout = none }
        ∷ [];
    size = 2;
  };
}

built : (wait 8 1 (wait_until 7 50 3 (init 1)).0).0 ≡ two_wait
unfolding wait init ExpiringFifo.empty ExpiringFifo.push_back_until ExpiringFifo.new
built = refl

two_wait-Inv : Inv two_wait
two_wait-Inv = record {
  queue = record { counted = refl; small = omega arith; front_live = refl };
  unbroken = refl;
}

served_both :
    signal 3 two_wait
    ≡ some (
      record two_wait { count = 0; wait_list = record { list = []; size = 0 } },
      granted big ∷ granted small ∷ [],
    )
unfolding signal Semaphore.signal_loop ExpiringFifo.empty ExpiringFifo.front ExpiringFifo.pop_front
served_both = refl

signal-Served_example :
    (t : Semaphore) × (events : List Event) × (signal 2 two_wait ≡ some (t, events))
    × Served two_wait (word_add 1 2) t events
signal-Served_example = signal-Served 2 two_wait two_wait-Inv.queue refl

abbrev after_timeout : Semaphore
after_timeout = record two_wait {
  wait_list = record { list = record { payload = some small; timeout = none } ∷ []; size = 1 };
}

run_books_example : Inv after_timeout × ((1 + 0 + 0) % word ≡ (1 + 0) % word)
unfolding run expire ExpiringFifo.expire
run_books_example =
    run_books (fires 0 ∷ []) two_wait after_timeout (refused big timed_out ∷ []) two_wait-Inv
      (omega arith) (omega arith, tt) refl

wait_until-Waits_example :
    Waits 9 1 two_wait (wait_until 9 60 1 two_wait).0 (wait_until 9 60 1 two_wait).1
wait_until-Waits_example = wait_until-Waits 9 60 1 two_wait two_wait-Inv

timeout_loses_wakeup_example :
    (waiting after_timeout ≡ small ∷ []) × (after_timeout.count ≡ 1) × ¬ IsSettled after_timeout
unfolding expire ExpiringFifo.expire
timeout_loses_wakeup_example =
    timeout_loses_wakeup two_wait after_timeout (refused big timed_out ∷ []) big small [] refl refl
      refl

reserve_breaks_signal_example : signal 5 (wait 7 3 (ensure_space_for_waiters 4 (init 0))).0 ≡ none
unfolding init
reserve_breaks_signal_example = reserve_breaks_signal 4 7 3 5 (init 0) refl refl (omega arith) refl

expire-Expires_example : Expires two_wait.wait_list after_timeout.wait_list big
unfolding ExpiringFifo.expire
expire-Expires_example =
    expire-Expires two_wait.wait_list 0 big after_timeout.wait_list two_wait-Inv.queue refl

-- Two fibers wait on a condition variable.
abbrev idle_two : Semaphore
idle_two = record {
  count = 0;
  ex = none;
  wait_list = record {
    list =
        record { payload = some (record { pr = 1; nr = 1 }); timeout = none }
        ∷ record { payload = some (record { pr = 2; nr = 1 }); timeout = none }
        ∷ [];
    size = 2;
  };
}

idle_two-IsIdle : IsIdle idle_two
idle_two-IsIdle = record {
  inv = record {
    queue = record { counted = refl; small = omega arith; front_live = refl };
    unbroken = refl;
  };
  no_units = refl;
  ones = (refl, (refl, tt));
  bounded = omega arith;
}

broadcast-wakes_all_example :
    (t : Semaphore) × (CondVar.broadcast idle_two ≡ some (t, map granted (waiting idle_two)))
    × (waiting t ≡ [])
    × IsIdle t
broadcast-wakes_all_example = broadcast-wakes_all idle_two idle_two-IsIdle
