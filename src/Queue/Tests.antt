-- ===== src/Queue/Tests.antt =====
-- include/future/queue_.hh: runs of a queue with room for two items.
use mseastar.Prelude.{ℕ, ◌≡◌, refl, true, none, some, some, List, [], ◌∷◌, length, arith}
use mseastar.Queue.{
  Queue, resolved, broken, push, pop, resume_push, set_max_size, abort, not_empty_future,
  pop_eventually, push_eventually,
}
use mseastar.Queue.Ops.{
  Op, push_item, pushed_later, pop_item, resize, wait_not_empty, abort_with, pop_later, push_later,
  perform, step, run, events, promises,
}
use mseastar.Queue.Promises.{Fair, sum_of, overwrites, aborts}
use mseastar.Queue.Wakeup.{IsSettled, resume_push-exceeds}
use mseastar.Queue.Fair.{run-Fair}

-- Two items, and a writer that waits for the promise 9.
abbrev two : Queue ℕ
two = record { q = 4 ∷ 5 ∷ []; max = 2; not_empty = none; not_full = some 9; ex = none }

two-IsSettled : IsSettled two
two-IsSettled = (λ e. ground arith, λ e. omega arith)

-- A reader waits, and another in its place; one is broken, and the other gets its item.
abbrev ops : List (Op ℕ)
ops =
    pop_item
    ∷ push_item 6
    ∷ pushed_later 7
    ∷ resize 1
    ∷ abort_with 3
    ∷ wait_not_empty 8
    ∷ pop_later 10
    ∷ push_later 11 1
    ∷ push_later 12 2
    ∷ []

run-Fair_example :
    IsSettled (run ops two)
    × Fair two
        (promises ops two)
        (events ops two)
        (run ops two)
        (sum_of overwrites ops two)
        (sum_of aborts ops two)
run-Fair_example = run-Fair ops two two-IsSettled

events-ops : events ops two ≡ resolved 9 ∷ broken 8 ∷ resolved 10 ∷ []
unfolding events step perform pop push resume_push set_max_size abort not_empty_future
    pop_eventually push_eventually
events-ops = refl

promises-ops : promises ops two ≡ 8 ∷ 10 ∷ 12 ∷ []
unfolding promises step perform pop push resume_push set_max_size abort not_empty_future
    pop_eventually push_eventually
promises-ops = refl

resume_push-exceeds_example :
    (t : Queue ℕ) × ((pop two ≡ some ((t, resolved 9 ∷ []), 4))
      × (((push 6 t).1 ≡ true) × (length (resume_push 7 (push 6 t).0.0).0.q ≡ 3)))
resume_push-exceeds_example = resume_push-exceeds two 4 7 6 (5 ∷ []) 9 refl refl refl
