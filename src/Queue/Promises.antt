-- ===== src/Queue/Promises.antt =====
-- include/future/queue_.hh: how promises and events are counted.
use mseastar.Prelude.{
  ℕ, ◌+◌, ◌≡◌, refl, Option, none, some, List, [], ◌∷◌, ◌++◌, arith, ◌==◌, if◌then◌else◌,
}
use mseastar.Queue.{Queue, Event, resolved, failed, broken, resolve, fail_with, break, full, empty}
use mseastar.Queue.Ops.{Op, pop_later, wait_not_empty, wait_not_full, push_later, abort_with, step}

-- How often a promise is one of these, and how often an event is about it.
abbrev pub same : ℕ → ℕ → ℕ
same p q = if q == p then 1 else 0

abbrev pub copies : ℕ → List ℕ → ℕ
copies p [] = 0
copies p (q ∷ qs) = same p q + copies p qs

abbrev pub promise_of : Event → ℕ
promise_of (resolved p) = p
promise_of (failed p e) = p
promise_of (broken p) = p

abbrev pub about : ℕ → List Event → ℕ
about p [] = 0
about p (e ∷ es) = same p (promise_of e) + about p es

-- How many events break a promise, and how many give it an exception.
abbrev pub breaks : List Event → ℕ
breaks [] = 0
breaks (broken p ∷ es) = 1 + breaks es
breaks (e ∷ es) = breaks es

abbrev pub failures : List Event → ℕ
failures [] = 0
failures (failed p e ∷ es) = 1 + failures es
failures (e ∷ es) = failures es

abbrev pub held : ℕ → Option ℕ → ℕ
held p none = 0
held p (some q) = same p q

abbrev pub one_if_set : Option ℕ → ℕ
one_if_set none = 0
one_if_set (some q) = 1

module _ {A : Type 0} where
  -- How often the queue holds a promise.
  abbrev pub waiting : ℕ → Queue A → ℕ
  waiting p s = held p s.not_empty + held p s.not_full

  -- The promises that an operation overwrites, because another fiber waits for the same already.
  abbrev pub overwrites : Op A → Queue A → ℕ
  overwrites (wait_not_empty p) s = if empty s then one_if_set s.not_empty else 0
  overwrites (pop_later p) s = if empty s then one_if_set s.not_empty else 0
  overwrites (wait_not_full p) s = if full s then one_if_set s.not_full else 0
  overwrites (push_later p a) s = if full s then one_if_set s.not_full else 0
  overwrites _ s = 0

  -- The promises that an operation aborts.
  abbrev pub aborts : Op A → Queue A → ℕ
  aborts (abort_with e) s = one_if_set s.not_full + one_if_set s.not_empty
  aborts _ s = 0

  abbrev pub sum_of : (Op A → Queue A → ℕ) → List (Op A) → Queue A → ℕ
  sum_of f [] s = 0
  sum_of f (o ∷ os) s = f o s + sum_of f os (step o s)

  -- Each promise that was held or is waited for anew has one event or is still held; so many are broken
  -- and so many fail.
  abbrev pub Fair : Queue A → List ℕ → List Event → Queue A → ℕ → ℕ → Type 0
  Fair s made es t lost failing =
      ((p : ℕ) → waiting p s + copies p made ≡ about p es + waiting p t)
      × ((breaks es ≡ lost) × (failures es ≡ failing))

pub about-append : (p : ℕ) (xs ys : List Event) → about p (xs ++ ys) ≡ about p xs + about p ys
about-append p [] ys = omega arith
about-append p (x ∷ xs) ys = omega (arith, about-append p xs ys)

pub breaks-append : (xs ys : List Event) → breaks (xs ++ ys) ≡ breaks xs + breaks ys
breaks-append [] ys = omega arith
breaks-append (resolved p ∷ xs) ys = breaks-append xs ys
breaks-append (failed p e ∷ xs) ys = breaks-append xs ys
breaks-append (broken p ∷ xs) ys = omega (arith, breaks-append xs ys)

pub failures-append : (xs ys : List Event) → failures (xs ++ ys) ≡ failures xs + failures ys
failures-append [] ys = omega arith
failures-append (resolved p ∷ xs) ys = failures-append xs ys
failures-append (failed p e ∷ xs) ys = omega (arith, failures-append xs ys)
failures-append (broken p ∷ xs) ys = failures-append xs ys

pub copies-append : (p : ℕ) (xs ys : List ℕ) → copies p (xs ++ ys) ≡ copies p xs + copies p ys
copies-append p [] ys = omega arith
copies-append p (x ∷ xs) ys = omega (arith, copies-append p xs ys)

pub about-resolve : (p : ℕ) (o : Option ℕ) → about p (resolve o) ≡ held p o
about-resolve p none = refl
about-resolve p (some q) = omega arith

pub resolve-kinds : (o : Option ℕ) → (breaks (resolve o) ≡ 0) × (failures (resolve o) ≡ 0)
resolve-kinds none = (refl, refl)
resolve-kinds (some q) = (refl, refl)

pub about-break : (p : ℕ) (o : Option ℕ) → about p (break o) ≡ held p o
about-break p none = refl
about-break p (some q) = omega arith

pub break-kinds : (o : Option ℕ) → (breaks (break o) ≡ one_if_set o) × (failures (break o) ≡ 0)
break-kinds none = (refl, refl)
break-kinds (some q) = (refl, refl)

pub about-fail : (p e : ℕ) (o : Option ℕ) → about p (fail_with e o) ≡ held p o
about-fail p e none = refl
about-fail p e (some q) = omega arith

pub fail-kinds :
    (e : ℕ) (o : Option ℕ)
    → (breaks (fail_with e o) ≡ 0) × (failures (fail_with e o) ≡ one_if_set o)
fail-kinds e none = (refl, refl)
fail-kinds e (some q) = (refl, refl)
