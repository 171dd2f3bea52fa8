-- ===== src/Deleter/Tests.antt =====
-- include/util/deleter.hh: examples.
use mseastar.Prelude.{
  ℕ, ◌≡◌, ◌≢◌, refl, ap, Option, none, some, [], ◌∷◌, arith, ◌==◌, if◌then◌else◌,
}
use mseastar.Deleter.{
  ImplPointer, null, raw_object, impl_at, frees, runs, lambda_deleter, object_deleter, Impl, Heap,
  destroy, share_deleter, append_deleter, make_free_deleter,
}
use mseastar.Deleter.Chain.{Chain}
use mseastar.Deleter.Both.{append-BothDone, BothDone}
use mseastar.Deleter.Shared.{share-DoneByLast, DoneByLast}
use mseastar.Deleter.Early.{append-DoneEarly, DoneEarly}

-- A function, and memory behind it
abbrev first : Impl
first = record { refs = 1; next = raw_object 10; object = lambda_deleter (runs 5) }

abbrev second : Impl
second = record { refs = 1; next = null; object = object_deleter 6 }

-- Held by two deleters, with memory behind it
abbrev held : Impl
held = record { refs = 2; next = raw_object 10; object = object_deleter 7 }

abbrev heap : Heap
heap = record {
  impls = λ a.
      if a == 1
      then some first
      else if a == 2
      then some second
      else if a == 3
      then some held
      else none;
  top = 100;
  done = [];
}

first-Chain : Chain heap.impls (impl_at 1) (1 ∷ []) (runs 5 ∷ frees 10 ∷ [])
first-Chain = (refl, (first, (runs 5, (frees 10 ∷ [], ((refl, (refl, refl)), (refl, refl))))))

second-Chain : Chain heap.impls (impl_at 2) (2 ∷ []) (runs 6 ∷ [])
second-Chain = (refl, (second, (runs 6, ([], ((refl, (refl, refl)), (refl, refl))))))

append-BothDone_example :
    (r : ImplPointer × Heap) × ((append_deleter 2 (impl_at 1) (impl_at 2) heap ≡ some r)
      × ((k : Heap) × ((destroy 3 r.0 r.1 ≡ some k)
            × BothDone (1 ∷ []) (2 ∷ []) (runs 5 ∷ frees 10 ∷ runs 6 ∷ []) heap k)))
append-BothDone_example =
    append-BothDone 2 3 (impl_at 1) (impl_at 2) (1 ∷ []) (2 ∷ []) (runs 5 ∷ frees 10 ∷ [])
      (runs 6 ∷ []) heap first-Chain second-Chain
      (
        (λ e. ground (arith, e)),
        (tt, (((λ e. ground (arith, e)), tt), (((λ e. ground (arith, e)), tt), (tt, tt)))),
      )
      tt (ground arith) (ground arith)

share-DoneByLast_example :
    (r : ImplPointer × (ImplPointer × Heap)) × ((share_deleter (impl_at 1) heap ≡ some r)
      × DoneByLast 2 (runs 5 ∷ frees 10 ∷ []) heap r)
share-DoneByLast_example =
    share-DoneByLast 2 (impl_at 1) (1 ∷ []) (runs 5 ∷ frees 10 ∷ []) heap first-Chain (tt, tt)
      (ground arith)

frees_other : frees 10 ≢ frees 20
frees_other e = let q = ap (λ x. elim x [ frees p ↦ p | runs n ↦ 0 ]) e in ground (arith, q)

append-DoneEarly_example :
    (r : ImplPointer × Heap) × ((append_deleter 2 (impl_at 3) (raw_object 20) heap ≡ some r)
      × DoneEarly 3 3 held (frees 10 ∷ frees 20 ∷ []) heap r)
append-DoneEarly_example =
    append-DoneEarly 2 3 3 held (raw_object 20) [] [] (frees 10 ∷ []) (frees 20 ∷ []) heap refl
      (ground arith) (ground arith) refl refl (λ e. ground arith)
      ((λ e. ground (arith, e)), (tt, (tt, (tt, tt))))
      ((λ e. ground (arith, e)), (tt, (tt, (tt, tt)))) (frees_other, tt) (ground arith)
      (ground arith)

-- An object to be freed directly gets an `impl` when it is shared.
abbrev refs_at : ℕ → Option (ImplPointer × (ImplPointer × Heap)) → ℕ
refs_at a none = 0
refs_at a (some (p, (q, h))) = elim (h.impls a) [ none ↦ 0 | some i ↦ i.refs ]

share_deleter-raw : refs_at 100 (share_deleter (raw_object 8) heap) ≡ 2
unfolding share_deleter
share_deleter-raw = refl

make_free_deleter-null : make_free_deleter 0 ≡ null
make_free_deleter-null = refl

make_free_deleter-raw : make_free_deleter 48 ≡ raw_object 48
make_free_deleter-raw = refl
