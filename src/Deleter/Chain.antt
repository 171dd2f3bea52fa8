-- ===== src/Deleter/Chain.antt =====
-- include/util/deleter.hh: chains of deleters that nobody else shares, and how they are destroyed.
use mseastar.Prelude.{
  ℕ, zero, suc, ◌+◌, ◌-◌, ◌%◌, ◌≤◌, ◌≡◌, ◌≢◌, refl, sym, ap, ◌∙◌, true, false, Option, none, some,
  List, [], ◌∷◌, ◌++◌, append_assoc, append-nil, arith, ◌==◌, if◌then◌else◌, length, All, All-imp,
}
use mseastar.Deleter.{
  ImplPointer, null, raw_object, impl_at, Action, frees, runs, Object, lambda_deleter, free_deleter,
  object_deleter, deleter_object, Impl, Heap, refs_values, store, set_impl, act, destroy_object,
  then_heap, delete_impl, release, destroy,
}

pub store-at : (a : ℕ) (i : Option Impl) (impls : ℕ → Option Impl) → store a i impls a ≡ i
store-at a i impls = let t : (a == a) ≡ true = ground arith in rw t refl

pub store-other :
    (a b : ℕ) (i : Option Impl) (impls : ℕ → Option Impl) → b ≢ a → store a i impls b ≡ impls b
store-other a b i impls n = let f : (b == a) ≡ false = ground (arith, n) in rw f refl

-- The one action of an object, which is not itself a deleter
abbrev pub action_of : Object → Option Action
action_of (lambda_deleter e) = some e
action_of (free_deleter p) = some (frees p)
action_of (object_deleter n) = some (runs n)
action_of (deleter_object d) = none

-- From the pointer on stand exactly these `impl`s, each with one reference, which do these actions.
abbrev pub Chain : (ℕ → Option Impl) → ImplPointer → List ℕ → List Action → Type 0
Chain impls null [] acts = acts ≡ []
Chain impls (raw_object p) [] acts = acts ≡ frees p ∷ []
Chain impls (impl_at a) [] acts = ⊥
Chain impls p (a ∷ l) acts =
    (p ≡ impl_at a)
    × ((i : Impl) × ((e : Action) × ((rest : List Action) × (((impls a ≡ some i)
                × ((i.refs ≡ 1) × (action_of i.object ≡ some e)))
              × ((acts ≡ e ∷ rest) × Chain impls i.next l rest)))))

abbrev pub Distinct : List ℕ → Type 0
Distinct [] = Unit
Distinct (a ∷ l) = All (λ b. b ≢ a) l × Distinct l

pub Chain-same :
    (impls impls' : ℕ → Option Impl) (p : ImplPointer) (l : List ℕ) (acts : List Action)
    → All (λ b. impls' b ≡ impls b) l
    → Chain impls p l acts
    → Chain impls' p l acts
Chain-same impls impls' null [] acts s c = c
Chain-same impls impls' (raw_object q) [] acts s c = c
Chain-same impls impls' (impl_at a) [] acts s c = c
Chain-same impls impls' p (a ∷ l) acts (s, t) (q, (i, (e, (rest, ((x, y), (z, c)))))) =
    (q, (i, (e, (rest, ((s ∙ x, y), (z, Chain-same impls impls' i.next l rest t c))))))

-- The actions are done, in order, the `impl`s are freed, and all else is as it was.
abbrev pub Gone : List ℕ → List Action → Heap → Heap → Type 0
Gone l acts h k =
    (k.done ≡ h.done ++ acts)
    × ((k.top ≡ h.top)
        × (All (λ a. k.impls a ≡ none) l × ((b : ℕ) → All (λ a. b ≢ a) l → k.impls b ≡ h.impls b)))

destroy_object-action :
    (d : ImplPointer → Heap → Option Heap) (o : Object) (e : Action) (h : Heap)
    → action_of o ≡ some e
    → destroy_object d o h ≡ some (act e h)
destroy_object-action d (lambda_deleter e) e' h q =
    let s : e ≡ e' = cc in ap (λ x. some (act x h)) s
destroy_object-action d (free_deleter p) e' h q =
    let s : frees p ≡ e' = cc in ap (λ x. some (act x h)) s
destroy_object-action d (object_deleter n) e' h q =
    let s : runs n ≡ e' = cc in ap (λ x. some (act x h)) s
destroy_object-action d (deleter_object p) e' h q = ground arith

-- The last reference: the action, the rest, and the memory.
release-last :
    (d : ImplPointer → Heap → Option Heap) (a : ℕ) (i : Impl) (e : Action) (h k : Heap)
    → i.refs ≡ 1
    → action_of i.object ≡ some e
    → d i.next (act e (set_impl a (some (record i { refs = 0 })) h)) ≡ some k
    → release d a (some i) h ≡ some (set_impl a none k)
release-last d a i e h k r o t =
    let counted = set_impl a (some (record i { refs = 0 })) h in
    let z : (i.refs + refs_values - 1) % refs_values ≡ 0 = omega (arith, r) in
    ap
      (λ n.
        if n == 0
        then delete_impl d a i (set_impl a (some (record i { refs = n })) h)
        else some (set_impl a (some (record i { refs = n })) h))
      z
    ∙ ap (λ x. then_heap x (λ g. then_heap (d i.next g) (λ k. some (set_impl a none k))))
        (destroy_object-action d i.object e counted o)
    ∙ ap (λ x. then_heap x (λ k. some (set_impl a none k))) t

freed-All :
    (a : ℕ) (impls : ℕ → Option Impl) (l : List ℕ)
    → All (λ b. b ≢ a) l
    → All (λ b. impls b ≡ none) l
    → All (λ b. store a none impls b ≡ none) l
freed-All a impls [] n h = tt
freed-All a impls (b ∷ l) (n, ns) (h, hs) =
    (store-other a b none impls n ∙ h, freed-All a impls l ns hs)

-- A deleter that nobody else shares does all its actions, in order, each once, and frees all its
-- `impl`s, when it is destroyed.
pub destroy-Chain :
    (fuel : ℕ) (p : ImplPointer) (l : List ℕ) (acts : List Action) (h : Heap)
    → Chain h.impls p l acts
    → Distinct l
    → length l ≤ fuel
    → (k : Heap) × ((destroy fuel p h ≡ some k) × Gone l acts h k)
unfolding destroy
destroy-Chain fuel null [] acts h c d n = (
  h,
  (refl, (sym (append-nil h.done) ∙ ap (λ x. h.done ++ x) (sym c), (refl, (tt, λ b x. refl)))),
)
destroy-Chain fuel (raw_object q) [] acts h c d n =
    (act (frees q) h, (refl, (ap (λ x. h.done ++ x) (sym c), (refl, (tt, λ b x. refl)))))
destroy-Chain fuel (impl_at a) [] acts h c d n = absurd c
destroy-Chain zero p (a ∷ l) acts h c d n = ground arith
destroy-Chain (suc fuel) p (a ∷ l) acts h (q, (i, (e, (rest, ((x, (y, o)), (z, c)))))) (apart, d)
      n =
    let counted = set_impl a (some (record i { refs = 0 })) h in
    let left : All (λ b. counted.impls b ≡ h.impls b) l =
      All-imp (λ b. b ≢ a) (λ b m. store-other a b (some (record i { refs = 0 })) h.impls m) l
        apart in
    let (k, (t, (done, (top, (gone, same))))) =
      destroy-Chain fuel i.next l rest (act e counted)
        (Chain-same h.impls counted.impls i.next l rest left c) d (omega (arith, n)) in
    (
      set_impl a none k,
      (
        ap (λ r. destroy (suc fuel) r h) q
            ∙ ap (λ r. release (destroy fuel) a r h) x
            ∙ release-last (destroy fuel) a i e h k y o t,
        (
          done ∙ append_assoc h.done (e ∷ []) rest ∙ ap (λ r. h.done ++ r) (sym z),
          (
            top,
            (
              (store-at a none k.impls, freed-All a k.impls l apart gone),
              λ b m.
                  store-other a b none k.impls m.0
                  ∙ same b m.1
                  ∙ store-other a b (some (record i { refs = 0 })) h.impls m.0,
            ),
          ),
        ),
      ),
    )
