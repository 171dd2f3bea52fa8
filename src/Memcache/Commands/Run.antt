-- ===== src/Memcache/Commands/Run.antt =====
-- include/memcached/memcache.cc: the operations of `cache` one after the other.
use mseastar.Prelude.{
  ℕ, ◌≡◌, ◌≢◌, refl, sym, subst, Option, none, some, List, [], ◌∷◌, All, Option-cases, Bool-cases,
  ◌==◌, word_add, arith, inl, inr,
}
use mseastar.Memcache.Item.{Env, Insertion}
use mseastar.Memcache.Slab.{Slab, Contract, Lawful}
use mseastar.Memcache.Cache.{Cache, Outcome, returns, throws, undefined, find}
use mseastar.Memcache.Cache.Inv.{IsValid}
use mseastar.Memcache.Cache.Create.{Timely, Storable}
use mseastar.Memcache.Cache.Store.{Stores}
use mseastar.Memcache.Commands.{set, add, replace, cas, remove, flush_all, flush_at}
use mseastar.Memcache.Commands.Stored.{
  set-Stores, add-Stores, replace-Stores, cas-Stores, cas-none, cas-other, count-IsValid,
}
use mseastar.Memcache.Commands.Removed.{remove-IsValid}
use mseastar.Memcache.Commands.Flush.{flush_all-IsValid, flush_at-IsValid}

-- An operation with its arguments.
pub data Command : Type 0 where
  set_of add_of replace_of : Insertion → Command
  cas_of : Insertion → ℕ → Command
  remove_of : List ℕ → Command
  flush_all_now : Command
  flush_at_time : ℕ → ℕ → ℕ → Command

module _ {S : Type 0} (env : Env) (slab : Slab S) where
  -- The cache that an operation leaves, thrown exception or not; `none` if its behaviour is undefined.
  abbrev pub left_by : {R : Type 0} → Outcome S R → Option (Cache S)
  left_by (returns r d) = some d
  left_by (throws d) = some d
  left_by undefined = none

  abbrev pub step : Command → Cache S → Option (Cache S)
  step (set_of ins) c = left_by (set env slab ins c)
  step (add_of ins) c = left_by (add env slab ins c)
  step (replace_of ins) c = left_by (replace env slab ins c)
  step (cas_of ins version) c = left_by (cas env slab ins version c)
  step (remove_of k) c = some (remove env slab k c).0
  step flush_all_now c = some (flush_all env slab c)
  step (flush_at_time now ticks time) c = some (flush_at env slab now ticks time c)

  abbrev pub run : List Command → Cache S → Option (Cache S)
  run [] c = some c
  run (command ∷ commands) c = elim (step command c) [ none ↦ none | some d ↦ run commands d ]

module _ {S : Type 0} {con : Contract S} (env : Env) (slab : Slab S) (law : Lawful slab con) where
  -- What is stored fits, the slab makes items of its size, and its time is not negative.
  abbrev pub Proper : Command → Type 0
  Proper (set_of ins) = Storable env slab law ins × Timely ins
  Proper (add_of ins) = Storable env slab law ins × Timely ins
  Proper (replace_of ins) = Storable env slab law ins × Timely ins
  Proper (cas_of ins version) = Storable env slab law ins × Timely ins
  Proper (remove_of k) = Unit
  Proper flush_all_now = Unit
  Proper (flush_at_time now ticks time) = Unit

  -- A valid cache is left.
  abbrev pub Left : Option (Cache S) → Type 0
  Left none = ⊥
  Left (some d) = IsValid env slab law d

  stored-Left :
      {R : Type 0} (ins : Insertion) (v : ℕ) (P : R → Type 0) (o : Outcome S R)
      → Stores env slab law ins v P o
      → Left (left_by env slab o)
  stored-Left ins v P (returns r d) h = h.1.0
  stored-Left ins v P (throws d) h = h.0
  stored-Left ins v P undefined h = h

  step-Left :
      (command : Command) (c : Cache S)
      → IsValid env slab law c
      → Proper command
      → Left (step env slab command c)
  step-Left (set_of ins) c h (f, d) =
      stored-Left ins _ _ (set env slab ins c) (set-Stores env slab law ins c h f d)
  step-Left (add_of ins) c h (f, d) =
      let (n, s) = add-Stores env slab law ins c h f d in
      elim (Option-cases (find env slab ins.key c)) [
        | inl e ↦ stored-Left ins _ _ (add env slab ins c) (n e)
        | inr (it, e) ↦ subst (λ o. Left (left_by env slab o)) (sym (s it e)) h
      ]
  step-Left (replace_of ins) c h (f, d) =
      let (n, s) = replace-Stores env slab law ins c h f d in
      elim (Option-cases (find env slab ins.key c)) [
        | inl e ↦ subst (λ o. Left (left_by env slab o)) (sym (n e)) h
        | inr (it, e) ↦ stored-Left ins _ _ (replace env slab ins c) (s it e)
      ]
  step-Left (cas_of ins version) c h (f, d) =
      let (n, s) = cas-Stores env slab law ins version c h f d in
      elim (Option-cases (find env slab ins.key c)) [
        | inl e ↦
            subst (λ o. Left (left_by env slab o)) (sym (cas-none env slab law ins version c e))
              (count-IsValid env slab law c (λ s. record s { cas_misses = word_add s.cas_misses 1 })
                (λ s. refl) h)
        | inr (it, e) ↦ elim (Bool-cases (it.version == version)) [
          | inl t ↦ stored-Left ins _ _ (cas env slab ins version c) ((s it e).1 (ground arith))
          | inr f ↦
              let m : it.version ≢ version = λ y. ground arith in
              subst (λ o. Left (left_by env slab o))
                (sym (cas-other env slab law ins version it c e m))
                (count-IsValid env slab law c
                  (λ s. record s { cas_badval = word_add s.cas_badval 1 }) (λ s. refl) h)
        ]
      ]
  step-Left (remove_of k) c h p = (remove-IsValid env slab law k c h).1.0
  step-Left flush_all_now c h p = (flush_all-IsValid env slab law c h).0
  step-Left (flush_at_time now ticks time) c h p = flush_at-IsValid env slab law now ticks time c h

  -- No sequence of set, add, replace, cas, remove, flush_all and flush_at on a valid cache over a
  -- lawful slab is undefined, when what is stored fits as for `set`; it leaves a valid cache.
  pub run-IsValid :
      (commands : List Command) (c : Cache S)
      → IsValid env slab law c
      → All Proper commands
      → (d : Cache S) × ((run env slab commands c ≡ some d) × IsValid env slab law d)
  run-IsValid [] c h p = (c, (refl, h))
  run-IsValid (command ∷ commands) c h p =
      go (step env slab command c) (step-Left command c h p.0) (λ d k. run-IsValid commands d k p.1)
    where
      go :
          (o : Option (Cache S))
          → Left o
          → ((d : Cache S)
              → IsValid env slab law d
              → (e : Cache S) × ((run env slab commands d ≡ some e) × IsValid env slab law e))
          → (e : Cache S) × ((elim o as (λ x. Option (Cache S)) [
            | none ↦ none
            | some d ↦ run env slab commands d
          ]
                ≡ some e)
              × IsValid env slab law e)
      go none l r = absurd l
      go (some d) l r = r d l
