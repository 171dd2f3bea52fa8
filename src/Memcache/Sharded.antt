-- ===== src/Memcache/Sharded.antt =====
-- include/memcached/memcache.cc: `sharded_cache`, the caches of all cores. `none` is a core that is not
-- there. That an operation runs on the own core or is sent to another makes no difference to its result.
use mseastar.Memcache.Item.{Env, Item, Insertion}
use mseastar.Memcache.Slab.{Slab}
use mseastar.Memcache.Cache.{Cache, Outcome, returns, throws, undefined, CasResult}
use mseastar.Memcache.Cache.Counters.{Stats, no_stats, add_stats}
use mseastar.Memcache.Commands
use mseastar.Prelude.{ℕ, ◌%◌, Bool, Option, none, some, List, [], ◌∷◌, length, get_elem?, set, map}

module _ {S : Type 0} (env : Env) (slab : Slab S) where
  -- `hash(key) % smp::count`
  pub get_cpu : List (Cache S) → List ℕ → ℕ
  get_cpu peers k = env.hash k % length peers

  -- `invoke_on(cpu, f)`: the caches, and the result.
  pub invoke_on :
      {R : Type 0} → (Cache S → Cache S × R) → ℕ → List (Cache S) → Option (List (Cache S) × R)
  invoke_on f cpu peers = elim (get_elem? peers cpu) [
    | none ↦ none
    | some c ↦ let r = f c in some (set peers cpu r.0, r.1)
  ]

  -- The same of an operation that may throw; the exception makes the future fail.
  pub invoke_outcome :
      {R : Type 0}
      → (Cache S → Outcome S R)
      → ℕ
      → List (Cache S)
      → Option (List (Cache S) × Option R)
  invoke_outcome f cpu peers = elim (get_elem? peers cpu) [
    | none ↦ none
    | some c ↦ elim (f c) [
      | returns r d ↦ some (set peers cpu d, some r)
      | throws d ↦ some (set peers cpu d, none)
      | undefined ↦ none
    ]
  ]

  pub set_in : Insertion → List (Cache S) → Option (List (Cache S) × Option Bool)
  set_in ins peers = invoke_outcome (Commands.set env slab ins) (get_cpu peers ins.key) peers

  pub add_in : Insertion → List (Cache S) → Option (List (Cache S) × Option Bool)
  add_in ins peers = invoke_outcome (Commands.add env slab ins) (get_cpu peers ins.key) peers

  pub replace_in : Insertion → List (Cache S) → Option (List (Cache S) × Option Bool)
  replace_in ins peers =
      invoke_outcome (Commands.replace env slab ins) (get_cpu peers ins.key) peers

  pub remove_in : List ℕ → List (Cache S) → Option (List (Cache S) × Bool)
  remove_in k peers = invoke_on (Commands.remove env slab k) (get_cpu peers k) peers

  pub get_in : List ℕ → List (Cache S) → Option (List (Cache S) × Option Item)
  get_in k peers = invoke_on (Commands.get env slab k) (get_cpu peers k) peers

  pub cas_in : Insertion → ℕ → List (Cache S) → Option (List (Cache S) × Option CasResult)
  cas_in ins version peers =
      invoke_outcome (Commands.cas env slab ins version) (get_cpu peers ins.key) peers

  pub incr_in : List ℕ → ℕ → List (Cache S) → Option (List (Cache S) × Option (Option Item × Bool))
  incr_in k delta peers = invoke_outcome (Commands.incr env slab k delta) (get_cpu peers k) peers

  pub decr_in : List ℕ → ℕ → List (Cache S) → Option (List (Cache S) × Option (Option Item × Bool))
  decr_in k delta peers = invoke_outcome (Commands.decr env slab k delta) (get_cpu peers k) peers

  pub flush_all_in : List (Cache S) → List (Cache S)
  flush_all_in peers = map (Commands.flush_all env slab) peers

  pub flush_at_in : ℕ → ℕ → ℕ → List (Cache S) → List (Cache S)
  flush_at_in now ticks time peers = map (Commands.flush_at env slab now ticks time) peers

  -- `map_reduce(adder<cache_stats>(), &cache::stats)`
  pub stats_in : List (Cache S) → List (Cache S) × Stats
  stats_in [] = ([], no_stats)
  stats_in (c ∷ peers) =
      let r = Commands.stats env slab c in
      let rest = stats_in peers in (r.0 ∷ rest.0, add_stats r.1 rest.1)
