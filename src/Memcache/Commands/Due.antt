-- ===== src/Memcache/Commands/Due.antt =====
-- include/memcached/memcache.cc: `expire`, the callback of the cache's timer.
use mseastar.Prelude.{
  ℕ, ◌+◌, ◌≡◌, ◌⊎◌, inl, inr, refl, sym, ap, ◌∙◌, ◌^◌, ◌<◌, ◌≤◌, true, false, Option, none, some,
  List, [], ◌∷◌, arith, leb, ltb, ◌==◌, Bool-cases, word_sub,
}
use mseastar.Memcache.Item.{Env}
use mseastar.Memcache.Slab.{Slab, Contract, Lawful}
use mseastar.Memcache.Cache.{Cache}
use mseastar.Memcache.Cache.Inv.{CoreOf, IsValid}
use mseastar.Memcache.Cache.Keys.{timers}
use mseastar.Memcache.Commands.{arm, expire, expire_loop, nodes, at_iterator, then_arm, on_timer}
use mseastar.TimerSet
use mseastar.TimerSet.{Timer, TimerSet, get_next_timeout}
use mseastar.TimerSet.Inv
use mseastar.TimerSet.Inv.{occ, count, same_timer_refl, same_timer-eq}
use mseastar.TimerSet.Expire.{Soonest, Expired, expire_lem}

-- A list has a timer that is due, or all of them are later.
due_or :
    (now : ℕ) (l : List Timer)
    → ((u : Timer) × ((0 < occ u l) × (u.timeout ≤ now)))
      ⊎ ((u : Timer) → 0 < occ u l → now < u.timeout)
due_or now [] = inr (λ u h. absurd (omega (arith, h)))
due_or now (t ∷ ts) = elim (Bool-cases (leb t.timeout now)) [
  | inl y ↦ inl (t, (ground (arith, same_timer_refl t), ground arith))
  | inr f ↦ elim (due_or now ts) [
    | inl (u, (h, k)) ↦ inl (u, (omega (arith, h), k))
    | inr later ↦ inr (λ u h. elim (Bool-cases (TimerSet.same_timer u t)) [
      | inl e ↦
          let q : u.timeout ≡ t.timeout = ap (λ (x : Timer). x.timeout) (same_timer-eq u t e) in
          ground arith
      | inr n ↦ later u (ground arith)
    ])
  ]
]

module _ {S : Type 0} {con : Contract S} (env : Env) (slab : Slab S) (law : Lawful slab con) where
  abbrev timer_off : Cache S → Cache S
  timer_off c = record c { timer = none }

  -- The iterator to the first node is used when that node is gone.
  at_iterator-past :
      (n m : ℕ) (l : List Timer) → n < m → at_iterator env slab n (nodes env slab m l) ≡ none
  at_iterator-past n m [] h = refl
  at_iterator-past n m (t ∷ ts) h =
      let f : (m == n) ≡ false = ground arith in
      rw f (at_iterator-past n (m + 1) ts (omega (arith, h)))

  expire_loop-none :
      (n : ℕ) (t : Timer) (ts : List Timer) (c : Cache S)
      → expire_loop env slab (nodes env slab n (t ∷ ts)) c ≡ none
  expire_loop-none n t ts c = rw (at_iterator-past n (n + 1) ts (omega arith), expire_loop) refl

  -- What the callback does, with what the timer set gives back.
  on_timer-expired :
      (steady wall now time : ℕ) (c : Cache S) (t : TimerSet) (exp : List Timer)
      → c.timer ≡ some time
      → TimerSet.expire now c.alive ≡ some (t, exp)
      → on_timer env slab steady wall now c
        ≡ then_arm env slab (
            expire_loop env slab
              (nodes env slab 0 exp)
              (record (timer_off c) { alive = t; wc_to_clock_type_delta = word_sub steady wall }))
  unfolding on_timer expire
  on_timer-expired steady wall now time c t exp a e =
      ap
        (λ o. elim o as (λ x. Option (Cache S)) [
          | none ↦ some c
          | some x ↦ expire env slab steady wall now (timer_off c)
        ])
        a
      ∙ ap
          (λ o. elim o as (λ x. Option (Cache S)) [
            | none ↦ none
            | some (alive, l) ↦ then_arm env slab (
                expire_loop env slab (nodes env slab 0 l) (record (timer_off c) {
                  alive = alive;
                  wc_to_clock_type_delta = word_sub steady wall;
                }))
          ])
          e

  -- The timers that are left are those of the items, when none is due.
  armed_still :
      (now : ℕ) (c : Cache S) (t : TimerSet) (exp : List Timer)
      → CoreOf env c
      → Expired now c.alive t exp
      → ((u : Timer) → 0 < occ u (timers c.items) → now < u.timeout)
      → (u : Timer) → count u t ≡ occ u (timers c.items)
  armed_still now c t exp h x later u = elim (Bool-cases (ltb u.timeout (2 ^ 63))) [
    | inl k ↦
        let small : u.timeout < 2 ^ 63 = ground arith in
        elim (Bool-cases (leb u.timeout now)) [
          | inl y ↦
              let z : occ u (timers c.items) ≡ 0 = elim (Bool-cases (occ u (timers c.items) == 0)) [
                | inl e ↦ ground arith
                | inr e ↦ absurd (ground (arith, later u (ground arith), y))
              ] in
              x.kept u small ∙ rw y (sym z)
          | inr f ↦ x.kept u small ∙ rw f (h.armed u)
        ]
    | inr f ↦
        let gone : (s : TimerSet) → Inv.Inv s → count u s ≡ 0 = λ s v.
          elim (Bool-cases (count u s == 0)) [
            | inl e ↦ ground arith
            | inr e ↦ absurd (
                ground (
                  arith,
                  (v.members (TimerSet.get_index s.last u.timeout) u (ground arith)).small,
                  f,
                ))
          ] in
        gone t x.inv ∙ sym (gone c.alive h.timed) ∙ h.armed u
  ]

  none-Expired :
      (now : ℕ) (c : Cache S) (t : TimerSet) (exp : List Timer)
      → CoreOf env c
      → Expired now c.alive t exp
      → ((u : Timer) → 0 < occ u (timers c.items) → now < u.timeout)
      → exp ≡ []
  none-Expired now c t [] h x later = refl
  none-Expired now c t (v ∷ vs) h x later =
      let has : 0 < occ v (v ∷ vs) = ground (arith, same_timer_refl v) in
      let n = x.expired v (x.small v has) in
      let a = h.armed v in
      elim (Bool-cases (leb v.timeout now)) [
        | inl y ↦
            let m : occ v (v ∷ vs) ≡ count v c.alive = n ∙ rw y refl in
            let l = later v (omega (arith, m, a, has)) in absurd (ground arith)
        | inr f ↦ let m : occ v (v ∷ vs) ≡ 0 = n ∙ rw f refl in absurd (omega (arith, m, has))
      ]

  some-Expired :
      (now : ℕ) (c : Cache S) (t : TimerSet) (exp : List Timer) (u : Timer)
      → CoreOf env c
      → Expired now c.alive t exp
      → now < 2 ^ 63
      → 0 < occ u (timers c.items)
      → u.timeout ≤ now
      → (v : Timer) × ((vs : List Timer) × (exp ≡ v ∷ vs))
  some-Expired now c t (v ∷ vs) u h x small has due = (v, (vs, refl))
  some-Expired now c t [] u h x small has due =
      let k : u.timeout < 2 ^ 63 = omega arith in
      let y : leb u.timeout now ≡ true = ground arith in
      let n : occ u [] ≡ count u c.alive = x.expired u k ∙ rw y refl in
      absurd (omega (arith, n, h.armed u, has))

  -- The callback leaves the items and the slab, and arms the timer for the soonest item; or its behaviour
  -- is undefined.
  abbrev pub Fires : ℕ → ℕ → ℕ → Cache S → Type 0
  Fires steady wall now c =
      (((u : Timer) → 0 < occ u (timers c.items) → now < u.timeout)
        × ((d : Cache S) × ((on_timer env slab steady wall now c ≡ some d)
              × (IsValid env slab law d
                  × ((d.items ≡ c.items)
                      × ((d.timer ≡ some (get_next_timeout d.alive)) × Soonest d.alive))))))
      ⊎ (((u : Timer) × ((0 < occ u (timers c.items)) × (u.timeout ≤ now)))
          × (on_timer env slab steady wall now c ≡ none))

  -- What the timer of a valid cache does when the reactor finds it due and disarms it, at a time
  -- below 2 ^ 63 that is not before the last expiry. When all items are later, the callback keeps
  -- the items and the cache valid and arms the timer again, for the time of the soonest item, or
  -- for the last timestamp if none expires. When an item is due, its behaviour is undefined: it
  -- uses the iterator to the first expired item after `pop_front` has destroyed its node.
  pub on_timer-Fires :
      (steady wall now time : ℕ) (c : Cache S)
      → IsValid env slab law c
      → c.timer ≡ some time
      → now < 2 ^ 63
      → c.alive.last ≤ now
      → Fires steady wall now c
  unfolding arm
  on_timer-Fires steady wall now time c (h, b) a small le =
      let (t, exp, e, x) = expire_lem now c.alive h.timed small le in
      let run = on_timer-expired steady wall now time c t exp a e in
      let begun : Cache S = record (timer_off c) {
        alive = t;
        wc_to_clock_type_delta = word_sub steady wall;
      } in
      elim (due_or now (timers c.items)) [
        | inl (u, (has, due)) ↦
            let (v, (vs, q)) = some-Expired now c t exp u h x small has due in
            inr (
              (u, (has, due)),
              run
                  ∙ ap (λ l. then_arm env slab (expire_loop env slab (nodes env slab 0 l) begun)) q
                  ∙ ap (then_arm env slab) (expire_loop-none 0 v vs begun),
            )
        | inr later ↦
            let q = none-Expired now c t exp h x later in
            let core : CoreOf env begun = record {
              unique = h.unique;
              plain = h.plain;
              counted = h.counted;
              timed = x.inv;
              armed = armed_still now c t exp h x later;
            } in
            inl (
              later,
              (
                record begun { timer = some (get_next_timeout t) },
                (
                  run
                      ∙ ap
                          (λ l. then_arm env slab (expire_loop env slab (nodes env slab 0 l) begun))
                          q,
                  ((core, b), (refl, (refl, x.soonest))),
                ),
              ),
            )
      ]
