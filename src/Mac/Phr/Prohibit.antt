-- ===== src/Mac/Phr/Prohibit.antt =====
-- What the prohibit timer holds back.
use srs_ue.Prelude.{
  ◌+◌, ◌%◌, ◌^◌, ◌⊎◌, length, leb, ℕ, ◌≤◌, ◌<◌, ◌≡◌, refl, true, false, List, [], ◌∷◌, arith,
}
use srs_ue.Prelude.Int.{ℤ, pos, negsuc}
use srs_ue.Common.Timers
use srs_ue.Common.Timers.Expiry.{period, period_lem}
use srs_ue.Mac.Phr.{
  Phr, Env, is_change, is_new, distance, pathloss_changed, timer_expired, configure_periodic,
  configure_prohibit, step, generate_phr_on_ul_grant, step_periodic, step_prohibit, tick,
}

-- No length of a timer is configured anew.
abbrev pub Configured : Env → Phr → Type 0
Configured e p =
    (is_new p.timer_periodic e.cfg_periodic ≡ false)
    × (is_new p.timer_prohibit e.cfg_prohibit ≡ false)

is_change-same : (c x : ℤ) → is_change c (distance x x) ≡ false
is_change-same (pos n) (pos a) = ground arith
is_change-same (pos n) (negsuc a) = ground arith
is_change-same (negsuc n) x = refl

-- A change of the pathloss that comes while the prohibit timer runs is taken over as the pathloss
-- to compare with, so neither that step nor the expiry of the timer triggers a report for it, the
-- pathloss being still the new one then. (The procedure is initiated, no report is triggered before,
-- and no length of a timer is configured anew.)
pub step-change_lost :
    (me : ℕ) (e : Env) (p : Phr)
    → p.initiated ≡ true
    → p.phr_is_triggered ≡ false
    → Configured e p
    → Timers.is_expired p.prohibit ≡ false
    → is_change e.cfg_pathloss_change (distance e.pathloss_db p.last_pathloss_db) ≡ true
    → let after = step me e p in
      (after.phr_is_triggered ≡ false)
      × (after.last_pathloss_db ≡ e.pathloss_db)
      × ((timer_expired false e after).phr_is_triggered ≡ false)
unfolding step configure_periodic configure_prohibit pathloss_changed timer_expired
step-change_lost me e p i t c x d =
    ground (arith, is_change-same e.cfg_pathloss_change e.pathloss_db)

-- Successive TTIs.
abbrev pub ticks : ℕ → List Env → Phr → Phr
ticks me [] p = p
ticks me (e ∷ es) p = ticks me es (tick me e p)

abbrev pub AllConfigured : List Env → Phr → Type 0
AllConfigured [] p = 0 ≤ 0
AllConfigured (e ∷ es) p = Configured e p × AllConfigured es p

-- The periodic timer, which fires in step `k`, has run for `n` steps with no report triggered, or
-- has fired.
abbrev Due : ℕ → ℕ → Phr → Type 0
Due k n p =
    ((p.phr_is_triggered ≡ true) × (k ≤ n))
    ⊎ ((p.phr_is_triggered ≡ false)
        × (n < k)
        × (p.periodic.counter ≡ n)
        × (p.periodic.running ≡ true)
        × (k % 2 ^ 32 ≡ p.periodic.timeout))

-- `n` TTIs after a report, where the prohibit timer is `l` long and runs.
abbrev Held : ℕ → ℕ → ℕ → Phr → Type 0
Held k l n p =
    (p.prohibit.counter ≡ n) × (p.prohibit.running ≡ true) × (p.prohibit.timeout ≡ l) × Due k n p

Held-is_expired :
    (k l n : ℕ) (p : Phr) → n < l → Held k l n p → Timers.is_expired p.prohibit ≡ false
unfolding Timers.is_expired
Held-is_expired k l n p h v = ground arith

step-same :
    (me : ℕ) (e : Env) (p : Phr)
    → Configured e p
    → Timers.is_expired p.prohibit ≡ false
    → let after = step me e p in
      (after.phr_is_triggered ≡ p.phr_is_triggered)
      × (after.periodic ≡ p.periodic)
      × (after.prohibit ≡ p.prohibit)
      × (after.timer_periodic ≡ p.timer_periodic)
      × (after.timer_prohibit ≡ p.timer_prohibit)
unfolding step configure_periodic configure_prohibit pathloss_changed
step-same me e p c x = ground arith

step_periodic-same :
    (e : Env) (p : Phr)
    → let after = step_periodic e p in
      (after.prohibit ≡ p.prohibit)
      × (after.timer_periodic ≡ p.timer_periodic)
      × (after.timer_prohibit ≡ p.timer_prohibit)
unfolding step_periodic timer_expired
step_periodic-same e p = ground arith

step_periodic-Due :
    (e : Env) (k n : ℕ) (p : Phr) → k ≤ 2 ^ 32 → Due k n p → Due k (n + 1) (step_periodic e p)
unfolding step_periodic timer_expired Timers.step Timers.is_expired
step_periodic-Due e k n p bounded h = ground arith

-- The prohibit timer counts before it expires.
step_prohibit-counts :
    (e : Env) (l n : ℕ) (p : Phr)
    → n + 1 < l
    → l < 2 ^ 32
    → p.prohibit.counter ≡ n
    → p.prohibit.running ≡ true
    → p.prohibit.timeout ≡ l
    → step_prohibit e p ≡ record p { prohibit = record p.prohibit { counter = n + 1 } }
unfolding step_prohibit Timers.step Timers.is_expired
step_prohibit-counts e l n p inside small h r t = ground arith

-- One TTI before the prohibit timer expires.
tick-Held :
    (me : ℕ) (e : Env) (k l n : ℕ) (p : Phr)
    → Configured e p
    → n + 1 < l
    → l < 2 ^ 32
    → k ≤ 2 ^ 32
    → Held k l n p
    → Held k l (n + 1) (tick me e p)
      × ((tick me e p).timer_periodic ≡ p.timer_periodic)
      × ((tick me e p).timer_prohibit ≡ p.timer_prohibit)
unfolding tick
tick-Held me e k l n p c inside small bounded h =
    let stepped = step me e p in
    let aged = step_periodic e stepped in
    let same = step-same me e p c (Held-is_expired k l n p (omega arith) h) in
    let kept = step_periodic-same e stepped in
    let due : Due k n stepped = ground arith in
    let due' = step_periodic-Due e k n stepped bounded due in
    let counts =
      step_prohibit-counts e l n aged inside small (ground arith) (ground arith) (ground arith) in
    rw counts (ground (arith, due'))

AllConfigured-same :
    (es : List Env) (p q : Phr)
    → q.timer_periodic ≡ p.timer_periodic
    → q.timer_prohibit ≡ p.timer_prohibit
    → AllConfigured es p
    → AllConfigured es q
AllConfigured-same [] p q a b c = c
AllConfigured-same (e ∷ es) p q a b c = (ground arith, AllConfigured-same es p q a b c.1)

ticks-Held :
    (me : ℕ) (es : List Env) (k l n : ℕ) (p : Phr)
    → AllConfigured es p
    → n + length es < l
    → l < 2 ^ 32
    → k ≤ 2 ^ 32
    → Held k l n p
    → Held k l (n + length es) (ticks me es p)
ticks-Held me [] k l n p c inside small bounded h = ground arith
ticks-Held me (e ∷ es) k l n p c inside small bounded h =
    let (held, same_periodic, same_prohibit) =
      tick-Held me e k l n p c.0 (omega arith) small bounded h in
    ground (
      arith,
      ticks-Held me es k l (n + 1) (tick me e p)
          (AllConfigured-same es p (tick me e p) same_periodic same_prohibit c.1) (omega arith)
          small bounded held,
    )

-- After a report, which restarts both timers, and while no length of a timer is configured anew: the
-- next grant, if it comes before the TTI in which the prohibit timer expires, carries another report
-- exactly when the periodic timer has expired by then, at whatever pathloss. (The lengths have 32
-- bits; a periodic timer whose length is 0, as long as none is configured, expires after 2^32 steps.)
pub generate_phr_on_ul_grant-ticks :
    (me : ℕ) (es : List Env) (p : Phr)
    → p.phr_is_triggered ≡ true
    → length es < p.prohibit.timeout
    → p.prohibit.timeout < 2 ^ 32
    → p.periodic.timeout < 2 ^ 32
    → AllConfigured es p
    → let (reported, sent) = generate_phr_on_ul_grant p in
      (sent ≡ true)
      × ((generate_phr_on_ul_grant (ticks me es reported)).1
          ≡ leb (period p.periodic.timeout) (length es))
unfolding generate_phr_on_ul_grant Timers.run Timers.reset
generate_phr_on_ul_grant-ticks me es p t inside small short c =
    let reported = (generate_phr_on_ul_grant p).0 in
    let k = period p.periodic.timeout in
    let (some_steps, bounded, wraps, above, same) = period_lem p.periodic.timeout short in
    let start : Held k p.prohibit.timeout 0 reported = ground arith in
    ground (
      arith,
      ticks-Held me es k p.prohibit.timeout 0 reported
          (AllConfigured-same es p reported (ground arith) (ground arith) c) (omega arith) small
          bounded start,
    )
