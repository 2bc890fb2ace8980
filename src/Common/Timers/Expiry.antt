-- ===== src/Common/Timers/Expiry.antt =====
-- When a timer fires.
use srs_ue.Prelude.{
  ◌%◌, ◌≤◌, ◌⊎◌, inl, inr, ◌==◌, ◌&&◌, ◌||◌, ℕ, zero, suc, ◌+◌, ◌<◌, ◌^◌, ◌≡◌, refl, true, ltb, leb,
  if◌then◌else◌, arith,
}
use srs_ue.Common.Timers.{Timer, configure, run, stop, step, is_running, is_expired}

-- `n` steps, and how often the callback was called in them.
abbrev pub steps : ℕ → Timer → Timer × ℕ
steps zero t = (t, 0)
steps (suc n) t =
    let (t', calls) = steps n t in
    let (t'', fires) = step t' in (t'', if fires then calls + 1 else calls)

-- The step in which a timer fires. The counter, of 32 bits, meets a timeout of 0 when it wraps.
unfoldable pub period : ℕ → ℕ
period zero = 2 ^ 32
period (suc n) = suc n

-- The timer after `n` steps from its start, when it fires in step `k`.
abbrev pub aged : ℕ → Timer → ℕ → Timer
aged k t n = record t { counter = if leb k n then t.timeout else n; running = ltb n k }

pub steps-aged :
    (k n : ℕ) (t : Timer)
    → t.counter ≡ 0
    → t.running ≡ true
    → 0 < k
    → k ≤ 2 ^ 32
    → k % 2 ^ 32 ≡ t.timeout
    → steps n t ≡ (aged k t n, if leb k n then 1 else 0)
unfolding step is_expired
steps-aged k zero t hc hr lo hi e = ground arith
steps-aged k (suc n) t hc hr lo hi e = ground (arith, steps-aged k n t hc hr lo hi e)

pub period_lem :
    (timeout : ℕ)
    → timeout < 2 ^ 32
    → (0 < period timeout)
      × (period timeout ≤ 2 ^ 32)
      × (period timeout % 2 ^ 32 ≡ timeout)
      × (timeout ≤ period timeout)
      × ((timeout ≡ 0) ⊎ (period timeout ≡ timeout))
unfolding period
period_lem zero h = (omega arith, omega arith, refl, omega arith, inl refl)
period_lem (suc n) h = (omega arith, omega arith, omega arith, omega arith, inr refl)

-- A timer that is set to `timeout` (in 32 bits) and run counts the steps, calls its callback in step
-- `timeout`, and never again, however long it is stepped; a timeout of 0 is met in step 2^32, where
-- the counter wraps. `is_running` holds before step `timeout`, so never for 0. `is_expired` holds
-- from the callback's step on, and for a timeout of 0 also before the first step.
pub steps-run :
    (n cb timeout : ℕ) (t : Timer)
    → timeout < 2 ^ 32
    → let start = run (configure cb timeout t) in
      (steps n start ≡ (aged (period timeout) start n, if leb (period timeout) n then 1 else 0))
      × (is_running (steps n start).0 ≡ ltb n timeout)
      × (is_expired (steps n start).0 ≡ (leb (period timeout) n || ((timeout == 0) && (n == 0))))
unfolding run configure is_running is_expired
steps-run n cb timeout t hi =
    let start = run (configure cb timeout t) in
    let (some_steps, bounded, wraps, above, same) = period_lem timeout hi in
    ground
      (arith, steps-aged (period timeout) n start refl refl some_steps bounded wraps, above, same)

-- A stopped timer does nothing in any number of steps.
pub steps-stop : (n : ℕ) (t : Timer) → steps n (stop t) ≡ (stop t, 0)
unfolding stop step
steps-stop zero t = refl
steps-stop (suc n) t = ground (arith, steps-stop n t)
