-- ===== src/Common/Timers.antt =====
-- ue/hdr/common/timers.h: timers that count steps of one millisecond. A callback is named by a
-- number; what it does is a handler that the user of the timers brings.
pub mod Expiry
pub mod Ids
pub mod Sweep
use srs_ue.Prelude.{
  ℕ, zero, suc, ◌+◌, ◌-◌, Bool, true, false, not, ◌&&◌, ◌||◌, List, [], ◌∷◌, Option, none, some,
  ltb, ◌==◌, if◌then◌else◌, get_elem?, set, u32,
}

-- `timers::timer`; `callback` is `none` for NULL.
pub record Timer : Type 0 where
  pub id : ℕ
  pub callback : Option ℕ
  pub timeout : ℕ
  pub counter : ℕ
  pub running : Bool

unfoldable pub new_timer : ℕ → Timer
new_timer id = record { id = id; callback = none; timeout = 0; counter = 0; running = false }

unfoldable pub reset : Timer → Timer
reset t = record t { counter = 0 }

-- `set(callback_, timeout_)`. It leaves `running` alone.
unfoldable pub configure : ℕ → ℕ → Timer → Timer
unfolding reset
configure cb timeout t = reset (record t { callback = some cb; timeout = timeout })

unfoldable pub is_running : Timer → Bool
is_running t = ltb t.counter t.timeout && t.running

unfoldable pub is_expired : Timer → Bool
is_expired t = (t.counter == t.timeout) || not t.running

unfoldable pub stop : Timer → Timer
stop t = record t { running = false }

unfoldable pub run : Timer → Timer
run t = record t { running = true }

-- `step()`; the flag says that `callback->timer_expired(id)` is called.
unfoldable pub step : Timer → Timer × Bool
unfolding is_expired
step t =
    let counted = record t { counter = u32 (t.counter + 1) } in
    if t.running
    then if is_expired counted then (record counted { running = false }, true) else (counted, false)
    else (t, false)

pub record Timers : Type 0 where
  pub nof_timers : ℕ
  pub next_timer : ℕ
  pub timer_list : List Timer

-- The constructor's vector holds timers numbered by their place.
unfoldable pub numbered : ℕ → ℕ → List Timer
unfolding new_timer
numbered zero i = []
numbered (suc n) i = new_timer i ∷ numbered n (i + 1)

unfoldable pub new_timers : ℕ → Timers
unfolding numbered
new_timers n = record { nof_timers = n; next_timer = 0; timer_list = numbered n 0 }

-- `none` stands for the NULL of an invalid number.
unfoldable pub get : Timers → ℕ → Option Timer
get ts i = if ltb i ts.nof_timers then get_elem? ts.timer_list i else none

unfoldable pub put : Timers → ℕ → Timer → Timers
put ts i t = record ts { timer_list = set ts.timer_list i t }

unfoldable pub get_unique_id : Timers → ℕ × Timers
get_unique_id ts =
    let next = if ts.next_timer == ts.nof_timers then 0 else ts.next_timer in
    (next, record ts { next_timer = u32 (next + 1) })

-- The handler gets the callback's and the timer's number. A NULL callback is a fault, `none`.
abbrev pub Handler : Type 0 → Type 0
Handler S = ℕ → ℕ → Timers × S → Timers × S

unfoldable pub fire : {S : Type 0} → Handler S → Timer → Bool → Timers × S → Option (Timers × S)
fire h t false st = some st
fire h t true st = elim t.callback [ none ↦ none | some cb ↦ some (h cb t.id st) ]

-- One round of `step_all`: the timer is read when its turn comes, after earlier callbacks.
unfoldable pub step_one : {S : Type 0} → Handler S → ℕ → Timers × S → Option (Timers × S)
unfolding get put step fire
step_one h i (ts, s) = elim (get ts i) [
  | none ↦ none
  | some t ↦ let (t', fires) = step t in fire h t' fires (put ts i t', s)
]

unfoldable pub step_rounds : {S : Type 0} → Handler S → ℕ → ℕ → Timers × S → Option (Timers × S)
step_rounds h zero i st = some st
step_rounds h (suc n) i st = elim (step_one h i st) [
  | none ↦ none
  | some st' ↦ step_rounds h n (i + 1) st'
]

unfoldable pub step_all : {S : Type 0} → Handler S → Timers × S → Option (Timers × S)
unfolding step_rounds step_one
step_all h (ts, s) = step_rounds h ts.nof_timers 0 (ts, s)

-- `stop_all`, `run_all` and `reset_all`: no callback is made, so the rounds are independent.
unfoldable pub each : (Timer → Timer) → List Timer → List Timer
each f [] = []
each f (t ∷ ts) = f t ∷ each f ts

unfoldable pub stop_all : Timers → Timers
unfolding each stop
stop_all ts = record ts { timer_list = each stop ts.timer_list }

unfoldable pub run_all : Timers → Timers
unfolding each run
run_all ts = record ts { timer_list = each run ts.timer_list }

unfoldable pub reset_all : Timers → Timers
unfolding each reset
reset_all ts = record ts { timer_list = each reset ts.timer_list }
