-- ===== src/Common/Timers/Sweep.antt =====
-- `step_all` over all timers.
use mathlib.Core.List.{◌++◌, append-nil, append_assoc}
use srs_ue.Prelude.{
  ℕ, suc, ◌+◌, ◌<◌, ◌≡◌, ◌⊎◌, ◌∙◌, ap, false, List, [], ◌∷◌, Option, some, if◌then◌else◌, length,
  get_elem?-append_mid, set-append_mid, length-append, sym, arith,
}
use srs_ue.Common.Timers.{Timer, Timers, Handler, step, step_one, step_rounds, step_all}

-- Every timer that runs has a callback.
abbrev pub HasCallback : Timer → Type 0
HasCallback t = (t.running ≡ false) ⊎ ((cb : ℕ) × (t.callback ≡ some cb))

abbrev pub AllCallbacks : List Timer → Type 0
AllCallbacks [] = Unit
AllCallbacks (t ∷ ts) = HasCallback t × AllCallbacks ts

-- What each timer becomes, and the calls that are made, in order.
abbrev pub stepped : List Timer → List Timer
stepped [] = []
stepped (t ∷ ts) = (step t).0 ∷ stepped ts

abbrev pub calls : List Timer → List (Option ℕ × ℕ)
calls [] = []
calls (t ∷ ts) = if (step t).1 then (t.callback, t.id) ∷ calls ts else calls ts

-- A handler that records the calls and leaves the timers alone.
abbrev pub recorder : Handler (List (Option ℕ × ℕ))
recorder cb id (ts, log) = (ts, log ++ (some cb, id) ∷ [])

abbrev pub holding : ℕ → ℕ → List Timer → Timers
holding n next ts = record { nof_timers = n; next_timer = next; timer_list = ts }

step_one-mid :
    (n next : ℕ) (front : List Timer) (t : Timer) (rest : List Timer) (log : List (Option ℕ × ℕ))
    → length front < n
    → HasCallback t
    → step_one recorder (length front) (holding n next (front ++ t ∷ rest), log)
      ≡ some (
        holding n next ((front ++ (step t).0 ∷ []) ++ rest),
        log ++ (if (step t).1 then (t.callback, t.id) ∷ [] else []),
      )
unfolding step_one
step_one-mid n next front t rest log h c = ground (
  arith,
  get_elem?-append_mid front t rest,
  set-append_mid front t (step t).0 rest,
  append_assoc front ((step t).0 ∷ []) rest,
  append-nil log,
)

step_rounds-suc :
    {S : Type 0} (h : Handler S) (n i : ℕ) (st st' : Timers × S)
    → step_one h i st ≡ some st'
    → step_rounds h (suc n) i st ≡ step_rounds h n (i + 1) st'
unfolding step_rounds
step_rounds-suc h n i st st' e = rw (e, step_rounds)

length_snoc : (ts : List Timer) (t : Timer) → length (ts ++ t ∷ []) ≡ length ts + 1
length_snoc ts t = length-append ts (t ∷ [])

step_rounds-stepped :
    (n next : ℕ) (front rest : List Timer) (log : List (Option ℕ × ℕ))
    → n ≡ length front + length rest
    → AllCallbacks rest
    → step_rounds recorder (length rest) (length front) (holding n next (front ++ rest), log)
      ≡ some (holding n next (front ++ stepped rest), log ++ calls rest)
unfolding step_rounds
step_rounds-stepped n next front [] log e c = ground (arith, append-nil log)
step_rounds-stepped n next front (t ∷ rest) log e c =
    let front' : List Timer = front ++ (step t).0 ∷ [] in
    let log' : List (Option ℕ × ℕ) = log ++ (if (step t).1 then (t.callback, t.id) ∷ [] else []) in
    step_rounds-suc recorder (length rest) (length front) _ _
      (step_one-mid n next front t rest log (omega arith) c.0)
    ∙ ap (λ i. step_rounds recorder (length rest) i (holding n next (front' ++ rest), log'))
        (sym (length_snoc front (step t).0))
    ∙ step_rounds-stepped n next front' rest log' (omega (arith, length_snoc front (step t).0)) c.1
    ∙ ground (
      arith,
      append_assoc front ((step t).0 ∷ []) (stepped rest),
      append_assoc log ((t.callback, t.id) ∷ []) (calls rest),
      append-nil log,
    )

-- With a callback for every timer that runs, `step_all` steps each timer once, in order, and makes
-- exactly the calls of the timers that fire, each with the timer's callback and number. (The
-- handler here records the calls and changes no timer.)
pub step_all-stepped :
    (ts : Timers) (log : List (Option ℕ × ℕ))
    → ts.nof_timers ≡ length ts.timer_list
    → AllCallbacks ts.timer_list
    → step_all recorder (ts, log)
      ≡ some (record ts { timer_list = stepped ts.timer_list }, log ++ calls ts.timer_list)
unfolding step_all
step_all-stepped ts log e c =
    ap (λ n. step_rounds recorder n 0 (ts, log)) e
    ∙ step_rounds-stepped ts.nof_timers ts.next_timer [] ts.timer_list log (omega arith) c
