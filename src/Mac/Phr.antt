-- ===== src/Mac/Phr.antt =====
-- ue/src/mac/proc_phr.cc: the power headroom reporting procedure (3GPP TS 36.321, 5.4.6). RRC's
-- configuration and the pathloss are arguments of the calls; the two timers are part of the state.
-- The TTI of ue/src/mac/mac.cc steps the procedure and then its timers.
pub mod Prohibit
use srs_ue.Prelude.{
  ℕ, ◌+◌, ◌-◌, Bool, true, false, not, ◌&&◌, ◌||◌, List, [], ◌∷◌, Option, none, some, ltb, leb,
  ◌==◌, if◌then◌else◌,
}
use srs_ue.Prelude.Int.{ℤ, pos, negsuc}
use srs_ue.Common.Timers
use srs_ue.Common.Timers.{Timer}

pub record Phr : Type 0 where
  pub initiated : Bool
  pub timer_prohibit : ℤ
  pub timer_periodic : ℤ
  pub dl_pathloss_change : ℤ
  pub last_pathloss_db : ℤ
  pub phr_is_triggered : Bool
  pub periodic : Timer
  pub prohibit : Timer

-- What a call meets: the numbers of `mac_cfg->main.phr_cnfg`, and `get_pathloss_db()` as an `int`.
pub record Env : Type 0 where
  pub setup_present : Bool
  pub cfg_periodic : ℤ
  pub cfg_prohibit : ℤ
  pub cfg_pathloss_change : ℤ
  pub pathloss_db : ℤ

unfoldable pub reset : Phr → Phr
reset p = record p {
  phr_is_triggered = false;
  timer_periodic = negsuc 1;
  timer_prohibit = negsuc 1;
  dl_pathloss_change = negsuc 1;
}

unfoldable pub init : Phr → Phr
unfolding reset
init p = reset (record p { initiated = true })

-- `abs(a - b)`.
abbrev pub distance : ℤ → ℤ → ℕ
distance (pos a) (pos b) = (a - b) + (b - a)
distance (pos a) (negsuc b) = a + b + 1
distance (negsuc a) (pos b) = a + b + 1
distance (negsuc a) (negsuc b) = (a - b) + (b - a)

abbrev pub is_change : ℤ → ℕ → Bool
is_change (pos min_change) d = ltb min_change d && ltb 0 min_change
is_change (negsuc n) d = false

unfoldable pub pathloss_changed : Env → Phr → Phr × Bool
pathloss_changed e p =
    if is_change e.cfg_pathloss_change (distance e.pathloss_db p.last_pathloss_db)
    then (record p { last_pathloss_db = e.pathloss_db }, true)
    else (p, false)

-- The expiry of the periodic timer (`true`) or of the prohibit timer.
unfoldable pub timer_expired : Bool → Env → Phr → Phr
unfolding pathloss_changed
timer_expired true e p = record p {
  periodic = Timers.run (Timers.reset p.periodic);
  phr_is_triggered = true;
}
timer_expired false e p =
    let (p', changed) = pathloss_changed e p in
    if changed then record p' { phr_is_triggered = true } else p'

-- Is a configured length new, and a length at all?
abbrev pub is_new : ℤ → ℤ → Bool
is_new (pos old) (pos cfg) = not (old == cfg) && ltb 0 cfg
is_new (negsuc old) (pos cfg) = ltb 0 cfg
is_new old (negsuc cfg) = false

-- The number of a length that is not negative.
abbrev pub length_of : ℤ → ℕ
length_of (pos n) = n
length_of (negsuc n) = 0

-- `me` names this object as the timers' callback.
unfoldable pub configure_periodic : ℕ → Env → Phr → Phr
configure_periodic me e p =
    if e.setup_present && is_new p.timer_periodic e.cfg_periodic
    then record p {
      timer_periodic = e.cfg_periodic;
      periodic = Timers.run (Timers.configure me (length_of e.cfg_periodic) p.periodic);
      phr_is_triggered = true;
    }
    else p

unfoldable pub configure_prohibit : ℕ → Env → Phr → Phr
configure_prohibit me e p =
    if is_new p.timer_prohibit e.cfg_prohibit
    then record p {
      timer_prohibit = e.cfg_prohibit;
      prohibit = Timers.run (Timers.configure me (length_of e.cfg_prohibit) p.prohibit);
      phr_is_triggered = true;
    }
    else p

unfoldable pub step : ℕ → Env → Phr → Phr
unfolding configure_periodic configure_prohibit pathloss_changed
step me e p =
    if p.initiated
    then (let (p', changed) =
          pathloss_changed e (configure_prohibit me e (configure_periodic me e p)) in
        if changed && Timers.is_expired p'.prohibit
        then record p' { phr_is_triggered = true }
        else p')
    else p

-- The flag says that a report is sent; its value is the PHY's.
unfoldable pub generate_phr_on_ul_grant : Phr → Phr × Bool
generate_phr_on_ul_grant p =
    if p.phr_is_triggered
    then (
      record p {
        periodic = Timers.run (Timers.reset p.periodic);
        prohibit = Timers.run (Timers.reset p.prohibit);
        phr_is_triggered = false;
      },
      true,
    )
    else (p, false)

-- A step of each timer, with the callback if it fires.
unfoldable pub step_periodic : Env → Phr → Phr
unfolding timer_expired
step_periodic e p =
    let (periodic, is_due) = Timers.step p.periodic in
    let counted = record p { periodic = periodic } in
    if is_due then timer_expired true e counted else counted

unfoldable pub step_prohibit : Env → Phr → Phr
unfolding timer_expired
step_prohibit e p =
    let (prohibit, is_over) = Timers.step p.prohibit in
    let counted = record p { prohibit = prohibit } in
    if is_over then timer_expired false e counted else counted

-- What one TTI of the MAC does to the procedure: its step, and then a step of its two timers, the
-- periodic one first.
unfoldable pub tick : ℕ → Env → Phr → Phr
unfolding step_periodic step_prohibit
tick me e p = step_prohibit e (step_periodic e (step me e p))
