-- ===== src/Tests/Phr.antt =====
-- The power headroom reports at concrete inputs.
use srs_ue.Prelude.{ℕ, ◌≡◌, refl, true, false, [], ◌∷◌, none, arith}
use srs_ue.Prelude.Int.{pos, negsuc}
use srs_ue.Common.Timers.{Timer, is_expired}
use srs_ue.Common.Timers.Expiry.{period}
use srs_ue.Mac.Phr.{Phr, Env, step, timer_expired, generate_phr_on_ul_grant}
use srs_ue.Mac.Phr.Prohibit.{ticks, step-change_lost, generate_phr_on_ul_grant-ticks}

abbrev timer : ℕ → Timer
timer n = record { id = n; callback = none; timeout = 50; counter = 3; running = true }

abbrev phr : Phr
phr = record {
  initiated = true;
  timer_prohibit = pos 50;
  timer_periodic = pos 50;
  dl_pathloss_change = negsuc 1;
  last_pathloss_db = pos 90;
  phr_is_triggered = false;
  periodic = timer 1;
  prohibit = timer 2;
}

abbrev phr_env : Env
phr_env = record {
  setup_present = true;
  cfg_periodic = pos 50;
  cfg_prohibit = pos 50;
  cfg_pathloss_change = pos 6;
  pathloss_db = pos 100;
}

step-change_lost_example :
    ((step 0 phr_env phr).phr_is_triggered ≡ false)
    × ((step 0 phr_env phr).last_pathloss_db ≡ pos 100)
    × ((timer_expired false phr_env (step 0 phr_env phr)).phr_is_triggered ≡ false)
unfolding is_expired
step-change_lost_example = step-change_lost 0 phr_env phr refl refl (refl, refl) refl refl

abbrev triggered : Phr
triggered = record phr { phr_is_triggered = true }

-- The periodic timer is done in the second TTI, and the prohibit timer runs for 50.
abbrev often : Phr
often = record triggered {
  timer_periodic = pos 2;
  periodic = record { id = 1; callback = none; timeout = 2; counter = 1; running = true };
}

abbrev often_env : Env
often_env = record phr_env { cfg_periodic = pos 2 }

generate_phr_on_ul_grant-ticks_example :
    ((generate_phr_on_ul_grant often).1 ≡ true)
    × ((generate_phr_on_ul_grant
          (ticks 0 (often_env ∷ often_env ∷ []) (generate_phr_on_ul_grant often).0)).1
        ≡ true)
unfolding period
generate_phr_on_ul_grant-ticks_example =
    generate_phr_on_ul_grant-ticks 0 (often_env ∷ often_env ∷ []) often refl (omega arith)
      (omega arith) (omega arith) ((refl, refl), ((refl, refl), omega arith))
