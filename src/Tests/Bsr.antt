-- ===== src/Tests/Bsr.antt =====
-- The buffer status reports and scheduling requests at concrete inputs.
use srs_ue.Prelude.{
  ◌+◌, ℕ, ◌≤◌, ◌<◌, ◌≡◌, refl, true, false, List, [], ◌∷◌, arith, replicate, u32, get_or,
}
use srs_ue.Prelude.Int.{ℤ, pos, negsuc}
use srs_ue.Common.Timers.{new_timer}
use srs_ue.Mac.Bsr.{
  Bsr, Trigger, idle, regular, padding, Report, unset, init, get_buffer_state, generate_bsr,
  check_highest_channel, step, need_to_send_sr, need_to_reset_sr, need_to_send_bsr_on_ul_grant,
  pending_rounds, find_max_priority_lcid,
}
use srs_ue.Mac.Bsr.Totals.{sum, generate_bsr-get_buffer_state}
use srs_ue.Mac.Bsr.Priority.{IsPick, check_highest_channel-IsPick}
use srs_ue.Mac.Bsr.Request.{need_to_send_bsr_cancels}
use srs_ue.Mac.Bsr.Invariant.{IsValid, calls, sets_lcg, sets_priority, steps, calls-init-IsValid}
use srs_ue.Mac.Sr
use srs_ue.Mac.Sr.{start, sr_send, release_pucch_srs, need_tx, need_random_access}
use srs_ue.Mac.Sr.Limit.{run, sends, run-start}

-- Three channels: 0 and 1 in group 0, 2 in group 1, and none for the others.
abbrev two_groups : Bsr
two_groups = record {
  reset_sr = false;
  initiated = true;
  lcg = pos 0 ∷ pos 0 ∷ pos 1 ∷ replicate 3 unset;
  last_pending_data = replicate 6 0;
  priorities = pos 99 ∷ pos 1 ∷ pos 7 ∷ replicate 3 unset;
  triggered = regular;
  sr_is_sent = false;
  last_print = 0;
  next_tx_tti = 3;
  timer_periodic = new_timer 0;
  timer_retx = new_timer 1;
}

abbrev queues : ℕ → ℕ
queues lcid = get_or (0 ∷ 30 ∷ 500 ∷ []) lcid 0

abbrev interval : ℕ → ℕ → ℕ
interval a b = 9

generate_bsr-get_buffer_state_example :
    u32 (sum (generate_bsr queues two_groups 0).0.buff_size)
    ≡ u32 (get_buffer_state queues two_groups)
generate_bsr-get_buffer_state_example =
    generate_bsr-get_buffer_state queues two_groups 0 (omega arith) (ground arith)

check_highest_channel-IsPick_example :
    ((check_highest_channel queues two_groups).0 ≡ record two_groups { triggered = regular })
    × (k : ℕ) × IsPick queues two_groups.priorities two_groups.lcg 0 k
    × (get_or two_groups.last_pending_data k 0 < queues k)
unfolding check_highest_channel
check_highest_channel-IsPick_example = check_highest_channel-IsPick queues two_groups refl

abbrev padded : Bsr
padded = record two_groups { triggered = padding }

need_to_send_bsr_cancels_example :
    let after = (need_to_send_bsr_on_ul_grant queues 40 two_groups).0 in
    (need_to_send_sr interval 20 after ≡ (after, false))
    × (need_to_reset_sr after ≡ (record after { reset_sr = false; sr_is_sent = false }, true))
    × (need_to_reset_sr (need_to_reset_sr after).0 ≡ ((need_to_reset_sr after).0, false))
need_to_send_bsr_cancels_example = need_to_send_bsr_cancels interval queues 40 20 two_groups

calls-init-IsValid_example : IsValid (
    calls 0
      (sets_lcg 1 0 ∷ sets_priority 1 4 ∷ steps queues (pos 5) (pos 320) 7 ∷ [])
      (init padded))
calls-init-IsValid_example =
    calls-init-IsValid 0 (sets_lcg 1 0 ∷ sets_priority 1 4 ∷ steps queues (pos 5) (pos 320) 7 ∷ [])
      padded

abbrev quiet : Sr.Sr
quiet = record {
  initiated = true;
  is_pending_sr = false;
  do_ra = false;
  sr_counter = 0;
  dsr_transmax = 0;
}

abbrev at_tti : ℕ → ℤ → Sr.Env
at_tti tti last = record { tti = tti; last_tx_tti = last; setup_present = true }

abbrev three_ttis : List Sr.Env
three_ttis = at_tti 10 (negsuc 0) ∷ at_tti 20 (pos 10) ∷ at_tti 30 (pos 20) ∷ []

-- One request has been sent when it is started again.
abbrev resumed : Sr.Sr
resumed = record quiet { is_pending_sr = true; sr_counter = 1; dsr_transmax = 2 }

run-start_example :
    let (s', actions) = run three_ttis (start 2 resumed) in
    (sends actions + 1 ≡ s'.sr_counter) × (sends actions ≤ 1)
run-start_example = run-start 2 three_ttis resumed refl (omega arith) (omega arith)

abbrev used_up : Sr.Sr
used_up = record quiet { is_pending_sr = true; sr_counter = 2; dsr_transmax = 2 }
