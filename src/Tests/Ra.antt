-- ===== src/Tests/Ra.antt =====
-- The random access procedure at concrete inputs.
use srs_ue.Prelude.{ℕ, ◌≤◌, ◌≡◌, ◌≢◌, refl, ◌⊎◌, true, false, List, [], ◌∷◌, none, arith}
use srs_ue.Prelude.Int.{pos}
use srs_ue.Common.Timers
use srs_ue.Common.Timers.{Timer, new_timer}
use srs_ue.Mac.Ra.{
  resource_selection, preamble_transmission, contention_resolution, response_error, ra_problem,
  group_a, not_received, Config, Ra, Env, step, step_initialization, step_resource_selection,
  contention_resolution_id_received, is_successful,
}
use srs_ue.Mac.Ra.Preamble.{InGroup, nof_in, step_resource_selection-InGroup}
use srs_ue.Mac.Ra.Attempts.{Event, steps, expires, decodes, run, sends, run-initialized}
use srs_ue.Mac.Ra.Contention.{contention_resolution_id_received-outcome}

abbrev config : Config
config = record {
  prach_config_index = 3;
  num_ra_preambles = 52;
  group_a_present = true;
  size_group_a = 40;
  msg_size_group_a = 56;
  ra_resp_win_size = 10;
  pwr_ramping_step = 4;
  preamble_trans_max = 3;
  init_target_pwr = 4294967192;
  con_res_timer = 40;
}

abbrev ra : Ra
ra = record {
  state = resource_selection;
  nof_preambles = 52;
  nof_group_a = 40;
  nof_group_b = 12;
  message_size_group_a = 56;
  response_window_size = 10;
  power_ramping_step = 4;
  preamble_trans_max = 3;
  ini_target_power = 4294967192;
  delta_preamble_db = pos 0;
  mask_index = 0;
  preamble_index = 0;
  new_ra_msg_len = 80;
  preamble_transmission_counter = 1;
  backoff_param_ms = 0;
  sel_mask_index = 0;
  sel_preamble = 0;
  backoff_interval_start = 0;
  backoff_interval = 0;
  received_target_power_dbm = 0;
  ra_rnti = 0;
  current_ta = 0;
  last_msg3_group = group_a;
  msg3_transmitted = false;
  first_rar_received = true;
  transmitted_contention_id = 0;
  transmitted_crnti = 70;
  pdcch_to_crnti_received = not_received;
  started_by_pdcch = false;
  rar_grant_nbytes = 0;
  rar_grant_tti = 0;
  msg3_flushed = false;
  rar_received = false;
  crnti = 70;
  temp_rnti = 0;
  contention_id = 0;
  contention_timer = new_timer 0;
  alignment_timer = new_timer 1;
}

abbrev env : Env
env = record {
  config = config;
  current_tti = 5;
  prach_tx_tti = pos 4;
  random = 17;
  msg3_is_transmitted = true;
}

abbrev interval : ℕ → ℕ → ℕ
interval a b = 9

step_resource_selection-InGroup_example :
    let after = (step_resource_selection 17 ra).0 in
    (((after.state ≡ preamble_transmission) × InGroup ra after.last_msg3_group after.sel_preamble)
      ⊎ ((after.state ≡ ra_problem) × (nof_in ra after.last_msg3_group ≡ 0)))
    × ((false ≡ false) ⊎ (after.last_msg3_group ≡ group_a))
step_resource_selection-InGroup_example =
    step_resource_selection-InGroup 17 ra refl (refl, omega arith)

abbrev events : List Event
events = steps env ∷ steps env ∷ expires ∷ steps env ∷ steps env ∷ decodes none [] ∷ []

run-initialized_example : sends (run interval 0 events (step_initialization 0 config ra).0).1 ≤ 3
run-initialized_example = run-initialized interval 0 config events ra (omega arith) (omega arith)

abbrev resolving : Ra
resolving = record ra {
  state = contention_resolution;
  transmitted_contention_id = 33;
  temp_rnti = 71;
}

abbrev given : ℕ
given = 33

contention_resolution_id_received-outcome_example :
    let (after, matched) = contention_resolution_id_received given resolving in
    (after.temp_rnti ≡ 0)
    × (Timers.is_running after.contention_timer ≡ false)
    × (((given ≡ 33)
          × (matched ≡ true)
          × (after.crnti ≡ 71)
          × (is_successful (step interval 0 env after).0 ≡ true))
        ⊎ ((given ≢ 33) × (matched ≡ false) × (after.crnti ≡ 70) × (after.state ≡ response_error)))
contention_resolution_id_received-outcome_example =
    contention_resolution_id_received-outcome interval 0 env given resolving
