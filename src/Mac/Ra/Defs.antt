-- ===== src/Mac/Ra/Defs.antt =====
-- ue/hdr/mac/proc_ra.h and the start of proc_ra.cc: the state and its parameters.
use srs_ue.Prelude.{ℕ, ◌-◌, ◌%◌, Bool, true, false, List, [], ◌∷◌, ltb, ◌==◌, if◌then◌else◌, get_or}
use srs_ue.Prelude.Int.{ℤ, pos, negsuc}
use srs_ue.Common.Timers
use srs_ue.Common.Timers.{Timer}

pub data State : Type 0 where
  idle initialization resource_selection preamble_transmission pdcch_setup : State
  response_reception response_error backoff_wait contention_resolution : State
  completion completion_done ra_problem : State

pub data Group : Type 0 where
  group_a group_b : Group

pub data Pdcch : Type 0 where
  not_received ul_grant dl_grant : Pdcch

-- The numbers that RRC's `mac_cfg` stands for at the time of `read_params`.
pub record Config : Type 0 where
  pub prach_config_index : ℕ
  pub num_ra_preambles : ℕ
  pub group_a_present : Bool
  pub size_group_a : ℕ
  pub msg_size_group_a : ℕ
  pub ra_resp_win_size : ℕ
  pub pwr_ramping_step : ℕ
  pub preamble_trans_max : ℕ
  pub init_target_pwr : ℕ
  pub con_res_timer : ℕ

-- The object, with the numbers of `rntis` and its two timers. Unsigned and signed 32-bit fields are
-- numbers; `received_target_power_dbm` and the initial power are the bits of an `int`.
pub record Ra : Type 0 where
  pub state : State
  pub nof_preambles : ℕ
  pub nof_group_a : ℕ
  pub nof_group_b : ℕ
  pub message_size_group_a : ℕ
  pub response_window_size : ℕ
  pub power_ramping_step : ℕ
  pub preamble_trans_max : ℕ
  pub ini_target_power : ℕ
  pub delta_preamble_db : ℤ
  pub mask_index : ℕ
  pub preamble_index : ℕ
  pub new_ra_msg_len : ℕ
  pub preamble_transmission_counter : ℕ
  pub backoff_param_ms : ℕ
  pub sel_mask_index : ℕ
  pub sel_preamble : ℕ
  pub backoff_interval_start : ℕ
  pub backoff_interval : ℕ
  pub received_target_power_dbm : ℕ
  pub ra_rnti : ℕ
  pub current_ta : ℕ
  pub last_msg3_group : Group
  pub msg3_transmitted : Bool
  pub first_rar_received : Bool
  pub transmitted_contention_id : ℕ
  pub transmitted_crnti : ℕ
  pub pdcch_to_crnti_received : Pdcch
  pub started_by_pdcch : Bool
  pub rar_grant_nbytes : ℕ
  pub rar_grant_tti : ℕ
  pub msg3_flushed : Bool
  pub rar_received : Bool
  pub crnti : ℕ
  pub temp_rnti : ℕ
  pub contention_id : ℕ
  pub contention_timer : Timer
  pub alignment_timer : Timer

-- The calls that the procedure makes.
pub data Action : Type 0 where
  msg3_flush configure_prach_params search_reset report_ra_problem : Action
  prach_send : (preamble mask power : ℕ) → Action
  search_rar : (rnti first last : ℕ) → Action
  search_temp search_dl_user search_ul_user append_crnti_ce set_timeadv_rar : ℕ → Action
  set_rar_grant : (tti : ℕ) → (bits : List ℕ) → Action

unfoldable pub reset : Ra → Ra
reset r = record r { state = idle; msg3_transmitted = false; started_by_pdcch = false }

unfoldable pub backoff_table : List ℕ
backoff_table =
    0 ∷ 10 ∷ 20 ∷ 30 ∷ 40 ∷ 60 ∷ 80 ∷ 120 ∷ 160 ∷ 240 ∷ 320 ∷ 480 ∷ 960 ∷ 960 ∷ 960 ∷ 960 ∷ []

unfoldable pub delta_preamble_db_table : List ℤ
delta_preamble_db_table = pos 0 ∷ pos 0 ∷ negsuc 2 ∷ negsuc 2 ∷ pos 8 ∷ []

-- `nof_groupA_preambles` as configured, cut to the number of all preambles.
abbrev pub groups_of : Config → ℕ
groups_of c =
    let wanted = if c.group_a_present then c.size_group_a else c.num_ra_preambles in
    if ltb c.num_ra_preambles wanted then c.num_ra_preambles else wanted

-- `me` names this object as the timer's callback.
unfoldable pub read_params : ℕ → Config → Ra → Ra
unfolding delta_preamble_db_table
read_params me c r =
    let n_b = c.num_ra_preambles - groups_of c in
    record r {
      preamble_index = 0;
      mask_index = 0;
      nof_preambles = c.num_ra_preambles;
      nof_group_a = groups_of c;
      nof_group_b = n_b;
      message_size_group_a = if n_b == 0 then r.message_size_group_a else c.msg_size_group_a;
      response_window_size = c.ra_resp_win_size;
      power_ramping_step = c.pwr_ramping_step;
      preamble_trans_max = c.preamble_trans_max;
      ini_target_power = c.init_target_pwr;
      delta_preamble_db = get_or delta_preamble_db_table (c.prach_config_index % 5) (pos 0);
      contention_timer =
          if ltb 0 c.con_res_timer
          then Timers.configure me c.con_res_timer r.contention_timer
          else r.contention_timer;
    }

unfoldable pub in_progress : Ra → Bool
in_progress r = elim r.state [ idle ↦ false | completion_done ↦ false | _ ↦ true ]

unfoldable pub is_successful : Ra → Bool
is_successful r = elim r.state [ completion_done ↦ true | _ ↦ false ]

unfoldable pub is_error : Ra → Bool
is_error r = elim r.state [ ra_problem ↦ true | _ ↦ false ]

-- Timing advance (36.321, 5.2). The branches are as the code has them.
unfoldable pub process_timeadv_cmd : ℕ → Ra → Ra × List Action
process_timeadv_cmd ta r =
    if r.preamble_index == 0
    then (
      record r { alignment_timer = Timers.run (Timers.reset r.alignment_timer) },
      set_timeadv_rar ta ∷ [],
    )
    else if Timers.is_running r.alignment_timer
    then (r, [])
    else (record r { alignment_timer = Timers.run r.alignment_timer }, set_timeadv_rar ta ∷ [])
