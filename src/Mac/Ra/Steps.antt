-- ===== src/Mac/Ra/Steps.antt =====
-- ue/src/mac/proc_ra.cc: what `step` does in each state.
use srs_ue.Prelude.{
  ℕ, ◌+◌, ◌-◌, ◌*◌, ◌%◌, Bool, true, false, not, ◌&&◌, List, [], ◌∷◌, ltb, leb, ◌==◌, if◌then◌else◌,
  u32, sub_u32,
}
use srs_ue.Prelude.Int.{ℤ, pos, negsuc}
use srs_ue.Common.Timers
use srs_ue.Mac.Ra.Defs.{
  State, idle, initialization, resource_selection, preamble_transmission, pdcch_setup,
  response_reception, response_error, backoff_wait, contention_resolution, completion,
  completion_done, ra_problem, Group, group_a, group_b, Pdcch, not_received, ul_grant, dl_grant,
  Config, Ra, Action, msg3_flush, configure_prach_params, report_ra_problem, prach_send, search_rar,
  read_params,
}

-- What a step meets: `phy_h->get_current_tti()`, `phy_h->prach_tx_tti()`, `rand()` and
-- `mux_unit->msg3_is_transmitted()`.
pub record Env : Type 0 where
  pub config : Config
  pub current_tti : ℕ
  pub prach_tx_tti : ℤ
  pub random : ℕ
  pub msg3_is_transmitted : Bool

-- The bits of an `int`.
abbrev pub int_bits : ℤ → ℕ
int_bits (pos n) = n
int_bits (negsuc n) = 4294967296 - 1 - n

-- The state RESPONSE_ERROR that the code sets for a UE with a C-RNTI is overwritten.
unfoldable pub step_initialization : ℕ → Config → Ra → Ra × List Action
step_initialization me c r = (
  record (read_params me c r) {
    pdcch_to_crnti_received = not_received;
    transmitted_contention_id = 0;
    preamble_transmission_counter = 1;
    first_rar_received = true;
    msg3_flushed = false;
    backoff_param_ms = 0;
    transmitted_crnti = r.crnti;
    state = resource_selection;
  },
  msg3_flush ∷ configure_prach_params ∷ [],
)

-- The group for a preamble that the UE chooses: that of the first Msg3, once there was one.
unfoldable pub select_group : Ra → Group
select_group r =
    if r.msg3_transmitted
    then r.last_msg3_group
    else if ltb 0 r.nof_group_b && ltb r.message_size_group_a r.new_ra_msg_len
    then group_b
    else group_a

unfoldable pub choose_preamble : ℕ → Group → Ra → Ra
choose_preamble random group_a r =
    if r.nof_group_a == 0 then record r { state = ra_problem } else record r {
      sel_preamble = r.preamble_transmission_counter % r.nof_group_a;
      sel_mask_index = 0;
      state = preamble_transmission;
    }
choose_preamble random group_b r =
    if r.nof_group_b == 0 then record r { state = ra_problem } else record r {
      sel_preamble = u32 (r.nof_group_a + random % r.nof_group_b);
      sel_mask_index = 0;
      state = preamble_transmission;
    }

unfoldable pub step_resource_selection : ℕ → Ra → Ra × List Action
unfolding select_group choose_preamble
step_resource_selection random r =
    if ltb 0 r.preamble_index
    then (
      record r {
        sel_mask_index = r.mask_index;
        sel_preamble = r.preamble_index % r.nof_preambles;
        state = preamble_transmission;
      },
      [],
    )
    else (
      choose_preamble random (select_group r)
          (if r.msg3_transmitted then r else record r { last_msg3_group = select_group r }),
      [],
    )

-- The sum is unsigned and is stored in an `int`; these are its bits.
unfoldable pub target_power : Ra → ℕ
target_power r = u32 (
    r.ini_target_power
    + int_bits r.delta_preamble_db
    + sub_u32 r.preamble_transmission_counter 1 * r.power_ramping_step)

unfoldable pub step_preamble_transmission : Ra → Ra × List Action
unfolding target_power
step_preamble_transmission r = (
  record r {
    received_target_power_dbm = target_power r;
    rar_received = false;
    state = pdcch_setup;
  },
  prach_send r.sel_preamble (sub_u32 r.sel_mask_index 1) (target_power r) ∷ [],
)

unfoldable pub step_pdcch_setup : ℤ → Ra → Ra × List Action
step_pdcch_setup (negsuc n) r = (r, [])
step_pdcch_setup (pos ra_tti) r = if ra_tti == 0 then (r, []) else (
  record r { ra_rnti = 1 + ra_tti % 10; state = response_reception },
  search_rar (1 + ra_tti % 10) (ra_tti + 3) (u32 (ra_tti + 3 + r.response_window_size)) ∷ [],
)

module _ (tti_interval : ℕ → ℕ → ℕ) where
  unfoldable pub step_response_reception : ℕ → ℤ → Ra → Ra × List Action
  step_response_reception now (negsuc n) r = (r, [])
  step_response_reception now (pos ra_tti) r =
      let interval = tti_interval now (u32 (ra_tti + 3 + r.response_window_size)) in
      if not r.rar_received && ltb 1 interval && ltb interval 100
      then (record r { state = response_error }, [])
      else (r, [])

  unfoldable pub step_backoff_wait : ℕ → Ra → Ra × List Action
  step_backoff_wait now r =
      if leb r.backoff_interval (tti_interval now r.backoff_interval_start)
      then (record r { state = resource_selection }, [])
      else (r, [])

unfoldable pub step_response_error : ℕ → ℕ → Ra → Ra × List Action
step_response_error now random r =
    let count = u32 (r.preamble_transmission_counter + 1) in
    let wait = if r.backoff_param_ms == 0 then 0 else random % r.backoff_param_ms in
    if leb (u32 (r.preamble_trans_max + 1)) count
    then (
      record r { preamble_transmission_counter = count; state = ra_problem },
      report_ra_problem ∷ [],
    )
    else (
      record r {
        preamble_transmission_counter = count;
        backoff_interval_start = now;
        backoff_interval = wait;
        state = if wait == 0 then resource_selection else backoff_wait;
      },
      [],
    )

-- Has the PDCCH that ends contention resolution been received?
abbrev pub is_resolved : Bool → Pdcch → Bool
is_resolved by_pdcch not_received = false
is_resolved by_pdcch ul_grant = true
is_resolved by_pdcch dl_grant = by_pdcch

unfoldable pub step_contention_resolution : Bool → Ra → Ra × List Action
step_contention_resolution false r = (r, [])
step_contention_resolution true r =
    if not (r.transmitted_crnti == 0)
    then if is_resolved r.started_by_pdcch r.pdcch_to_crnti_received
      then (
        record r {
          msg3_transmitted = true;
          contention_timer = Timers.stop r.contention_timer;
          temp_rnti = 0;
          state = completion;
          pdcch_to_crnti_received = not_received;
        },
        [],
      )
      else (record r { msg3_transmitted = true; pdcch_to_crnti_received = not_received }, [])
    else if r.transmitted_contention_id == 0
    then (
      record r {
        msg3_transmitted = true;
        transmitted_contention_id = r.contention_id;
        contention_id = 0;
      },
      [],
    )
    else (record r { msg3_transmitted = true }, [])

unfoldable pub step_completion : Ra → Ra × List Action
step_completion r = (
  record r { msg3_flushed = true; msg3_transmitted = false; state = completion_done },
  if r.msg3_flushed then [] else msg3_flush ∷ [],
)

unfoldable pub step_in : (ℕ → ℕ → ℕ) → ℕ → Env → State → Ra → Ra × List Action
step_in interval me e idle r = (r, [])
step_in interval me e initialization r = step_initialization me e.config r
step_in interval me e resource_selection r = step_resource_selection e.random r
step_in interval me e preamble_transmission r = step_preamble_transmission r
step_in interval me e pdcch_setup r = step_pdcch_setup e.prach_tx_tti r
step_in interval me e response_reception r =
    step_response_reception interval e.current_tti e.prach_tx_tti r
step_in interval me e response_error r = step_response_error e.current_tti e.random r
step_in interval me e backoff_wait r = step_backoff_wait interval e.current_tti r
step_in interval me e contention_resolution r = step_contention_resolution e.msg3_is_transmitted r
step_in interval me e completion r = step_completion r
step_in interval me e completion_done r = (r, [])
step_in interval me e ra_problem r = (r, [])

unfoldable pub step : (ℕ → ℕ → ℕ) → ℕ → Env → Ra → Ra × List Action
unfolding step_in
step interval me e r = step_in interval me e r.state r
