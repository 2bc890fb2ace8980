-- ===== src/Mac/Ra/Events.antt =====
-- ue/src/mac/proc_ra.cc: the calls that come from the MAC, the demux and the timers.
use srs_ue.Prelude.{
  ℕ, ◌%◌, Bool, true, false, List, [], ◌∷◌, ◌++◌, Option, none, some, ltb, ◌==◌, if◌then◌else◌,
  get_or,
}
use srs_ue.Common.Timers
use srs_ue.Mac.Ra.Defs.{
  State, idle, initialization, response_error, contention_resolution, completion, completion_done,
  ra_problem, not_received, ul_grant, dl_grant, Ra, Action, search_reset, search_temp,
  search_dl_user, search_ul_user, append_crnti_ce, set_rar_grant, backoff_table,
  process_timeadv_cmd,
}

-- A parsed random access response: the backoff indicator, if any, and the responses.
pub record Response : Type 0 where
  pub rapid : ℕ
  pub ta_cmd : ℕ
  pub temp_crnti : ℕ
  pub sched_grant : List ℕ

-- `MAX_RAR_PDU_LEN`.
abbrev pub max_rar_pdu_len : ℕ
max_rar_pdu_len = 2048

-- `new_grant_dl`: the flag is `action->decode_enabled`.
unfoldable pub new_grant_dl : ℕ → ℕ → Ra → Ra × Bool
new_grant_dl n_bytes tti r =
    if ltb n_bytes max_rar_pdu_len
    then (record r { rar_grant_nbytes = n_bytes; rar_grant_tti = tti }, true)
    else (record r { state = response_error }, false)

-- The part of `tb_decoded_ok` for a preamble that the UE selected. The C-RNTI is kept for Msg3 at
-- the first response.
unfoldable pub own_preamble : Response → Ra → Ra × List Action
own_preamble p r =
    let with_temp : Ra = record r {
      temp_rnti = p.temp_crnti;
      state = contention_resolution;
      contention_timer = Timers.run (Timers.reset r.contention_timer);
    } in
    if r.first_rar_received
    then (
      record with_temp { first_rar_received = false; transmitted_crnti = r.crnti },
      search_temp p.temp_crnti
          ∷ (if r.crnti == 0
              then []
              else append_crnti_ce r.crnti ∷ search_ul_user r.crnti ∷ search_dl_user r.crnti ∷ []),
    )
    else (with_temp, search_temp p.temp_crnti ∷ [])

unfoldable pub take_response : Response → Ra → Ra × List Action
unfolding own_preamble
take_response p r =
    let (aligned, advance) = process_timeadv_cmd p.ta_cmd (record r { rar_received = true }) in
    let granted : Ra = record aligned { current_ta = p.ta_cmd } in
    let searched = advance ++ search_reset ∷ set_rar_grant r.rar_grant_tti p.sched_grant ∷ [] in
    if ltb 0 r.preamble_index
    then (record granted { state = completion }, searched)
    else (let (r', more) = own_preamble p granted in (r', searched ++ more))

-- The loop over the responses: those for other preambles are skipped.
unfoldable pub take_responses : List Response → Ra → Ra × List Action
take_responses [] r = (r, [])
take_responses (p ∷ ps) r =
    let (r', now) = if p.rapid == r.sel_preamble then take_response p r else (r, []) in
    let (r'', later) = take_responses ps r' in (r'', now ++ later)

abbrev pub backoff_of : Option ℕ → ℕ
backoff_of none = 0
backoff_of (some bi) = get_or backoff_table (bi % 16) 0

unfoldable pub tb_decoded_ok : Option ℕ → List Response → Ra → Ra × List Action
unfolding take_responses
tb_decoded_ok backoff ps r =
    take_responses ps (record r { backoff_param_ms = backoff_of backoff; current_ta = 0 })

unfoldable pub contention_resolution_id_received : ℕ → Ra → Ra × Bool
contention_resolution_id_received id r =
    if r.transmitted_contention_id == id
    then (
      record r {
        contention_timer = Timers.stop r.contention_timer;
        crnti = r.temp_rnti;
        temp_rnti = 0;
        state = completion;
      },
      true,
    )
    else (
      record r {
        contention_timer = Timers.stop r.contention_timer;
        temp_rnti = 0;
        state = response_error;
      },
      false,
    )

-- May a new procedure start?
abbrev pub is_at_rest : State → Bool
is_at_rest idle = true
is_at_rest completion_done = true
is_at_rest ra_problem = true
is_at_rest _ = false

unfoldable pub start_mac_order : ℕ → Ra → Ra
start_mac_order msg_len_bits r =
    if is_at_rest r.state
    then record r {
      started_by_pdcch = false;
      new_ra_msg_len = msg_len_bits;
      state = initialization;
    }
    else r

unfoldable pub start_pdcch_order : Ra → Ra
start_pdcch_order r =
    if is_at_rest r.state then record r { started_by_pdcch = true; state = initialization } else r

unfoldable pub timer_expired : Ra → Ra × List Action
timer_expired r = (record r { temp_rnti = 0; state = response_error }, search_reset ∷ [])

unfoldable pub pdcch_to_crnti : Bool → Ra → Ra
pdcch_to_crnti true r = record r { pdcch_to_crnti_received = ul_grant }
pdcch_to_crnti false r = record r {
  pdcch_to_crnti_received = elim r.pdcch_to_crnti_received [
    | not_received ↦ dl_grant
    | other ↦ other
  ];
}

unfoldable pub harq_retx : Ra → Ra
harq_retx r = record r { contention_timer = Timers.reset r.contention_timer }
