-- ===== src/Mac/Ra/Contention.antt =====
-- Contention resolution, and when a procedure starts.
use srs_ue.Prelude.{ℕ, ◌≡◌, ◌⊎◌, Bool, true, false, [], arith, ◌≢◌}
use srs_ue.Common.Timers
use srs_ue.Mac.Ra.Defs.{
  initialization, response_error, contention_resolution, completion, not_received, ul_grant, Ra,
  is_error, in_progress, is_successful,
}
use srs_ue.Mac.Ra.Steps.{Env, step, step_in, step_contention_resolution, step_completion}
use srs_ue.Mac.Ra.Events.{
  contention_resolution_id_received, pdcch_to_crnti, start_mac_order, start_pdcch_order,
}

-- The identity that comes with a received contention resolution decides: on a match the temporary
-- C-RNTI becomes the C-RNTI and the next step completes the procedure; otherwise the C-RNTI is kept
-- and the attempt has failed. Either way the timer is stopped and the temporary one is given up.
pub contention_resolution_id_received-outcome :
    (tti_interval : ℕ → ℕ → ℕ) (me : ℕ) (e : Env) (id : ℕ) (r : Ra)
    → let (after, matched) = contention_resolution_id_received id r in
      (after.temp_rnti ≡ 0)
      × (Timers.is_running after.contention_timer ≡ false)
      × (((id ≡ r.transmitted_contention_id)
            × (matched ≡ true)
            × (after.crnti ≡ r.temp_rnti)
            × (is_successful (step tti_interval me e after).0 ≡ true))
          ⊎ ((id ≢ r.transmitted_contention_id)
              × (matched ≡ false)
              × (after.crnti ≡ r.crnti)
              × (after.state ≡ response_error)))
unfolding contention_resolution_id_received step step_in step_completion is_successful
    Timers.is_running Timers.stop
contention_resolution_id_received-outcome tti_interval me e id r = ground arith

-- A UE that put its C-RNTI into Msg3 completes, once Msg3 is transmitted, exactly when an uplink
-- grant came for the C-RNTI, or a downlink one after a PDCCH order; a downlink grant never hides an
-- uplink one. The C-RNTI is not changed.
pub step-pdcch_to_crnti :
    (tti_interval : ℕ → ℕ → ℕ) (me : ℕ) (e : Env) (uplink : Bool) (r : Ra)
    → r.state ≡ contention_resolution
    → r.transmitted_crnti ≢ 0
    → e.msg3_is_transmitted ≡ true
    → let (after, actions) = step tti_interval me e (pdcch_to_crnti uplink r) in
      (after.crnti ≡ r.crnti)
      × (after.pdcch_to_crnti_received ≡ not_received)
      × (actions ≡ [])
      × ((((uplink ≡ true) ⊎ (r.started_by_pdcch ≡ true) ⊎ (r.pdcch_to_crnti_received ≡ ul_grant))
            × (after.state ≡ completion))
          ⊎ ((uplink ≡ false)
              × (r.started_by_pdcch ≡ false)
              × (r.pdcch_to_crnti_received ≢ ul_grant)
              × (after.state ≡ contention_resolution)))
unfolding step step_in step_contention_resolution pdcch_to_crnti
step-pdcch_to_crnti tti_interval me e uplink r s c t = ground arith

-- An order starts a procedure exactly when none is in progress or the last one failed, and otherwise
-- changes nothing. The flag of the PDCCH order tells the two apart.
pub start-is_at_rest :
    (len : ℕ) (r : Ra)
    → (((in_progress r ≡ false) ⊎ (is_error r ≡ true))
        × ((start_mac_order len r).state ≡ initialization)
        × ((start_pdcch_order r).state ≡ initialization)
        × ((start_mac_order len r).started_by_pdcch ≡ false)
        × ((start_pdcch_order r).started_by_pdcch ≡ true))
      ⊎ ((in_progress r ≡ true)
          × (is_error r ≡ false)
          × (start_mac_order len r ≡ r)
          × (start_pdcch_order r ≡ r))
unfolding start_mac_order start_pdcch_order in_progress is_error
start-is_at_rest len r = ground arith
