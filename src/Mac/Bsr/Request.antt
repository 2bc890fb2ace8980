-- ===== src/Mac/Bsr/Request.antt =====
-- When a scheduling request is wanted, and what a grant cancels.
use srs_ue.Prelude.{ℕ, ◌≡◌, refl, ◌≢◌, ◌⊎◌, true, false, Option-cases, inl, inr, arith}
use srs_ue.Prelude.Int.{ℤ}
use srs_ue.Mac.Bsr.Defs.{
  Bsr, regular, check_single_channel, check_highest_channel, update_pending_data, pending_rounds,
  trigger_if_new, single_rounds, highest_rounds,
}
use srs_ue.Mac.Bsr.Rounds.{
  step, configure_timer, need_to_send_bsr_on_ul_grant, need_to_reset_sr, need_to_send_sr,
}

module _ (tti_interval : ℕ → ℕ → ℕ) where
  -- A scheduling request is asked for only while a Regular BSR is triggered and none was sent; after
  -- that no call asks for another one at any TTI, and `need_to_reset_sr` finds nothing to reset.
  pub need_to_send_sr_once :
      (tti : ℕ) (b : Bsr)
      → (need_to_send_sr tti_interval tti b).1 ≡ true
      → let after = (need_to_send_sr tti_interval tti b).0 in
        (b.triggered ≡ regular)
        × (b.sr_is_sent ≡ false)
        × ((later : ℕ) → need_to_send_sr tti_interval later after ≡ (after, false))
        × (need_to_reset_sr after ≡ (after, false))
  unfolding need_to_send_sr need_to_reset_sr
  need_to_send_sr_once tti b h = (ground arith, ground arith, λ later. ground arith, ground arith)

  -- A grant, whatever its size and the BSR that was pending, cancels the trigger and the scheduling
  -- request: none is asked for, the next `need_to_reset_sr` answers yes once, and the flag of the
  -- request that was sent is cleared then.
  pub need_to_send_bsr_cancels :
      (rlc : ℕ → ℕ) (grant tti : ℕ) (b : Bsr)
      → let after = (need_to_send_bsr_on_ul_grant rlc grant b).0 in
        (need_to_send_sr tti_interval tti after ≡ (after, false))
        × (need_to_reset_sr after ≡ (record after { reset_sr = false; sr_is_sent = false }, true))
        × (need_to_reset_sr (need_to_reset_sr after).0 ≡ ((need_to_reset_sr after).0, false))
  unfolding need_to_send_sr need_to_reset_sr need_to_send_bsr_on_ul_grant
  need_to_send_bsr_cancels rlc grant tti b = ground arith

-- A check leaves the state or triggers a Regular BSR.
abbrev pub Raises : Bsr → Bsr → Type 0
Raises b b' = (b' ≡ b) ⊎ (b' ≡ record b { triggered = regular })

module _ (rlc : ℕ → ℕ) where
  trigger_if_new-Raises : (i : ℕ) (b : Bsr) → Raises b (trigger_if_new rlc i b).0
  unfolding trigger_if_new
  trigger_if_new-Raises i b = ground arith

  pub single-Raises : (b : Bsr) → Raises b (check_single_channel rlc b).0
  unfolding check_single_channel
  single-Raises b = ground (arith, trigger_if_new-Raises (single_rounds rlc b.lcg 0 (0, 0)).0 b)

  pub highest-Raises : (b : Bsr) → Raises b (check_highest_channel rlc b).0
  unfolding check_highest_channel
  highest-Raises b = elim (Option-cases (highest_rounds rlc b.priorities b.lcg 0)) [
    | inl e ↦ rw (e, check_highest_channel) (inl refl)
    | inr (k, e) ↦ rw (e, check_highest_channel) (trigger_if_new-Raises k b)
  ]

-- The state with its timers configured.
abbrev pub configured : ℕ → ℤ → ℤ → Bsr → Bsr
configured me cp cr b = record b {
  timer_periodic = configure_timer me cp b.timer_periodic;
  timer_retx = configure_timer me cr b.timer_retx;
}

-- `step` never takes a Regular trigger back, and after it the queue lengths of the RLC are those
-- that later calls compare with. (The procedure is initiated.)
pub step_regular :
    (rlc : ℕ → ℕ) (me : ℕ) (cfg_periodic cfg_retx : ℤ) (tti : ℕ) (b : Bsr)
    → b.initiated ≡ true
    → let after = step rlc me cfg_periodic cfg_retx tti b in
      ((b.triggered ≢ regular) ⊎ (after.triggered ≡ regular))
      × (after.last_pending_data ≡ pending_rounds rlc b.last_pending_data 0)
unfolding step update_pending_data
step_regular rlc me cp cr tti b h = ground (
  arith,
  single-Raises rlc (configured me cp cr b),
  highest-Raises rlc (configured me cp cr b),
  highest-Raises rlc (check_single_channel rlc (configured me cp cr b)).0,
)
