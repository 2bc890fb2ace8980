-- ===== src/Mac/Ra/Preamble.antt =====
-- Which preamble an attempt uses, and at what power.
use srs_ue.Prelude.{ℕ, zero, suc, ◌+◌, ◌*◌, ◌≤◌, ◌<◌, ◌≡◌, ◌⊎◌, false, arith, u32, sub_u32}
use srs_ue.Mac.Ra.Defs.{
  Config, Ra, Group, group_a, group_b, preamble_transmission, ra_problem, read_params,
}
use srs_ue.Mac.Ra.Steps.{
  step_initialization, step_resource_selection, select_group, choose_preamble, target_power,
  step_response_error, int_bits,
}

-- The preambles of a group: the first `nof_group_a` ones, or the rest.
abbrev pub InGroup : Ra → Group → ℕ → Type 0
InGroup r group_a k = k < r.nof_group_a
InGroup r group_b k = (r.nof_group_a ≤ k) × (k < r.nof_preambles)

-- Has the group no preamble?
abbrev pub nof_in : Ra → Group → ℕ
nof_in r group_a = r.nof_group_a
nof_in r group_b = r.nof_group_b

-- What `read_params` sees to.
abbrev pub HasGroups : Ra → Type 0
HasGroups r = (r.nof_group_a + r.nof_group_b ≡ r.nof_preambles) × (r.nof_preambles < 4294967296)

-- After `step_initialization`, for every configuration of at most 2 ^ 32 - 1 preambles, the two
-- groups make up all the preambles, the UE chooses its own one, and this is the first attempt.
pub step_initialization-groups :
    (me : ℕ) (c : Config) (r : Ra)
    → c.num_ra_preambles < 4294967296
    → let after = (step_initialization me c r).0 in
      HasGroups after × (after.preamble_index ≡ 0) × (after.preamble_transmission_counter ≡ 1)
unfolding step_initialization read_params
step_initialization-groups me c r h = ground arith

-- When the UE chooses, the preamble is one of the group that is remembered for the next attempts;
-- once a Msg3 was sent, the group stays the one of before. Only an empty group gives a failure. (The
-- groups make up all the preambles.)
pub step_resource_selection-InGroup :
    (random : ℕ) (r : Ra)
    → r.preamble_index ≡ 0
    → HasGroups r
    → let after = (step_resource_selection random r).0 in
      (((after.state ≡ preamble_transmission) × InGroup r after.last_msg3_group after.sel_preamble)
        ⊎ ((after.state ≡ ra_problem) × (nof_in r after.last_msg3_group ≡ 0)))
      × ((r.msg3_transmitted ≡ false) ⊎ (after.last_msg3_group ≡ r.last_msg3_group))
unfolding step_resource_selection select_group choose_preamble
step_resource_selection-InGroup random r e g = ground arith

-- One more attempt is one more ramping step.
ramp :
    (k step base : ℕ)
    → 1 ≤ k
    → k < 4294967295
    → u32 (base + sub_u32 (u32 (k + 1)) 1 * step) ≡ u32 (u32 (base + sub_u32 k 1 * step) + step)
ramp zero step base h w = absurd (omega arith)
ramp (suc k) step base h w =
    let now : sub_u32 (suc k) 1 ≡ k = omega arith in
    let next : sub_u32 (u32 (suc k + 1)) 1 ≡ k + 1 = omega arith in rw (now, next) (omega arith)

-- An attempt that follows a failed one is sent at the power of the one before plus the ramping step
-- (as 32-bit numbers), from the first attempt on, until the counter is about to wrap.
pub step_response_error-target_power :
    (now random : ℕ) (r : Ra)
    → 1 ≤ r.preamble_transmission_counter
    → r.preamble_transmission_counter < 4294967295
    → target_power (step_response_error now random r).0
      ≡ u32 (target_power r + r.power_ramping_step)
unfolding step_response_error target_power
step_response_error-target_power now random r h w = ground (
  arith,
  ramp r.preamble_transmission_counter r.power_ramping_step
      (r.ini_target_power + int_bits r.delta_preamble_db),
)
