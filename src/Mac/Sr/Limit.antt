-- ===== src/Mac/Sr/Limit.antt =====
-- How many scheduling requests one procedure sends.
use srs_ue.Prelude.{
  ℕ, suc, ◌+◌, ◌-◌, if◌then◌else◌, ◌≤◌, ◌<◌, ◌^◌, ◌≡◌, ◌⊎◌, true, false, List, [], ◌∷◌, ◌++◌, arith,
}
use srs_ue.Mac.Sr.{
  Sr, Env, Action, sr_send, release_pucch_srs, start, step, need_tx, need_random_access,
}

abbrev pub sends : List Action → ℕ
sends [] = 0
sends (sr_send ∷ more) = suc (sends more)
sends (release_pucch_srs ∷ more) = sends more

-- The steps of successive TTIs, each with what it meets, and all the actions.
abbrev pub run : List Env → Sr → Sr × List Action
run [] s = (s, [])
run (e ∷ es) s = let (s', now) = step e s in let (s'', later) = run es s' in (s'', now ++ later)

run-sends :
    (es : List Env) (s : Sr)
    → s.sr_counter < 2 ^ 32
    → s.dsr_transmax < 2 ^ 32
    → (sends (run es s).1 + s.sr_counter ≡ (run es s).0.sr_counter)
      × (((run es s).0.sr_counter ≤ s.dsr_transmax) ⊎ (sends (run es s).1 ≡ 0))
unfolding step
run-sends [] s h w = ground arith
run-sends (e ∷ es) s h w = ground (arith, run-sends es (step e s).0)

-- After `start` of an initiated procedure, however long it is stepped and whatever the PHY answers,
-- the PHY is told to send exactly as often as the counter rises. An idle procedure counts from 0, so
-- it sends at most `dsr_transmax` times. A pending one goes on from its counter: it sends at most
-- what is left up to `dsr_transmax`, and nothing where the counter is there already. (Counter and
-- limit have 32 bits.)
pub run-start :
    (cfg_transmax : ℕ) (es : List Env) (s : Sr)
    → s.initiated ≡ true
    → s.sr_counter < 2 ^ 32
    → cfg_transmax < 2 ^ 32
    → let (s', actions) = run es (start cfg_transmax s) in
      let before = if s.is_pending_sr then s.sr_counter else 0 in
      (sends actions + before ≡ s'.sr_counter) × (sends actions ≤ cfg_transmax - before)
unfolding start
run-start cfg_transmax es s i c w = ground (arith, run-sends es (start cfg_transmax s))

-- A procedure that ends by itself asks for random access, once; it ends only without PUCCH
-- resources or with its `dsr_transmax` requests used up and the last one more than 8 TTIs old.
pub step_ends :
    (e : Env) (s : Sr)
    → s.is_pending_sr ≡ true
    → (step e s).0.is_pending_sr ≡ false
    → let (s', asked) = need_random_access (step e s).0 in
      (asked ≡ true)
      × ((need_random_access s').1 ≡ false)
      × ((e.setup_present ≡ false)
          ⊎ ((s.dsr_transmax ≤ s.sr_counter)
              × (need_tx e.tti e.last_tx_tti ≡ true)
              × ((step e s).1 ≡ release_pucch_srs ∷ [])))
unfolding step need_random_access
step_ends e s p h = ground arith
