-- ===== src/Tests/UlHarq.antt =====
-- The HARQ processes at concrete inputs.
use srs_ue.Prelude.{
  ℕ, ◌<◌, ◌≡◌, ◌≢◌, refl, ◌⊎◌, true, false, List, [], ◌∷◌, none, some, arith, get_elem?, replicate,
}
use srs_ue.Prelude.Int.{pos}
use srs_ue.Mac.UlHarq.{
  Codes, Grant, Process, Env, zero_grant, reset, run_tti, generate_new_tx, set_ack, run_entity,
  pidof,
}
use srs_ue.Mac.UlHarq.Versions.{
  after, retransmission, asks, run_tti-ndi_ignored, after-retransmissions,
}
use srs_ue.Mac.UlHarq.Limits.{Event, runs, hears, calls, Bounded, env, calls-run_tti}
use srs_ue.Mac.UlHarq.Routing.{answered, set_ack-run_entity}

abbrev codes : Codes
codes = record { user = 5; temp = 3; rar = 2; sps = 4 }

abbrev limits : Env
limits = env codes 4 (pos 2) 77 none (some (9 ∷ []))

abbrev a_grant : Grant
a_grant = record {
  tti = 1;
  rnti = 70;
  rnti_type = 5;
  n_bytes = 1;
  rv = 0;
  ndi = true;
  is_from_rar = false;
  phy_grant = 6 ∷ [];
}

abbrev fresh : Process
fresh = record {
  cur_grant = zero_grant;
  pid = 5;
  current_tx_nb = 0;
  current_irv = 0;
  harq_feedback = false;
  ndi = false;
  is_grant_configured = false;
  is_msg3 = false;
  tti_last_tx = 0;
  pdu_ptr = some (9 ∷ []);
}

abbrev holding : Process
holding = record fresh { cur_grant = a_grant; is_grant_configured = true }

-- The grant toggles the NDI of the process.
run_tti-ndi_ignored_example :
    let (p', tx, effects) = run_tti codes limits 5 (some (record a_grant { ndi = true })) holding in
    (tx ≡ some (retransmission limits a_grant holding))
    × (p'.pdu_ptr ≡ some (9 ∷ []))
    × (p'.ndi ≡ false)
    × (asks effects ≡ false)
run_tti-ndi_ignored_example =
    run_tti-ndi_ignored codes limits 5 true a_grant holding (omega arith) refl refl

abbrev ttis : ℕ → ℕ
ttis n = 13

abbrev last_one : Process
last_one = after codes limits ttis 1 (generate_new_tx limits 5 false a_grant fresh).0

after-retransmissions_example :
    ((run_tti codes limits 21 none last_one).1
      ≡ some (record {
        current_tx_nb = 2;
        expect_ack = false;
        rnti = 70;
        rv = 3;
        payload = some (9 ∷ []);
        phy_grant = 6 ∷ [];
      }))
    × ((2 < 2)
        ⊎ (run_tti codes limits 29 none (run_tti codes limits 21 none last_one).0
            ≡ ((run_tti codes limits 21 none last_one).0, none, [])))
after-retransmissions_example =
    after-retransmissions codes limits ttis 5 21 29 1 false a_grant fresh (omega arith)
      (omega arith)

abbrev history : List Event
history = runs 5 77 none (some (9 ∷ [])) (some a_grant) ∷ hears false ∷ []

calls-run_tti_example : Bounded codes 4 (pos 2) none (calls codes 4 (pos 2) history (reset fresh)) (
    run_tti codes
      (env codes 4 (pos 2) 77 none none)
      13
      none
      (calls codes 4 (pos 2) history (reset fresh)))
calls-run_tti_example =
    calls-run_tti codes 4 (pos 2) history 13 77 none none none fresh (omega arith) (omega arith)

abbrev eight : List Process
eight = replicate 8 fresh

abbrev slot : ℕ
slot = 7

set_ack-run_entity_example :
    ((slot ≡ 7)
      × (get_elem? (set_ack 3 true (run_entity codes limits 10235 (some a_grant) eight).0) slot
          ≡ some (answered true (run_tti codes limits 10239 (some a_grant) fresh).0)))
    ⊎ ((slot ≢ 7)
        × (get_elem? (set_ack 3 true (run_entity codes limits 10235 (some a_grant) eight).0) slot
            ≡ some fresh))
unfolding pidof run_tti generate_new_tx
set_ack-run_entity_example =
    set_ack-run_entity codes limits 10235 (some a_grant) true eight fresh (omega arith) refl slot
