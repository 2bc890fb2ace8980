-- ===== src/Mac/UlHarq/Limits.antt =====
-- The limit of retransmissions of a HARQ process, under every sequence of calls.
use srs_ue.Prelude.{
  ℕ, ◌≤◌, ◌<◌, ◌≡◌, ◌≢◌, ◌⊎◌, Bool, true, false, List, [], ◌∷◌, Option, none, some, arith,
  if◌then◌else◌,
}
use srs_ue.Prelude.Int.{ℤ}
use srs_ue.Mac.Ra.{int_bits}
use srs_ue.Mac.UlHarq.Defs.{
  Codes, Grant, Process, Env, Outcome, reset, reset_ndi, set_harq_feedback, generate_tx,
  generate_retx, generate_new_tx, take_pdu, run_tti,
}

-- What can reach a process: a TTI, with a grant or not, feedback for its last transmission, resets.
pub data Event : Type 0 where
  runs : (tti_tx temp_rnti : ℕ) → (msg3 pdu : Option (List ℕ)) → Option Grant → Event
  hears : (ack : Bool) → Event
  resets resets_ndi : Event

-- A configured limit.
abbrev pub IsLimit : ℕ → Type 0
IsLimit n = (1 ≤ n) × (n < 4294967296)

module _ (codes : Codes) (msg3_tx : ℕ) (tx : ℤ) where
  abbrev pub env : ℕ → Option (List ℕ) → Option (List ℕ) → Env
  env temp_rnti msg3 pdu = record {
    max_harq_msg3_tx = msg3_tx;
    max_harq_tx = tx;
    temp_rnti = temp_rnti;
    msg3 = msg3;
    pdu = pdu;
  }

  abbrev pub call : Event → Process → Process
  call (runs t rnti msg3 pdu g) p = (run_tti codes (env rnti msg3 pdu) t g p).0
  call (hears ack) p = set_harq_feedback ack p
  call resets p = reset p
  call resets_ndi p = reset_ndi p

  pub calls : List Event → Process → Process
  calls [] p = p
  calls (e ∷ es) p = calls es (call e p)

  abbrev pub limit : Process → ℕ
  limit p = if p.is_msg3 then msg3_tx else int_bits tx

  abbrev pub Within : Process → Type 0
  Within p =
      ((p.current_tx_nb ≡ 0) ⊎ (p.current_tx_nb < limit p))
      × ((p.is_grant_configured ≡ false)
          ⊎ ((p.current_tx_nb < limit p) × (p.harq_feedback ≡ false)))

  -- What a TTI does, without a transmission and with one.
  abbrev pub Bounded : Option Grant → Process → Outcome → Type 0
  Bounded g p (p', none, effects) = (p.is_grant_configured ≡ false) ⊎ (g ≢ none)
  Bounded g p (p', some x, effects) =
      (x.current_tx_nb ≤ limit p')
      × (((x.expect_ack ≡ true)
            × (x.current_tx_nb < limit p')
            × (p'.current_tx_nb ≡ x.current_tx_nb))
          ⊎ ((x.expect_ack ≡ false)
              × (limit p' ≤ x.current_tx_nb)
              × (p'.is_grant_configured ≡ false)))

  run_tti-Within :
      (t rnti : ℕ) (msg3 pdu : Option (List ℕ)) (g : Option Grant) (p : Process)
      → IsLimit msg3_tx
      → IsLimit (int_bits tx)
      → Within p
      → let out = run_tti codes (env rnti msg3 pdu) t g p in Within out.0 × Bounded g p out
  unfolding run_tti generate_retx generate_tx reset take_pdu generate_new_tx
  run_tti-Within t rnti msg3 pdu none p m n w = ground arith
  run_tti-Within t rnti none none (some g) p m n w = ground arith
  run_tti-Within t rnti none (some y) (some g) p m n w = ground arith
  run_tti-Within t rnti (some x) none (some g) p m n w = ground arith
  run_tti-Within t rnti (some x) (some y) (some g) p m n w = ground arith

  calls-Within :
      (es : List Event) (p : Process)
      → IsLimit msg3_tx
      → IsLimit (int_bits tx)
      → Within p
      → Within (calls es p)
  unfolding calls set_harq_feedback reset reset_ndi
  calls-Within [] p m n w = w
  calls-Within (runs t rnti msg3 pdu g ∷ es) p m n w =
      calls-Within es (run_tti codes (env rnti msg3 pdu) t g p).0 m n
        (run_tti-Within t rnti msg3 pdu g p m n w).0
  calls-Within (hears true ∷ es) p m n w =
      calls-Within es (set_harq_feedback true p) m n (ground arith)
  calls-Within (hears false ∷ es) p m n w =
      calls-Within es (set_harq_feedback false p) m n (ground arith)
  calls-Within (resets ∷ es) p m n w = calls-Within es (reset p) m n (ground arith)
  calls-Within (resets_ndi ∷ es) p m n w = calls-Within es (reset_ndi p) m n (ground arith)

  -- After a reset, whatever grants, feedback and further resets have come in whatever order: no
  -- transmission has a number above the limit for Msg3 or for other PDUs; it expects an answer, and
  -- its number is kept, exactly below the limit, and at the limit the process has given its grant
  -- up. A process with a grant sends at each of its TTIs without a new one. (Both limits are at least
  -- 1 and have 32 bits.)
  pub calls-run_tti :
      (es : List Event) (t rnti : ℕ) (msg3 pdu : Option (List ℕ)) (g : Option Grant) (p : Process)
      → IsLimit msg3_tx
      → IsLimit (int_bits tx)
      → let q = calls es (reset p) in Bounded g q (run_tti codes (env rnti msg3 pdu) t g q)
  unfolding reset
  calls-run_tti es t rnti msg3 pdu g p m n =
      let q = calls es (reset p) in
      (run_tti-Within t rnti msg3 pdu g q m n (calls-Within es (reset p) m n (ground arith))).1
