-- ===== src/Mac/UlHarq/Versions.antt =====
-- Which grants start a new transmission, and the redundancy versions of what follows it.
use srs_ue.Prelude.{
  Bool, List, ◌∷◌, ℕ, zero, suc, ◌+◌, ◌%◌, ◌≤◌, ◌<◌, ◌≡◌, refl, ◌⊎◌, true, false, [], none, some,
  ltb, arith, u32, if◌then◌else◌,
}
use srs_ue.Mac.Ra.{int_bits}
use srs_ue.Mac.UlHarq.Defs.{
  Transmission, Effect, reset_contention_timer, pusch_retx, msg3_get, pdu_get, count_packet, Codes,
  Grant, Process, Env, reset, rv_of_irv, irv_of_rv, get_rv, generate_tx, generate_retx,
  generate_new_tx, is_new_tx, run_tti, max_retx,
}

-- The two tables are inverse to each other.
rv_of_irv-irv_of_rv : (k : ℕ) → k < 4 → rv_of_irv (irv_of_rv k % 4) ≡ k
rv_of_irv-irv_of_rv zero h = refl
rv_of_irv-irv_of_rv (suc zero) h = refl
rv_of_irv-irv_of_rv (suc (suc zero)) h = refl
rv_of_irv-irv_of_rv (suc (suc (suc zero))) h = refl
rv_of_irv-irv_of_rv (suc (suc (suc (suc k)))) h = absurd (omega arith)

-- The transmission that retransmits a PDU on a grant: the one before, under the old grant's C-RNTI
-- (for a Msg3 the temporary one) and PHY part, with the version that the new grant names unless the
-- old one named a version.
abbrev pub retransmission : Env → Grant → Process → Transmission
retransmission e g p = record {
  current_tx_nb = u32 (p.current_tx_nb + 1);
  expect_ack = ltb (u32 (p.current_tx_nb + 1)) (max_retx e p);
  rnti = if p.is_msg3 then e.temp_rnti else p.cur_grant.rnti;
  rv = if ltb 0 p.cur_grant.rv then p.cur_grant.rv else g.rv % 4;
  payload = p.pdu_ptr;
  phy_grant = p.cur_grant.phy_grant;
}

-- Is a PDU asked of the mux?
abbrev pub asks : List Effect → Bool
asks [] = false
asks (msg3_get n ∷ more) = true
asks (pdu_get n tti pid ∷ more) = true
asks (reset_contention_timer ∷ more) = asks more
asks (pusch_retx tti pid ∷ more) = asks more
asks (count_packet n ∷ more) = asks more

generate_retx-old_grant :
    (e : Env) (tti_tx : ℕ) (g : Grant) (p : Process)
    → let (p', tx, effects) = generate_retx e tti_tx (some g) p in
      (tx ≡ some (retransmission e g p))
      × (p'.pdu_ptr ≡ p.pdu_ptr)
      × (p'.ndi ≡ p.ndi)
      × (asks effects ≡ false)
unfolding generate_retx generate_tx get_rv reset
generate_retx-old_grant e tti_tx g p = ground (arith, rv_of_irv-irv_of_rv (g.rv % 4) (omega arith))

old_transmission :
    (codes : Codes) (e : Env) (tti_tx : ℕ) (g : Grant) (p : Process)
    → 2 ≤ codes.temp
    → g.is_from_rar ≡ false
    → p.is_grant_configured ≡ true
    → run_tti codes e tti_tx (some g) p ≡ generate_retx e tti_tx (some g) p
unfolding run_tti is_new_tx
old_transmission codes e tti_tx g p t r c = ground arith

-- Where the code of a temporary C-RNTI is neither 0 nor 1, and a grant comes that is not from a
-- random access response, for a process that has a grant: whatever the NDI of the new grant, also
-- one that differs from the NDI of the process, no PDU is asked of the mux, and the old PDU is sent
-- once more, under the old grant's C-RNTI (for a Msg3 the temporary one) and PHY part. The PDU and
-- the NDI of the process stay.
pub run_tti-ndi_ignored :
    (codes : Codes) (e : Env) (tti_tx : ℕ) (ndi : Bool) (g : Grant) (p : Process)
    → 2 ≤ codes.temp
    → g.is_from_rar ≡ false
    → p.is_grant_configured ≡ true
    → let (p', tx, effects) = run_tti codes e tti_tx (some (record g { ndi = ndi })) p in
      (tx ≡ some (retransmission e g p))
      × (p'.pdu_ptr ≡ p.pdu_ptr)
      × (p'.ndi ≡ p.ndi)
      × (asks effects ≡ false)
run_tti-ndi_ignored codes e tti_tx ndi g p t r c =
    let toggled : Grant = record g { ndi = ndi } in
    rw (old_transmission codes e tti_tx toggled p t r c)
      (generate_retx-old_grant e tti_tx toggled p)

-- The limit of a process for a Msg3 or for another PDU.
abbrev pub limit : Env → Bool → ℕ
limit e msg3 = if msg3 then e.max_harq_msg3_tx else int_bits e.max_harq_tx

module _ (codes : Codes) (e : Env) where
  -- The process after `n` TTIs without a grant.
  pub after : (tti : ℕ → ℕ) → ℕ → Process → Process
  after tti zero p = p
  after tti (suc n) p = (run_tti codes e (tti n) none (after tti n p)).0

  -- A process that holds the PDU of `g`, sent `n` times again.
  abbrev pub Holding : ℕ → Bool → Grant → Process → Process → Type 0
  Holding n msg3 g p q =
      (q.current_tx_nb ≡ n)
      × (q.current_irv ≡ (n + 1) % 4)
      × (q.is_grant_configured ≡ true)
      × (q.harq_feedback ≡ false)
      × (q.is_msg3 ≡ msg3)
      × (q.cur_grant ≡ g)
      × (q.pdu_ptr ≡ p.pdu_ptr)

  after-Holding :
      (tti : ℕ → ℕ) (t n : ℕ) (msg3 : Bool) (g : Grant) (p : Process)
      → n < limit e msg3
      → limit e msg3 < 4294967296
      → Holding n msg3 g p (after tti n (generate_new_tx e t msg3 g p).0)
  unfolding after generate_new_tx generate_tx run_tti generate_retx
  after-Holding tti t zero true g p h w = ground arith
  after-Holding tti t zero false g p h w = ground arith
  after-Holding tti t (suc n) true g p h w = ground (arith, after-Holding tti t n true g p)
  after-Holding tti t (suc n) false g p h w = ground (arith, after-Holding tti t n false g p)

  -- After a new transmission of a Msg3 or of another PDU, and while no feedback or grant comes, the
  -- `n`-th further TTI of the process sends the same PDU under the same grant again (a Msg3 with the
  -- temporary C-RNTI), until `max_harq_msg3_tx` or `max_harq_tx` retransmissions are made: the last
  -- one expects no answer, and after it nothing is sent. The versions are 0, 2, 3, 1 in turn if the
  -- grant's is 0, and otherwise always the grant's. (The limit has 32 bits.)
  pub after-retransmissions :
      (tti : ℕ → ℕ) (t u v n : ℕ) (msg3 : Bool) (g : Grant) (p : Process)
      → n < limit e msg3
      → limit e msg3 < 4294967296
      → let q = after tti n (generate_new_tx e t msg3 g p).0 in
        let (q', tx, effects) = run_tti codes e u none q in
        (tx
          ≡ some (record {
            current_tx_nb = n + 1;
            expect_ack = ltb (n + 1) (limit e msg3);
            rnti = if msg3 then e.temp_rnti else g.rnti;
            rv = if ltb 0 g.rv then g.rv else rv_of_irv ((n + 1) % 4);
            payload = p.pdu_ptr;
            phy_grant = g.phy_grant;
          }))
        × ((n + 1 < limit e msg3) ⊎ (run_tti codes e v none q' ≡ (q', none, [])))
  unfolding run_tti generate_retx generate_tx get_rv reset
  after-retransmissions tti t u v n true g p h w =
      ground (arith, after-Holding tti t n true g p h w)
  after-retransmissions tti t u v n false g p h w =
      ground (arith, after-Holding tti t n false g p h w)
