-- ===== src/Mac/UlHarq/Defs.antt =====
-- ue/src/mac/ul_harq.cc: one HARQ process.
use srs_ue.Prelude.{
  ℕ, ◌+◌, ◌*◌, ◌%◌, Bool, true, false, not, ◌&&◌, ◌||◌, List, [], ◌∷◌, Option, none, some, ltb, leb,
  ◌==◌, if◌then◌else◌, get_or, u32,
}
use srs_ue.Prelude.Int.{ℤ}
use srs_ue.Mac.Ra.{int_bits}

-- The values of `srslte_rnti_type_t` that the code names.
pub record Codes : Type 0 where
  pub user : ℕ
  pub temp : ℕ
  pub rar : ℕ
  pub sps : ℕ

-- `mac_grant_t`, as far as this code reads it; the PHY's part is copied as its bytes.
pub record Grant : Type 0 where
  pub tti : ℕ
  pub rnti : ℕ
  pub rnti_type : ℕ
  pub n_bytes : ℕ
  pub rv : ℕ
  pub ndi : Bool
  pub is_from_rar : Bool
  pub phy_grant : List ℕ

abbrev pub zero_grant : Grant
zero_grant = record {
  tti = 0;
  rnti = 0;
  rnti_type = 0;
  n_bytes = 0;
  rv = 0;
  ndi = false;
  is_from_rar = false;
  phy_grant = [];
}

-- `pdu_ptr` is none where it is NULL.
pub record Process : Type 0 where
  pub cur_grant : Grant
  pub pid : ℕ
  pub current_tx_nb : ℕ
  pub current_irv : ℕ
  pub harq_feedback : Bool
  pub ndi : Bool
  pub is_grant_configured : Bool
  pub is_msg3 : Bool
  pub tti_last_tx : ℕ
  pub pdu_ptr : Option (List ℕ)

-- What `generate_tx` puts into the PHY's action; no transmission leaves the action as it was.
pub record Transmission : Type 0 where
  pub current_tx_nb : ℕ
  pub expect_ack : Bool
  pub rnti : ℕ
  pub rv : ℕ
  pub payload : Option (List ℕ)
  pub phy_grant : List ℕ

-- The calls of other objects; a counted packet goes into the average number of retransmissions.
pub data Effect : Type 0 where
  reset_contention_timer : Effect
  pusch_retx : (tti_tx pid : ℕ) → Effect
  msg3_get : (n_bytes : ℕ) → Effect
  pdu_get : (n_bytes tti_tx pid : ℕ) → Effect
  count_packet : (tx_nb : ℕ) → Effect

-- What a call meets: RRC's limits, the temporary C-RNTI and the PDUs the mux has to give.
pub record Env : Type 0 where
  pub max_harq_msg3_tx : ℕ
  pub max_harq_tx : ℤ
  pub temp_rnti : ℕ
  pub msg3 : Option (List ℕ)
  pub pdu : Option (List ℕ)

-- The state after a call, the transmission it made, if any, and its calls.
abbrev pub Outcome : Type 0
Outcome = Process × Option Transmission × List Effect

unfoldable pub reset : Process → Process
reset p = record p {
  current_tx_nb = 0;
  current_irv = 0;
  tti_last_tx = 0;
  is_grant_configured = false;
  cur_grant = zero_grant;
}

unfoldable pub reset_ndi : Process → Process
reset_ndi p = record p { ndi = false }

abbrev pub rv_of_irv : ℕ → ℕ
rv_of_irv i = get_or (0 ∷ 2 ∷ 3 ∷ 1 ∷ []) i 0

abbrev pub irv_of_rv : ℕ → ℕ
irv_of_rv i = get_or (0 ∷ 3 ∷ 1 ∷ 2 ∷ []) i 0

unfoldable pub get_rv : Process → ℕ
get_rv p = rv_of_irv (p.current_irv % 4)

unfoldable pub set_harq_feedback : Bool → Process → Process
set_harq_feedback true p = reset (record p { harq_feedback = true })
set_harq_feedback false p = record p { harq_feedback = false }

-- The limit is an `int` and the counter is unsigned, so they are compared as unsigned.
abbrev pub max_retx : Env → Process → ℕ
max_retx e p = if p.is_msg3 then e.max_harq_msg3_tx else int_bits e.max_harq_tx

unfoldable pub generate_tx : Env → ℕ → Process → Process × Transmission
unfolding get_rv
generate_tx e tti_tx p =
    let more = not (leb (max_retx e p) p.current_tx_nb) in
    let tx : Transmission = record {
      current_tx_nb = p.current_tx_nb;
      expect_ack = more;
      rnti = if p.is_msg3 then e.temp_rnti else p.cur_grant.rnti;
      rv = if ltb 0 p.cur_grant.rv then p.cur_grant.rv else get_rv p;
      payload = p.pdu_ptr;
      phy_grant = p.cur_grant.phy_grant;
    } in
    let sent : Process = record p { current_irv = (p.current_irv + 1) % 4; tti_last_tx = tti_tx } in
    (if more then sent else reset sent, tx)

-- A retransmission of the process `p` whose counter is raised already.
abbrev pub retx_effects : ℕ → Process → List Effect
retx_effects tti_tx p =
    if p.is_msg3
    then reset_contention_timer ∷ pusch_retx tti_tx p.pid ∷ []
    else pusch_retx tti_tx p.pid ∷ []

unfoldable pub generate_retx : Env → ℕ → Option Grant → Process → Outcome
unfolding generate_tx
generate_retx e tti_tx (some grant) p =
    let (p', tx) = generate_tx e tti_tx (record p {
      current_tx_nb = u32 (p.current_tx_nb + 1);
      current_irv = irv_of_rv (grant.rv % 4);
      harq_feedback = false;
    }) in
    (p', some tx, retx_effects tti_tx p)
generate_retx e tti_tx none p =
    let raised : Process = record p { current_tx_nb = u32 (p.current_tx_nb + 1) } in
    if p.harq_feedback
    then (raised, none, retx_effects tti_tx p)
    else (let (p', tx) = generate_tx e tti_tx raised in (p', some tx, retx_effects tti_tx p))

unfoldable pub generate_new_tx : Env → ℕ → Bool → Grant → Process → Outcome
unfolding generate_tx
generate_new_tx e tti_tx is_msg3_ grant p =
    let (p', tx) = generate_tx e tti_tx (record p {
      cur_grant = grant;
      harq_feedback = false;
      is_grant_configured = true;
      current_tx_nb = 0;
      current_irv = 0;
      is_msg3 = is_msg3_;
    }) in
    (p', some tx, count_packet p.current_tx_nb ∷ [])

-- `!x` of C.
abbrev pub bang : ℕ → ℕ
bang x = if x == 0 then 1 else 0

-- Is a grant for a new transmission? The negation binds closer than the comparison.
unfoldable pub is_new_tx : Codes → Grant → Process → Bool
is_new_tx codes grant p =
    ((bang grant.rnti_type == codes.temp) && differ grant.ndi p.ndi)
    || ((grant.rnti_type == codes.user) && not p.is_grant_configured)
    || grant.is_from_rar
  where
    differ : Bool → Bool → Bool
    differ true b = not b
    differ false b = b

-- A new transmission of the PDU that the mux gives.
unfoldable pub take_pdu : Env → ℕ → Bool → Grant → Effect → Option (List ℕ) → Process → Outcome
unfolding generate_new_tx
take_pdu e tti_tx msg3 grant asked none p = (record p { pdu_ptr = none }, none, asked ∷ [])
take_pdu e tti_tx msg3 grant asked (some bytes) p =
    let (p', tx, effects) =
      generate_new_tx e tti_tx msg3 grant (record p { pdu_ptr = some bytes }) in
    (p', tx, asked ∷ effects)

unfoldable pub run_tti : Codes → Env → ℕ → Option Grant → Process → Outcome
unfolding is_new_tx take_pdu generate_retx
run_tti codes e tti_tx (some grant) p =
    if is_new_tx codes grant p
    then if grant.is_from_rar
      then take_pdu e tti_tx true grant (msg3_get grant.n_bytes) e.msg3 p
      else take_pdu e tti_tx false grant (pdu_get grant.n_bytes tti_tx p.pid) e.pdu p
    else generate_retx e tti_tx (some grant) p
run_tti codes e tti_tx none p =
    if p.is_grant_configured then generate_retx e tti_tx none p else (p, none, [])

unfoldable pub get_current_tbs : Process → ℕ
get_current_tbs p = p.cur_grant.n_bytes * 8
