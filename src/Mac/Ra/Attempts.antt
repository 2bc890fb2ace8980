-- ===== src/Mac/Ra/Attempts.antt =====
-- How many preambles one procedure sends.
use srs_ue.Prelude.{
  ℕ, suc, ◌+◌, ◌≤◌, ◌<◌, ◌≡◌, refl, ◌⊎◌, Bool, true, false, List, [], ◌∷◌, ◌++◌, Option, length,
  arith,
}
use srs_ue.Prelude.Int.{pos, negsuc}
use srs_ue.Mac.Ra.Defs.{
  State, idle, initialization, resource_selection, preamble_transmission, pdcch_setup,
  response_reception, response_error, backoff_wait, contention_resolution, completion,
  completion_done, ra_problem, Config, Ra, Action, prach_send, reset, process_timeadv_cmd,
  read_params,
}
use srs_ue.Mac.Ra.Steps.{
  Env, step, step_in, step_initialization, step_resource_selection, choose_preamble, select_group,
  step_preamble_transmission, step_pdcch_setup, step_response_reception, step_backoff_wait,
  step_response_error, step_contention_resolution, step_completion,
}
use srs_ue.Mac.Ra.Events.{
  Response, new_grant_dl, own_preamble, take_response, take_responses, tb_decoded_ok,
  contention_resolution_id_received, timer_expired, pdcch_to_crnti, harq_retx, backoff_of,
}

abbrev pub sends : List Action → ℕ
sends [] = 0
sends (prach_send preamble mask power ∷ more) = suc (sends more)
sends (_ ∷ more) = sends more

sends-++ : (xs ys : List Action) → sends (xs ++ ys) ≡ sends xs + sends ys
sends-++ [] ys = omega arith
sends-++ (prach_send preamble mask power ∷ xs) ys = omega (arith, sends-++ xs ys)
sends-++ (_ ∷ xs) ys = omega (arith, sends-++ xs ys)

-- Everything that reaches the object but a new start.
pub data Event : Type 0 where
  steps : Env → Event
  resets expires retransmits : Event
  grants : (n_bytes tti : ℕ) → Event
  decodes : Option ℕ → List Response → Event
  resolves advances : ℕ → Event
  addresses : Bool → Event

module _ (tti_interval : ℕ → ℕ → ℕ) (me : ℕ) where
  pub call : Event → Ra → Ra × List Action
  call (steps e) r = step tti_interval me e r
  call resets r = (reset r, [])
  call expires r = timer_expired r
  call retransmits r = (harq_retx r, [])
  call (grants n tti) r = ((new_grant_dl n tti r).0, [])
  call (decodes backoff ps) r = tb_decoded_ok backoff ps r
  call (resolves id) r = ((contention_resolution_id_received id r).0, [])
  call (advances ta) r = process_timeadv_cmd ta r
  call (addresses uplink) r = (pdcch_to_crnti uplink r, [])

  pub run : List Event → Ra → Ra × List Action
  run [] r = (r, [])
  run (e ∷ es) r = let (r', now) = call e r in let (r'', later) = run es r' in (r'', now ++ later)

-- Is an attempt under way whose preamble is not sent yet, or must one not come here?
pub data Phase : Type 0 where
  unsent sent never : Phase

abbrev pub phase : State → Phase
phase initialization = never
phase resource_selection = unsent
phase preamble_transmission = unsent
phase backoff_wait = unsent
phase _ = sent

-- `n` preambles were sent, at most `limit` may be, and the counter is at most `bound`.
abbrev pub InPhase : ℕ → ℕ → Ra → Phase → Type 0
InPhase limit n r unsent =
    (n < r.preamble_transmission_counter) × (r.preamble_transmission_counter ≤ limit)
InPhase limit n r sent = (n ≤ r.preamble_transmission_counter) × (n ≤ limit)
InPhase limit n r never = 1 ≤ n × n < 1

pub record Counted (limit bound n : ℕ) (r : Ra) : Type 0 where
  pub within : r.preamble_transmission_counter ≤ bound
  pub maximum : r.preamble_trans_max ≡ limit
  pub in_phase : InPhase limit n r (phase r.state)

-- What the responses leave alone.
abbrev pub Kept : Ra → Ra × List Action → Type 0
Kept r (r', actions) =
    (r'.preamble_transmission_counter ≡ r.preamble_transmission_counter)
    × (r'.preamble_trans_max ≡ r.preamble_trans_max)
    × (sends actions ≡ 0)
    × ((r'.state ≡ r.state) ⊎ (phase r'.state ≡ sent))

take_response-Kept : (p : Response) (r : Ra) → Kept r (take_response p r)
unfolding take_response own_preamble process_timeadv_cmd
take_response-Kept p r = ground arith

take_responses-Kept : (ps : List Response) (r : Ra) → Kept r (take_responses ps r)
unfolding take_responses
take_responses-Kept [] r = ground arith
take_responses-Kept (p ∷ ps) r = ground (
  arith,
  take_response-Kept p r,
  take_responses-Kept ps r,
  take_responses-Kept ps (take_response p r).0,
  sends-++ (take_response p r).1 (take_responses ps (take_response p r).0).1,
)

step_in-Counted :
    (tti_interval : ℕ → ℕ → ℕ) (me limit bound n : ℕ) (e : Env) (s : State) (r : Ra)
    → bound + 1 < 4294967295
    → limit ≤ bound
    → r.preamble_transmission_counter ≤ bound
    → r.preamble_trans_max ≡ limit
    → r.state ≡ s
    → InPhase limit n r (phase s)
    → let (r', now) = step_in tti_interval me e s r in Counted limit (bound + 1) (sends now + n) r'
unfolding step_in step_resource_selection choose_preamble select_group step_preamble_transmission
    step_pdcch_setup step_response_reception step_backoff_wait step_response_error
    step_contention_resolution step_completion
step_in-Counted i me limit bound n e idle r h l k m q c = ground arith
step_in-Counted i me limit bound n e initialization r h l k m q c = ground arith
step_in-Counted i me limit bound n e resource_selection r h l k m q c = ground arith
step_in-Counted i me limit bound n e preamble_transmission r h l k m q c = ground arith
step_in-Counted i me limit bound n e pdcch_setup r h l k m q c = elim e.prach_tx_tti [
  | pos t ↦ ground arith
  | negsuc t ↦ ground arith
]
step_in-Counted i me limit bound n e response_reception r h l k m q c = elim e.prach_tx_tti [
  | pos t ↦ ground arith
  | negsuc t ↦ ground arith
]
step_in-Counted i me limit bound n e response_error r h l k m q c = ground arith
step_in-Counted i me limit bound n e backoff_wait r h l k m q c = ground arith
step_in-Counted i me limit bound n e contention_resolution r h l k m q c =
    elim e.msg3_is_transmitted [ true ↦ ground arith | false ↦ ground arith ]
step_in-Counted i me limit bound n e completion r h l k m q c = ground arith
step_in-Counted i me limit bound n e completion_done r h l k m q c = ground arith
step_in-Counted i me limit bound n e ra_problem r h l k m q c = ground arith

InPhase-limit : (limit n : ℕ) (r : Ra) (p : Phase) → InPhase limit n r p → n ≤ limit
InPhase-limit limit n r unsent h = omega arith
InPhase-limit limit n r sent h = omega arith
InPhase-limit limit n r never h = omega arith

module _ (tti_interval : ℕ → ℕ → ℕ) (me limit : ℕ) where
  call-Counted :
      (bound n : ℕ) (e : Event) (r : Ra)
      → bound + 1 < 4294967295
      → limit ≤ bound
      → Counted limit bound n r
      → let (r', now) = call tti_interval me e r in Counted limit (bound + 1) (sends now + n) r'
  unfolding call step reset timer_expired harq_retx new_grant_dl tb_decoded_ok
      contention_resolution_id_received process_timeadv_cmd pdcch_to_crnti
  call-Counted bound n (steps e) r h l c =
      step_in-Counted tti_interval me limit bound n e r.state r h l c.within c.maximum refl
        c.in_phase
  call-Counted bound n resets r h l c = ground arith
  call-Counted bound n expires r h l c = ground arith
  call-Counted bound n retransmits r h l c = ground arith
  call-Counted bound n (grants b tti) r h l c = ground arith
  call-Counted bound n (decodes backoff ps) r h l c = ground (
    arith,
    take_responses-Kept ps (record r { backoff_param_ms = backoff_of backoff; current_ta = 0 }),
  )
  call-Counted bound n (resolves id) r h l c = ground arith
  call-Counted bound n (advances ta) r h l c = ground arith
  call-Counted bound n (addresses uplink) r h l c = ground arith

  run-Counted :
      (es : List Event) (bound n : ℕ) (r : Ra)
      → bound + length es < 4294967295
      → limit ≤ bound
      → Counted limit bound n r
      → let (r', actions) = run tti_interval me es r in sends actions + n ≤ limit
  unfolding run
  run-Counted [] bound n r h l c = omega (arith, InPhase-limit limit n r (phase r.state) c.in_phase)
  run-Counted (e ∷ es) bound n r h l c =
      let (r', now) = call tti_interval me e r in
      omega (
        arith,
        sends-++ now (run tti_interval me es r').1,
        run-Counted es (bound + 1) (sends now + n) r' (omega arith) (omega arith)
            (call-Counted bound n e r (omega arith) l c),
      )

-- One procedure, from its initialization to the next start: whatever steps, responses, expired
-- timers, resets and other calls come in whatever order, no more preambles are sent than
-- `preamble_trans_max` of the configuration. (It is at least 1, and the counter of 32 bits does not
-- wrap: it and the number of calls are below 2 ^ 32 - 1 together.)
pub run-initialized :
    (tti_interval : ℕ → ℕ → ℕ) (me : ℕ) (c : Config) (es : List Event) (r : Ra)
    → 1 ≤ c.preamble_trans_max
    → c.preamble_trans_max + length es < 4294967295
    → let started = (step_initialization me c r).0 in
      sends (run tti_interval me es started).1 ≤ c.preamble_trans_max
unfolding step_initialization read_params
run-initialized tti_interval me c es r h w =
    let started : Ra = (step_initialization me c r).0 in
    let counted : Counted c.preamble_trans_max c.preamble_trans_max 0 started = ground arith in
    omega (
      arith,
      run-Counted tti_interval me c.preamble_trans_max es c.preamble_trans_max 0 started w
          (omega arith) counted,
    )
