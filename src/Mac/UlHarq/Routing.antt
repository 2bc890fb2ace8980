-- ===== src/Mac/UlHarq/Routing.antt =====
-- Which process a grant and its feedback reach.
use srs_ue.Prelude.{
  true, false, not, ◌&&◌, none, ltb, if◌then◌else◌, ◌≤◌, ℕ, ◌+◌, ◌%◌, ◌<◌, ◌≡◌, ◌≢◌, ◌⊎◌, sym, Bool,
  List, [], ◌∷◌, Option, some, arith, length, get_elem?, set, get_elem?-set_self, get_elem?-set_ne,
  length-set, zero, suc, ap,
}
use srs_ue.Mac.UlHarq.Defs.{
  Codes, Grant, Process, Env, run_tti, Transmission, Effect, Outcome, zero_grant, reset,
  set_harq_feedback, generate_tx, generate_retx, generate_new_tx, take_pdu, msg3_get, pdu_get,
}
use srs_ue.Mac.UlHarq.Routes.{Entity, pidof, tti_harq, feedback, set_ack, run_entity}

-- The TTI, four after the grant, in which the UE transmits, and four after that the one of the
-- feedback.
abbrev pub tti_tx : ℕ → ℕ
tti_tx tti = (tti + 4) % 10240

tti_harq-tti_tx : (tti : ℕ) → tti < 10240 → tti_harq (tti_tx (tti_tx tti)) ≡ tti_tx tti
tti_harq-tti_tx tti h = ground arith

get_elem?-in_range :
    {A : Type 0} (xs : List A) (i : ℕ) (x : A) → get_elem? xs i ≡ some x → i < length xs
get_elem?-in_range [] i x h = ground arith
get_elem?-in_range (y ∷ ys) zero x h = omega arith
get_elem?-in_range (y ∷ ys) (suc i) x h = omega (arith, get_elem?-in_range ys i x h)

run_entity-set :
    (codes : Codes) (e : Env) (tti : ℕ) (g : Option Grant) (ps : Entity) (p : Process)
    → tti < 10240
    → get_elem? ps (pidof (tti_tx tti)) ≡ some p
    → (run_entity codes e tti g ps).0
      ≡ set ps (pidof (tti_tx tti)) (run_tti codes e (tti_tx tti) g p).0
unfolding run_entity
run_entity-set codes e tti g ps p h at = ground (arith, at)

set_ack-set :
    (k t : ℕ) (ack : Bool) (ps : Entity) (p : Process)
    → k ≡ pidof (tti_harq t)
    → k < length ps
    → set_ack t ack (set ps k p) ≡ set (set ps k p) k (feedback (tti_harq t) ack p)
unfolding set_ack
set_ack-set k t ack ps p e h = ground (arith, get_elem?-set_self ps k p h)

-- What an answer does: an ACK clears the process, and a NACK is noted.
abbrev pub answered : Bool → Process → Process
answered true p = record p {
  harq_feedback = true;
  current_tx_nb = 0;
  current_irv = 0;
  tti_last_tx = 0;
  is_grant_configured = false;
  cur_grant = zero_grant;
}
answered false p = record p { harq_feedback = false }

-- What the answer for TTI `t` does to a process that made this transmission in it, or none.
abbrev pub heard : ℕ → Bool → Option Transmission → Process → Process
heard t ack (some tx) ran = if ran.is_grant_configured then answered ack ran else ran
heard t ack none ran =
    if ran.is_grant_configured && not (ltb t ran.tti_last_tx) then answered ack ran else ran

-- A process that sends in TTI `t` and keeps its grant notes the TTI.
abbrev IsNoted : ℕ → Outcome → Type 0
IsNoted t (ran, none, effects) = 0 ≤ 0
IsNoted t (ran, some tx, effects) = (ran.is_grant_configured ≡ false) ⊎ (ran.tti_last_tx ≡ t)

generate_retx-IsNoted :
    (e : Env) (t : ℕ) (g : Option Grant) (p : Process) → IsNoted t (generate_retx e t g p)
unfolding generate_retx generate_tx reset
generate_retx-IsNoted e t none p = ground arith
generate_retx-IsNoted e t (some g) p = ground arith

take_pdu-IsNoted :
    (e : Env) (t : ℕ) (msg3 : Bool) (g : Grant) (asked : Effect) (pdu : Option (List ℕ))
    (p : Process)
    → IsNoted t (take_pdu e t msg3 g asked pdu p)
unfolding take_pdu generate_new_tx generate_tx reset
take_pdu-IsNoted e t msg3 g asked none p = omega arith
take_pdu-IsNoted e t msg3 g asked (some bytes) p = ground arith

run_tti-IsNoted :
    (codes : Codes) (e : Env) (t : ℕ) (g : Option Grant) (p : Process)
    → IsNoted t (run_tti codes e t g p)
unfolding run_tti
run_tti-IsNoted codes e t none p = ground (arith, generate_retx-IsNoted e t none p)
run_tti-IsNoted codes e t (some g) p = ground (
  arith,
  generate_retx-IsNoted e t (some g) p,
  take_pdu-IsNoted e t true g (msg3_get g.n_bytes) e.msg3 p,
  take_pdu-IsNoted e t false g (pdu_get g.n_bytes t p.pid) e.pdu p,
)

feedback-heard :
    (t : ℕ) (ack : Bool) (ran : Process) (tx : Option Transmission) (effects : List Effect)
    → IsNoted t (ran, tx, effects)
    → feedback t ack ran ≡ heard t ack tx ran
unfolding set_harq_feedback reset
feedback-heard t true ran none effects h = ground arith
feedback-heard t false ran none effects h = ground arith
feedback-heard t true ran (some tx) effects h = ground arith
feedback-heard t false ran (some tx) effects h = ground arith

-- The feedback that comes eight TTIs after a grant reaches the process that the grant was given to,
-- around the end of the 10240 TTIs too, and no other process changes. If that process sent in its
-- TTI and has its grant still, an ACK clears it and a NACK is noted, so that it retransmits. If it
-- has no grant any more, nothing changes. If it did not send, the feedback counts unless the TTI
-- noted for its last transmission is the greater number.
pub set_ack-run_entity :
    (codes : Codes) (e : Env) (tti : ℕ) (g : Option Grant) (ack : Bool) (ps : Entity) (p : Process)
    → tti < 10240
    → get_elem? ps (pidof (tti_tx tti)) ≡ some p
    → (i : ℕ)
    → let (ran, tx, effects) = run_tti codes e (tti_tx tti) g p in
      let after = set_ack (tti_tx (tti_tx tti)) ack (run_entity codes e tti g ps).0 in
      ((i ≡ pidof (tti_tx tti)) × (get_elem? after i ≡ some (heard (tti_tx tti) ack tx ran)))
      ⊎ ((i ≢ pidof (tti_tx tti)) × (get_elem? after i ≡ get_elem? ps i))
unfolding set_ack run_entity
set_ack-run_entity codes e tti g ack ps p h at i =
    let k = pidof (tti_tx tti) in
    let out = run_tti codes e (tti_tx tti) g p in
    let ran = out.0 in
    let there = get_elem?-in_range ps k p at in
    let there_still : k < length (set ps k ran) = omega (arith, length-set ps k ran, there) in
    let same = tti_harq-tti_tx tti h in
    let noted = run_tti-IsNoted codes e (tti_tx tti) g p in
    rw
      (
        run_entity-set codes e tti g ps p h at,
        set_ack-set k (tti_tx (tti_tx tti)) ack ps ran (ap pidof (sym same)) there,
        same,
        feedback-heard (tti_tx tti) ack ran out.1 out.2 noted,
      )
      (ground (
        arith,
        get_elem?-set_self (set ps k ran) k (heard (tti_tx tti) ack out.1 ran) there_still,
        get_elem?-set_ne (set ps k ran) {i = k} {j = i} (heard (tti_tx tti) ack out.1 ran),
        get_elem?-set_ne ps {i = k} {j = i} ran,
      ))
