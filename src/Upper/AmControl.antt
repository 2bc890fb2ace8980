-- ===== src/Upper/AmControl.antt =====
-- ue/src/upper/rlc_am.cc: what a STATUS PDU does to the sending half of an acknowledged-mode entity
-- (3GPP TS 36.322, 5.2.1). Of a PDU in the transmission window only its length and mark are kept.
pub mod Edge
pub mod Rounds
pub mod Sweep
use srs_ue.Prelude.{
  ℕ, zero, suc, ◌+◌, ◌%◌, Bool, true, false, not, ◌&&◌, ◌||◌, List, [], ◌∷◌, ◌++◌, Option, none,
  some, ltb, ◌==◌, if◌then◌else◌, sub_u32,
}
use srs_ue.Upper.AmStatus.{Nack, Status}

-- `rlc_amd_tx_pdu_t` and `rlc_amd_retx_t`.
pub record TxPdu : Type 0 where
  pub n_bytes : ℕ
  pub is_acked : Bool

pub record Retx : Type 0 where
  pub sn : ℕ
  pub is_segment : Bool
  pub so_start : ℕ
  pub so_end : ℕ

-- `poll_running` is the state of `poll_retx_timeout`.
pub record Sender : Type 0 where
  pub tx_window : List (ℕ × TxPdu)
  pub retx_queue : List Retx
  pub vt_a : ℕ
  pub vt_ms : ℕ
  pub vt_s : ℕ
  pub poll_running : Bool

-- `TX_MOD_BASE(x)`, on `uint32_t`.
unfoldable pub tx_mod_base : Sender → ℕ → ℕ
tx_mod_base t x = sub_u32 x t.vt_a % 1024

-- `find` and `erase` of the map, and the mark of an entry.
unfoldable pub find : ℕ → List (ℕ × TxPdu) → Option TxPdu
find sn [] = none
find sn ((k, p) ∷ m) = if k == sn then some p else find sn m

unfoldable pub erase : ℕ → List (ℕ × TxPdu) → List (ℕ × TxPdu)
erase sn [] = []
erase sn ((k, p) ∷ m) = if k == sn then erase sn m else (k, p) ∷ erase sn m

unfoldable pub mark : ℕ → List (ℕ × TxPdu) → List (ℕ × TxPdu)
mark sn [] = []
mark sn ((k, p) ∷ m) = (k, if k == sn then record p { is_acked = true } else p) ∷ mark sn m

unfoldable pub retx_queue_has_sn : ℕ → List Retx → Bool
retx_queue_has_sn sn [] = false
retx_queue_has_sn sn (x ∷ q) = (x.sn == sn) || retx_queue_has_sn sn q

-- What is to be sent again: the PDU, or the part that the NACK names, up to the PDU's end for 0x7FFF.
unfoldable pub retx_of : ℕ → Nack → TxPdu → Retx
retx_of i n p =
    if n.has_so
    then record {
      sn = i;
      is_segment = true;
      so_start = n.so_start;
      so_end = if n.so_end == 32767 then p.n_bytes else n.so_end + 1;
    }
    else record { sn = i; is_segment = false; so_start = 0; so_end = p.n_bytes }

unfoldable pub requeue : ℕ → Nack → Sender → Sender
unfolding find retx_queue_has_sn retx_of
requeue i n t = elim (find i t.tx_window) [
  | none ↦ t
  | some p ↦
      if retx_queue_has_sn i t.retx_queue
      then t
      else record t { retx_queue = t.retx_queue ++ retx_of i n p ∷ [] }
]

-- The loop over the NACKs for one sequence number, and whether there was one.
unfoldable pub take_nacks : ℕ → List Nack → Sender → Sender
unfolding requeue
take_nacks i [] t = t
take_nacks i (n ∷ ns) t = take_nacks i ns (if n.nack_sn == i then requeue i n t else t)

unfoldable pub is_nacked : ℕ → List Nack → Bool
is_nacked i [] = false
is_nacked i (n ∷ ns) = (n.nack_sn == i) || is_nacked i ns

-- A number without a NACK: marked, and removed at the lower edge.
unfoldable pub take_ack : ℕ → Bool → Sender → Sender
unfolding find erase mark
take_ack i update_vt_a t = elim (find i t.tx_window) [
  | none ↦ t
  | some p ↦
      if update_vt_a
      then record t {
        tx_window = erase i (mark i t.tx_window);
        vt_a = (t.vt_a + 1) % 1024;
        vt_ms = (t.vt_ms + 1) % 1024;
      }
      else record t { tx_window = mark i t.tx_window }
]

-- The loop over the sequence numbers, on fuel.
unfoldable pub take_status : ℕ → Status → ℕ → Bool → Sender → Sender
unfolding tx_mod_base take_nacks is_nacked take_ack
take_status zero s i update_vt_a t = t
take_status (suc fuel) s i update_vt_a t =
    let nack = is_nacked i s.nacks in
    let next = if nack then take_nacks i s.nacks t else take_ack i update_vt_a t in
    let rest = take_status fuel s ((i + 1) % 1024) (update_vt_a && not nack) next in
    if ltb (tx_mod_base t i) (tx_mod_base t s.ack_sn)
      && ltb (tx_mod_base t i) (tx_mod_base t t.vt_s)
    then rest
    else t

-- `handle_control_pdu`, with a fuel of the modulus.
unfoldable pub handle_control_pdu : Status → Sender → Sender
unfolding take_status
handle_control_pdu s t = take_status 1024 s t.vt_a true (record t { poll_running = false })
