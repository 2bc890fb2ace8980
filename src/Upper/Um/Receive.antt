-- ===== src/Upper/Um/Receive.antt =====
-- ue/src/upper/rlc_um.cc: PDUs into SDUs (3GPP TS 36.322, 5.1.2.2).
use srs_ue.Prelude.{
  ℕ, zero, suc, ◌+◌, ◌%◌, Bool, true, false, not, ◌&&◌, ◌||◌, List, [], ◌∷◌, ◌++◌, Option, none,
  some, ltb, leb, ◌==◌, if◌then◌else◌, length, take, drop, sub_u32,
}
use srs_ue.Common.Timers
use srs_ue.Common.Timers.{Timer}
use srs_ue.Upper.UmHeader.{
  SnSize, sn_5_bits, sn_10_bits, Header, packed_length, start_aligned, end_aligned,
  read_data_pdu_header,
}
use srs_ue.Upper.Um.Send.{modulus}

-- `rlc_umd_pdu_t`: the buffer's bytes behind the header.
pub record Pdu : Type 0 where
  pub header : Header
  pub payload : List ℕ

-- `rx_sdu` before its first allocation is empty. `overran` tells that the code read bytes behind the
-- end of a PDU: what it does from then on is not defined.
pub record Rx : Type 0 where
  pub rx_window : List (ℕ × Pdu)
  pub rx_window_size : ℕ
  pub rx_mod : ℕ
  pub rx_sn_field_length : SnSize
  pub rx_sdu : List ℕ
  pub vr_ur_in_rx_sdu : ℕ
  pub vr_ur : ℕ
  pub vr_ux : ℕ
  pub vr_uh : ℕ
  pub pdu_lost : Bool
  pub t_reordering : ℕ
  pub timer : Timer
  pub overran : Bool

abbrev pub window_of : SnSize → ℕ
window_of sn_5_bits = 16
window_of sn_10_bits = 512

-- `configure`, the part for receiving.
unfoldable pub configure_rx : SnSize → ℕ → Rx → Rx
configure_rx size timeout r = record r {
  t_reordering = timeout;
  rx_sn_field_length = size;
  rx_window_size = window_of size;
  rx_mod = modulus size;
}

-- `reset`, the part for receiving; it leaves `vr_ur_in_rx_sdu` as it is.
unfoldable pub reset_rx : Rx → Rx
reset_rx r = record r {
  vr_ur = 0;
  vr_ux = 0;
  vr_uh = 0;
  pdu_lost = false;
  rx_sdu = [];
  timer = Timers.stop r.timer;
  rx_window = [];
}

-- `RX_MOD_BASE(x)`, on `uint32_t`.
unfoldable pub rx_mod_base : Rx → ℕ → ℕ
rx_mod_base r x = sub_u32 (sub_u32 x r.vr_uh) r.rx_window_size % r.rx_mod

-- The first comparison of the source is with the base of `vr_uh - rx_window_size`.
unfoldable pub inside_reordering_window : Rx → ℕ → Bool
unfolding rx_mod_base
inside_reordering_window r sn =
    leb (rx_mod_base r (sub_u32 r.vr_uh r.rx_window_size)) (rx_mod_base r sn)
    && ltb (rx_mod_base r sn) (rx_mod_base r r.vr_uh)

-- `find` and `erase` of the map.
unfoldable pub find : ℕ → List (ℕ × Pdu) → Option Pdu
find sn [] = none
find sn ((k, p) ∷ m) = if k == sn then some p else find sn m

unfoldable pub erase : ℕ → List (ℕ × Pdu) → List (ℕ × Pdu)
erase sn [] = []
erase sn ((k, p) ∷ m) = if k == sn then erase sn m else (k, p) ∷ erase sn m

-- Does a middle segment belong to an SDU of which a part was lost?
abbrev pub is_remainder : Header → Rx → Bool
is_remainder h r =
    (r.pdu_lost && not (start_aligned h.fi)) || not (r.vr_ur == (r.vr_ur_in_rx_sdu + 1) % r.rx_mod)

-- The loop over the length indicators: each ends an SDU, which is delivered or dropped. What is left
-- of the payload comes with the state.
unfoldable pub take_segments : Header → List ℕ → List ℕ → Rx → Rx × List ℕ × List (List ℕ)
unfolding start_aligned
take_segments h [] payload r = (r, payload, [])
take_segments h (len ∷ li) payload r =
    let (r', rest, later) = take_segments h li (drop len payload) (record r {
      rx_sdu = [];
      pdu_lost = false;
      overran = r.overran || ltb (length payload) len;
    }) in
    (r', rest, if is_remainder h r then later else (r.rx_sdu ++ take len payload) ∷ later)

-- The last segment, which ends an SDU if the PDU is aligned with its end.
unfoldable pub take_last : Header → List ℕ → Rx → Rx × List (List ℕ)
unfolding start_aligned end_aligned
take_last h payload r =
    if end_aligned h.fi
    then (
      record r { rx_sdu = []; vr_ur_in_rx_sdu = r.vr_ur; pdu_lost = false },
      if r.pdu_lost && not (start_aligned h.fi) then [] else (r.rx_sdu ++ payload) ∷ [],
    )
    else (record r { rx_sdu = r.rx_sdu ++ payload; vr_ur_in_rx_sdu = r.vr_ur }, [])

-- The PDU numbered `vr_ur`, and its removal from the window. Both loops of `reassemble_rx_sdus` do this.
unfoldable pub take_pdu : Pdu → Rx → Rx × List (List ℕ)
unfolding take_segments take_last erase
take_pdu p r =
    let (r', rest, ended) = take_segments p.header p.header.li p.payload r in
    let (r'', last) = take_last p.header rest r' in
    (record r'' { rx_window = erase r.vr_ur r.rx_window }, ended ++ last)

unfoldable pub advance : Rx → Rx
advance r = record r { vr_ur = (r.vr_ur + 1) % r.rx_mod }

-- What the first loop does at the lower edge.
unfoldable pub take_edge : Rx → Rx × List (List ℕ)
unfolding take_pdu find
take_edge r = elim (find r.vr_ur r.rx_window) [
  | none ↦ (record r { rx_sdu = [] }, [])
  | some p ↦ take_pdu p r
]

-- The first loop, until `vr_ur` is inside the window, on fuel.
unfoldable pub catch_up : ℕ → Rx → Rx × List (List ℕ)
unfolding inside_reordering_window take_edge advance
catch_up zero r = (r, [])
catch_up (suc fuel) r =
    let rest : Rx × List (List ℕ) =
      let (r', now) = take_edge r in
      let (r'', later) = catch_up fuel (advance r') in (r'', now ++ later) in
    if inside_reordering_window r r.vr_ur then (r, []) else rest

-- The second loop, while the PDU numbered `vr_ur` is there, on fuel.
unfoldable pub take_ready : ℕ → Rx → Rx × List (List ℕ)
unfolding find take_pdu advance
take_ready zero r = (r, [])
take_ready (suc fuel) r = elim (find r.vr_ur r.rx_window) [
  | none ↦ (r, [])
  | some p ↦
      let (r', now) = take_pdu p r in
      let (r'', later) = take_ready fuel (advance r') in (r'', now ++ later)
]

-- A fuel of the window's modulus, and one more than there are PDUs.
unfoldable pub reassemble_rx_sdus : Rx → Rx × List (List ℕ)
unfolding catch_up take_ready
reassemble_rx_sdus r =
    let (r', first) = catch_up r.rx_mod r in
    let (r'', second) = take_ready (suc (length r'.rx_window)) r' in (r'', first ++ second)

-- `me` names this object as the timer's callback.
unfoldable pub start_reordering : ℕ → Rx → Rx
unfolding rx_mod_base
start_reordering me r =
    if ltb (rx_mod_base r r.vr_ur) (rx_mod_base r r.vr_uh)
    then record r {
      timer = Timers.run (Timers.configure me r.t_reordering r.timer);
      vr_ux = r.vr_uh;
    }
    else r

unfoldable pub update_timers : ℕ → Rx → Rx
unfolding rx_mod_base inside_reordering_window start_reordering
update_timers me r =
    let is_passed =
      leb (rx_mod_base r r.vr_ux) (rx_mod_base r r.vr_ur)
      || (not (inside_reordering_window r r.vr_ux) && not (r.vr_ux == r.vr_uh)) in
    let r' : Rx =
      if Timers.is_running r.timer && is_passed
      then record r { timer = Timers.stop r.timer }
      else r in
    if Timers.is_running r'.timer then r' else start_reordering me r'

-- Is a sequence number below the window, or already received?
unfoldable pub is_discarded : ℕ → Rx → Bool
unfolding rx_mod_base find
is_discarded sn r =
    (leb (rx_mod_base r (sub_u32 r.vr_uh r.rx_window_size)) (rx_mod_base r sn)
      && ltb (rx_mod_base r sn) (rx_mod_base r r.vr_ur))
    || elim (find sn r.rx_window) [ none ↦ false | some p ↦ true ]

-- The PDU in the window, and `vr_uh` behind it.
unfoldable pub store_pdu : Header → List ℕ → Rx → Rx
unfolding inside_reordering_window
store_pdu h payload r = record r {
  rx_window = (h.sn, record { header = h; payload = drop (packed_length h) payload }) ∷ r.rx_window;
  vr_uh = if inside_reordering_window r h.sn then r.vr_uh else (h.sn + 1) % r.rx_mod;
}

-- The SDUs that are delivered. A payload that is too short for its header is read behind its end.
unfoldable pub handle_data_pdu : ℕ → Bool → List ℕ → Rx → Rx × List (List ℕ)
unfolding is_discarded store_pdu reassemble_rx_sdus update_timers
handle_data_pdu me allocated payload r = elim (read_data_pdu_header r.rx_sn_field_length payload) [
  | none ↦ (record r { overran = true }, [])
  | some h ↦
      let (r', sdus) = reassemble_rx_sdus (store_pdu h payload r) in
      if is_discarded h.sn r || not allocated then (r, []) else (update_timers me r', sdus)
]

-- The loop of `timer_expired`, on fuel.
unfoldable pub skip_lost : ℕ → Rx → Rx × List (List ℕ)
unfolding rx_mod_base reassemble_rx_sdus advance
skip_lost zero r = (r, [])
skip_lost (suc fuel) r =
    let rest : Rx × List (List ℕ) =
      let (r', now) = reassemble_rx_sdus (advance r) in
      let (r'', later) = skip_lost fuel r' in (r'', now ++ later) in
    if ltb (rx_mod_base r r.vr_ur) (rx_mod_base r r.vr_ux) then rest else (r, [])

unfoldable pub timer_expired : ℕ → Rx → Rx × List (List ℕ)
unfolding skip_lost start_reordering
timer_expired me r =
    let (r', sdus) = skip_lost r.rx_mod (record r { pdu_lost = true; rx_sdu = [] }) in
    (start_reordering me (record r' { timer = Timers.stop r'.timer }), sdus)
