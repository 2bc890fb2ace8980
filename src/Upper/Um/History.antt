-- ===== src/Upper/Um/History.antt =====
-- Any history of the receiving entity, from its configuration and reset on.
use srs_ue.Prelude.{
  ℕ, ◌+◌, ◌%◌, ◌≤◌, ◌<◌, ◌≡◌, refl, sym, inl, inr, Bool, List, [], ◌∷◌, if◌then◌else◌, arith,
  Bool-cases,
}
use srs_ue.Common.Timers
use srs_ue.Upper.UmHeader.{SnSize, sn_5_bits, sn_10_bits}
use srs_ue.Upper.Um.Send.{modulus}
use srs_ue.Upper.Um.Receive.{
  Rx, window_of, configure_rx, reset_rx, handle_data_pdu, timer_expired, rx_mod_base, find,
}
use srs_ue.Upper.Um.InOrder.{IsRing}
use srs_ue.Upper.Um.Valid.{IsValid, IsOrdered}
use srs_ue.Upper.Um.Upkeep.{stop_lem}
use srs_ue.Upper.Um.Calls.{IsOrdered-keep, handle_data_pdu-IsValid, timer_expired-IsValid}

-- Bytes from the MAC, with or without a buffer for them, or the end of the reordering timer, which
-- stops when it calls back.
pub data Call : Type 0 where
  receive : Bool → List ℕ → Call
  expire : Call

abbrev after_call : ℕ → Call → Rx → Rx
after_call me (receive allocated payload) r = (handle_data_pdu me allocated payload r).0
after_call me expire r =
    if Timers.is_running r.timer
    then (timer_expired me (record r { timer = Timers.stop r.timer })).0
    else r

abbrev pub after_calls : ℕ → List Call → Rx → Rx
after_calls me [] r = r
after_calls me (c ∷ cs) r = after_calls me cs (after_call me c r)

window_of-IsRing : (size : SnSize) → IsRing (modulus size) (window_of size)
window_of-IsRing sn_5_bits = inl (refl, refl)
window_of-IsRing sn_10_bits = inr (refl, refl)

modulus_low : (size : SnSize) → 0 < modulus size
modulus_low sn_5_bits = omega arith
modulus_low sn_10_bits = omega arith

modulus_zero : (size : SnSize) → (0 + 0) % modulus size ≡ 0
modulus_zero sn_5_bits = refl
modulus_zero sn_10_bits = refl

reset_rx-IsOrdered :
    (size : SnSize) (timeout : ℕ) (r : Rx) → IsOrdered (reset_rx (configure_rx size timeout r))
unfolding reset_rx configure_rx find
reset_rx-IsOrdered size timeout r = record {
  sized = refl;
  depth = 0;
  ahead = record {
    ring = window_of-IsRing size;
    low = modulus_low size;
    edge = sym (modulus_zero size);
    bound = omega arith;
    keys = tt;
    top = inl refl;
  };
  within = omega arith;
  next_missing = refl;
}

reset_rx-IsValid :
    (size : SnSize) (timeout : ℕ) (r : Rx) → IsValid (reset_rx (configure_rx size timeout r))
unfolding reset_rx configure_rx rx_mod_base
reset_rx-IsValid size timeout r = (reset_rx-IsOrdered size timeout r, inl (stop_lem r.timer))

after_call-IsValid : (me : ℕ) (c : Call) (r : Rx) → IsValid r → IsValid (after_call me c r)
unfolding rx_mod_base
after_call-IsValid me (receive allocated payload) r v =
    handle_data_pdu-IsValid me allocated payload r v
after_call-IsValid me expire r v = elim (Bool-cases (Timers.is_running r.timer)) [
  | inr e ↦ rw e v
  | inl e ↦
      let stopped : Rx = record r { timer = Timers.stop r.timer } in
      let o = IsOrdered-keep r (Timers.stop r.timer) r.vr_ux r.pdu_lost r.overran r.rx_sdu v.0 in
      let marked : rx_mod_base r r.vr_ux ≤ r.rx_window_size = ground (arith, e, v.1) in
      rw e (timer_expired-IsValid me stopped o marked).0
]

kept : (me : ℕ) (cs : List Call) (r : Rx) → IsValid r → IsValid (after_calls me cs r)
kept me [] r v = v
kept me (c ∷ cs) r v = kept me cs (after_call me c r) (after_call-IsValid me c r v)

-- After a configuration and a reset, and any bytes from the MAC and ends of the reordering timer while
-- it runs, in any order: the next PDU to take is missing, vr_uh is at most the window's size ahead of
-- it, every PDU that is kept lies between the two, and a running reordering timer waits for a number
-- not beyond vr_uh.
pub after_calls-IsValid :
    (me timeout : ℕ) (size : SnSize) (cs : List Call) (r : Rx)
    → IsValid (after_calls me cs (reset_rx (configure_rx size timeout r)))
after_calls-IsValid me timeout size cs r =
    kept me cs (reset_rx (configure_rx size timeout r)) (reset_rx-IsValid size timeout r)
