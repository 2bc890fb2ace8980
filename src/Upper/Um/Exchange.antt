-- ===== src/Upper/Um/Exchange.antt =====
-- One PDU from a sender to a receiver that has all that was sent.
use srs_ue.Prelude.{
  ℕ, ◌+◌, ◌%◌, ◌<◌, ◌≡◌, refl, sym, ap, ◌∙◌, true, false, not, ◌&&◌, List, [], ◌∷◌, ◌++◌, Option,
  none, some, leb, ◌==◌, length, drop, arith, drop-append,
}
use srs_ue.Upper.UmHeader.{
  SnSize, sn_5_bits, sn_10_bits, packed_length, fixed_length, end_aligned, write_data_pdu_header,
}
use srs_ue.Upper.UmHeader.Trip.{
  IsHeader, sn_limit, length-write_data_pdu_header, read-write_data_pdu_header,
}
use srs_ue.Upper.Um.Send.{Tx, Filling, modulus, is_some, fill, header_of, build_data_pdu}
use srs_ue.Upper.Um.Receive.{Rx, handle_data_pdu}
use srs_ue.Upper.Um.Fits.{
  pending, Fits, IsPart, AllSdus, Continues, HasData, fill_pdu-Fits, fill_pdu-joined,
}
use srs_ue.Upper.Um.InOrder.{IsIdle, Taken, handle_data_pdu-Taken}

-- The receiver has all that was sent, and the SDUs are such that a length indicator can measure them.
pub record IsSynced (t : Tx) (r : Rx) : Type 0 where
  pub idle : IsIdle r
  pub same_size : t.tx_sn_field_length ≡ r.rx_sn_field_length
  pub tx_ring : t.tx_mod ≡ modulus t.tx_sn_field_length
  pub same_ring : r.rx_mod ≡ t.tx_mod
  pub level : t.vt_us ≡ r.vr_uh
  pub part : IsPart t.tx_sdu
  pub queued : AllSdus t.tx_sdu_queue
  pub held : Continues t.tx_sdu r.rx_sdu
  pub defined : r.overran ≡ false

-- What the sender still has to send, with the part of it that the receiver holds.
abbrev pub left : Tx → Rx → List (List ℕ)
left t r = pending r.rx_sdu t.tx_sdu t.tx_sdu_queue

limit_lem : (size : SnSize) → sn_limit size ≡ modulus size
limit_lem sn_5_bits = refl
limit_lem sn_10_bits = refl

header_of-IsHeader :
    (t : Tx) (r : Rx) (f : Filling) → IsSynced t r → Fits f → IsHeader (header_of t f)
unfolding header_of
header_of-IsHeader t r f v c = record {
  fi_fits = ground arith;
  sn_fits = rw (limit_lem t.tx_sn_field_length) (
      let low = v.idle.low in
      let l = v.level in let s = v.same_ring in let x = v.tx_ring in omega arith);
  li_fit = c.0;
}

end_aligned_lem : (t : Tx) (f : Filling) → end_aligned (header_of t f).fi ≡ not (is_some f.sdu)
unfolding header_of end_aligned
end_aligned_lem t f = ground arith

HasData_lem :
    (o : Option (List ℕ)) (q : List (List ℕ))
    → HasData o q
    → (not (is_some o) && (length q == 0)) ≡ false
HasData_lem none [] d = absurd d
HasData_lem none (s ∷ q) d = ground arith
HasData_lem (some s) q d = refl

pub build_lem :
    (n : ℕ) (t : Tx)
    → fixed_length t.tx_sn_field_length < n
    → HasData t.tx_sdu t.tx_sdu_queue
    → let f = fill n t in
      build_data_pdu true n t ≡ (
        record t { tx_sdu = f.sdu; tx_sdu_queue = f.queue; vt_us = (t.vt_us + 1) % t.tx_mod },
        write_data_pdu_header (header_of t f) ++ f.bytes,
      )
unfolding build_data_pdu
build_lem n t h d =
    let room : leb n (fixed_length t.tx_sn_field_length) ≡ false = ground arith in
    rw (HasData_lem t.tx_sdu t.tx_sdu_queue d, room) refl

-- One PDU that is built and received.
pub build-handle :
    (me n : ℕ) (t : Tx) (r : Rx)
    → IsSynced t r
    → fixed_length t.tx_sn_field_length < n
    → HasData t.tx_sdu t.tx_sdu_queue
    → let (t', pdu) = build_data_pdu true n t in
      let (r', sdus) = handle_data_pdu me true pdu r in
      IsSynced t' r' × (sdus ++ left t' r' ≡ left t r)
unfolding fill header_of
build-handle me n t r v h d =
    let f = fill n t in
    let hd = header_of t f in
    let c = fill_pdu-Fits n t.tx_sn_field_length t.tx_sdu t.tx_sdu_queue h v.part v.queued in
    let body = drop (packed_length hd) (write_data_pdu_header hd ++ f.bytes) in
    let same : body ≡ f.bytes =
      rw (sym (length-write_data_pdu_header hd)) (drop-append (write_data_pdu_header hd) f.bytes) in
    let taken : Taken r hd f.bytes f.sdu f.queue
        (handle_data_pdu me true (write_data_pdu_header hd ++ f.bytes) r) =
      handle_data_pdu-Taken me (write_data_pdu_header hd ++ f.bytes) f.bytes hd f.sdu f.queue r
        v.idle
        (rw (sym v.same_size)
          (read-write_data_pdu_header hd f.bytes (header_of-IsHeader t r f v c)))
        v.level same (omega (arith, c.2)) (end_aligned_lem t f) in
    rw (build_lem n t h d) (
      record {
        idle = taken.0;
        same_size = v.same_size ∙ sym taken.1;
        tx_ring = v.tx_ring;
        same_ring = taken.2 ∙ v.same_ring;
        level =
            ap (λ x. (x + 1) % t.tx_mod) v.level
            ∙ ap (λ m. (r.vr_uh + 1) % m) (sym v.same_ring)
            ∙ sym taken.3;
        part = c.3;
        queued = c.4;
        held = taken.5;
        defined = taken.4 ∙ v.defined;
      },
      taken.6
          ∙ fill_pdu-joined n t.tx_sn_field_length r.rx_sdu t.tx_sdu t.tx_sdu_queue h v.part
              v.queued d v.held,
    )
