-- ===== src/Tests/Um.antt =====
-- The RLC UM entities at concrete inputs.
use srs_ue.Prelude.{
  ℕ, ◌≡◌, ◌≤◌, refl, inl, inr, true, false, [], ◌∷◌, none, some, arith, length, List,
}
use srs_ue.Upper.UmHeader.{sn_5_bits}
use srs_ue.Upper.Um.{
  configure_rx, reset_rx, Tx, Rx, Pdu, take_pdu, reassemble_rx_sdus, handle_data_pdu, timer_expired,
  skip_lost, rx_mod_base, build_data_pdu,
}
use srs_ue.Upper.Um.Stream.{take_pdu-stale}
use srs_ue.Upper.Um.Exchange.{IsSynced}
use srs_ue.Upper.Um.Run.{Kept, Event, write, grant, run, run-Kept}
use srs_ue.Upper.Um.Overflow.{build_data_pdu-too_long}
use srs_ue.Upper.Um.Drain.{Drained, grants, run-drains}
use srs_ue.Upper.Um.Window.{IsAhead}
use srs_ue.Upper.Um.Valid.{IsOrdered, IsValid}
use srs_ue.Upper.Um.History.{receive, expire, after_calls, after_calls-IsValid}
use srs_ue.Upper.Um.Calls.{gives_up, timer_expired-IsValid}

-- Two SDUs wait, and the PDU with number 0 has been received.
abbrev sender : Tx
sender = record {
  tx_sdu_queue = (1 ∷ 2 ∷ 3 ∷ []) ∷ (4 ∷ 5 ∷ []) ∷ [];
  tx_sdu = none;
  vt_us = 1;
  tx_mod = 32;
  tx_sn_field_length = sn_5_bits;
}

abbrev receiver : Rx
receiver = record {
  rx_window = [];
  rx_window_size = 16;
  rx_mod = 32;
  rx_sn_field_length = sn_5_bits;
  rx_sdu = [];
  vr_ur_in_rx_sdu = 0;
  vr_ur = 1;
  vr_ux = 0;
  vr_uh = 1;
  pdu_lost = false;
  t_reordering = 35;
  timer = record { id = 3; callback = none; timeout = 0; counter = 0; running = false };
  overran = false;
}

sender-IsSynced : IsSynced sender receiver
sender-IsSynced = record {
  idle = record {
    ring = inl (refl, refl);
    low = omega arith;
    level = refl;
    empty = refl;
    clean = (refl, refl);
  };
  same_size = refl;
  tx_ring = refl;
  same_ring = refl;
  level = refl;
  part = tt;
  queued = ((omega arith, omega arith), ((omega arith, omega arith), tt));
  held = refl;
  defined = refl;
}

abbrev events : List Event
events = grant 4 ∷ write (6 ∷ []) ∷ grant 9 ∷ []

run-Kept_example : Kept sender receiver (run 7 events sender receiver)
run-Kept_example =
    run-Kept 7 events sender receiver sender-IsSynced (tt, ((omega arith, omega arith), (tt, tt)))

-- As many grants as there are bytes, of several sizes.
abbrev sizes : List ℕ
sizes = 2 ∷ 3 ∷ 9 ∷ 2 ∷ 4 ∷ []

run-drains_example : Drained sender receiver (run 7 (grants sizes) sender receiver)
unfolding srs_ue.Upper.Um.size_bytes
run-drains_example =
    run-drains 7 sizes sender receiver sender-IsSynced
      (omega arith, (omega arith, (omega arith, (omega arith, (omega arith, omega arith)))))
      (omega arith)

-- PDU 1 is missing and PDU 2 waits.
abbrev second : Pdu
second = record {
  header = record { fi = 0; sn_size = sn_5_bits; sn = 2; li = 1 ∷ [] };
  payload = 7 ∷ 8 ∷ 9 ∷ [];
}

abbrev waiting : Rx
waiting = record receiver {
  rx_window = (2, second) ∷ [];
  vr_uh = 3;
  vr_ux = 3;
  timer = record { id = 3; callback = some 7; timeout = 35; counter = 2; running = true };
}

waiting-IsAhead : IsAhead 2 waiting
unfolding srs_ue.Upper.Um.find
waiting-IsAhead = record {
  ring = inl (refl, refl);
  low = omega arith;
  edge = refl;
  bound = omega arith;
  keys = (omega arith, omega arith, tt);
  top = inr refl;
}

waiting-IsOrdered : IsOrdered waiting
unfolding srs_ue.Upper.Um.find
waiting-IsOrdered = record {
  sized = refl;
  depth = 2;
  ahead = waiting-IsAhead;
  within = omega arith;
  next_missing = refl;
}

waiting_mark : rx_mod_base waiting 3 ≤ 16
unfolding srs_ue.Upper.Um.rx_mod_base
waiting_mark = omega arith

after_calls-IsValid_example : IsValid (
    after_calls 7
      (receive true (2 ∷ 5 ∷ 6 ∷ []) ∷ expire ∷ receive false [] ∷ [])
      (reset_rx (configure_rx sn_5_bits 35 waiting)))
after_calls-IsValid_example =
    after_calls-IsValid 7 35 sn_5_bits
      (receive true (2 ∷ 5 ∷ 6 ∷ []) ∷ expire ∷ receive false [] ∷ []) waiting

timer_expired-IsValid_example :
    IsValid (timer_expired 7 waiting).0
    × (rx_mod_base (skip_lost 32 (gives_up waiting)).0 (skip_lost 32 (gives_up waiting)).0.vr_ux
        ≤ rx_mod_base (skip_lost 32 (gives_up waiting)).0 (skip_lost 32 (gives_up waiting)).0.vr_ur)
timer_expired-IsValid_example = timer_expired-IsValid 7 waiting waiting-IsOrdered waiting_mark

-- Two whole SDUs in the first PDU: the first is dropped.
take_pdu-stale_example :
    let (r', sdus) = take_pdu second (record receiver { vr_ur = 0 }) in
    (sdus ≡ (8 ∷ 9 ∷ []) ∷ []) × (r'.rx_sdu ≡ [])
unfolding srs_ue.Upper.UmHeader.end_aligned
take_pdu-stale_example =
    take_pdu-stale second (record receiver { vr_ur = 0 }) 1 [] (omega arith) refl

-- A grant of 3 bytes, and a PDU of 8.
abbrev crowded : Tx
crowded = record sender { tx_sdu = some (9 ∷ []); tx_sdu_queue = (1 ∷ 2 ∷ 3 ∷ 4 ∷ []) ∷ [] }

build_data_pdu-too_long_example : length (build_data_pdu true 3 crowded).1 ≡ 8
build_data_pdu-too_long_example =
    build_data_pdu-too_long crowded (9 ∷ []) (1 ∷ 2 ∷ 3 ∷ 4 ∷ []) [] refl refl refl (omega arith)
