-- ===== src/Tests/Am.antt =====
-- A STATUS PDU at the sending half of an AM entity.
use srs_ue.Prelude.{refl, true, false, [], ◌∷◌, arith}
use srs_ue.Upper.AmStatus.{Status}
use srs_ue.Upper.AmControl.{Sender, handle_control_pdu}
use srs_ue.Upper.AmControl.Sweep.{Swept, handle_control_pdu-Swept}

-- PDUs 1022, 1023 and 0 are sent; the second one is missing.
abbrev sender : Sender
sender = record {
  tx_window =
      (1022, record { n_bytes = 40; is_acked = false })
      ∷ (1023, record { n_bytes = 50; is_acked = false })
      ∷ (0, record { n_bytes = 60; is_acked = false })
      ∷ [];
  retx_queue = [];
  vt_a = 1022;
  vt_ms = 510;
  vt_s = 1;
  poll_running = true;
}

abbrev status : Status
status = record {
  ack_sn = 1;
  nacks = record { nack_sn = 1023; has_so = true; so_start = 10; so_end = 32767 } ∷ [];
}

handle_control_pdu-Swept_example : Swept status 3 sender (handle_control_pdu status sender)
unfolding srs_ue.Upper.AmControl.find
handle_control_pdu-Swept_example =
    handle_control_pdu-Swept status sender 3 (omega arith) (omega arith) (omega arith) (omega arith)
      refl (refl, (refl, (refl, tt)))
