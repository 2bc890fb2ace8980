-- ===== src/Mac/Pdu/Start.antt =====
-- A PDU that has been set up for writing.
use srs_ue.Prelude.{
  ℕ, ◌+◌, ◌*◌, ◌≤◌, ◌<◌, refl, sym, Bool, List, [], length, length-take, length-drop, take, drop,
  take-append-drop, u32, arith,
}
use srs_ue.Mac.Pdu.Packet.{SchPdu, init_buffer}
use srs_ue.Mac.Pdu.Write.{header_sizes}
use srs_ue.Mac.Pdu.Wire.{sdus}
use srs_ue.Mac.Pdu.Built.{IsBuilt}

-- After `init_tx` with a buffer that has room for the headers and the PDU, no SDU has been put, and
-- all that holds of a PDU while it is built holds.
pub init_buffer-IsBuilt :
    (buffer : List ℕ) (len : ℕ) (is_ul : Bool) (p : SchPdu)
    → u32 (p.max_subheaders * 2 + 13) + len ≤ length buffer
    → len < 2147483648
    → IsBuilt [] (init_buffer buffer len is_ul p)
unfolding init_buffer header_sizes sdus
init_buffer-IsBuilt buffer len is_ul p h small =
    let offset = u32 (p.max_subheaders * 2 + 13) in
    record {
      in_vector = omega arith;
      sendable = tt;
      last = refl;
      accounted = omega arith;
      small = small;
      are_sdus = refl;
      filled = tt;
      front = take offset buffer;
      behind = drop offset buffer;
      buffer = sym (take-append-drop offset buffer);
      offset = length-take offset buffer (omega arith);
      total = refl;
      room = omega (arith, length-drop offset buffer);
    }
