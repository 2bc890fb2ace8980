-- ===== src/Tests/Rar.antt =====
-- Random access responses at concrete inputs.
use srs_ue.Prelude.{
  ◌≡◌, refl, true, false, [], ◌∷◌, ◌++◌, map, some, drop, get_elem?, replicate, arith,
}
use srs_ue.Mac.Rar.{RarSubh, RarPdu, write_packet, parse_packet}
use srs_ue.Mac.Rar.Trip.{IsResponse}
use srs_ue.Mac.Rar.Packet.{arrived, parse_packet-write_packet_plain}
use srs_ue.Mac.Rar.Backoff.{parse_packet-write_packet_backoff}
use srs_ue.Tests.Bits.{bit_library, bit_library-IsBytePacking}

abbrev response : RarSubh
response = record {
  grant = true ∷ false ∷ true ∷ true ∷ (replicate 7 true ++ replicate 9 false);
  ta = 1000;
  temp_rnti = 4660;
  preamble = 17;
}

abbrev other : RarSubh
other = record { grant = replicate 20 false; ta = 31; temp_rnti = 99; preamble = 5 }

abbrev responses : RarPdu
responses = record {
  subheaders = response ∷ other ∷ replicate 4 other;
  nof_subheaders = 2;
  rem_len = 8;
  has_backoff_indicator = false;
  backoff_indicator = 7;
}

response-IsResponse : IsResponse response
response-IsResponse = record {
  grant_length = refl;
  rnti_bits = omega arith;
  preamble_bits = omega arith;
}

other-IsResponse : IsResponse other
other-IsResponse = record {
  grant_length = refl;
  rnti_bits = omega arith;
  preamble_bits = omega arith;
}

parse_packet-write_packet_plain_example :
    parse_packet bit_library (write_packet bit_library responses) responses
    ≡ some (record responses {
      subheaders = map arrived (response ∷ other ∷ []) ++ drop 2 responses.subheaders;
      nof_subheaders = 2;
    })
parse_packet-write_packet_plain_example =
    parse_packet-write_packet_plain bit_library bit_library-IsBytePacking responses responses
      response (other ∷ []) refl refl (response-IsResponse, (other-IsResponse, tt)) (omega arith)

abbrev marked : RarPdu
marked = record responses { has_backoff_indicator = true }

parse_packet-write_packet_backoff_example :
    (q : RarPdu) × (parse_packet bit_library (write_packet bit_library marked) responses ≡ some q)
    × (q.has_backoff_indicator ≡ true)
    × (q.backoff_indicator ≡ 0)
    × (get_elem? q.subheaders 1 ≡ some (record (arrived other) { preamble = 17 }))
parse_packet-write_packet_backoff_example =
    parse_packet-write_packet_backoff bit_library bit_library-IsBytePacking marked responses
      response other [] refl (omega arith) refl (response-IsResponse, (other-IsResponse, tt))
      (omega arith) (omega arith)
