-- ===== src/Mac/Pdu/Parse.antt =====
-- ue/src/common/pdu.cc, ue/hdr/common/pdu.h: `sch_pdu::parse_packet` (3GPP TS 36.321, 6.1.2).
use srs_ue.Prelude.{
  ℕ, ◌+◌, Bool, List, [], ◌∷◌, ◌++◌, Option, none, some, if◌then◌else◌, length, u32, sub_u32,
}
use srs_ue.Mac.Pdu.Subheader.{SchSubh, read_subheader, read_payload, size_plus_header}
use srs_ue.Mac.Pdu.Packet.{SchPdu}

-- `while (subheaders[n].read_subheader(&ptr)) n++`, over the subheaders of the vector that are left:
-- those that are read, those behind them, and the bytes at the pointer. `none` is a read behind the
-- packet or behind the vector.
unfoldable pub read_subheaders :
    Bool → List SchSubh → List ℕ → Option (List SchSubh × List SchSubh × List ℕ)
read_subheaders is_ul [] bytes = none
read_subheaders is_ul (s ∷ ss) bytes = elim (read_subheader is_ul s bytes) [
  | none ↦ none
  | some (s', e_bit, rest) ↦
      let more = read_subheaders is_ul ss rest in
      if e_bit
      then elim more [ none ↦ none | some (got, behind, left) ↦ some (s' ∷ got, behind, left) ]
      else some (s' ∷ [], ss, rest)
]

-- The loop of `read_payload`.
unfoldable pub read_payloads : List SchSubh → List ℕ → List SchSubh
read_payloads [] bytes = []
read_payloads (s ∷ ss) bytes = let (s', rest) = read_payload s bytes in s' ∷ read_payloads ss rest

-- The bytes of all subheaders but the last, with their payloads.
unfoldable pub read_len : List SchSubh → ℕ
read_len [] = 0
read_len (s ∷ []) = 0
read_len (s ∷ t ∷ ss) = size_plus_header s + read_len (t ∷ ss)

-- The last subheader is given what is left; the test that it is not negative is always true.
unfoldable pub correct_last : ℕ → List SchSubh → List SchSubh
correct_last size [] = []
correct_last size (s ∷ []) = record s { nof_bytes = size } ∷ []
correct_last size (s ∷ t ∷ ss) = s ∷ correct_last size (t ∷ ss)

unfoldable pub parse_packet : List ℕ → SchPdu → Option SchPdu
unfolding read_subheaders read_payloads read_len correct_last
parse_packet bytes p = elim (read_subheaders p.pdu_is_ul p.subheaders bytes) [
  | none ↦ none
  | some (got, behind, rest) ↦ some (record p {
    subheaders =
        correct_last (sub_u32 p.pdu_len (u32 (read_len got + 1))) (read_payloads got rest)
        ++ behind;
    nof_subheaders = length got;
  })
]
