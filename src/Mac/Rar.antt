-- ===== src/Mac/Rar.antt =====
-- ue/src/common/pdu.cc, ue/hdr/common/pdu.h: the MAC PDU of random access responses (3GPP TS 36.321,
-- 6.1.5, 6.2.2 and 6.2.3). The two functions on bits are those of the PHY library, and an argument.
pub mod Trip
pub mod Packet
pub mod Backoff
use srs_ue.Prelude.{
  ℕ, zero, suc, ◌+◌, ◌*◌, ◌/◌, ◌%◌, ◌^◌, Bool, true, false, List, [], ◌∷◌, ◌++◌, Option, none, some,
  ltb, ◌==◌, if◌then◌else◌, length, take, drop, get_or, replicate, ◌<<<◌, ◌>>>◌, low_bits, bit_or,
  u8,
}
use srs_ue.Upper.AmStatus.{BitLibrary}

-- `rar_subh`; `grant` has one bit in each of its `RAR_GRANT_LEN` bytes.
pub record RarSubh : Type 0 where
  pub grant : List Bool
  pub ta : ℕ
  pub temp_rnti : ℕ
  pub preamble : ℕ

-- `rar_pdu`, without the fields of the template that only the shared channels' PDU uses:
-- `subheaders` holds all of the vector's.
pub record RarPdu : Type 0 where
  pub subheaders : List RarSubh
  pub nof_subheaders : ℕ
  pub rem_len : ℕ
  pub has_backoff_indicator : Bool
  pub backoff_indicator : ℕ

unfoldable pub init : RarSubh → RarSubh
init s = record s { grant = replicate 20 false; ta = 0; temp_rnti = 0 }

-- The constructor; the subheaders of the vector are not set yet, and are those that are given.
unfoldable pub new : List RarSubh → RarPdu
new subheaders = record {
  subheaders = subheaders;
  nof_subheaders = 0;
  rem_len = 0;
  has_backoff_indicator = false;
  backoff_indicator = 0;
}

unfoldable pub set_rapid : ℕ → RarSubh → RarSubh
set_rapid rapid s = record s { preamble = rapid }

unfoldable pub set_sched_grant : List Bool → RarSubh → RarSubh
set_sched_grant grant s = record s { grant = grant }

unfoldable pub set_ta_cmd : ℕ → RarSubh → RarSubh
set_ta_cmd ta s = record s { ta = ta }

unfoldable pub set_temp_crnti : ℕ → RarSubh → RarSubh
set_temp_crnti temp_rnti s = record s { temp_rnti = temp_rnti }

unfoldable pub set_backoff : ℕ → RarPdu → RarPdu
set_backoff bi p = record p { has_backoff_indicator = true; backoff_indicator = bi }

unfoldable pub write_subheader : Bool → RarSubh → ℕ
write_subheader is_last s =
    u8 (bit_or (bit_or (if is_last then 0 else 1 <<< 7) (1 <<< 6)) (low_bits s.preamble 6))

abbrev bit_at : List Bool → ℕ → ℕ
bit_at bits i = if get_or bits i false then 1 else 0

-- The six octets of a response. The first one's cast binds tighter than its shift.
unfoldable pub write_payload : BitLibrary → RarSubh → List ℕ
write_payload b s =
    (u8 (low_bits (s.ta >>> 4) 7 <<< 4) >>> 4)
    ∷ u8 (
        bit_or
          (bit_or
            (bit_or (bit_or (low_bits s.ta 4 <<< 4) (bit_at s.grant 0 <<< 3))
              (bit_at s.grant 1 <<< 2))
            (bit_at s.grant 2 <<< 1))
          (bit_at s.grant 3))
    ∷ u8 (b.bit_pack (take 8 (drop 4 s.grant)))
    ∷ u8 (b.bit_pack (take 8 (drop 12 s.grant)))
    ∷ low_bits (s.temp_rnti >>> 8) 8
    ∷ low_bits s.temp_rnti 8
    ∷ []

unfoldable pub write_subheaders : List RarSubh → List ℕ
unfolding write_subheader
write_subheaders [] = []
write_subheaders (s ∷ ss) = write_subheader (length ss == 0) s ∷ write_subheaders ss

unfoldable pub write_payloads : BitLibrary → List RarSubh → List ℕ
write_payloads b [] = []
write_payloads b (s ∷ ss) = write_payload b s ++ write_payloads b ss

-- The octet in front, if there is a backoff indicator; it is overwritten if a response follows.
abbrev pub backoff_octet : RarPdu → List ℕ
backoff_octet p =
    if p.has_backoff_indicator
    then (if ltb 0 p.nof_subheaders then 1 <<< 7 else low_bits p.backoff_indicator 4) ∷ []
    else []

unfoldable pub write_packet : BitLibrary → RarPdu → List ℕ
unfolding write_subheaders write_payloads
write_packet b p =
    let ss = take p.nof_subheaders p.subheaders in
    backoff_octet p ++ (write_subheaders ss ++ (write_payloads b ss ++ replicate p.rem_len 0))

-- The subheader, the backoff indicator if the octet has one, the `E` bit, and the bytes behind.
unfoldable pub read_subheader : RarSubh → List ℕ → Option (RarSubh × Option ℕ × Bool × List ℕ)
read_subheader s [] = none
read_subheader s (x ∷ rest) =
    let e_bit : Bool = low_bits (x >>> 7) 1 == 1 in
    if low_bits (x >>> 6) 1 == 1
    then some (record s { preamble = low_bits x 6 }, none, e_bit, rest)
    else some (s, some (low_bits x 4), e_bit, rest)

abbrev bit_of : ℕ → ℕ → Bool
bit_of x k = low_bits (x >>> k) 1 == 1

-- `none` is a read behind the packet.
unfoldable pub read_payload : BitLibrary → RarSubh → List ℕ → Option (RarSubh × List ℕ)
read_payload b s (x0 ∷ x1 ∷ x2 ∷ x3 ∷ x4 ∷ x5 ∷ rest) = some (
  record s {
    ta = bit_or (low_bits x0 7 <<< 4) (low_bits (x1 >>> 4) 4);
    grant =
        bit_of x1 3
        ∷ bit_of x1 2
        ∷ bit_of x1 1
        ∷ bit_of x1 0
        ∷ (b.bit_unpack x2 8 ++ b.bit_unpack x3 8);
    temp_rnti = bit_or (x4 <<< 8) x5;
  },
  rest,
)
read_payload b s _ = none

-- The subheaders that are read, those behind them, the last backoff indicator and the bytes behind.
unfoldable pub read_subheaders :
    List RarSubh → List ℕ → Option (List RarSubh × List RarSubh × Option ℕ × List ℕ)
unfolding read_subheader
read_subheaders [] bytes = none
read_subheaders (s ∷ ss) bytes = elim (read_subheader s bytes) [
  | none ↦ none
  | some (s', bi, e_bit, rest) ↦
      let more = read_subheaders ss rest in
      if e_bit
      then elim more [
        | none ↦ none
        | some (got, behind, later, left) ↦
            some (s' ∷ got, behind, elim later [ none ↦ bi | some l ↦ some l ], left)
      ]
      else some (s' ∷ [], ss, bi, rest)
]

-- Every subheader is given a payload, that of a backoff indicator included.
unfoldable pub read_payloads : BitLibrary → List RarSubh → List ℕ → Option (List RarSubh)
read_payloads b [] bytes = some []
read_payloads b (s ∷ ss) bytes = elim (read_payload b s bytes) [
  | none ↦ none
  | some (s', rest) ↦ elim (read_payloads b ss rest) [ none ↦ none | some got ↦ some (s' ∷ got) ]
]

unfoldable pub parse_packet : BitLibrary → List ℕ → RarPdu → Option RarPdu
unfolding read_subheaders read_payloads set_backoff
parse_packet b bytes p = elim (read_subheaders p.subheaders bytes) [
  | none ↦ none
  | some (got, behind, bi, rest) ↦ elim (read_payloads b got rest) [
    | none ↦ none
    | some filled ↦
        let q = record p { subheaders = filled ++ behind; nof_subheaders = length got } in
        some (elim bi [ none ↦ q | some backoff ↦ set_backoff backoff q ])
  ]
]
