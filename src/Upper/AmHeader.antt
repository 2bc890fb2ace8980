-- ===== src/Upper/AmHeader.antt =====
-- ue/src/upper/rlc_am.cc: the header of an acknowledged-mode data PDU or PDU segment (3GPP TS
-- 36.322, 6.2.1).
pub mod Trip
use srs_ue.Prelude.{
  ℕ, ◌+◌, ◌*◌, ◌/◌, ◌%◌, ◌^◌, Bool, ◌||◌, List, [], ◌∷◌, ◌++◌, Option, none, some, ◌==◌,
  if◌then◌else◌, length, ◌<<<◌, ◌>>>◌, low_bits, bit_or, u8,
}
use srs_ue.Upper.Extension.{more, extension_length, write_extension, read_extension}

-- `rlc_amd_pdu_header_t`; `li` holds the first `N_li` entries. `dc` is 0 for control, 1 for data.
pub record Header : Type 0 where
  pub dc : ℕ
  pub rf : ℕ
  pub p : ℕ
  pub fi : ℕ
  pub sn : ℕ
  pub lsf : ℕ
  pub so : ℕ
  pub li : List ℕ

unfoldable pub packed_length : Header → ℕ
packed_length h = (if h.rf == 0 then 2 else 4) + extension_length (length h.li)

unfoldable pub start_aligned : ℕ → Bool
start_aligned fi = (fi == 0) || (fi == 1)

unfoldable pub end_aligned : ℕ → Bool
end_aligned fi = (fi == 0) || (fi == 2)

-- The two control bits of a payload's first byte.
unfoldable pub is_control_pdu : ℕ → Bool
is_control_pdu first = low_bits (first >>> 7) 1 == 0

unfoldable pub is_pdu_segment : ℕ → Bool
is_pdu_segment first = low_bits (first >>> 6) 1 == 1

abbrev pub flag_bits : ℕ → ℕ → ℕ → ℕ
flag_bits dc rf p = bit_or (bit_or (low_bits dc 1 <<< 7) (low_bits rf 1 <<< 6)) (low_bits p 1 <<< 5)

abbrev pub first_fixed : ℕ → ℕ → ℕ → ℕ → ℕ → ℕ → ℕ
first_fixed dc rf p fi ext sn = u8 (
    bit_or (bit_or (bit_or (flag_bits dc rf p) (low_bits fi 2 <<< 3)) (ext <<< 2))
      (low_bits (sn >>> 8) 2))

abbrev pub write_segment : ℕ → ℕ → ℕ → List ℕ
write_segment rf lsf so =
    if rf == 0
    then []
    else u8 (bit_or (low_bits lsf 1 <<< 7) (low_bits (so >>> 8) 7)) ∷ u8 (low_bits so 8) ∷ []

unfoldable pub write_data_pdu_header : Header → List ℕ
write_data_pdu_header h =
    first_fixed h.dc h.rf h.p h.fi (more h.li) h.sn
    ∷ u8 (low_bits h.sn 8)
    ∷ (write_segment h.rf h.lsf h.so ++ write_extension h.li)

-- `LSF` and `SO`; the fields keep the values that they had where there is no segment part, which
-- are those of a new header, 0.
abbrev pub read_segment : ℕ → List ℕ → Option (ℕ × ℕ × List ℕ)
read_segment rf payload = if rf == 0 then some (0, 0, payload) else elim payload [
  | x ∷ y ∷ rest ↦ some (low_bits (x >>> 7) 1, bit_or (low_bits x 7 <<< 8) (low_bits y 8), rest)
  | _ ↦ none
]

abbrev pub read_li : ℕ → List ℕ → Option (List ℕ × List ℕ)
read_li ext payload = if ext == 0 then some ([], payload) else read_extension payload

-- What reading leaves: of a control PDU only `dc`, of a data PDU the header and the payload behind.
pub data Parsed : Type 0 where
  control : Parsed
  data_pdu : Header → List ℕ → Parsed

abbrev pub read_rest : ℕ → ℕ → List ℕ → Option Parsed
read_rest x y payload =
    let rf = low_bits (x >>> 6) 1 in
    elim (read_segment rf payload) [
      | none ↦ none
      | some (lsf, so, rest) ↦ elim (read_li (low_bits (x >>> 2) 1) rest) [
        | none ↦ none
        | some (li, behind) ↦ some (
            data_pdu
              (record {
                dc = 1;
                rf = rf;
                p = low_bits (x >>> 5) 1;
                fi = low_bits (x >>> 3) 2;
                sn = bit_or (low_bits x 2 <<< 8) (low_bits y 8);
                lsf = lsf;
                so = so;
                li = li;
              })
              behind)
      ]
    ]

unfoldable pub read_data_pdu_header : List ℕ → Option Parsed
read_data_pdu_header [] = none
read_data_pdu_header (x ∷ []) = if low_bits (x >>> 7) 1 == 0 then some control else none
read_data_pdu_header (x ∷ y ∷ payload) =
    if low_bits (x >>> 7) 1 == 0 then some control else read_rest x y payload
