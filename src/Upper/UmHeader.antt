-- ===== src/Upper/UmHeader.antt =====
-- ue/src/upper/rlc_um.cc: the header of an unacknowledged-mode data PDU (3GPP TS 36.322, 6.2.1).
pub mod Trip
use srs_ue.Prelude.{
  ℕ, ◌+◌, ◌*◌, ◌/◌, ◌%◌, ◌^◌, Bool, ◌||◌, List, [], ◌∷◌, ◌++◌, Option, none, some, ◌==◌,
  if◌then◌else◌, length, ◌<<<◌, ◌>>>◌, low_bits, bit_or, u8,
}
use srs_ue.Upper.Extension.{more, extension_length, write_extension, read_extension}

-- `rlc_umd_sn_size_t` and `rlc_umd_pdu_header_t`; `li` holds the first `N_li` entries.
pub data SnSize : Type 0 where
  sn_5_bits sn_10_bits : SnSize

pub record Header : Type 0 where
  pub fi : ℕ
  pub sn_size : SnSize
  pub sn : ℕ
  pub li : List ℕ

abbrev pub fixed_length : SnSize → ℕ
fixed_length sn_5_bits = 1
fixed_length sn_10_bits = 2

unfoldable pub packed_length : Header → ℕ
packed_length h = fixed_length h.sn_size + extension_length (length h.li)

-- RLC_FI_FIELD_*: 0 start and end aligned, 1 not end aligned, 2 not start aligned, 3 neither.
unfoldable pub start_aligned : ℕ → Bool
start_aligned fi = (fi == 0) || (fi == 1)

unfoldable pub end_aligned : ℕ → Bool
end_aligned fi = (fi == 0) || (fi == 2)

abbrev pub write_fixed : SnSize → ℕ → ℕ → ℕ → List ℕ
write_fixed sn_5_bits fi ext sn =
    u8 (bit_or (bit_or (low_bits fi 2 <<< 6) (ext <<< 5)) (low_bits sn 5)) ∷ []
write_fixed sn_10_bits fi ext sn =
    u8 (bit_or (bit_or (low_bits fi 2 <<< 3) (ext <<< 2)) (low_bits (sn >>> 8) 2))
    ∷ u8 (low_bits sn 8)
    ∷ []

-- The bytes that are put in front of the PDU's data.
unfoldable pub write_data_pdu_header : Header → List ℕ
write_data_pdu_header h = write_fixed h.sn_size h.fi (more h.li) h.sn ++ write_extension h.li

-- `FI`, `EXT` and `SN`, and what stands behind the fixed part.
abbrev pub read_fixed : SnSize → List ℕ → Option (ℕ × ℕ × ℕ × List ℕ)
read_fixed sn_5_bits (x ∷ rest) =
    some (low_bits (x >>> 6) 2, low_bits (x >>> 5) 1, low_bits x 5, rest)
read_fixed sn_10_bits (x ∷ y ∷ rest) =
    some
      (low_bits (x >>> 3) 2, low_bits (x >>> 2) 1, bit_or (low_bits x 2 <<< 8) (low_bits y 8), rest)
read_fixed _ _ = none

abbrev pub read_li : ℕ → List ℕ → Option (List ℕ)
read_li ext rest =
    if ext == 0
    then some []
    else elim (read_extension rest) [ none ↦ none | some (li, _) ↦ some li ]

unfoldable pub read_data_pdu_header : SnSize → List ℕ → Option Header
read_data_pdu_header size payload = elim (read_fixed size payload) [
  | none ↦ none
  | some (fi, ext, sn, rest) ↦ elim (read_li ext rest) [
    | none ↦ none
    | some li ↦ some (record { fi = fi; sn_size = size; sn = sn; li = li })
  ]
]
