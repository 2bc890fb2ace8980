-- ===== src/Upper/UmHeader/Trip.antt =====
-- Reading back a UMD header, and its length.
use srs_ue.Prelude.{
  ℕ, ◌+◌, ◌*◌, ◌/◌, ◌%◌, ◌<◌, ◌≡◌, refl, ◌∙◌, List, [], ◌∷◌, ◌++◌, append_assoc, some, length,
  length-append, ◌<<<◌, ◌>>>◌, low_bits, bit_or, u8, arith,
}
use srs_ue.Prelude.Bits.{or_field}
use srs_ue.Upper.Extension.{more, write_extension}
use srs_ue.Upper.Extension.Trip.{AllLi, length-write_extension, read_extension-write_extension}
use srs_ue.Upper.UmHeader.{
  SnSize, sn_5_bits, sn_10_bits, Header, fixed_length, packed_length, write_fixed,
  write_data_pdu_header, read_fixed, read_li, read_data_pdu_header,
}

-- The fields fit their bits.
abbrev pub sn_limit : SnSize → ℕ
sn_limit sn_5_bits = 32
sn_limit sn_10_bits = 1024

pub record IsHeader (h : Header) : Type 0 where
  pub fi_fits : h.fi < 4
  pub sn_fits : h.sn < sn_limit h.sn_size
  pub li_fit : AllLi h.li

length-write_fixed :
    (size : SnSize) (fi e sn : ℕ) → length (write_fixed size fi e sn) ≡ fixed_length size
length-write_fixed sn_5_bits fi e sn = refl
length-write_fixed sn_10_bits fi e sn = refl

-- `rlc_um_packed_length` is the number of bytes that the header takes.
pub length-write_data_pdu_header : (h : Header) → length (write_data_pdu_header h) ≡ packed_length h
unfolding write_data_pdu_header packed_length
length-write_data_pdu_header h =
    length-append (write_fixed h.sn_size h.fi (more h.li) h.sn) (write_extension h.li)
    ∙ omega (arith, length-write_fixed h.sn_size h.fi (more h.li) h.sn, length-write_extension h.li)

short_fixed :
    (fi e sn : ℕ)
    → fi < 4
    → e < 2
    → sn < 32
    → u8 (bit_or (bit_or (low_bits fi 2 <<< 6) (e <<< 5)) (low_bits sn 5)) ≡ fi * 64 + e * 32 + sn
short_fixed fi e sn hf he hs = rw (or_field 6 (fi % 4) (fi % 4 * 64) (e * 32) refl (omega arith)) (
    rw (or_field 5 (fi % 4 * 2 + e) (fi % 4 * 64 + e * 32) (sn % 32) (omega arith) (omega arith))
      (omega arith))

long_fixed :
    (fi e sn : ℕ)
    → fi < 4
    → e < 2
    → sn < 1024
    → u8 (bit_or (bit_or (low_bits fi 2 <<< 3) (e <<< 2)) (low_bits (sn >>> 8) 2))
      ≡ fi * 8 + e * 4 + sn / 256
long_fixed fi e sn hf he hs = rw (or_field 3 (fi % 4) (fi % 4 * 8) (e * 4) refl (omega arith)) (
    rw (or_field 2 (fi % 4 * 2 + e) (fi % 4 * 8 + e * 4) (sn / 256 % 4) (omega arith) (omega arith))
      (omega arith))

read_fixed-write_fixed :
    (size : SnSize) (fi e sn : ℕ) (rest : List ℕ)
    → fi < 4
    → e < 2
    → sn < sn_limit size
    → read_fixed size (write_fixed size fi e sn ++ rest) ≡ some (fi, e, sn, rest)
read_fixed-write_fixed sn_5_bits fi e sn rest hf he hs =
    rw (short_fixed fi e sn hf he hs) (ground arith)
read_fixed-write_fixed sn_10_bits fi e sn rest hf he hs =
    rw
      (
        long_fixed fi e sn hf he hs,
        or_field 8 ((fi * 8 + e * 4 + sn / 256) % 4) ((fi * 8 + e * 4 + sn / 256) % 4 * 256)
            (sn % 256 % 256 % 256) refl (omega arith),
      )
      (ground arith)

more-lt : (li : List ℕ) → more li < 2
more-lt [] = omega arith
more-lt (a ∷ li) = omega arith

read_li-write_extension :
    (li rest : List ℕ) → AllLi li → read_li (more li) (write_extension li ++ rest) ≡ some li
read_li-write_extension [] rest h = refl
read_li-write_extension (a ∷ li) rest h = rw (read_extension-write_extension a li rest h)

-- A header whose fields fit their bits (2 for FI, 5 or 10 for SN, 11 for each length indicator) is
-- read back as it was written, whatever data follow it.
pub read-write_data_pdu_header :
    (h : Header) (rest : List ℕ)
    → IsHeader h
    → read_data_pdu_header h.sn_size (write_data_pdu_header h ++ rest) ≡ some h
unfolding read_data_pdu_header write_data_pdu_header
read-write_data_pdu_header h rest v = rw (
  append_assoc (write_fixed h.sn_size h.fi (more h.li) h.sn) (write_extension h.li) rest,
  read_data_pdu_header,
  read_fixed-write_fixed h.sn_size h.fi (more h.li) h.sn (write_extension h.li ++ rest) v.fi_fits
      (more-lt h.li) v.sn_fits,
  read_li-write_extension h.li rest v.li_fit,
)
