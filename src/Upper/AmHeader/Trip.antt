-- ===== src/Upper/AmHeader/Trip.antt =====
-- Reading back an AMD header, and its length.
use srs_ue.Prelude.{
  ℕ, ◌+◌, ◌*◌, ◌/◌, ◌%◌, ◌<◌, ◌≡◌, refl, sym, ◌∙◌, ◌⊎◌, false, List, [], ◌∷◌, ◌++◌, append_assoc,
  some, ◌==◌, if◌then◌else◌, length, length-append, ◌<<<◌, ◌>>>◌, low_bits, bit_or, u8, arith,
}
use srs_ue.Prelude.Bits.{or_field}
use srs_ue.Upper.Extension.{more, write_extension}
use srs_ue.Upper.Extension.Trip.{AllLi, length-write_extension, read_extension-write_extension}
use srs_ue.Upper.AmHeader.{
  Header, packed_length, flag_bits, first_fixed, write_segment, write_data_pdu_header, read_segment,
  read_li, read_rest, read_data_pdu_header, data_pdu, is_control_pdu, is_pdu_segment,
}

-- A data PDU whose fields fit their bits; without a segment part LSF and SO are 0.
pub record IsHeader (h : Header) : Type 0 where
  pub is_data : h.dc ≡ 1
  pub rf_fits : h.rf < 2
  pub p_fits : h.p < 2
  pub fi_fits : h.fi < 4
  pub sn_fits : h.sn < 1024
  pub lsf_fits : h.lsf < 2
  pub so_fits : h.so < 32768
  pub whole : (0 < h.rf) ⊎ ((h.lsf ≡ 0) × (h.so ≡ 0))
  pub li_fit : AllLi h.li

length-write_segment :
    (rf lsf so : ℕ) → length (write_segment rf lsf so) + 2 ≡ (if rf == 0 then 2 else 4)
length-write_segment rf lsf so = ground arith

-- `rlc_am_packed_length` is the number of bytes that the header takes.
pub length-write_amd_header : (h : Header) → length (write_data_pdu_header h) ≡ packed_length h
unfolding write_data_pdu_header packed_length
length-write_amd_header h = omega (
  arith,
  length-append (write_segment h.rf h.lsf h.so) (write_extension h.li),
  length-write_segment h.rf h.lsf h.so,
  length-write_extension h.li,
)

flag_bits-sum : (rf p : ℕ) → rf < 2 → p < 2 → flag_bits 1 rf p ≡ 128 + rf * 64 + p * 32
flag_bits-sum rf p hr hp = rw (or_field 7 1 128 (rf % 2 * 64) refl (omega arith)) (
    rw (or_field 6 (2 + rf % 2) (128 + rf % 2 * 64) (p % 2 * 32) (omega arith) (omega arith))
      (omega arith))

first_fixed-sum :
    (rf p fi e sn : ℕ)
    → rf < 2
    → p < 2
    → fi < 4
    → e < 2
    → sn < 1024
    → first_fixed 1 rf p fi e sn ≡ 128 + rf * 64 + p * 32 + fi * 8 + e * 4 + sn / 256
first_fixed-sum rf p fi e sn hr hp hf he hs = rw (flag_bits-sum rf p hr hp) (
    rw
      (or_field 5 (4 + rf * 2 + p) (128 + rf * 64 + p * 32) (fi % 4 * 8) (omega arith)
        (omega arith))
      (rw
        (or_field 3 (16 + rf * 8 + p * 4 + fi % 4) (128 + rf * 64 + p * 32 + fi % 4 * 8) (e * 4)
          (omega arith) (omega arith))
        (rw
          (or_field 2 (32 + rf * 16 + p * 8 + fi % 4 * 2 + e)
            (128 + rf * 64 + p * 32 + fi % 4 * 8 + e * 4) (sn / 256 % 4) (omega arith)
            (omega arith))
          (omega arith))))

more-lt : (li : List ℕ) → more li < 2
more-lt [] = omega arith
more-lt (a ∷ li) = omega arith

read_li-write_extension :
    (li rest : List ℕ) → AllLi li → read_li (more li) (write_extension li ++ rest) ≡ some (li, rest)
unfolding write_extension
read_li-write_extension [] rest h = refl
read_li-write_extension (a ∷ li) rest h = read_extension-write_extension a li rest h

read_segment-write_segment :
    (rf lsf so : ℕ) (rest : List ℕ)
    → rf < 2
    → lsf < 2
    → so < 32768
    → (rf ≡ 0 → (lsf ≡ 0) × (so ≡ 0))
    → read_segment rf (write_segment rf lsf so ++ rest) ≡ some (lsf, so, rest)
read_segment-write_segment rf lsf so rest hr hl hs w = ground (
  arith,
  or_field 7 (lsf % 2) (lsf % 2 * 128) (so / 256 % 128) refl (omega arith),
  or_field 8 ((lsf * 128 + so / 256) % 128) ((lsf * 128 + so / 256) % 128 * 256) (so % 256) refl
      (omega arith),
)

-- What `read_rest` and the two tests see of a first byte.
first_fields :
    (rf p fi e sn x : ℕ)
    → rf < 2
    → p < 2
    → fi < 4
    → e < 2
    → sn < 1024
    → x ≡ 128 + rf * 64 + p * 32 + fi * 8 + e * 4 + sn / 256
    → (low_bits (x >>> 7) 1 ≡ 1)
      × (low_bits (x >>> 6) 1 ≡ rf)
      × (low_bits (x >>> 5) 1 ≡ p)
      × (low_bits (x >>> 3) 2 ≡ fi)
      × (low_bits (x >>> 2) 1 ≡ e)
      × (bit_or (low_bits x 2 <<< 8) (low_bits (u8 (low_bits sn 8)) 8) ≡ sn)
first_fields rf p fi e sn x hr hp hf he hs h = (
  omega arith,
  omega arith,
  omega arith,
  omega arith,
  omega arith,
  or_field 8 (x % 4) (x % 4 * 256) (sn % 256 % 256 % 256) refl (omega arith) ∙ omega arith,
)

-- A data PDU's header whose fields fit their bits, with or without a segment part, is read back as
-- it was written, with the payload behind it; and the first byte tells a data PDU from a control
-- PDU, and a segment from a whole PDU.
pub read-write_amd_header :
    (h : Header) (rest : List ℕ)
    → IsHeader h
    → (read_data_pdu_header (write_data_pdu_header h ++ rest) ≡ some (data_pdu h rest))
      × (is_control_pdu (first_fixed h.dc h.rf h.p h.fi (more h.li) h.sn) ≡ false)
      × (is_pdu_segment (first_fixed h.dc h.rf h.p h.fi (more h.li) h.sn) ≡ (h.rf == 1))
unfolding read_data_pdu_header write_data_pdu_header is_control_pdu is_pdu_segment
read-write_amd_header h rest v =
    let x : ℕ = first_fixed h.dc h.rf h.p h.fi (more h.li) h.sn in
    let sum : x ≡ 128 + h.rf * 64 + h.p * 32 + h.fi * 8 + more h.li * 4 + h.sn / 256 =
      rw v.is_data (
        first_fixed-sum h.rf h.p h.fi (more h.li) h.sn v.rf_fits v.p_fits v.fi_fits (more-lt h.li)
          v.sn_fits) in
    let (dc, rf, p, fi, ext, sn) =
      first_fields h.rf h.p h.fi (more h.li) h.sn x v.rf_fits v.p_fits v.fi_fits (more-lt h.li)
        v.sn_fits sum in
    (
      rw
          (
            dc,
            read_rest,
            rf,
            append_assoc (write_segment h.rf h.lsf h.so) (write_extension h.li) rest,
            read_segment-write_segment h.rf h.lsf h.so (write_extension h.li ++ rest) v.rf_fits
                v.lsf_fits v.so_fits (λ e. ground (arith, v.whole)),
            ext,
            read_li-write_extension h.li rest v.li_fit,
            p,
            fi,
            sn,
          )
          (λ i. some (data_pdu (record h { dc = sym v.is_data i; rf = rf i }) rest)),
      rw dc,
      rw rf,
    )
