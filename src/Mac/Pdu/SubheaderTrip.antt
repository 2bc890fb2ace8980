-- ===== src/Mac/Pdu/SubheaderTrip.antt =====
-- A subheader that is written is read back.
use srs_ue.Prelude.{
  ℕ, ◌+◌, ◌*◌, ◌/◌, ◌%◌, ◌<◌, ◌≡◌, refl, ap, Bool, true, false, not, ◌&&◌, List, ◌++◌, some, inl,
  inr, ltb, leb, ◌==◌, if◌then◌else◌, ◌<<<◌, ◌>>>◌, low_bits, bit_or, Bool-cases, arith,
}
use srs_ue.Prelude.Bits.{or_field}
use srs_ue.Mac.Pdu.Subheader.{
  SchSubh, is_sdu, phr_report, write_length, read_length, write_subheader, read_subheader,
}
use srs_ue.Mac.Pdu.Wire.{IsSendable}

-- What stands in a subheader of the vector once `s` has been read into it: the size of an SDU is
-- not sent in the last subheader.
unfoldable pub received : Bool → SchSubh → SchSubh → SchSubh
received is_last t s =
    if is_sdu s
    then record t {
      lcid = s.lcid;
      nof_bytes = (if is_last then 0 else s.nof_bytes);
      f_bit = not is_last && leb 128 s.nof_bytes;
    }
    else record t { lcid = s.lcid; nof_bytes = s.nof_bytes }

read-write_length :
    (n : ℕ) (rest : List ℕ)
    → n < 32768
    → read_length (write_length n ++ rest) ≡ some (leb 128 n, n, rest)
read-write_length n rest h = elim (Bool-cases (leb 128 n)) [
  | inl e ↦
      let high : bit_or 128 (n / 256 % 128) ≡ 128 + n / 256 % 128 =
        or_field 7 1 128 (n / 256 % 128) (omega arith) (omega arith) in
      let twice : low_bits (low_bits n 8) 8 ≡ low_bits n 8 = omega arith in
      let whole : bit_or ((n / 256) <<< 8) (low_bits n 8) ≡ n =
        omega (arith, or_field 8 (n / 256) (n / 256 * 256) (n % 256) (omega arith) (omega arith)) in
      let flag : ((128 + n / 256 % 128) % 256 / 128 % 2 == 1) ≡ true = ground arith in
      let small : (128 + n / 256 % 128) % 256 % 128 ≡ n / 256 = omega arith in
      let long : ltb n 2147483648 ≡ true = ground arith in
      rw (write_length, e, long, high, flag, small, twice, whole) refl
  | inr e ↦ ground arith
]

-- Any subheader that can be sent is read back from what is written, whatever stands behind it, the
-- last one without its `E` bit and an SDU's size.
pub read-write_subheader :
    (is_ul is_last : Bool) (t s : SchSubh) (rest : List ℕ)
    → IsSendable is_ul s
    → read_subheader is_ul t (write_subheader is_last s ++ rest)
      ≡ some (received is_last t s, not is_last, rest)
unfolding read_subheader write_subheader received
read-write_subheader is_ul true t s rest v =
    let byte : bit_or 0 (low_bits s.lcid 5) ≡ s.lcid =
      omega (arith, v.lcid_bits, or_field 5 0 0 (s.lcid % 32) (omega arith) (omega arith)) in
    let low : low_bits s.lcid 5 ≡ s.lcid = omega (arith, v.lcid_bits) in
    let e_bit : (low_bits (s.lcid >>> 5) 1 == 1) ≡ false = ground (arith, v.lcid_bits) in
    elim (Bool-cases (leb phr_report s.lcid)) [
      | inl e ↦ rw (byte, low, e_bit, e, v.element_size (ap not e)) refl
      | inr e ↦ rw (byte, low, e_bit, e) refl
    ]
read-write_subheader is_ul false t s rest v =
    let byte : bit_or 32 (low_bits s.lcid 5) ≡ 32 + s.lcid =
      omega (arith, v.lcid_bits, or_field 5 1 32 (s.lcid % 32) (omega arith) (omega arith)) in
    let low : low_bits (32 + s.lcid) 5 ≡ s.lcid = omega (arith, v.lcid_bits) in
    let e_bit : (low_bits ((32 + s.lcid) >>> 5) 1 == 1) ≡ true = ground (arith, v.lcid_bits) in
    elim (Bool-cases (leb phr_report s.lcid)) [
      | inl e ↦ rw (byte, low, e_bit, e, v.element_size (ap not e)) refl
      | inr e ↦
          rw
            (
              byte,
              low,
              e_bit,
              e,
              read-write_length s.nof_bytes rest (v.sdu_size (ap not e)),
              byte,
              low,
            )
            refl
    ]
