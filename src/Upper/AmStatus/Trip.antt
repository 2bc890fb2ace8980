-- ===== src/Upper/AmStatus/Trip.antt =====
-- A STATUS PDU is read back as it was written.
use srs_ue.Prelude.{
  ℕ, zero, suc, ◌+◌, ◌-◌, ◌*◌, ◌/◌, ◌%◌, ◌≤◌, ◌<◌, ◌^◌, ◌≡◌, ◌⊎◌, inl, inr, ◌∙◌, sym, ap, refl,
  Bool, true, false, List, [], ◌∷◌, ◌++◌, append_assoc, some, ltb, if◌then◌else◌, length, take,
  drop, take-append, drop-append, length-append, arith,
}
use srs_ue.Upper.AmStatus.{
  BitLibrary, Nack, Status, nack_bits, packed_length, more_nacks, write_so, write_nacks,
  status_bits, write_status_pdu, read_bits, read_so, read_nack, read_nacks, read_status_pdu,
}

-- What the PHY library's functions do: `n` bits are put, and the same number is taken from them if it
-- fits; whole bytes of bits are packed and come back.
pub record IsBitLibrary (b : BitLibrary) : Type 0 where
  pub unpack_length : (v n : ℕ) → length (b.bit_unpack v n) ≡ n
  pub pack-unpack : (v n : ℕ) → v < 2 ^ n → b.bit_pack (b.bit_unpack v n) ≡ v
  pub vector_length :
      (k : ℕ) (bits : List Bool) → length bits ≡ 8 * k → length (b.bit_pack_vector bits) ≡ k
  pub vector_back :
      (k : ℕ) (bits : List Bool)
      → length bits ≡ 8 * k
      → b.bit_unpack_vector (b.bit_pack_vector bits) ≡ bits

-- The fields fit their bits, and without a segment the segment's fields are unset.
pub record IsNack (n : Nack) : Type 0 where
  pub sn_fits : n.nack_sn < 1024
  pub start_fits : n.so_start < 32768
  pub end_fits : n.so_end < 32768
  pub unset : (n.has_so ≡ true) ⊎ ((n.has_so ≡ false) × (n.so_start ≡ 0) × (n.so_end ≡ 0))

abbrev AllNacks : List Nack → Type 0
AllNacks [] = Unit
AllNacks (n ∷ ns) = IsNack n × AllNacks ns

module _ (b : BitLibrary) (v : IsBitLibrary b) where
  read_bits-unpack :
      (x n : ℕ) (rest : List Bool)
      → x < 2 ^ n
      → read_bits b n (b.bit_unpack x n ++ rest) ≡ some (x, rest)
  unfolding read_bits
  read_bits-unpack x n rest h =
      let bits = b.bit_unpack x n in
      let l = v.unpack_length x n in
      let enough : ltb (length (bits ++ rest)) n ≡ false =
        ground (arith, length-append bits rest, l) in
      let front : take n (bits ++ rest) ≡ bits =
        ap (λ k. take k (bits ++ rest)) (sym l) ∙ take-append bits rest in
      let back : drop n (bits ++ rest) ≡ rest =
        ap (λ k. drop k (bits ++ rest)) (sym l) ∙ drop-append bits rest in
      rw (enough, front, back, v.pack-unpack x n h) refl

  -- E2, and what follows it.
  read_so-write :
      (n : Nack) (rest : List Bool)
      → IsNack n
      → (ext2 : ℕ) × (after : List Bool) × (ext2 < 2)
        × (write_so b n ++ rest ≡ b.bit_unpack ext2 1 ++ after)
        × (read_so b n.nack_sn ext2 after ≡ some (n, rest))
  unfolding write_so read_so
  read_so-write n rest k = elim k.unset [
    | inl so ↦ (
      1,
      b.bit_unpack n.so_start 15 ++ (b.bit_unpack n.so_end 15 ++ rest),
      omega arith,
      rw
          (
            so,
            append_assoc (b.bit_unpack 1 1) (b.bit_unpack n.so_start 15 ++ b.bit_unpack n.so_end 15)
                rest,
            append_assoc (b.bit_unpack n.so_start 15) (b.bit_unpack n.so_end 15) rest,
          )
          refl,
      rw
          (
            read_so,
            read_bits-unpack n.so_start 15 (b.bit_unpack n.so_end 15 ++ rest) k.start_fits,
            read_bits-unpack n.so_end 15 rest k.end_fits,
            so,
          )
          refl,
    )
    | inr (plain, start, end) ↦ (0, rest, omega arith, rw plain refl, rw (plain, start, end) refl)
  ]

  read_nack-write :
      (n : Nack) (ext1 : ℕ) (rest : List Bool)
      → IsNack n
      → ext1 < 2
      → read_nack b (b.bit_unpack n.nack_sn 10 ++ (b.bit_unpack ext1 1 ++ (write_so b n ++ rest)))
        ≡ some (n, ext1, rest)
  unfolding read_nack
  read_nack-write n ext1 rest k h =
      let (ext2, after, h2, written, back) = read_so-write n rest k in
      rw
        (
          read_nack,
          read_bits-unpack n.nack_sn 10 (b.bit_unpack ext1 1 ++ (write_so b n ++ rest)) k.sn_fits,
          read_bits-unpack ext1 1 (write_so b n ++ rest) h,
          written,
          read_bits-unpack ext2 1 after h2,
          back,
        )
        refl

  read_nacks-write :
      (fuel : ℕ) (ns : List Nack) (rest : List Bool)
      → AllNacks ns
      → length ns ≤ fuel
      → read_nacks b fuel (more_nacks ns) (write_nacks b ns ++ rest) ≡ some ns
  unfolding read_nacks write_nacks
  read_nacks-write fuel [] rest k h = refl
  read_nacks-write zero (n ∷ ns) rest k h = absurd (omega arith)
  read_nacks-write (suc fuel) (n ∷ ns) rest k h =
      let more : more_nacks ns < 2 = ground arith in
      let split : write_nacks b (n ∷ ns) ++ rest
          ≡ b.bit_unpack n.nack_sn 10
            ++ (b.bit_unpack (more_nacks ns) 1 ++ (write_so b n ++ (write_nacks b ns ++ rest))) =
        append_assoc (b.bit_unpack n.nack_sn 10)
          (b.bit_unpack (more_nacks ns) 1 ++ (write_so b n ++ write_nacks b ns)) rest
        ∙ rw
            (
              append_assoc (b.bit_unpack (more_nacks ns) 1) (write_so b n ++ write_nacks b ns) rest,
              append_assoc (write_so b n) (write_nacks b ns) rest,
            )
            refl in
      rw
        (
          read_nacks,
          split,
          read_nack-write n (more_nacks ns) (write_nacks b ns ++ rest) k.0 more,
          read_nacks-write fuel ns rest k.1 (omega arith),
        )
        refl

  length-write_so : (n : Nack) → length (write_so b n) ≡ (if n.has_so then 31 else 1)
  unfolding write_so
  length-write_so n = ground (
    arith,
    length-append (b.bit_unpack 1 1) (b.bit_unpack n.so_start 15 ++ b.bit_unpack n.so_end 15),
    length-append (b.bit_unpack n.so_start 15) (b.bit_unpack n.so_end 15),
    v.unpack_length 1 1,
    v.unpack_length 0 1,
    v.unpack_length n.so_start 15,
    v.unpack_length n.so_end 15,
  )

  length-write_nacks : (ns : List Nack) → length (write_nacks b ns) ≡ nack_bits ns
  unfolding write_nacks nack_bits
  length-write_nacks [] = refl
  length-write_nacks (n ∷ ns) = ground (
    arith,
    length-append (b.bit_unpack n.nack_sn 10)
        (b.bit_unpack (more_nacks ns) 1 ++ (write_so b n ++ write_nacks b ns)),
    length-append (b.bit_unpack (more_nacks ns) 1) (write_so b n ++ write_nacks b ns),
    length-append (write_so b n) (write_nacks b ns),
    v.unpack_length n.nack_sn 10,
    v.unpack_length (more_nacks ns) 1,
    length-write_so n,
    length-write_nacks ns,
  )

  length-status_bits : (s : Status) → length (status_bits b s) ≡ 15 + nack_bits s.nacks
  unfolding status_bits
  length-status_bits s =
      let nacks = write_nacks b s.nacks in
      let e1 = b.bit_unpack (more_nacks s.nacks) 1 in
      let ack = b.bit_unpack s.ack_sn 10 in
      omega (
        arith,
        length-append (b.bit_unpack 0 1) (b.bit_unpack 0 3 ++ (ack ++ (e1 ++ nacks))),
        length-append (b.bit_unpack 0 3) (ack ++ (e1 ++ nacks)),
        length-append ack (e1 ++ nacks),
        length-append e1 nacks,
        v.unpack_length 0 1,
        v.unpack_length 0 3,
        v.unpack_length s.ack_sn 10,
        v.unpack_length (more_nacks s.nacks) 1,
        length-write_nacks s.nacks,
      )

nack_bits_even : (ns : List Nack) → nack_bits ns % 2 ≡ 0
unfolding nack_bits
nack_bits_even [] = omega arith
nack_bits_even (n ∷ ns) = ground (arith, nack_bits_even ns)

nack_bits_enough : (ns : List Nack) → length ns ≤ nack_bits ns
unfolding nack_bits
nack_bits_enough [] = omega arith
nack_bits_enough (n ∷ ns) = ground (arith, nack_bits_enough ns)

abbrev padding : BitLibrary → Status → List Bool
padding b s = b.bit_unpack 0 (8 - length (status_bits b s) % 8)

padded :
    (b : BitLibrary) (s : Status)
    → IsBitLibrary b
    → length (status_bits b s ++ padding b s) ≡ 8 * (length (status_bits b s) / 8 + 1)
padded b s v =
    let bits = status_bits b s in
    omega (arith, length-append bits (padding b s), v.unpack_length 0 (8 - length bits % 8))

read-padded :
    (b : BitLibrary) (s : Status) (pad : List Bool)
    → IsBitLibrary b
    → s.ack_sn < 1024
    → AllNacks s.nacks
    → b.bit_unpack_vector (write_status_pdu b s) ≡ status_bits b s ++ pad
    → read_status_pdu b (write_status_pdu b s) ≡ some s
unfolding read_status_pdu status_bits
read-padded b s pad v h k back =
    let nacks = write_nacks b s.nacks in
    let e1 = b.bit_unpack (more_nacks s.nacks) 1 in
    let ack = b.bit_unpack s.ack_sn 10 in
    let e1_fits : more_nacks s.nacks < 2 = ground arith in
    let enough : length s.nacks ≤ length (b.bit_unpack_vector (write_status_pdu b s)) = omega (
      arith,
      ap length back,
      length-append (status_bits b s) pad,
      length-status_bits b v s,
      nack_bits_enough s.nacks,
    ) in
    rw
      (
        read_status_pdu,
        back,
        append_assoc (b.bit_unpack 0 1) (b.bit_unpack 0 3 ++ (ack ++ (e1 ++ nacks))) pad,
        append_assoc (b.bit_unpack 0 3) (ack ++ (e1 ++ nacks)) pad,
        append_assoc ack (e1 ++ nacks) pad,
        append_assoc e1 nacks pad,
        read_bits-unpack b v 0 1 (b.bit_unpack 0 3 ++ (ack ++ (e1 ++ (nacks ++ pad))))
            (omega arith),
        read_bits-unpack b v 0 3 (ack ++ (e1 ++ (nacks ++ pad))) (omega arith),
        read_bits-unpack b v s.ack_sn 10 (e1 ++ (nacks ++ pad)) h,
        read_bits-unpack b v (more_nacks s.nacks) 1 (nacks ++ pad) e1_fits,
        read_nacks-write b v (length (b.bit_unpack_vector (write_status_pdu b s))) s.nacks pad k
            enough,
      )
      refl

-- With bit functions that give back what they take, a STATUS PDU with any number of NACKs, whose
-- fields fit their bits and are unset where they are not sent, is read back as it was written, and
-- rlc_am_packed_length is its length in bytes.
pub read-write_status_pdu :
    (b : BitLibrary) (s : Status)
    → IsBitLibrary b
    → s.ack_sn < 1024
    → AllNacks s.nacks
    → (read_status_pdu b (write_status_pdu b s) ≡ some s)
      × (length (write_status_pdu b s) ≡ packed_length s)
unfolding write_status_pdu packed_length
read-write_status_pdu b s v h k =
    let bits = status_bits b s in
    let whole = bits ++ padding b s in
    let bytes = length bits / 8 + 1 in
    (
      read-padded b s (padding b s) v h k (v.vector_back bytes whole (padded b s v)),
      omega (
        arith,
        v.vector_length bytes whole (padded b s v),
        length-status_bits b v s,
        nack_bits_even s.nacks,
      ),
    )
