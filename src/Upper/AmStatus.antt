-- ===== src/Upper/AmStatus.antt =====
-- ue/src/upper/rlc_am.cc: the STATUS PDU (3GPP TS 36.322, 6.2.1.6), which is written bit by bit. The
-- functions on bits are those of the PHY library, and an argument.
pub mod Trip
use srs_ue.Prelude.{
  ℕ, zero, suc, ◌+◌, ◌-◌, ◌*◌, ◌/◌, ◌%◌, ◌<◌, ◌^◌, ◌≡◌, Bool, true, false, List, [], ◌∷◌, ◌++◌,
  Option, none, some, ltb, ◌==◌, ◌&&◌, if◌then◌else◌, length, take, drop,
}

-- `srslte_bit_unpack(value, &ptr, n)` puts `n` bits at the pointer, `srslte_bit_pack(&ptr, n)` takes
-- them; the two others are `srslte_bit_pack_vector` and `srslte_bit_unpack_vector`.
pub record BitLibrary : Type 0 where
  pub bit_unpack : ℕ → ℕ → List Bool
  pub bit_pack : List Bool → ℕ
  pub bit_unpack_vector : List ℕ → List Bool
  pub bit_pack_vector : List Bool → List ℕ

-- `rlc_status_nack_t` and `rlc_status_pdu_t`; `nacks` holds the first `N_nack` entries.
pub record Nack : Type 0 where
  pub nack_sn : ℕ
  pub has_so : Bool
  pub so_start : ℕ
  pub so_end : ℕ

pub record Status : Type 0 where
  pub ack_sn : ℕ
  pub nacks : List Nack

-- The bits of `rlc_am_packed_length`.
unfoldable pub nack_bits : List Nack → ℕ
nack_bits [] = 0
nack_bits (n ∷ ns) = (if n.has_so then 42 else 12) + nack_bits ns

unfoldable pub packed_length : Status → ℕ
unfolding nack_bits
packed_length s = (15 + nack_bits s.nacks + 7) / 8

-- E1: does another NACK follow?
abbrev pub more_nacks : List Nack → ℕ
more_nacks [] = 0
more_nacks (n ∷ ns) = 1

unfoldable pub write_so : BitLibrary → Nack → List Bool
write_so b n =
    if n.has_so
    then b.bit_unpack 1 1 ++ (b.bit_unpack n.so_start 15 ++ b.bit_unpack n.so_end 15)
    else b.bit_unpack 0 1

unfoldable pub write_nacks : BitLibrary → List Nack → List Bool
unfolding write_so
write_nacks b [] = []
write_nacks b (n ∷ ns) =
    b.bit_unpack n.nack_sn 10
    ++ (b.bit_unpack (more_nacks ns) 1 ++ (write_so b n ++ write_nacks b ns))

-- D/C and CPT are 0: a control PDU, a STATUS PDU.
unfoldable pub status_bits : BitLibrary → Status → List Bool
unfolding write_nacks
status_bits b s =
    b.bit_unpack 0 1
    ++ (b.bit_unpack 0 3
        ++ (b.bit_unpack s.ack_sn 10
            ++ (b.bit_unpack (more_nacks s.nacks) 1 ++ write_nacks b s.nacks)))

-- `rlc_am_write_status_pdu`.
unfoldable pub write_status_pdu : BitLibrary → Status → List ℕ
unfolding status_bits
write_status_pdu b s =
    let bits = status_bits b s in b.bit_pack_vector (bits ++ b.bit_unpack 0 (8 - length bits % 8))

-- `n` bits from the pointer on; `none` is a read behind the PDU, where the buffer is not set.
unfoldable pub read_bits : BitLibrary → ℕ → List Bool → Option (ℕ × List Bool)
read_bits b n bits =
    if ltb (length bits) n then none else some (b.bit_pack (take n bits), drop n bits)

-- What follows E2. Without it the entry stays as its constructor made it.
unfoldable pub read_so : BitLibrary → ℕ → ℕ → List Bool → Option (Nack × List Bool)
unfolding read_bits
read_so b nack_sn zero bits =
    some (record { nack_sn = nack_sn; has_so = false; so_start = 0; so_end = 0 }, bits)
read_so b nack_sn (suc ext2) bits = elim (read_bits b 15 bits) [
  | none ↦ none
  | some (so_start, rest) ↦ elim (read_bits b 15 rest) [
    | none ↦ none
    | some (so_end, rest') ↦
        some
          (record { nack_sn = nack_sn; has_so = true; so_start = so_start; so_end = so_end }, rest')
  ]
]

-- One round of the loop: the entry, E1 and what is left.
unfoldable pub read_nack : BitLibrary → List Bool → Option (Nack × ℕ × List Bool)
unfolding read_bits read_so
read_nack b bits = elim (read_bits b 10 bits) [
  | none ↦ none
  | some (nack_sn, rest) ↦ elim (read_bits b 1 rest) [
    | none ↦ none
    | some (ext1, rest') ↦ elim (read_bits b 1 rest') [
      | none ↦ none
      | some (ext2, rest'') ↦ elim (read_so b nack_sn ext2 rest'') [
        | none ↦ none
        | some (n, left) ↦ some (n, ext1, left)
      ]
    ]
  ]
]

-- The loop `while(ext1)`, on fuel.
unfoldable pub read_nacks : BitLibrary → ℕ → ℕ → List Bool → Option (List Nack)
unfolding read_nack
read_nacks b fuel zero bits = some []
read_nacks b zero (suc ext1) bits = none
read_nacks b (suc fuel) (suc ext1) bits = elim (read_nack b bits) [
  | none ↦ none
  | some (n, ext1', rest) ↦ elim (read_nacks b fuel ext1' rest) [
    | none ↦ none
    | some ns ↦ some (n ∷ ns)
  ]
]

-- `rlc_am_read_status_pdu` on a new `rlc_status_pdu_t`. Each NACK takes some of the bits, whose number
-- is the fuel.
unfoldable pub read_status_pdu : BitLibrary → List ℕ → Option Status
unfolding read_bits read_nacks
read_status_pdu b payload =
    let bits = b.bit_unpack_vector payload in
    let unset : Status = record { ack_sn = 0; nacks = [] } in
    elim (read_bits b 1 bits) [
      | none ↦ none
      | some (dc, rest) ↦ elim (read_bits b 3 rest) [
        | none ↦ none
        | some (cpt, rest') ↦
            if (dc == 0) && (cpt == 0)
            then elim (read_bits b 10 rest') [
              | none ↦ none
              | some (ack_sn, rest'') ↦ elim (read_bits b 1 rest'') [
                | none ↦ none
                | some (ext1, left) ↦ elim (read_nacks b (length bits) ext1 left) [
                  | none ↦ none
                  | some nacks ↦ some (record { ack_sn = ack_sn; nacks = nacks })
                ]
              ]
            ]
            else some unset
      ]
    ]
