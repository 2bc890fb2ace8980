-- ===== src/Mac/Pdu/ElementTrip.antt =====
-- What the receiver's functions give for the octets that the sender's put into a control element.
use srs_ue.Prelude.{
  ℕ, ◌+◌, ◌*◌, ◌/◌, ◌%◌, ◌^◌, ◌<◌, ◌≡◌, refl, List, [], ◌∷◌, ◌++◌, map, some, get_or, set, ◌<<<◌,
  ◌>>>◌, low_bits, bit_or, u8, arith,
}
use srs_ue.Prelude.Bits.{or_field}
use srs_ue.Prelude.Int.{pos}
use srs_ue.Mac.Pdu.Subheader.{SchSubh, short_bsr, long_bsr}
use srs_ue.Mac.Pdu.Elements.{
  nonzero_lcg, level, level_bytes, bsr_bytes, bsr_levels, get_bsr, con_res_id_bytes, get_con_res_id,
  c_rnti_bytes, get_c_rnti,
}
use srs_ue.Mac.Pdu.Levels.{buff_size_table-lt}

nonzero_lcg-lt : (sizes : List ℕ) → nonzero_lcg sizes < 4
unfolding nonzero_lcg
nonzero_lcg-lt sizes = ground arith

-- A short report gives the receiver, for the last group that has bytes, the table's size for the
-- group's level, leaves the three other groups as they were, and returns 0 whatever the group is.
pub get_bsr-short :
    (sizes got : List ℕ) (rest : List ℕ) (s : SchSubh)
    → s.lcid ≡ short_bsr
    → s.payload ≡ some (bsr_bytes sizes short_bsr ++ rest)
    → get_bsr s got
      ≡ (map level_bytes (set got (nonzero_lcg sizes) (level sizes (nonzero_lcg sizes))), pos 0)
unfolding get_bsr bsr_bytes bsr_levels
get_bsr-short sizes got rest s kind bytes =
    let lcg : nonzero_lcg sizes < 4 = nonzero_lcg-lt sizes in
    let g = nonzero_lcg sizes in
    let l = level sizes g in
    let small : l < 64 = buff_size_table-lt (get_or sizes g 0) in
    let octet : u8 (bit_or (low_bits g 2 <<< 6) (low_bits l 6)) ≡ g * 64 + l =
      omega (arith, or_field 6 (g % 4) (g % 4 * 64) (l % 64) (omega arith) (omega arith)) in
    let group : low_bits ((g * 64 + l) >>> 6) 2 % 4 ≡ g = omega arith in
    let value : low_bits (g * 64 + l) 6 ≡ l = omega arith in
    rw (get_bsr, bytes) (rw (bsr_levels, kind) (rw (octet, group, value) refl))

-- The masks and shifts of a long report on four levels.
long_levels :
    (l0 l1 l2 l3 : ℕ)
    → l0 < 64
    → l1 < 64
    → l2 < 64
    → l3 < 64
    → let x0 = u8 (bit_or (low_bits l0 6 <<< 2) (low_bits (l1 >>> 6) 2)) in
      let x1 = u8 (bit_or (low_bits l1 4 <<< 4) (low_bits (l2 >>> 4) 4)) in
      let x2 = u8 (bit_or (low_bits l2 2 <<< 6) (low_bits l3 6)) in
      ◌≡◌ {A = List ℕ}
        (low_bits (x0 >>> 2) 6
          ∷ bit_or (low_bits x0 2 <<< 4) (low_bits (x1 >>> 4) 4)
          ∷ bit_or (low_bits x1 4 <<< 4) (low_bits (x1 >>> 6) 2)
          ∷ low_bits x2 6
          ∷ [])
        (l0 ∷ l1 % 16 ∷ (l2 / 16 * 16 + l1 % 16 / 4) ∷ l3 ∷ [])
long_levels l0 l1 l2 l3 h0 h1 h2 h3 =
    let x0 : u8 (bit_or (low_bits l0 6 <<< 2) (low_bits (l1 >>> 6) 2)) ≡ l0 * 4 =
      omega (arith, or_field 2 (l0 % 64) (l0 % 64 * 4) (l1 / 64 % 4) (omega arith) (omega arith)) in
    let x1 : u8 (bit_or (low_bits l1 4 <<< 4) (low_bits (l2 >>> 4) 4)) ≡ l1 % 16 * 16 + l2 / 16 =
      omega
        (arith, or_field 4 (l1 % 16) (l1 % 16 * 16) (l2 / 16 % 16) (omega arith) (omega arith)) in
    let x2 : u8 (bit_or (low_bits l2 2 <<< 6) (low_bits l3 6)) ≡ l2 % 4 * 64 + l3 =
      omega (arith, or_field 6 (l2 % 4) (l2 % 4 * 64) (l3 % 64) (omega arith) (omega arith)) in
    let o1 = l1 % 16 * 16 + l2 / 16 in
    let first : low_bits ((l0 * 4) >>> 2) 6 ≡ l0 = omega arith in
    let second : bit_or (low_bits (l0 * 4) 2 <<< 4) (low_bits (o1 >>> 4) 4) ≡ l1 % 16 = omega (
      arith,
      or_field 4 (l0 * 4 % 4) (l0 * 4 % 4 * 16) (o1 / 16 % 16) (omega arith) (omega arith),
    ) in
    let third : bit_or (low_bits o1 4 <<< 4) (low_bits (o1 >>> 6) 2) ≡ l2 / 16 * 16 + l1 % 16 / 4 =
      omega
        (arith, or_field 4 (o1 % 16) (o1 % 16 * 16) (o1 / 64 % 4) (omega arith) (omega arith)) in
    let fourth : low_bits (l2 % 4 * 64 + l3) 6 ≡ l3 = omega arith in
    rw (x0, x1, x2, first, second, third, fourth) refl

-- Of a long report the receiver reads the levels of the first and the last group as they were set, of
-- the second the low four bits, and of the third the two high bits with two bits of the second.
pub bsr_levels-long :
    (sizes got : List ℕ) (rest : List ℕ)
    → bsr_levels long_bsr (bsr_bytes sizes long_bsr ++ rest) got
      ≡ level sizes 0
        ∷ level sizes 1 % 16
        ∷ (level sizes 2 / 16 * 16 + level sizes 1 % 16 / 4)
        ∷ level sizes 3
        ∷ []
unfolding bsr_bytes bsr_levels
bsr_levels-long sizes got rest =
    long_levels (level sizes 0) (level sizes 1) (level sizes 2) (level sizes 3)
      (buff_size_table-lt (get_or sizes 0 0)) (buff_size_table-lt (get_or sizes 1 0))
      (buff_size_table-lt (get_or sizes 2 0)) (buff_size_table-lt (get_or sizes 3 0))

-- The six octets of an identity are read back to the identity.
pub get_con_res_id-bytes :
    (id : ℕ) (rest : List ℕ) (s : SchSubh)
    → id < 2 ^ 48
    → s.payload ≡ some (con_res_id_bytes id ++ rest)
    → get_con_res_id s ≡ id
unfolding get_con_res_id con_res_id_bytes
get_con_res_id-bytes id rest s h bytes =
    let first : low_bits (id >>> 40) 8 * 1099511627776 ≡ id / 1099511627776 * 1099511627776 =
      omega arith in
    let second : bit_or (id / 1099511627776 * 1099511627776) (low_bits (id >>> 32) 8 * 4294967296)
        ≡ id / 4294967296 * 4294967296 =
      omega (
        arith,
        or_field 40 (id / 1099511627776) (id / 1099511627776 * 1099511627776)
            (id / 4294967296 % 256 * 4294967296) (omega arith) (omega arith),
      ) in
    let third : bit_or (id / 4294967296 * 4294967296) (low_bits (id >>> 24) 8 * 16777216)
        ≡ id / 16777216 * 16777216 =
      omega (
        arith,
        or_field 32 (id / 4294967296) (id / 4294967296 * 4294967296)
            (id / 16777216 % 256 * 16777216) (omega arith) (omega arith),
      ) in
    let fourth : bit_or (id / 16777216 * 16777216) (low_bits (id >>> 16) 8 * 65536)
        ≡ id / 65536 * 65536 =
      omega (
        arith,
        or_field 24 (id / 16777216) (id / 16777216 * 16777216) (id / 65536 % 256 * 65536)
            (omega arith) (omega arith),
      ) in
    let fifth : bit_or (id / 65536 * 65536) (low_bits (id >>> 8) 8 * 256) ≡ id / 256 * 256 = omega (
      arith,
      or_field 16 (id / 65536) (id / 65536 * 65536) (id / 256 % 256 * 256) (omega arith)
          (omega arith),
    ) in
    let sixth : bit_or (id / 256 * 256) (low_bits id 8) ≡ id =
      omega
        (arith, or_field 8 (id / 256) (id / 256 * 256) (id % 256) (omega arith) (omega arith)) in
    rw (get_con_res_id, bytes) (rw (first, second, third, fourth, fifth, sixth) refl)

-- What comes back of an RNTI of 16 bits is its low octet, as the high one.
pub get_c_rnti-bytes :
    (rnti : ℕ) (rest : List ℕ) (s : SchSubh)
    → s.payload ≡ some (c_rnti_bytes rnti ++ rest)
    → get_c_rnti s ≡ rnti % 256 * 256
unfolding get_c_rnti c_rnti_bytes
get_c_rnti-bytes rnti rest s bytes =
    let high : (u8 (low_bits (rnti >>> 8) 8 <<< 8)) >>> 8 ≡ 0 = omega arith in
    let both : bit_or (low_bits rnti 8 * 256) 0 ≡ rnti % 256 * 256 =
      omega (arith, or_field 8 (rnti % 256) (rnti % 256 * 256) 0 (omega arith) (omega arith)) in
    rw (get_c_rnti, bytes) (rw (high, both) (omega arith))
