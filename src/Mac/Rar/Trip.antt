-- ===== src/Mac/Rar/Trip.antt =====
-- What is read of a random access response that is written.
use srs_ue.Prelude.{
  ℕ, suc, ◌+◌, ◌*◌, ◌/◌, ◌%◌, ◌≤◌, ◌<◌, ◌≡◌, refl, ap, ◌∙◌, Bool, true, false, List, [], ◌∷◌, ◌++◌,
  some, ◌==◌, if◌then◌else◌, length, length-take, length-drop, take, drop, take_all,
  take-append-drop, ◌<<<◌, ◌>>>◌, low_bits, bit_or, u8, arith,
}
use srs_ue.Prelude.Bits.{or_field}
use srs_ue.Upper.AmStatus.{BitLibrary}
use srs_ue.Mac.Rar.{RarSubh, write_payload, read_payload}

-- What the PHY library's two functions do with the bits of one octet.
pub record IsBytePacking (b : BitLibrary) : Type 0 where
  pub pack_small : (bits : List Bool) → length bits ≡ 8 → b.bit_pack bits < 256
  pub unpack-pack : (bits : List Bool) → length bits ≡ 8 → b.bit_unpack (b.bit_pack bits) 8 ≡ bits

-- The fields have the sizes that are sent.
pub record IsResponse (s : RarSubh) : Type 0 where
  pub grant_length : length s.grant ≡ 20
  pub rnti_bits : s.temp_rnti < 65536
  pub preamble_bits : s.preamble < 64

abbrev pub AllResponses : List RarSubh → Type 0
AllResponses [] = Unit
AllResponses (s ∷ ss) = IsResponse s × AllResponses ss

abbrev bit : Bool → ℕ
bit g = if g then 1 else 0

bit-le : (g : Bool) → bit g ≤ 1
bit-le true = omega arith
bit-le false = omega arith

bit_back : (g : Bool) (n : ℕ) → n ≡ bit g → (n == 1) ≡ g
bit_back true n h = ground arith
bit_back false n h = ground arith

-- The octet of four bits of the timing advance and the first four of the grant.
octet_lem :
    (t b0 b1 b2 b3 : ℕ)
    → t < 16
    → b0 ≤ 1
    → b1 ≤ 1
    → b2 ≤ 1
    → b3 ≤ 1
    → u8 (bit_or (bit_or (bit_or (bit_or (t <<< 4) (b0 <<< 3)) (b1 <<< 2)) (b2 <<< 1)) b3)
      ≡ t * 16 + b0 * 8 + b1 * 4 + b2 * 2 + b3
octet_lem t b0 b1 b2 b3 ht h0 h1 h2 h3 =
    let first : bit_or (t * 16) (b0 * 8) ≡ t * 16 + b0 * 8 =
      or_field 4 t (t * 16) (b0 * 8) (omega arith) (omega arith) in
    let second : bit_or (t * 16 + b0 * 8) (b1 * 4) ≡ t * 16 + b0 * 8 + b1 * 4 =
      or_field 3 (t * 2 + b0) (t * 16 + b0 * 8) (b1 * 4) (omega arith) (omega arith) in
    let third : bit_or (t * 16 + b0 * 8 + b1 * 4) (b2 * 2) ≡ t * 16 + b0 * 8 + b1 * 4 + b2 * 2 =
      or_field 2 (t * 4 + b0 * 2 + b1) (t * 16 + b0 * 8 + b1 * 4) (b2 * 2) (omega arith)
        (omega arith) in
    let fourth : bit_or (t * 16 + b0 * 8 + b1 * 4 + b2 * 2) b3
        ≡ t * 16 + b0 * 8 + b1 * 4 + b2 * 2 + b3 =
      or_field 1 (t * 8 + b0 * 4 + b1 * 2 + b2) (t * 16 + b0 * 8 + b1 * 4 + b2 * 2) b3 (omega arith)
        (omega arith) in
    rw (first, second, third, fourth) (omega arith)

last_eight :
    (bits : List Bool) → suc (suc (suc (suc (length bits)))) ≡ 20 → 8 ≡ length (drop 8 bits)
last_eight bits h = omega (arith, length-drop 8 bits)

-- The values that arrive: of the timing advance only the low eight bits.
abbrev pub answered : RarSubh → RarSubh → RarSubh
answered t s = record t { ta = s.ta % 256; grant = s.grant; temp_rnti = s.temp_rnti }

module _ (b : BitLibrary) (v : IsBytePacking b) where
  read-write_grant :
      (t s : RarSubh) (grant : List Bool) (rest : List ℕ)
      → length grant ≡ 20
      → s.temp_rnti < 65536
      → read_payload b t (write_payload b (record s { grant = grant }) ++ rest)
        ≡ some (record t { ta = s.ta % 256; grant = grant; temp_rnti = s.temp_rnti }, rest)
  unfolding read_payload write_payload
  read-write_grant t s (g0 ∷ g1 ∷ g2 ∷ g3 ∷ bits) rest h small =
      let n = s.ta % 16 * 16 + bit g0 * 8 + bit g1 * 4 + bit g2 * 2 + bit g3 in
      let octet =
        octet_lem (s.ta % 16) (bit g0) (bit g1) (bit g2) (bit g3) (omega arith) (bit-le g0)
          (bit-le g1) (bit-le g2) (bit-le g3) in
      let first8 : length (take 8 bits) ≡ 8 = length-take 8 bits (omega arith) in
      let last8 : length (take 8 (drop 8 bits)) ≡ 8 =
        length-take 8 (drop 8 bits) (omega (arith, length-drop 8 bits)) in
      let all8 : take 8 (drop 8 bits) ≡ drop 8 bits =
        ap (λ (k : ℕ). take k (drop 8 bits)) (last_eight bits h) ∙ take_all (drop 8 bits) in
      let p2 : u8 (b.bit_pack (take 8 bits)) ≡ b.bit_pack (take 8 bits) =
        omega (arith, v.pack_small (take 8 bits) first8) in
      let p3 : u8 (b.bit_pack (take 8 (drop 8 bits))) ≡ b.bit_pack (take 8 (drop 8 bits)) =
        omega (arith, v.pack_small (take 8 (drop 8 bits)) last8) in
      let high = u8 (low_bits (s.ta >>> 4) 7 <<< 4) >>> 4 in
      let bit0 : (low_bits (n >>> 3) 1 == 1) ≡ g0 =
        bit_back g0 _ (omega (arith, bit-le g0, bit-le g1, bit-le g2, bit-le g3)) in
      let bit1 : (low_bits (n >>> 2) 1 == 1) ≡ g1 =
        bit_back g1 _ (omega (arith, bit-le g0, bit-le g1, bit-le g2, bit-le g3)) in
      let bit2 : (low_bits (n >>> 1) 1 == 1) ≡ g2 =
        bit_back g2 _ (omega (arith, bit-le g0, bit-le g1, bit-le g2, bit-le g3)) in
      let bit3 : (low_bits (n >>> 0) 1 == 1) ≡ g3 =
        bit_back g3 _ (omega (arith, bit-le g0, bit-le g1, bit-le g2, bit-le g3)) in
      let low : low_bits (n >>> 4) 4 ≡ s.ta % 16 =
        omega (arith, bit-le g0, bit-le g1, bit-le g2, bit-le g3) in
      let advance : bit_or (low_bits high 7 <<< 4) (s.ta % 16) ≡ s.ta % 256 = omega (
        arith,
        or_field 4 (high % 128) (high % 128 * 16) (s.ta % 16) (omega arith) (omega arith),
      ) in
      let rnti : bit_or (low_bits (s.temp_rnti >>> 8) 8 <<< 8) (low_bits s.temp_rnti 8)
          ≡ s.temp_rnti =
        omega (
          arith,
          or_field 8 (s.temp_rnti / 256 % 256) (s.temp_rnti / 256 % 256 * 256) (s.temp_rnti % 256)
              (omega arith) (omega arith),
        ) in
      rw
        (
          octet,
          p2,
          p3,
          v.unpack-pack (take 8 bits) first8,
          v.unpack-pack (take 8 (drop 8 bits)) last8,
          bit0,
          bit1,
          bit2,
          bit3,
          low,
          advance,
          rnti,
          all8,
          take-append-drop 8 bits,
        )
        refl
  read-write_grant t s _ rest h small = absurd (omega arith)

  -- A response that is read behind what is written has the grant and the temporary identity that were
  -- sent, and the timing advance without its three high bits.
  pub read-write_payload :
      (t s : RarSubh) (rest : List ℕ)
      → IsResponse s
      → read_payload b t (write_payload b s ++ rest) ≡ some (answered t s, rest)
  read-write_payload t s rest r = read-write_grant t s s.grant rest r.grant_length r.rnti_bits
