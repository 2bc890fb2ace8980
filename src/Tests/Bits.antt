-- ===== src/Tests/Bits.antt =====
-- Functions on bits that do what the PHY library's are documented to do, most significant bit first.
use srs_ue.Prelude.{
  ℕ, zero, suc, ◌+◌, ◌*◌, ◌/◌, ◌%◌, ◌≤◌, ◌<◌, ◌^◌, ◌≡◌, refl, sym, ap, ◌∙◌, append-nil,
  append_assoc, Bool, true, false, List, [], ◌∷◌, ◌++◌, ◌==◌, length, length-append, arith,
}
use native.Mathlib.Nat.{pow-suc}
use srs_ue.Upper.AmStatus.{BitLibrary}
use srs_ue.Upper.AmStatus.Trip.{IsBitLibrary}
use srs_ue.Mac.Rar.Trip.{IsBytePacking}

abbrev bit_of : Bool → ℕ
bit_of false = 0
bit_of true = 1

abbrev unpack : ℕ → ℕ → List Bool
unpack v zero = []
unpack v (suc n) = unpack (v / 2) n ++ (v % 2 == 1) ∷ []

abbrev pack_from : ℕ → List Bool → ℕ
pack_from acc [] = acc
pack_from acc (b ∷ bits) = pack_from (acc * 2 + bit_of b) bits

abbrev pack_vector : List Bool → List ℕ
pack_vector (b7 ∷ b6 ∷ b5 ∷ b4 ∷ b3 ∷ b2 ∷ b1 ∷ b0 ∷ bits) =
    (bit_of b7 * 128
      + bit_of b6 * 64
      + bit_of b5 * 32
      + bit_of b4 * 16
      + bit_of b3 * 8
      + bit_of b2 * 4
      + bit_of b1 * 2
      + bit_of b0)
    ∷ pack_vector bits
pack_vector _ = []

abbrev bit_at : ℕ → ℕ → Bool
bit_at x weight = x / weight % 2 == 1

abbrev unpack_vector : List ℕ → List Bool
unpack_vector [] = []
unpack_vector (x ∷ xs) =
    bit_at x 128
    ∷ bit_at x 64
    ∷ bit_at x 32
    ∷ bit_at x 16
    ∷ bit_at x 8
    ∷ bit_at x 4
    ∷ bit_at x 2
    ∷ bit_at x 1
    ∷ unpack_vector xs

abbrev pub bit_library : BitLibrary
bit_library = record {
  bit_unpack = unpack;
  bit_pack = pack_from 0;
  bit_unpack_vector = unpack_vector;
  bit_pack_vector = pack_vector;
}

length-unpack : (v n : ℕ) → length (unpack v n) ≡ n
length-unpack v zero = refl
length-unpack v (suc n) =
    omega (arith, length-append (unpack (v / 2) n) ((v % 2 == 1) ∷ []), length-unpack (v / 2) n)

pack_from-append :
    (acc : ℕ) (bits : List Bool) (b : Bool)
    → pack_from acc (bits ++ b ∷ []) ≡ pack_from acc bits * 2 + bit_of b
pack_from-append acc [] b = refl
pack_from-append acc (x ∷ bits) b = pack_from-append (acc * 2 + bit_of x) bits b

pack_from-unpack : (v n : ℕ) → v < 2 ^ n → pack_from 0 (unpack v n) ≡ v
pack_from-unpack v zero h = omega arith
pack_from-unpack v (suc n) h =
    let half : v / 2 < 2 ^ n = omega (arith, pow-suc 2 n) in
    let low : bit_of (v % 2 == 1) ≡ v % 2 = ground arith in
    omega
      (arith, pack_from-append 0 (unpack (v / 2) n) (v % 2 == 1), pack_from-unpack (v / 2) n half)

length-pack_vector :
    (k : ℕ) (bits : List Bool) → length bits ≡ 8 * k → length (pack_vector bits) ≡ k
length-pack_vector k [] h = omega arith
length-pack_vector k (a ∷ []) h = absurd (omega arith)
length-pack_vector k (a ∷ b ∷ []) h = absurd (omega arith)
length-pack_vector k (a ∷ b ∷ c ∷ []) h = absurd (omega arith)
length-pack_vector k (a ∷ b ∷ c ∷ d ∷ []) h = absurd (omega arith)
length-pack_vector k (a ∷ b ∷ c ∷ d ∷ e ∷ []) h = absurd (omega arith)
length-pack_vector k (a ∷ b ∷ c ∷ d ∷ e ∷ f ∷ []) h = absurd (omega arith)
length-pack_vector k (a ∷ b ∷ c ∷ d ∷ e ∷ f ∷ g ∷ []) h = absurd (omega arith)
length-pack_vector zero (a ∷ b ∷ c ∷ d ∷ e ∷ f ∷ g ∷ i ∷ bits) h = absurd (omega arith)
length-pack_vector (suc k) (a ∷ b ∷ c ∷ d ∷ e ∷ f ∷ g ∷ i ∷ bits) h =
    omega (arith, length-pack_vector k bits (omega arith))

bit_lem : (n : ℕ) (b : Bool) → n ≡ bit_of b → (n == 1) ≡ b
bit_lem n false h = ground arith
bit_lem n true h = ground arith

bit_of-le : (b : Bool) → bit_of b ≤ 1
bit_of-le false = omega arith
bit_of-le true = omega arith

unpack_vector-pack_vector :
    (k : ℕ) (bits : List Bool) → length bits ≡ 8 * k → unpack_vector (pack_vector bits) ≡ bits
unpack_vector-pack_vector k [] h = refl
unpack_vector-pack_vector k (a ∷ []) h = absurd (omega arith)
unpack_vector-pack_vector k (a ∷ b ∷ []) h = absurd (omega arith)
unpack_vector-pack_vector k (a ∷ b ∷ c ∷ []) h = absurd (omega arith)
unpack_vector-pack_vector k (a ∷ b ∷ c ∷ d ∷ []) h = absurd (omega arith)
unpack_vector-pack_vector k (a ∷ b ∷ c ∷ d ∷ e ∷ []) h = absurd (omega arith)
unpack_vector-pack_vector k (a ∷ b ∷ c ∷ d ∷ e ∷ f ∷ []) h = absurd (omega arith)
unpack_vector-pack_vector k (a ∷ b ∷ c ∷ d ∷ e ∷ f ∷ g ∷ []) h = absurd (omega arith)
unpack_vector-pack_vector zero (a ∷ b ∷ c ∷ d ∷ e ∷ f ∷ g ∷ i ∷ bits) h = absurd (omega arith)
unpack_vector-pack_vector (suc k) (a ∷ b ∷ c ∷ d ∷ e ∷ f ∷ g ∷ i ∷ bits) h =
    let x =
      bit_of a * 128
      + bit_of b * 64
      + bit_of c * 32
      + bit_of d * 16
      + bit_of e * 8
      + bit_of f * 4
      + bit_of g * 2
      + bit_of i in
    rw
      (
        bit_lem (x / 128 % 2) a (
            omega (
              arith,
              bit_of-le a,
              bit_of-le b,
              bit_of-le c,
              bit_of-le d,
              bit_of-le e,
              bit_of-le f,
              bit_of-le g,
              bit_of-le i,
            )),
        bit_lem (x / 64 % 2) b (
            omega (
              arith,
              bit_of-le a,
              bit_of-le b,
              bit_of-le c,
              bit_of-le d,
              bit_of-le e,
              bit_of-le f,
              bit_of-le g,
              bit_of-le i,
            )),
        bit_lem (x / 32 % 2) c (
            omega (
              arith,
              bit_of-le a,
              bit_of-le b,
              bit_of-le c,
              bit_of-le d,
              bit_of-le e,
              bit_of-le f,
              bit_of-le g,
              bit_of-le i,
            )),
        bit_lem (x / 16 % 2) d (
            omega (
              arith,
              bit_of-le a,
              bit_of-le b,
              bit_of-le c,
              bit_of-le d,
              bit_of-le e,
              bit_of-le f,
              bit_of-le g,
              bit_of-le i,
            )),
        bit_lem (x / 8 % 2) e (
            omega (
              arith,
              bit_of-le a,
              bit_of-le b,
              bit_of-le c,
              bit_of-le d,
              bit_of-le e,
              bit_of-le f,
              bit_of-le g,
              bit_of-le i,
            )),
        bit_lem (x / 4 % 2) f (
            omega (
              arith,
              bit_of-le a,
              bit_of-le b,
              bit_of-le c,
              bit_of-le d,
              bit_of-le e,
              bit_of-le f,
              bit_of-le g,
              bit_of-le i,
            )),
        bit_lem (x / 2 % 2) g (
            omega (
              arith,
              bit_of-le a,
              bit_of-le b,
              bit_of-le c,
              bit_of-le d,
              bit_of-le e,
              bit_of-le f,
              bit_of-le g,
              bit_of-le i,
            )),
        bit_lem (x / 1 % 2) i (
            omega (
              arith,
              bit_of-le a,
              bit_of-le b,
              bit_of-le c,
              bit_of-le d,
              bit_of-le e,
              bit_of-le f,
              bit_of-le g,
              bit_of-le i,
            )),
        unpack_vector-pack_vector k bits (omega arith),
      )
      refl

pub bit_library-IsBitLibrary : IsBitLibrary bit_library
bit_library-IsBitLibrary = record {
  unpack_length = length-unpack;
  pack-unpack = pack_from-unpack;
  vector_length = length-pack_vector;
  vector_back = unpack_vector-pack_vector;
}

pack_small : (bits : List Bool) → length bits ≡ 8 → pack_from 0 bits < 256
pack_small (a ∷ b ∷ c ∷ d ∷ e ∷ f ∷ g ∷ i ∷ []) h = omega (
  arith,
  bit_of-le a,
  bit_of-le b,
  bit_of-le c,
  bit_of-le d,
  bit_of-le e,
  bit_of-le f,
  bit_of-le g,
  bit_of-le i,
)
pack_small _ h = absurd (omega arith)

unpack-pack_from :
    (acc n : ℕ) (bits : List Bool)
    → unpack (pack_from acc bits) (n + length bits) ≡ unpack acc n ++ bits
unpack-pack_from acc n [] =
    let none_more : n + 0 ≡ n = omega arith in rw (none_more, append-nil (unpack acc n)) refl
unpack-pack_from acc n (b ∷ bits) =
    let one_more : n + suc (length bits) ≡ suc n + length bits = omega arith in
    let half : (acc * 2 + bit_of b) / 2 ≡ acc = omega (arith, bit_of-le b) in
    let low : ((acc * 2 + bit_of b) % 2 == 1) ≡ b =
      bit_lem ((acc * 2 + bit_of b) % 2) b (omega (arith, bit_of-le b)) in
    rw (one_more, unpack-pack_from (acc * 2 + bit_of b) (suc n) bits, half, low)
      (append_assoc (unpack acc n) (b ∷ []) bits)

unpack-pack_octet : (bits : List Bool) → length bits ≡ 8 → unpack (pack_from 0 bits) 8 ≡ bits
unpack-pack_octet bits h =
    let total : 0 + length bits ≡ 8 = omega arith in
    ap (unpack (pack_from 0 bits)) (sym total) ∙ unpack-pack_from 0 0 bits

pub bit_library-IsBytePacking : IsBytePacking bit_library
bit_library-IsBytePacking = record { pack_small = pack_small; unpack-pack = unpack-pack_octet }
