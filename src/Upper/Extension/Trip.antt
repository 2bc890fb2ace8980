-- ===== src/Upper/Extension/Trip.antt =====
-- Reading back length indicators that were written.
use srs_ue.Prelude.{
  ℕ, ◌+◌, ◌*◌, ◌/◌, ◌%◌, ◌<◌, ◌≡◌, refl, ◌∙◌, List, [], ◌∷◌, ◌++◌, some, length, ◌<<<◌, ◌>>>◌,
  low_bits, u8, arith,
}
use srs_ue.Prelude.Bits.{or_field}
use srs_ue.Upper.Extension.{
  extension_length, first_byte, middle_byte, even_li, odd_li, write_extension, read_extension,
}

-- A length indicator has 11 bits.
abbrev pub AllLi : List ℕ → Type 0
AllLi [] = Unit
AllLi (a ∷ as') = (a < 2048) × AllLi as'

pub first_byte-sum : (e a : ℕ) → e < 2 → a < 2048 → first_byte e a ≡ e * 128 + a / 16
first_byte-sum e a he ha = omega (arith, or_field 7 e (e * 128) (a / 16 % 128) refl (omega arith))

pub middle_byte-sum :
    (a e b : ℕ) → e < 2 → b < 2048 → middle_byte a e b ≡ a % 16 * 16 + e * 8 + b / 256
middle_byte-sum a e b he hb = rw (or_field 4 (a % 16) (a % 16 * 16) (e * 8) refl (omega arith)) (
    rw (or_field 3 (a % 16 * 2 + e) (a % 16 * 16 + e * 8) (b / 256 % 8) (omega arith) (omega arith))
      (omega arith))

pub even_li-sum : (x y : ℕ) → even_li x y ≡ x % 128 * 16 + y / 16 % 16
even_li-sum x y = or_field 4 (x % 128) (x % 128 * 16) (y / 16 % 16) refl (omega arith)

pub odd_li-sum : (y z : ℕ) → odd_li y z ≡ y % 8 * 256 + z % 256
odd_li-sum y z = or_field 8 (y % 8) (y % 8 * 256) (z % 256) refl (omega arith)

pub length-write_extension :
    (li : List ℕ) → length (write_extension li) ≡ extension_length (length li)
unfolding write_extension
length-write_extension [] = refl
length-write_extension (a ∷ []) = refl
length-write_extension (a ∷ b ∷ rest) = omega (arith, length-write_extension rest)

-- What reading makes of the bytes that writing makes.
first_ext : (e a : ℕ) → e < 2 → a < 2048 → low_bits (first_byte e a >>> 7) 1 ≡ e
first_ext e a he ha = omega (arith, first_byte-sum e a he ha)

middle_ext : (a e b : ℕ) → e < 2 → b < 2048 → low_bits (middle_byte a e b >>> 3) 1 ≡ e
middle_ext a e b he hb = omega (arith, middle_byte-sum a e b he hb)

even_single : (e a : ℕ) → e < 2 → a < 2048 → even_li (first_byte e a) (u8 (low_bits a 4 <<< 4)) ≡ a
even_single e a he ha =
    even_li-sum (first_byte e a) (u8 (low_bits a 4 <<< 4)) ∙ omega (arith, first_byte-sum e a he ha)

even_pair :
    (a e b : ℕ) → e < 2 → a < 2048 → b < 2048 → even_li (first_byte 1 a) (middle_byte a e b) ≡ a
even_pair a e b he ha hb =
    even_li-sum (first_byte 1 a) (middle_byte a e b)
    ∙ omega (arith, first_byte-sum 1 a (omega arith) ha, middle_byte-sum a e b he hb)

odd_pair : (a e b : ℕ) → e < 2 → b < 2048 → odd_li (middle_byte a e b) (u8 (low_bits b 8)) ≡ b
odd_pair a e b he hb =
    odd_li-sum (middle_byte a e b) (u8 (low_bits b 8)) ∙ omega (arith, middle_byte-sum a e b he hb)

-- The last one of an odd number, and whatever data follows.
read_single :
    (a : ℕ) (rest : List ℕ)
    → a < 2048
    → read_extension (write_extension (a ∷ []) ++ rest) ≡ some (a ∷ [], rest)
unfolding read_extension write_extension
read_single a [] h = rw (first_ext 0 a (omega arith) h, even_single 0 a (omega arith) h)
read_single a (z ∷ rest) h = rw (first_ext 0 a (omega arith) h, even_single 0 a (omega arith) h)

pub read_extension-write_extension :
    (a : ℕ) (li rest : List ℕ)
    → AllLi (a ∷ li)
    → read_extension (write_extension (a ∷ li) ++ rest) ≡ some (a ∷ li, rest)
unfolding read_extension write_extension
read_extension-write_extension a [] rest h = read_single a rest h.0
read_extension-write_extension a (b ∷ []) rest h = rw (
  first_ext 1 a (omega arith) h.0,
  middle_ext a 0 b (omega arith) h.1.0,
  even_pair a 0 b (omega arith) h.0 h.1.0,
  odd_pair a 0 b (omega arith) h.1.0,
)
read_extension-write_extension a (b ∷ c ∷ li) rest h = rw (
  first_ext 1 a (omega arith) h.0,
  middle_ext a 1 b (omega arith) h.1.0,
  even_pair a 1 b (omega arith) h.0 h.1.0,
  odd_pair a 1 b (omega arith) h.1.0,
  read_extension-write_extension c li rest h.1.1,
)
