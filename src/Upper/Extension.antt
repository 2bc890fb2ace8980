-- ===== src/Upper/Extension.antt =====
-- The extension part of an RLC header (3GPP TS 36.322, 6.2.1): the length indicators, two to three
-- bytes. ue/src/upper/rlc_um.cc and ue/src/upper/rlc_am.cc have the same two loops. A payload is
-- the list of its bytes; a read behind its end is a fault, `none`.
pub mod Trip
use srs_ue.Prelude.{
  ℕ, suc, ◌+◌, ◌*◌, ◌/◌, ◌%◌, ◌^◌, List, [], ◌∷◌, Option, none, some, ◌==◌, if◌then◌else◌, length,
  ◌<<<◌, ◌>>>◌, low_bits, bit_or, u8,
}

-- `ext`: 1 while another length indicator follows.
abbrev pub more : List ℕ → ℕ
more [] = 0
more (x ∷ xs) = 1

-- The rounding of `N_li * 1.5 + 0.5` to an integer, both exact in binary.
abbrev pub extension_length : ℕ → ℕ
extension_length n_li = (3 * n_li + 1) / 2

-- The first byte of a pair: 1 bit for `ext`, 7 bits of the first length indicator.
abbrev pub first_byte : ℕ → ℕ → ℕ
first_byte ext a = u8 (bit_or (ext <<< 7) (low_bits (a >>> 4) 7))

-- The shared byte: 4 bits of the first, 1 bit for `ext`, 3 bits of the second.
abbrev pub middle_byte : ℕ → ℕ → ℕ → ℕ
middle_byte a ext b = u8 (bit_or (bit_or (low_bits a 4 <<< 4) (ext <<< 3)) (low_bits (b >>> 8) 3))

-- The two loops of the source write the same bytes; an odd last indicator is padded to a byte.
unfoldable pub write_extension : List ℕ → List ℕ
write_extension [] = []
write_extension (a ∷ []) = first_byte 0 a ∷ u8 (low_bits a 4 <<< 4) ∷ []
write_extension (a ∷ b ∷ rest) =
    first_byte 1 a ∷ middle_byte a (more rest) b ∷ u8 (low_bits b 8) ∷ write_extension rest

-- The indicators that are read from two bytes, in an even and in an odd round.
abbrev pub even_li : ℕ → ℕ → ℕ
even_li x y = bit_or (low_bits x 7 <<< 4) (low_bits (y >>> 4) 4)

abbrev pub odd_li : ℕ → ℕ → ℕ
odd_li y z = bit_or (low_bits y 3 <<< 8) (low_bits z 8)

abbrev pub put_two : ℕ → ℕ → Option (List ℕ × List ℕ) → Option (List ℕ × List ℕ)
put_two a b none = none
put_two a b (some (li, rest)) = some (a ∷ b ∷ li, rest)

-- `while(ext)`, entered with `ext` set: an even round, and an odd one if it says so. An odd round
-- starts at the byte that the even one ended in. What is left of the payload comes with it, behind
-- the padding.
unfoldable pub read_extension : List ℕ → Option (List ℕ × List ℕ)
read_extension [] = none
read_extension (x ∷ []) = none
read_extension (x ∷ y ∷ []) =
    if low_bits (x >>> 7) 1 == 0 then some (even_li x y ∷ [], []) else none
read_extension (x ∷ y ∷ z ∷ rest) =
    let others = read_extension rest in
    if low_bits (x >>> 7) 1 == 0
    then some (even_li x y ∷ [], z ∷ rest)
    else if low_bits (y >>> 3) 1 == 0
    then some (even_li x y ∷ odd_li y z ∷ [], rest)
    else put_two (even_li x y) (odd_li y z) others
