-- ===== src/Prelude/Bits.antt =====
-- `|` of fields that do not overlap is a sum.
use Prim.Native.Nat.{ℕ, zero, suc, ◌+◌, ◌*◌, ◌/◌, ◌%◌, ◌^◌, ◌≤◌, ◌<◌, max, bit_or}
use Prim.Native.Nat.{digits, bit_or-bitwise}
use mathlib.Core.Path.{◌≡◌, refl, ap, ◌∙◌}
use native.Mathlib.Nat.{le_refl, pow-suc}
use native.Mathlib.Omega.{arith}

-- The digit recursion gives the same with any fuel that is enough.
or_digits : (n m a b : ℕ) → a ≤ n → a ≤ m → digits (λ y. y) max n a b ≡ digits (λ y. y) max m a b
or_digits zero zero a b p q = refl
or_digits zero (suc m) zero b p q = refl
or_digits zero (suc m) (suc a) b p q = absurd (omega arith)
or_digits (suc n) zero zero b p q = refl
or_digits (suc n) zero (suc a) b p q = absurd (omega arith)
or_digits (suc n) (suc m) zero b p q = refl
or_digits (suc n) (suc m) (suc a) b p q =
    ap (λ (t : ℕ). t * 2 + max (suc a % 2) (b % 2))
      (or_digits n m (suc a / 2) (b / 2) (omega arith) (omega arith))

-- One binary digit of a disjunction.
pub bit_or-digit : (a b : ℕ) → bit_or a b ≡ bit_or (a / 2) (b / 2) * 2 + max (a % 2) (b % 2)
bit_or-digit zero b = omega (arith, bit_or-bitwise 0 b, bit_or-bitwise 0 (b / 2))
bit_or-digit (suc a) b = omega (
  arith,
  bit_or-bitwise (suc a) b,
  bit_or-bitwise (suc a / 2) (b / 2),
  or_digits a (suc a / 2) (suc a / 2) (b / 2) (omega arith) (le_refl _),
)

bit_or_none : (n a : ℕ) → a ≤ n → bit_or a 0 ≡ a
bit_or_none n zero h = refl
bit_or_none zero (suc a) h = absurd (omega arith)
bit_or_none (suc n) (suc a) h =
    omega (arith, bit_or-digit (suc a) 0, bit_or_none n (suc a / 2) (omega arith))

-- A field of `k` bits put under a number whose low `k` bits are clear.
pub or_field : (k q a r : ℕ) → a ≡ q * 2 ^ k → r < 2 ^ k → bit_or a r ≡ a + r
or_field zero q a r e h =
    let none_set : r ≡ 0 = omega arith in rw none_set (omega (arith, bit_or_none a a (le_refl a)))
or_field (suc k) q a r e h =
    let twice : a ≡ 2 * (q * 2 ^ k) = e ∙ omega (arith, ap (λ (t : ℕ). q * t) (pow-suc 2 k)) in
    omega (
      arith,
      pow-suc 2 k,
      bit_or-digit a r,
      or_field k q (a / 2) (r / 2) (omega arith) (omega (arith, pow-suc 2 k)),
    )
