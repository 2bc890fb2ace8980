-- ===== src/Prelude/Words.antt =====
-- The fixed widths of C: a value is a plain number, and what wraps is written out.
use Prim.Native.Nat.{ℕ, ◌+◌, ◌-◌, ◌*◌, ◌/◌, ◌%◌, ◌^◌}

abbrev pub u8 : ℕ → ℕ
u8 n = n % 256

abbrev pub u16 : ℕ → ℕ
u16 n = n % 65536

abbrev pub u32 : ℕ → ℕ
u32 n = n % 4294967296

-- a - b on uint32_t, for a and b below 2 ^ 32.
abbrev pub sub_u32 : ℕ → ℕ → ℕ
sub_u32 a b = (a + 4294967296 - b) % 4294967296

-- x << k and x >> k.
infixl 75 ◌<<<◌ ◌>>>◌
abbrev pub ◌<<<◌ : ℕ → ℕ → ℕ
x <<< k = x * 2 ^ k

abbrev pub ◌>>>◌ : ℕ → ℕ → ℕ
x >>> k = x / 2 ^ k

-- x & (2 ^ k - 1).
abbrev pub low_bits : ℕ → ℕ → ℕ
low_bits x k = x % 2 ^ k
