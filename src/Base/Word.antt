-- ===== src/Base/Word.antt =====
-- The casts and operators of C on unsigned words. A word is a plain number; each operation that
-- can leave the width wraps by `%`.
use Prim.Native.Nat.{ℕ, ◌+◌, ◌-◌, ◌*◌, ◌/◌, ◌%◌, ◌^◌, bit_and, bit_or}
use mathlib.Core.Bool.{Bool, not}
use cen.Base.Tests.{ltb, if◌then◌else◌, ◌==◌}

abbrev pub u8 : ℕ → ℕ
u8 n = n % 2 ^ 8

abbrev pub u16 : ℕ → ℕ
u16 n = n % 2 ^ 16

abbrev pub u32 : ℕ → ℕ
u32 n = n % 2 ^ 32

abbrev pub u64 : ℕ → ℕ
u64 n = n % 2 ^ 64

-- a - b on 32 and on 64 bits.
abbrev pub sub32 : ℕ → ℕ → ℕ
sub32 a b = (a + 2 ^ 32 - b) % 2 ^ 32

abbrev pub sub64 : ℕ → ℕ → ℕ
sub64 a b = (a + 2 ^ 64 - b) % 2 ^ 64

infixl 75 ◌>>>◌ ◌<<<◌
abbrev pub ◌>>>◌ : ℕ → ℕ → ℕ
x >>> k = x / 2 ^ k

abbrev pub ◌<<<◌ : ℕ → ℕ → ℕ
x <<< k = x * 2 ^ k

-- ~m on 32 bits.
abbrev pub not32 : ℕ → ℕ
not32 m = 2 ^ 32 - 1 - m

-- `if (x & m)`.
abbrev pub has : ℕ → ℕ → Bool
has x m = not (bit_and x m == 0)

-- (uint64_t)(int64_t)(int32_t) x, from the low 32 bits of x.
abbrev pub sext32 : ℕ → ℕ
sext32 x = if ltb (u32 x) (2 ^ 31) then u32 x else 2 ^ 64 - 2 ^ 32 + u32 x

-- (uint64_t)(int64_t)(int16_t) x, from the low 16 bits of x.
abbrev pub sext16 : ℕ → ℕ
sext16 x = if ltb (u16 x) (2 ^ 15) then u16 x else 2 ^ 64 - 2 ^ 16 + u16 x

-- `&= ~dqm; |= word;`, the write of the bytes that dqm selects.
abbrev pub merge : ℕ → ℕ → ℕ → ℕ
merge old word dqm = bit_or (bit_and old (not32 dqm)) word
