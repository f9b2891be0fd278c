-- ===== src/Cpu/Words.antt =====
-- 64-bit words, the fields of an instruction word, and the masks of vr4300/functions.c.
pub mod Laws
use cen.Base.{
  ℕ, ◌+◌, ◌-◌, ◌*◌, ◌/◌, ◌%◌, ◌^◌, Bool, true, false, not, bit_and, ltb, leb, ◌==◌, if◌then◌else◌,
  has, u64, ◌>>>◌, ◌<<<◌,
}

-- ~x on 64 bits.
abbrev pub not64 : ℕ → ℕ
not64 x = 2 ^ 64 - 1 - x

-- (int64_t) x < 0.
abbrev pub negative : ℕ → Bool
negative x = leb (2 ^ 63) x

-- (int64_t) x < (int64_t) y.
abbrev pub signed_lt : ℕ → ℕ → Bool
signed_lt x y =
    if negative x
    then (if negative y then ltb x y else true)
    else (if negative y then false else ltb x y)

-- -x, and the magnitude of (int64_t) x.
abbrev pub neg64 : ℕ → ℕ
neg64 x = (2 ^ 64 - x) % 2 ^ 64

abbrev pub magnitude : ℕ → ℕ
magnitude x = if negative x then neg64 x else x

-- x << sa and (int64_t) x >> sa.
abbrev pub shl64 : ℕ → ℕ → ℕ
shl64 x sa = u64 (x <<< sa)

abbrev pub sar64 : ℕ → ℕ → ℕ
sar64 x sa = if negative x then not64 (not64 x >>> sa) else x >>> sa

-- GET_RS, GET_RT and GET_RD.
abbrev pub get_rs : ℕ → ℕ
get_rs iw = bit_and (iw >>> 21) 0x1F

abbrev pub get_rt : ℕ → ℕ
get_rt iw = bit_and (iw >>> 16) 0x1F

abbrev pub get_rd : ℕ → ℕ
get_rd iw = bit_and (iw >>> 11) 0x1F

-- `shr $2` moves bit 1 into the carry, `sbb` spreads it.
abbrev pub addsub_mask : ℕ → ℕ
addsub_mask iw = if has iw 2 then 2 ^ 64 - 1 else 0

abbrev pub branch_mask : ℕ → ℕ → ℕ
branch_mask iw index = if has iw (2 ^ index) then 0 else 2 ^ 32 - 1

-- vr4300_mult_sex_mask.
abbrev pub mult_sex_mask : Bool → ℕ
mult_sex_mask true = 2 ^ 32 - 1
mult_sex_mask false = 2 ^ 64 - 1

-- `==` on bool.
abbrev pub same : Bool → Bool → Bool
same true b = b
same false b = not b

-- Quotient and remainder of int64_t values, rounded towards 0 as in C.
abbrev pub sdiv64 : ℕ → ℕ → ℕ
sdiv64 x y =
    let quotient = magnitude x / magnitude y in
    if same (negative x) (negative y) then u64 quotient else neg64 quotient

abbrev pub srem64 : ℕ → ℕ → ℕ
srem64 x y =
    let remainder = magnitude x % magnitude y in if negative x then neg64 remainder else remainder

-- (__int128_t)(int64_t) x, as an unsigned word of 128 bits.
abbrev pub sext128 : ℕ → ℕ
sext128 x = if negative x then 2 ^ 128 - 2 ^ 64 + x else x
