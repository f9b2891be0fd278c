-- ===== src/Mi/Bits.antt =====
-- The single bits of a register after a pair of command bits.
use cen.Base.{
  ℕ, ◌^◌, ◌<◌, ◌≡◌, bit, bit-le, bit-bit_and, bit-bit_or, bit-complement, has, if◌then◌else◌, not32,
  ◌==◌, arith,
}
use cen.Mi.{command}

-- What becomes of bit k: the command acts where its mask has the bit.
abbrev pub commanded : ℕ → ℕ → ℕ → ℕ → ℕ → ℕ → ℕ
commanded k word c s mask b =
    if bit k mask == 1 then (if has word c then 0 else if has word s then 1 else b) else b

pub bit-command :
    (k word c s mask x : ℕ)
    → mask < 2 ^ 32
    → k < 32
    → bit k (command word c s mask x) ≡ commanded k word c s mask (bit k x)
unfolding command
bit-command k word c s mask x m h = ground (
  arith,
  bit-bit_and k x (not32 mask),
  bit-bit_or k x mask,
  bit-complement 32 k mask m h,
  bit-le k x,
  bit-le k mask,
)
