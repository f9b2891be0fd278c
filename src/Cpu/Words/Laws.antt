-- ===== src/Cpu/Words/Laws.antt =====
-- The masks of the instructions in arithmetic.
use cen.Base.{
  ℕ, ◌+◌, ◌-◌, ◌%◌, ◌^◌, ◌≤◌, ◌<◌, ◌≡◌, Bool, true, false, bit_xor, if◌then◌else◌, has, sub64, ltb,
  arith, bit_xor-zero, bit_xor-ones,
}
use cen.Cpu.Words.{neg64, magnitude, addsub_mask, signed_lt}

-- `(rt ^ mask) - mask` negates rt or leaves it.
by_mask :
    (b : Bool) (rt : ℕ)
    → rt < 2 ^ 64
    → sub64 (bit_xor rt (if b then 2 ^ 64 - 1 else 0)) (if b then 2 ^ 64 - 1 else 0)
      ≡ (if b then neg64 rt else rt)
by_mask true rt h = rw (bit_xor-ones 64 rt h) (omega arith)
by_mask false rt h = rw (bit_xor-zero rt) (omega arith)

pub addsub_operand :
    (iw rt : ℕ)
    → rt < 2 ^ 64
    → sub64 (bit_xor rt (addsub_mask iw)) (addsub_mask iw) ≡ (if has iw 2 then neg64 rt else rt)
addsub_operand iw rt h = by_mask (has iw 2) rt h

-- Adding 2^63 makes an order of signed words one of unsigned words.
pub signed_lt_lem :
    (x y : ℕ)
    → x < 2 ^ 64
    → y < 2 ^ 64
    → signed_lt x y ≡ ltb ((x + 2 ^ 63) % 2 ^ 64) ((y + 2 ^ 63) % 2 ^ 64)
signed_lt_lem x y hx hy = ground arith

pub magnitude-le : (x : ℕ) → x < 2 ^ 64 → magnitude x ≤ 2 ^ 63
magnitude-le x h = ground arith
