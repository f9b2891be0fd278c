-- ===== src/Cpu/Alu/Results.antt =====
-- The result of each function in arithmetic, from the bits of the word that it tests.
use cen.Base.{
  ℕ, ◌+◌, ◌*◌, ◌/◌, ◌%◌, ◌^◌, ◌<◌, ◌≡◌, bit, has-bit, bit_and, bit_or, bit_xor, ◌==◌, has, u32, u64,
  sub32, sub64, sext32, arith, bit_or-lt, bit_and-plus_bit_xor,
}
use cen.Cpu.Words.{addsub_mask, shl64}
use cen.Cpu.Words.Laws.{addsub_operand}

-- A word of 32 bits does not see the bits above.
pub sext32_mod : (x : ℕ) → sext32 (u64 x) ≡ sext32 x
sext32_mod x = let e : x % 2 ^ 64 % 2 ^ 32 ≡ x % 2 ^ 32 = omega arith in rw e

-- Bit 1 of the word selects the subtraction.
pub is_sub : (iw : ℕ) → has iw 2 ≡ (iw / 2 % 2 == 1)
unfolding bit
is_sub iw = has-bit 1 iw

pub sum :
    (iw rs rt : ℕ)
    → rt < 2 ^ 64
    → iw / 2 % 2 ≡ 0
    → u64 (rs + sub64 (bit_xor rt (addsub_mask iw)) (addsub_mask iw)) ≡ u64 (rs + rt)
sum iw rs rt h plus = rw (addsub_operand iw rt h, is_sub iw, plus)

pub difference :
    (iw rs rt : ℕ)
    → rs < 2 ^ 64
    → rt < 2 ^ 64
    → iw / 2 % 2 ≡ 1
    → u64 (rs + sub64 (bit_xor rt (addsub_mask iw)) (addsub_mask iw)) ≡ sub64 rs rt
difference iw rs rt hs h minus = rw (addsub_operand iw rt h, is_sub iw, minus) (omega arith)

pub sext32-difference :
    (rs rt : ℕ)
    → rs < 2 ^ 64
    → rt < 2 ^ 64
    → sext32 (sub64 rs rt) ≡ sext32 (sub32 (u32 rs) (u32 rt))
sext32-difference rs rt hs h =
    let e : u32 (sub64 rs rt) ≡ u32 (sub32 (u32 rs) (u32 rt)) = omega arith in rw e

-- The sum of the two parts is the disjunction.
pub disjunction :
    (rs rt : ℕ) → rs < 2 ^ 64 → rt < 2 ^ 64 → u64 (bit_and rs rt + bit_xor rs rt) ≡ bit_or rs rt
disjunction rs rt hs h = omega (arith, bit_and-plus_bit_xor rs rt, bit_or-lt 64 rs rt hs h)

pub sext32-shl64 : (rt sa : ℕ) → sext32 (shl64 rt sa) ≡ sext32 (rt * 2 ^ sa)
sext32-shl64 rt sa = sext32_mod (rt * 2 ^ sa)
