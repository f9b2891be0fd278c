-- ===== src/Cpu/Multiply.antt =====
-- vr4300/functions.c: the multiplications, the divisions and the registers HI and LO.
pub mod Divide
pub mod Product
pub mod Quotient
use cen.Base.{
  ℕ, ◌+◌, ◌*◌, ◌/◌, ◌%◌, ◌^◌, Bool, true, false, bit_and, ◌==◌, if◌then◌else◌, has, u64, sext32,
  ◌>>>◌,
}
use cen.Cpu.State.{Vr4300, latch_result, set_reg, do_mci, register_hi, register_lo}
use cen.Cpu.Words.{get_rd, mult_sex_mask, sext128}

-- The index of the Boolean `b` in an array.
abbrev pub index_of : Bool → ℕ
index_of true = 1
index_of false = 0

unfoldable pub mult_multu : Vr4300 → ℕ → ℕ → ℕ → ℕ × Vr4300
mult_multu c iw rs rt =
    let sex_mask = mult_sex_mask (has iw 0x1) in
    let rs_sex = bit_and (sext32 rs) sex_mask in
    let rt_sex = bit_and (sext32 rt) sex_mask in
    let result = u64 (rs_sex * rt_sex) in
    let c1 = set_reg c register_lo (sext32 result) in
    (0, set_reg c1 register_hi (sext32 (result >>> 32)))

-- The branch of a host with __int128_t.
unfoldable pub dmult : Vr4300 → ℕ → ℕ → ℕ → ℕ × Vr4300
dmult c iw rs rt =
    let result = sext128 rs * sext128 rt % 2 ^ 128 in
    let lo = u64 result in
    let hi = result >>> 64 in do_mci (set_reg (set_reg c register_lo lo) register_hi hi) 8

unfoldable pub dmultu : Vr4300 → ℕ → ℕ → ℕ → ℕ × Vr4300
dmultu c iw rs rt =
    let result = rs * rt % 2 ^ 128 in
    let lo = u64 result in
    let hi = result >>> 64 in do_mci (set_reg (set_reg c register_lo lo) register_hi hi) 8

unfoldable pub mfhi_mflo : Vr4300 → ℕ → ℕ → ℕ → ℕ × Vr4300
mfhi_mflo c iw rs rt =
    let is_mflo = has (iw >>> 1) 0x1 in
    (0, latch_result c (get_rd iw) (c.regs (register_hi + index_of is_mflo)))

unfoldable pub mthi_mtlo : Vr4300 → ℕ → ℕ → ℕ → ℕ × Vr4300
mthi_mtlo c iw rs rt =
    let is_mtlo = has (iw >>> 1) 0x1 in (0, set_reg c (register_hi + index_of is_mtlo) rs)
