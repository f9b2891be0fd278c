-- ===== src/Cpu/Multiply/Divide.antt =====
-- vr4300/functions.c: the divisions.
use cen.Base.{ℕ, ◌-◌, ◌/◌, ◌%◌, ◌^◌, ◌&&◌, bit_and, ◌==◌, if◌then◌else◌, has, sext32}
use cen.Cpu.State.{Vr4300, set_reg, do_mci, register_hi, register_lo}
use cen.Cpu.Words.{mult_sex_mask, negative, sdiv64, srem64}

unfoldable pub div_divu : Vr4300 → ℕ → ℕ → ℕ → ℕ × Vr4300
div_divu c iw rs rt =
    let sex_mask = mult_sex_mask (has iw 0x1) in
    let rs_sex = bit_and (sext32 rs) sex_mask in
    let rt_sex = bit_and (sext32 rt) sex_mask in
    let by_zero = if negative rs_sex then 1 else 2 ^ 64 - 1 in
    let quotient = if rt_sex == 0 then by_zero else sdiv64 rs_sex rt_sex in
    let remainder = if rt_sex == 0 then rs_sex else srem64 rs_sex rt_sex in
    let c1 = set_reg c register_lo (sext32 quotient) in
    do_mci (set_reg c1 register_hi (sext32 remainder)) 37

unfoldable pub ddiv : Vr4300 → ℕ → ℕ → ℕ → ℕ × Vr4300
ddiv c iw rs rt =
    let overflow = (rs == 2 ^ 63) && (rt == 2 ^ 64 - 1) in
    let by_zero = if negative rs then 1 else 2 ^ 64 - 1 in
    let quotient = if overflow then 2 ^ 63 else if rt == 0 then by_zero else sdiv64 rs rt in
    let remainder = if overflow then 0 else if rt == 0 then rs else srem64 rs rt in
    do_mci (set_reg (set_reg c register_lo quotient) register_hi remainder) 69

unfoldable pub ddivu : Vr4300 → ℕ → ℕ → ℕ → ℕ × Vr4300
ddivu c iw rs rt =
    let quotient = if rt == 0 then 2 ^ 64 - 1 else rs / rt in
    let remainder = if rt == 0 then rs else rs % rt in
    do_mci (set_reg (set_reg c register_lo quotient) register_hi remainder) 69
