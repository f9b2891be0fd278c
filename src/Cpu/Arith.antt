-- ===== src/Cpu/Arith.antt =====
-- vr4300/functions.c: the additions, the logical operations and the comparisons. The value of a
-- function is its return value and the new state.
use cen.Base.{
  ℕ, ◌+◌, bit_and, bit_or, bit_xor, ltb, ◌==◌, if◌then◌else◌, u16, u64, sub64, sext16, sext32,
  ◌>>>◌,
}
use cen.Cpu.State.{Vr4300, latch_result, do_mci}
use cen.Cpu.Words.{get_rd, get_rt, addsub_mask, signed_lt, not64, shl64}

unfoldable pub add_sub : Vr4300 → ℕ → ℕ → ℕ → ℕ × Vr4300
add_sub c iw rs rt =
    let mask = addsub_mask iw in
    let rt' = sub64 (bit_xor rt mask) mask in
    let rd = u64 (rs + rt') in (0, latch_result c (get_rd iw) (sext32 rd))

unfoldable pub addi_subi : Vr4300 → ℕ → ℕ → ℕ → ℕ × Vr4300
addi_subi c iw rs rt =
    let rt' = sub64 (bit_xor (sext16 iw) 0) 0 in
    let rd = u64 (rs + rt') in (0, latch_result c (get_rt iw) (sext32 rd))

unfoldable pub addiu_lui_subiu : Vr4300 → ℕ → ℕ → ℕ → ℕ × Vr4300
addiu_lui_subiu c iw rs rt =
    let immshift = bit_and (iw >>> 24) 0x10 in
    let rd = u64 (rs + shl64 (sext16 iw) immshift) in (0, latch_result c (get_rt iw) (sext32 rd))

unfoldable pub addu_subu : Vr4300 → ℕ → ℕ → ℕ → ℕ × Vr4300
addu_subu c iw rs rt =
    let mask = addsub_mask iw in
    let rt' = sub64 (bit_xor rt mask) mask in
    let rd = u64 (rs + rt') in (0, latch_result c (get_rd iw) (sext32 rd))

unfoldable pub and_or_xor : Vr4300 → ℕ → ℕ → ℕ → ℕ × Vr4300
and_or_xor c iw rs rt =
    let rand = bit_and rs rt in
    let rxor = bit_xor rs rt in
    let rd = u64 (rand + rxor) in
    let rd' = if bit_and iw 1 == 0 then rxor else rd in
    let rd'' = if bit_and iw 3 == 0 then rand else rd' in (0, latch_result c (get_rd iw) rd'')

unfoldable pub andi_ori_xori : Vr4300 → ℕ → ℕ → ℕ → ℕ × Vr4300
andi_ori_xori c iw rs rt =
    let rand = bit_and rs (u16 iw) in
    let rxor = bit_xor rs (u16 iw) in
    let rd = u64 (rand + rxor) in
    let rd' = if bit_and iw 67108864 == 0 then rxor else rd in
    let rd'' = if bit_and iw 201326592 == 0 then rand else rd' in
    (0, latch_result c (get_rt iw) rd'')

unfoldable pub dadd_dsub : Vr4300 → ℕ → ℕ → ℕ → ℕ × Vr4300
dadd_dsub c iw rs rt =
    let mask = addsub_mask iw in
    let rt' = sub64 (bit_xor rt mask) mask in (0, latch_result c (get_rd iw) (u64 (rs + rt')))

unfoldable pub daddi_dsubi : Vr4300 → ℕ → ℕ → ℕ → ℕ × Vr4300
daddi_dsubi c iw rs rt =
    let rt' = sub64 (bit_xor (sext16 iw) 0) 0 in (0, latch_result c (get_rt iw) (u64 (rs + rt')))

unfoldable pub daddiu_dsubiu : Vr4300 → ℕ → ℕ → ℕ → ℕ × Vr4300
daddiu_dsubiu c iw rs rt =
    let rt' = sub64 (bit_xor (sext16 iw) 0) 0 in (0, latch_result c (get_rt iw) (u64 (rs + rt')))

unfoldable pub daddu_dsubu : Vr4300 → ℕ → ℕ → ℕ → ℕ × Vr4300
daddu_dsubu c iw rs rt =
    let mask = addsub_mask iw in
    let rt' = sub64 (bit_xor rt mask) mask in (0, latch_result c (get_rd iw) (u64 (rs + rt')))

-- VR4300_NOR returns through the interlock of a multi-cycle instruction.
unfoldable pub nor : Vr4300 → ℕ → ℕ → ℕ → ℕ × Vr4300
nor c iw rs rt = do_mci (latch_result c (get_rd iw) (not64 (bit_or rs rt))) 57

unfoldable pub slt : Vr4300 → ℕ → ℕ → ℕ → ℕ × Vr4300
slt c iw rs rt = (0, latch_result c (get_rd iw) (if signed_lt rs rt then 1 else 0))

unfoldable pub slti : Vr4300 → ℕ → ℕ → ℕ → ℕ × Vr4300
slti c iw rs rt = (0, latch_result c (get_rt iw) (if signed_lt rs (sext16 iw) then 1 else 0))

unfoldable pub sltiu : Vr4300 → ℕ → ℕ → ℕ → ℕ × Vr4300
sltiu c iw rs rt = (0, latch_result c (get_rt iw) (if ltb rs (sext16 iw) then 1 else 0))

unfoldable pub sltu : Vr4300 → ℕ → ℕ → ℕ → ℕ × Vr4300
sltu c iw rs rt = (0, latch_result c (get_rd iw) (if ltb rs rt then 1 else 0))
