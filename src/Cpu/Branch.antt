-- ===== src/Cpu/Branch.antt =====
-- vr4300/functions.c: the branches and jumps. A branch that is not taken gives `iw_mask` its mask,
-- which kills the instruction in the delay slot of a likely branch. BEQ, BNE and J are the
-- versions that detect a busy wait, which the build selects unless it is told otherwise.
pub mod Reference
pub mod Taken
use cen.Base.{
  ℕ, ◌+◌, ◌-◌, ◌*◌, ◌/◌, ◌%◌, ◌^◌, Bool, ◌&&◌, ◌||◌, bit_and, bit_or, ◌==◌, if◌then◌else◌, has, u32,
  u64, not32, sext16, ◌>>>◌, ◌<<<◌,
}
use cen.Cpu.State.{Vr4300, latch_result, register_ra, pipeline_cycle_type}
use cen.Cpu.Words.{get_rs, get_rt, get_rd, branch_mask, same, negative, not64, shl64}

-- `rfex_latch->iw_mask = mask` and `icrf_latch->pc = pc`.
abbrev pub set_iw_mask : Vr4300 → ℕ → Vr4300
set_iw_mask c mask = record c { rfex_iw_mask = mask }

abbrev pub set_pc : Vr4300 → ℕ → Vr4300
set_pc c pc = record c { icrf_pc = pc }

-- `(uint64_t) ((int16_t) iw) << 2`.
abbrev pub branch_offset : ℕ → ℕ
branch_offset iw = shl64 (sext16 iw) 2

-- The test for a busy wait, after the new pc.
abbrev pub enter_busy_wait : Vr4300 → ℕ → Vr4300
enter_busy_wait c iw =
    if (c.icrf_pc == c.rfex_common.pc) && ((get_rs iw == 0) && (get_rt iw == 0))
    then latch_result c pipeline_cycle_type 5
    else c

unfoldable pub beq_beql_bne_bnel : Vr4300 → ℕ → ℕ → ℕ → ℕ × Vr4300
beq_beql_bne_bnel c iw rs rt =
    let is_ne = has (iw >>> 26) 0x1 in
    let cmp = rs == rt in
    if same cmp is_ne
    then (0, set_iw_mask c (branch_mask iw 30))
    else (0, enter_busy_wait (set_pc c (u64 (c.rfex_common.pc + (branch_offset iw + 4)))) iw)

unfoldable pub bgez_bgezl_bltz_bltzl : Vr4300 → ℕ → ℕ → ℕ → ℕ × Vr4300
bgez_bgezl_bltz_bltzl c iw rs rt =
    let is_ge = has (iw >>> 16) 0x1 in
    let cmp = negative rs in
    if same cmp is_ge
    then (0, set_iw_mask c (branch_mask iw 17))
    else (0, set_pc c (u64 (c.rfex_common.pc + (branch_offset iw + 4))))

unfoldable pub bgezal_bgezall_bltzal_bltzall : Vr4300 → ℕ → ℕ → ℕ → ℕ × Vr4300
bgezal_bgezall_bltzal_bltzall c iw rs rt =
    let is_ge = has (iw >>> 16) 0x1 in
    let cmp = negative rs in
    let c1 = latch_result c register_ra (u64 (c.rfex_common.pc + 8)) in
    if same cmp is_ge
    then (0, set_iw_mask c1 (branch_mask iw 17))
    else (0, set_pc c1 (u64 (c.rfex_common.pc + (branch_offset iw + 4))))

unfoldable pub bgtz_bgtzl_blez_blezl : Vr4300 → ℕ → ℕ → ℕ → ℕ × Vr4300
bgtz_bgtzl_blez_blezl c iw rs rt =
    let is_gt = has (iw >>> 26) 0x1 in
    let cmp = negative rs || (rs == 0) in
    if same cmp is_gt
    then (0, set_iw_mask c (branch_mask iw 30))
    else (0, set_pc c (u64 (c.rfex_common.pc + (branch_offset iw + 4))))

unfoldable pub j_jal : Vr4300 → ℕ → ℕ → ℕ → ℕ × Vr4300
j_jal c iw rs rt =
    let target = bit_and (u32 (iw <<< 2)) 0x0FFFFFFF in
    let mask = branch_mask iw 26 in
    let c1 = latch_result c (bit_and register_ra (not32 mask)) (u64 (c.rfex_common.pc + 8)) in
    let c2 = set_pc c1 (bit_or (bit_and c.rfex_common.pc (not64 0x0FFFFFFF)) target) in
    if c2.icrf_pc == c.rfex_common.pc then (0, latch_result c2 pipeline_cycle_type 5) else (0, c2)

unfoldable pub jalr_jr : Vr4300 → ℕ → ℕ → ℕ → ℕ × Vr4300
jalr_jr c iw rs rt =
    let mask = branch_mask iw 0 in
    let dest = bit_and (get_rd iw) (not32 mask) in
    (0, set_pc (latch_result c dest (u64 (c.rfex_common.pc + 8))) rs)
