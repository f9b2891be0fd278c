-- ===== src/Cpu/Branch/Reference.antt =====
-- The conditional branches of the primary opcodes as the architecture describes them.
use cen.Base.{ℕ, ◌+◌, ◌*◌, ◌^◌, Bool, not, ◌&&◌, leb, ◌==◌, if◌then◌else◌, u64, sext16}
use cen.Cpu.State.{Vr4300, latch_result, pipeline_cycle_type}
use cen.Cpu.Words.{get_rs, get_rt}
use cen.Cpu.Branch.{set_iw_mask, set_pc}
use cen.Cpu.Alu.{biased}

pub data BranchOp : Type 0 where
  beq bne blez bgtz beql bnel blezl bgtzl : BranchOp

-- The codes of the architecture, in the top six bits.
unfoldable pub branch_code : BranchOp → ℕ
branch_code BranchOp.beq = 4
branch_code BranchOp.bne = 5
branch_code BranchOp.blez = 6
branch_code BranchOp.bgtz = 7
branch_code BranchOp.beql = 20
branch_code BranchOp.bnel = 21
branch_code BranchOp.blezl = 22
branch_code BranchOp.bgtzl = 23

unfoldable pub is_taken : BranchOp → ℕ → ℕ → Bool
is_taken BranchOp.beq rs rt = rs == rt
is_taken BranchOp.bne rs rt = not (rs == rt)
is_taken BranchOp.blez rs rt = leb (biased rs) (2 ^ 63)
is_taken BranchOp.bgtz rs rt = not (leb (biased rs) (2 ^ 63))
is_taken BranchOp.beql rs rt = rs == rt
is_taken BranchOp.bnel rs rt = not (rs == rt)
is_taken BranchOp.blezl rs rt = leb (biased rs) (2 ^ 63)
is_taken BranchOp.bgtzl rs rt = not (leb (biased rs) (2 ^ 63))

-- The mask of the delay slot of a branch that is not taken: 0 kills the instruction.
unfoldable pub slot_mask : BranchOp → ℕ
slot_mask BranchOp.beql = 0
slot_mask BranchOp.bnel = 0
slot_mask BranchOp.blezl = 0
slot_mask BranchOp.bgtzl = 0
slot_mask other = 0xFFFFFFFF

abbrev pub branch_target : ℕ → ℕ → ℕ
branch_target pc iw = u64 (pc + 4 + 4 * sext16 iw)

-- A taken BEQ of register 0 with itself that leads to itself starts a busy wait.
abbrev pub with_busy_wait : Vr4300 → ℕ → ℕ → Vr4300
with_busy_wait c iw pc =
    if (c.icrf_pc == pc) && ((get_rs iw == 0) && (get_rt iw == 0))
    then latch_result c pipeline_cycle_type 5
    else c

unfoldable pub taken_state : BranchOp → Vr4300 → ℕ → Vr4300
taken_state BranchOp.beq c iw =
    with_busy_wait (set_pc c (branch_target c.rfex_common.pc iw)) iw c.rfex_common.pc
taken_state BranchOp.bne c iw =
    with_busy_wait (set_pc c (branch_target c.rfex_common.pc iw)) iw c.rfex_common.pc
taken_state BranchOp.beql c iw =
    with_busy_wait (set_pc c (branch_target c.rfex_common.pc iw)) iw c.rfex_common.pc
taken_state BranchOp.bnel c iw =
    with_busy_wait (set_pc c (branch_target c.rfex_common.pc iw)) iw c.rfex_common.pc
taken_state other c iw = set_pc c (branch_target c.rfex_common.pc iw)

-- What a branch has to leave.
abbrev pub branch_state : BranchOp → Vr4300 → ℕ → ℕ → ℕ → ℕ × Vr4300
branch_state op c iw rs rt =
    if is_taken op rs rt then (0, taken_state op c iw) else (0, set_iw_mask c (slot_mask op))
