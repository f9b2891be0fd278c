-- ===== src/Cpu/Execute.antt =====
-- vr4300/opcodes_priv.h and the end of vr4300/functions.c: which function executes an opcode, and
-- the call that ends `vr4300_ex_stage`. `none` stands for the functions of other files (CP0, CP1, the
-- TLB) and for CACHE.
pub mod Special
pub mod Primary
use cen.Base.{ℕ, Option, none, some}
use cen.Cpu.State.{Vr4300, RequestType, request_none}
use cen.Cpu.Decode.{Opcode, decode_instruction}
use cen.Cpu.Arith.{
  add_sub, addi_subi, addiu_lui_subiu, addu_subu, and_or_xor, andi_ori_xori, dadd_dsub, daddi_dsubi,
  daddiu_dsubiu, daddu_dsubu, nor, slt, slti, sltiu, sltu,
}
use cen.Cpu.Shift.{
  dsll_dsll32, dsllv, dsra_dsra32, dsrav, dsrl_dsrl32, dsrlv, sll_sllv, sra, srav, srl, srlv,
}
use cen.Cpu.Multiply.{dmult, dmultu, mfhi_mflo, mthi_mtlo, mult_multu}
use cen.Cpu.Multiply.Divide.{ddiv, ddivu, div_divu}
use cen.Cpu.Branch.{
  beq_beql_bne_bnel, bgez_bgezl_bltz_bltzl, bgezal_bgezall_bltzal_bltzall, bgtz_bgtzl_blez_blezl,
  j_jal, jalr_jr,
}
use cen.Cpu.Trap.{
  invalid_instruction, break_instruction, syscall_instruction, teq_tne, teqi_tnei, tge_tlt,
  tgei_tlti, tgeiu_tltiu, tgeu_tltu,
}
use cen.Cpu.Memory.{load_store, ld_sd, ldl_ldr, lwl_lwr, sdl_sdr, swl_swr}
use cen.Cpu.Fault.{eret}

-- vr4300_function.
abbrev pub Function : Type 0
Function = Vr4300 → ℕ → ℕ → ℕ → ℕ × Vr4300

unfoldable pub vr4300_function : Opcode → Option Function
vr4300_function Opcode.invalid = some invalid_instruction
vr4300_function Opcode.add = some add_sub
vr4300_function Opcode.addi = some addi_subi
vr4300_function Opcode.addiu = some addiu_lui_subiu
vr4300_function Opcode.addu = some addu_subu
vr4300_function Opcode.and = some and_or_xor
vr4300_function Opcode.andi = some andi_ori_xori
vr4300_function Opcode.bc0 = some invalid_instruction
vr4300_function Opcode.beq = some beq_beql_bne_bnel
vr4300_function Opcode.beql = some beq_beql_bne_bnel
vr4300_function Opcode.bgez = some bgez_bgezl_bltz_bltzl
vr4300_function Opcode.bgezal = some bgezal_bgezall_bltzal_bltzall
vr4300_function Opcode.bgezall = some bgezal_bgezall_bltzal_bltzall
vr4300_function Opcode.bgezl = some bgez_bgezl_bltz_bltzl
vr4300_function Opcode.bgtz = some bgtz_bgtzl_blez_blezl
vr4300_function Opcode.bgtzl = some bgtz_bgtzl_blez_blezl
vr4300_function Opcode.blez = some bgtz_bgtzl_blez_blezl
vr4300_function Opcode.blezl = some bgtz_bgtzl_blez_blezl
vr4300_function Opcode.bltz = some bgez_bgezl_bltz_bltzl
vr4300_function Opcode.bltzal = some bgezal_bgezall_bltzal_bltzall
vr4300_function Opcode.bltzall = some bgezal_bgezall_bltzal_bltzall
vr4300_function Opcode.bltzl = some bgez_bgezl_bltz_bltzl
vr4300_function Opcode.bne = some beq_beql_bne_bnel
vr4300_function Opcode.bnel = some beq_beql_bne_bnel
vr4300_function Opcode.break = some break_instruction
vr4300_function Opcode.cfc0 = some invalid_instruction
vr4300_function Opcode.cfc2 = some invalid_instruction
vr4300_function Opcode.ctc0 = some invalid_instruction
vr4300_function Opcode.ctc2 = some invalid_instruction
vr4300_function Opcode.dadd = some dadd_dsub
vr4300_function Opcode.daddi = some daddi_dsubi
vr4300_function Opcode.daddiu = some daddiu_dsubiu
vr4300_function Opcode.daddu = some daddu_dsubu
vr4300_function Opcode.ddiv = some ddiv
vr4300_function Opcode.ddivu = some ddivu
vr4300_function Opcode.div = some div_divu
vr4300_function Opcode.divu = some div_divu
vr4300_function Opcode.dmfc2 = some invalid_instruction
vr4300_function Opcode.dmtc2 = some invalid_instruction
vr4300_function Opcode.dmult = some dmult
vr4300_function Opcode.dmultu = some dmultu
vr4300_function Opcode.dsll = some dsll_dsll32
vr4300_function Opcode.dsllv = some dsllv
vr4300_function Opcode.dsll32 = some dsll_dsll32
vr4300_function Opcode.dsra = some dsra_dsra32
vr4300_function Opcode.dsrav = some dsrav
vr4300_function Opcode.dsra32 = some dsra_dsra32
vr4300_function Opcode.dsrl = some dsrl_dsrl32
vr4300_function Opcode.dsrlv = some dsrlv
vr4300_function Opcode.dsrl32 = some dsrl_dsrl32
vr4300_function Opcode.dsub = some dadd_dsub
vr4300_function Opcode.dsubu = some daddu_dsubu
vr4300_function Opcode.eret = some eret
vr4300_function Opcode.j = some j_jal
vr4300_function Opcode.jal = some j_jal
vr4300_function Opcode.jalr = some jalr_jr
vr4300_function Opcode.jr = some jalr_jr
vr4300_function Opcode.lb = some load_store
vr4300_function Opcode.lbu = some load_store
vr4300_function Opcode.ld = some ld_sd
vr4300_function Opcode.ldc0 = some invalid_instruction
vr4300_function Opcode.ldc2 = some invalid_instruction
vr4300_function Opcode.ldl = some ldl_ldr
vr4300_function Opcode.ldr = some ldl_ldr
vr4300_function Opcode.lh = some load_store
vr4300_function Opcode.lhu = some load_store
vr4300_function Opcode.ll = some load_store
vr4300_function Opcode.lld = some invalid_instruction
vr4300_function Opcode.lui = some addiu_lui_subiu
vr4300_function Opcode.lw = some load_store
vr4300_function Opcode.lwc0 = some invalid_instruction
vr4300_function Opcode.lwc2 = some invalid_instruction
vr4300_function Opcode.lwl = some lwl_lwr
vr4300_function Opcode.lwr = some lwl_lwr
vr4300_function Opcode.lwu = some load_store
vr4300_function Opcode.mfc2 = some invalid_instruction
vr4300_function Opcode.mfhi = some mfhi_mflo
vr4300_function Opcode.mflo = some mfhi_mflo
vr4300_function Opcode.mtc2 = some invalid_instruction
vr4300_function Opcode.mthi = some mthi_mtlo
vr4300_function Opcode.mtlo = some mthi_mtlo
vr4300_function Opcode.mult = some mult_multu
vr4300_function Opcode.multu = some mult_multu
vr4300_function Opcode.nor = some nor
vr4300_function Opcode.or = some and_or_xor
vr4300_function Opcode.ori = some andi_ori_xori
vr4300_function Opcode.sb = some load_store
vr4300_function Opcode.sc = some load_store
vr4300_function Opcode.scd = some invalid_instruction
vr4300_function Opcode.sd = some ld_sd
vr4300_function Opcode.sdc0 = some invalid_instruction
vr4300_function Opcode.sdc2 = some invalid_instruction
vr4300_function Opcode.sdl = some sdl_sdr
vr4300_function Opcode.sdr = some sdl_sdr
vr4300_function Opcode.sh = some load_store
vr4300_function Opcode.sll = some sll_sllv
vr4300_function Opcode.sllv = some sll_sllv
vr4300_function Opcode.slt = some slt
vr4300_function Opcode.slti = some slti
vr4300_function Opcode.sltiu = some sltiu
vr4300_function Opcode.sltu = some sltu
vr4300_function Opcode.sra = some sra
vr4300_function Opcode.srav = some srav
vr4300_function Opcode.srl = some srl
vr4300_function Opcode.srlv = some srlv
vr4300_function Opcode.sub = some add_sub
vr4300_function Opcode.subu = some addu_subu
vr4300_function Opcode.sw = some load_store
vr4300_function Opcode.swc0 = some invalid_instruction
vr4300_function Opcode.swc2 = some invalid_instruction
vr4300_function Opcode.swl = some swl_swr
vr4300_function Opcode.swr = some swl_swr
vr4300_function Opcode.sync = some sll_sllv
vr4300_function Opcode.syscall = some syscall_instruction
vr4300_function Opcode.teq = some teq_tne
vr4300_function Opcode.teqi = some teqi_tnei
vr4300_function Opcode.tge = some tge_tlt
vr4300_function Opcode.tgei = some tgei_tlti
vr4300_function Opcode.tgeiu = some tgeiu_tltiu
vr4300_function Opcode.tgeu = some tgeu_tltu
vr4300_function Opcode.tlt = some tge_tlt
vr4300_function Opcode.tlti = some tgei_tlti
vr4300_function Opcode.tltiu = some tgeiu_tltiu
vr4300_function Opcode.tltu = some tgeu_tltu
vr4300_function Opcode.tne = some teq_tne
vr4300_function Opcode.tnei = some teqi_tnei
vr4300_function Opcode.xor = some and_or_xor
vr4300_function Opcode.xori = some andi_ori_xori
vr4300_function other = none

-- The state in which a function starts: no destination and no request.
abbrev pub ready : Vr4300 → Vr4300
ready c = record c { exdc_dest = 0; request = record c.request { request_type = request_none } }

abbrev pub dispatch : Option Function → Vr4300 → ℕ → ℕ → ℕ → Option (ℕ × Vr4300)
dispatch none c iw rs rt = none
dispatch (some function) c iw rs rt = some (function (ready c) iw rs rt)

-- The end of `vr4300_ex_stage`.
unfoldable pub execute : Vr4300 → ℕ → ℕ → ℕ → Option (ℕ × Vr4300)
execute c iw rs rt = dispatch (vr4300_function (decode_instruction iw)) c iw rs rt
