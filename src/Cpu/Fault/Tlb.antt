-- ===== src/Cpu/Fault/Tlb.antt =====
-- vr4300/fault.c: the exceptions of the TLB.
use cen.Base.{
  ℕ, Bool, not, ◌&&◌, ◌||◌, bit_and, bit_or, ◌==◌, if◌then◌else◌, has, u8, u32, sub64, not32,
  sext32, ◌>>>◌, ◌<<<◌,
}
use cen.Segment.{Segment}
use cen.Cpu.State.{Vr4300, Latch, FaultId, request_value, set_reg, cp0_status, cp0_cause, cp0_epc}
use cen.Cpu.Words.{not64}
use cen.Cpu.Fault.{Prolog, rf_fault, dc_fault, cause_code, exception_epilogue}

abbrev pub cp0_context : ℕ
cp0_context = 36

abbrev pub cp0_badvaddr : ℕ
cp0_badvaddr = 40

abbrev pub cp0_entryhi : ℕ
cp0_entryhi = 42

abbrev pub cp0_xcontext : ℕ
cp0_xcontext = 52

-- The registers of the fault: a 64-bit address, and a 32-bit one.
unfoldable pub write_xcontext : Vr4300 → ℕ → Vr4300
write_xcontext c vaddr =
    let vpn2 = bit_and (vaddr >>> 13) 0x7FFFFFF in
    let asid = u8 (c.regs cp0_entryhi) in
    let region = bit_and (vaddr >>> 62) 0x3 in
    let entryhi = bit_or (bit_or (region <<< 62) (vpn2 <<< 13)) asid in
    let kept = bit_and (c.regs cp0_xcontext) (not64 (0x1FFFFFFF <<< 4)) in
    let context = bit_or (bit_or kept (region <<< 31)) (vpn2 <<< 4) in
    set_reg (set_reg c cp0_entryhi entryhi) cp0_xcontext context

unfoldable pub write_context : Vr4300 → ℕ → Vr4300
write_context c vaddr =
    let vpn2 = bit_and (vaddr >>> 13) 0x7FFFF in
    let asid = u8 (c.regs cp0_entryhi) in
    let entryhi = sext32 (bit_or (vpn2 <<< 13) asid) in
    let kept = bit_and (c.regs cp0_context) (not64 (0x7FFFF <<< 4)) in
    set_reg (set_reg c cp0_entryhi entryhi) cp0_context (bit_or kept (vpn2 <<< 4))

-- The out parameters, with the offset of the vector, and the registers.
unfoldable pub tlb_exception_prolog : Vr4300 → Latch → Segment → ℕ → Prolog × ℕ × Vr4300
unfolding write_xcontext write_context
tlb_exception_prolog c l segment vaddr =
    let in_bd_slot = not (l.cause_data >>> 31 == 0) in
    let status = u32 (c.regs cp0_status) in
    let cause = u32 (c.regs cp0_cause) in
    let extended = has status segment.xmode_mask in
    let nested : Prolog = record { cause = cause; status = status; epc = c.regs cp0_epc } in
    let in_slot : Prolog = record nested { cause = bit_or cause 0x80000000; epc = sub64 l.pc 4 } in
    let outside : Prolog = record nested { cause = bit_and cause (not32 0x80000000); epc = l.pc } in
    let p = if has status 0x2 then nested else if in_bd_slot then in_slot else outside in
    let offs = if has status 0x2 then 0x180 else if extended then 0x80 else 0 in
    let c' = if extended then write_xcontext c vaddr else write_context c vaddr in
    (p, offs, set_reg c' cp0_badvaddr vaddr)

-- VR4300_DTLB, with the segment of the DC stage.
unfoldable pub data_tlb_fault : Vr4300 → Bool → Bool → Bool → Vr4300
data_tlb_fault c miss inv mod_ =
    let is_write = request_value c.request.request_type == 2 in
    let kind = if miss || inv then (if is_write then 0x3 else 0x2) else 0x1 in
    let c1 = dc_fault c FaultId.dtlb in
    let (p, offs, c2) = tlb_exception_prolog c1 c1.exdc_common c1.exdc_segment c1.request.vaddr in
    let offs' = if not miss && not mod_ then 0x180 else offs in
    exception_epilogue c2 (cause_code p.cause (kind <<< 2)) p.status p.epc offs'

-- VR4300_ITLB, with the segment of the IC stage.
unfoldable pub instruction_tlb_fault : Vr4300 → Segment → Bool → Vr4300
instruction_tlb_fault c segment miss =
    let c1 = rf_fault c FaultId.itlb in
    let (p, offs, c2) = tlb_exception_prolog c1 c1.icrf_common segment c1.icrf_common.pc in
    let offs' = if miss then offs else 0x180 in
    exception_epilogue c2 (cause_code p.cause (0x2 <<< 2)) p.status p.epc offs'
