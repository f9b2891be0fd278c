-- ===== src/Cpu/Fault.antt =====
-- vr4300/fault.c: the exceptions that need neither a TLB nor a cache, and ERET of vr4300/cp0.c.
-- `vr4300_debug_exception`, which some of them call last, changes nothing of this state.
pub mod Context
pub mod Return
pub mod RoundTrip
pub mod Tlb
pub mod Vector
use cen.Base.{
  ℕ, ◌+◌, ◌-◌, ◌*◌, ◌^◌, true, not, Option, none, some, bit_and, bit_or, ◌==◌, if◌then◌else◌, has,
  u32, u64, sub64, not32, sext32, ◌>>>◌,
}
use cen.Segment.{default_segment, get_segment}
use cen.Cpu.State.{
  Vr4300, Latch, FaultId, set_reg, pipeline_cycle_type, cp0_random, cp0_status, cp0_cause, cp0_epc,
  cp0_config, cp0_errorepc,
}
use cen.Cpu.Words.{not64}

abbrev pub with_fault : Latch → FaultId → Latch
with_fault l id = record l { fault = id }

unfoldable pub rf_fault : Vr4300 → FaultId → Vr4300
rf_fault c id = record c {
  rfex_common = with_fault c.rfex_common id;
  icrf_common = with_fault c.icrf_common id;
}

unfoldable pub ex_fault : Vr4300 → FaultId → Vr4300
ex_fault c id = record c {
  exdc_common = with_fault c.exdc_common id;
  rfex_common = with_fault c.rfex_common id;
  icrf_common = with_fault c.icrf_common id;
}

unfoldable pub dc_fault : Vr4300 → FaultId → Vr4300
dc_fault c id = record c {
  dcwb_common = with_fault c.dcwb_common id;
  exdc_common = with_fault c.exdc_common id;
  rfex_common = with_fault c.rfex_common id;
  icrf_common = with_fault c.icrf_common id;
}

-- The out parameters of `vr4300_exception_prolog`.
pub record Prolog : Type 0 where
  pub cause : ℕ
  pub status : ℕ
  pub epc : ℕ

unfoldable pub exception_prolog : Vr4300 → Latch → Prolog
exception_prolog c l =
    let in_bd_slot = not (l.cause_data >>> 31 == 0) in
    let status = u32 (c.regs cp0_status) in
    let cause = u32 (c.regs cp0_cause) in
    let epc = c.regs cp0_epc in
    let unchanged : Prolog = record { cause = cause; status = status; epc = epc } in
    let in_slot : Prolog = record unchanged {
      cause = bit_or cause 0x80000000;
      epc = sub64 l.pc 4;
    } in
    let outside : Prolog = record unchanged {
      cause = bit_and cause (not32 0x80000000);
      epc = l.pc;
    } in
    if has status 0x2 then unchanged else if in_bd_slot then in_slot else outside

unfoldable pub exception_epilogue : Vr4300 → ℕ → ℕ → ℕ → ℕ → Vr4300
exception_epilogue c cause status epc offs =
    let c1 = record (set_reg c pipeline_cycle_type 0) {
      icrf_segment = some default_segment;
      exdc_segment = default_segment;
      exception_history = 0;
      fault_present = true;
      cycles_to_stall = 2;
    } in
    let c2 =
      if has (c1.regs cp0_status) 0x2
      then set_reg (set_reg c1 cp0_status (bit_or status 0x4)) cp0_errorepc epc
      else set_reg (set_reg c1 cp0_status (bit_or status 0x2)) cp0_epc epc in
    let vector =
      if has status 0x400000
      then u64 (0xFFFFFFFFBFC00200 + offs)
      else u64 (0xFFFFFFFF80000000 + offs) in
    record (set_reg c2 cp0_cause cause) { icrf_pc = vector }

-- `(cause & ~0xFF) | code`.
abbrev pub cause_code : ℕ → ℕ → ℕ
cause_code cause code = bit_or (bit_and cause (not32 0xFF)) code

-- VR4300_CPU, VR4300_DADE, VR4300_SYSC, VR4300_BRPT, VR4300_TRAP and VR4300_RI.
unfoldable pub cp_unusable : Vr4300 → Vr4300
cp_unusable c =
    let c1 = ex_fault c FaultId.cpu in
    let p = exception_prolog c1 c1.exdc_common in
    exception_epilogue c1 (bit_or (cause_code p.cause (2 ^ 28)) 0x2C) p.status p.epc 0x180

unfoldable pub data_address_error : Vr4300 → Vr4300
data_address_error c =
    let c1 = ex_fault c FaultId.cpu in
    let p = exception_prolog c1 c1.exdc_common in
    exception_epilogue c1 (bit_or (cause_code p.cause (2 ^ 28)) 0x10) p.status p.epc 0x180

unfoldable pub system_call : Vr4300 → Vr4300
system_call c =
    let c1 = ex_fault c FaultId.sysc in
    let p = exception_prolog c1 c1.exdc_common in
    exception_epilogue c1 (cause_code p.cause (8 * 4)) p.status p.epc 0x180

unfoldable pub breakpoint : Vr4300 → Vr4300
breakpoint c =
    let c1 = ex_fault c FaultId.brpt in
    let p = exception_prolog c1 c1.exdc_common in
    exception_epilogue c1 (cause_code p.cause (9 * 4)) p.status p.epc 0x180

unfoldable pub raise_trap : Vr4300 → Vr4300
raise_trap c =
    let c1 = ex_fault c FaultId.trap in
    let p = exception_prolog c1 c1.exdc_common in
    exception_epilogue c1 (cause_code p.cause (13 * 4)) p.status p.epc 0x180

unfoldable pub reserved_instruction : Vr4300 → Vr4300
reserved_instruction c =
    let c1 = ex_fault c FaultId.ri in
    let p = exception_prolog c1 c1.exdc_common in
    exception_epilogue c1 (cause_code p.cause (10 * 4)) p.status p.epc 0x180

-- VR4300_INTR and VR4300_WAT mark the latches last.
unfoldable pub interrupt : Vr4300 → Vr4300
interrupt c =
    let p = exception_prolog c c.dcwb_common in
    dc_fault (exception_epilogue c (bit_and p.cause (not32 0xFF)) p.status p.epc 0x180) FaultId.intr

unfoldable pub watch : Vr4300 → Vr4300
watch c =
    let p = exception_prolog c c.dcwb_common in
    dc_fault (exception_epilogue c (cause_code p.cause (23 * 4)) p.status p.epc 0x180) FaultId.wat

-- VR4300_RST; `none` is the abort of a soft reset.
unfoldable pub reset : Vr4300 → Option Vr4300
reset c =
    if not (has c.signals 0x2)
    then none
    else let c1 = record c { signals = bit_and c.signals (not32 0x2) } in
      let c2 = set_reg c1 cp0_status (bit_and (c1.regs cp0_status) (not64 0x08300000)) in
      let c3 = set_reg c2 cp0_config (bit_and (c2.regs cp0_config) (not64 0xFFFF7FF0)) in
      let c4 = set_reg c3 cp0_status (bit_or (c3.regs cp0_status) 0x00400004) in
      let c5 = set_reg c4 cp0_config (bit_or (c4.regs cp0_config) 0x7006E460) in
      let c6 = dc_fault (set_reg c5 cp0_random 31) FaultId.rst in
      some (
        exception_epilogue c6 (u32 (c6.regs cp0_cause)) (u32 (c6.regs cp0_status)) (c6.regs cp0_epc)
          (2 ^ 64 - 0x200))

unfoldable pub eret : Vr4300 → ℕ → ℕ → ℕ → ℕ × Vr4300
eret c iw rs rt =
    let status = u32 (c.regs cp0_status) in
    let from_error = has status 0x4 in
    let pc = if from_error then c.regs cp0_errorepc else c.regs cp0_epc in
    let status' = if from_error then bit_and status (not32 0x4) else bit_and status (not32 0x2) in
    let c1 = set_reg (set_reg c pipeline_cycle_type 4) cp0_status (sext32 status') in
    (
      1,
      record c1 {
        exdc_common = with_fault c.exdc_common FaultId.killed;
        rfex_common = with_fault c.rfex_common FaultId.killed;
        icrf_pc = pc;
        exception_history = 0;
        fault_present = true;
        icrf_segment = get_segment pc status';
        exdc_segment = default_segment;
      },
    )
