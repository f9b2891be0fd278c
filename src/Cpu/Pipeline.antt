-- ===== src/Cpu/Pipeline.antt =====
-- vr4300/pipeline.c: the stages. `random` is a value of the C library's `rand`, and `fpu` stands for
-- the instructions of vr4300/cp1.c. The profiler and the debugger, which are off, change nothing.
pub mod DataStage
pub mod Cycle
pub mod Forward
pub mod Advance
pub mod Program
pub mod Sequential
pub mod Tests
use cen.Base.{
  ℕ, ◌+◌, ◌-◌, ◌^◌, Bool, true, false, not, ◌&&◌, ◌||◌, Option, none, some, bit_and, bit_or,
  bit_xor, ltb, leb, ◌==◌, if◌then◌else◌, has, u32, u64, sub64, not32, ◌>>>◌, ◌<<<◌, update, ◌>>=◌,
}
use cen.Segment.{Segment, get_segment}
use cen.Cpu.State.{request_value, set_reg, cp0_status}
use cen.Cpu.Words.{get_rs, get_rt}
use cen.Cpu.Decode.{
  Opcode, decode_instruction, decode_flags, info_fpu, info_needrs, info_needrt, info_branch,
}
use cen.Cpu.Execute.{Function, vr4300_function, ready}
use cen.Cpu.Cp0.{dmfc0, mfc0, dmtc0, mtc0}
use cen.Cpu.Cp0.Tlb.{tlbp, tlbr, tlbwi, tlbwr}
use cen.Cpu.Fault.{cp_unusable}
use cen.Cpu.Fault.Tlb.{instruction_tlb_fault}
use cen.Cpu.Cache.{icache_probe}
use cen.Cpu.Tlb.{tlb_probe}
use cen.Cpu.Machine.{BusOps, Machine, MachineFunction, Stage, with_cpu, on_cpu}
use cen.Cpu.Interlock.{load_interlock, icb}
use cen.Cpu.CacheOps.{cache_instruction}

-- The TLB's answer for an address; an index past the tables is undefined: `none`.
pub record Translation : Type 0 where
  pub miss : Bool
  pub bits : ℕ
  pub paddr : ℕ

abbrev pub cp0_asid : ℕ
cp0_asid = 42

abbrev pub cp0_watchlo : ℕ
cp0_watchlo = 50

-- `(vaddr - segment->start) >= segment->length`.
abbrev pub outside : Segment → ℕ → Bool
outside segment vaddr = leb segment.length (sub64 vaddr segment.start)

abbrev pub unmapped : Segment → ℕ → ℕ
unmapped segment vaddr = u32 (sub64 vaddr segment.offset)

-- The registers that an instruction reads; those of CP1 follow the others.
unfoldable pub sources : ℕ → ℕ → ℕ → ℕ × ℕ
sources status flags iw =
    let fr = bit_xor (bit_and (status >>> 26) 0x1) 0x1 in
    let rtlutidx = bit_and flags 0x2 in
    let rslutidx = bit_and flags 0x1 in
    let shift = if rslutidx == 0 then 21 else 11 in
    let rs = bit_or (bit_and (iw >>> shift) 0x1F) (rslutidx <<< 6) in
    let rt = bit_or (get_rt iw) (rtlutidx <<< 5) in
    if has flags info_fpu
    then (
      bit_and rs (not32 (bit_and rslutidx fr)),
      bit_and rt (not32 (bit_and (rtlutidx >>> 1) fr)),
    )
    else (get_rs iw, get_rt iw)

module _ {S : Type 0} where
  unfoldable pub translate : Machine S → ℕ → Option Translation
  translate m vaddr =
      let (result, index) = tlb_probe m.tlb vaddr (bit_and (m.cpu.regs cp0_asid) 0xFF) in
      let page_mask = m.page_mask index in
      let select : ℕ = if has (u32 (page_mask + 1)) vaddr then 1 else 0 in
      let found : Translation = record {
        miss = not (result == 0);
        bits = m.state index select;
        paddr = bit_or (m.pfn index select) (bit_and (u32 vaddr) page_mask);
      } in
      if ltb index 32 then some found else none

  unfoldable pub ic_stage : Machine S → Option (Machine S)
  ic_stage m = do
    let iw = bit_and m.rfex_iw m.cpu.rfex_iw_mask
    let flags = decode_flags iw
    let pc = m.cpu.icrf_pc
    let common = record m.cpu.icrf_common { pc = pc; cause_data = bit_and flags info_branch }
    segment ← m.cpu.icrf_segment
    let status = u32 (m.cpu.regs cp0_status)
    segment' ← if outside segment pc then get_segment pc status else some segment
    some (record m {
      cpu = record m.cpu {
        rfex_iw_mask = 2 ^ 32 - 1;
        icrf_common = common;
        icrf_pc = u64 (pc + 4);
        icrf_segment = some segment';
      };
      rfex_iw = iw;
      rfex_opcode = decode_instruction iw;
      rfex_flags = flags;
    })

  -- The result of a function of the table, with the registers it starts from.
  abbrev pub on_table : Option Function → MachineFunction S → MachineFunction S
  on_table none other m iw rs rt = other m iw rs rt
  on_table (some function) other m iw rs rt = on_cpu (function m.cpu iw rs rt) m

  -- vr4300_function_table.
  unfoldable pub function_table : ℕ → (Opcode → MachineFunction S) → Opcode → MachineFunction S
  function_table random fpu Opcode.cache = cache_instruction
  function_table random fpu Opcode.tlbp = tlbp
  function_table random fpu Opcode.tlbr = tlbr
  function_table random fpu Opcode.tlbwi = tlbwi
  function_table random fpu Opcode.tlbwr = tlbwr random
  function_table random fpu Opcode.dmfc0 = λ m iw rs rt. on_cpu (dmfc0 m.cpu iw rs rt) m
  function_table random fpu Opcode.mfc0 = λ m iw rs rt. on_cpu (mfc0 random m.cpu iw rs rt) m
  function_table random fpu Opcode.dmtc0 = λ m iw rs rt. on_cpu (dmtc0 m.cpu iw rs rt) m
  function_table random fpu Opcode.mtc0 = λ m iw rs rt. on_cpu (mtc0 m.cpu iw rs rt) m
  function_table random fpu op = on_table (vr4300_function op) (fpu op)

  -- A load in the DC stage has the register as its destination.
  abbrev pub load_hazard : Machine S → ℕ → ℕ → Bool
  load_hazard m rs rt =
      (request_value m.cpu.request.request_type == 1)
      && ((m.cpu.exdc_dest == rs) && has m.rfex_flags info_needrs
          || ((m.cpu.exdc_dest == rt) && has m.rfex_flags info_needrt))

  -- The registers while the operands are read: the result in WB forwarded, R0 cleared.
  abbrev pub forwarded : Machine S → ℕ → ℕ
  forwarded m = update (update m.cpu.regs m.dcwb_dest m.dcwb_result) 0 0

  -- The registers afterwards.
  abbrev pub restored : Machine S → ℕ → ℕ
  restored m = update (forwarded m) m.dcwb_dest (m.cpu.regs m.dcwb_dest)

  unfoldable pub ex_stage : ℕ → (Opcode → MachineFunction S) → Stage S
  unfolding sources load_interlock
  ex_stage random fpu m =
      let m1 = with_cpu m (record m.cpu { exdc_common = m.cpu.rfex_common }) in
      let status = u32 (m.cpu.regs cp0_status) in
      let operands = sources status m.rfex_flags m.rfex_iw in
      if has m.rfex_flags info_fpu && not (has status 0x20000000)
      then some (1, with_cpu m1 (cp_unusable m1.cpu))
      else if load_hazard m1 operands.0 operands.1
      then some (1, load_interlock m1)
      else let m2 = with_cpu m1 (ready (record m1.cpu { regs = restored m1 })) in
        function_table random fpu m.rfex_opcode m2 m.rfex_iw (forwarded m1 operands.0)
          (forwarded m1 operands.1)

  unfoldable pub wb_stage : Machine S → Machine S
  wb_stage m = with_cpu m (set_reg m.cpu m.dcwb_dest m.dcwb_result)

  module _ (b : BusOps S) where
    -- The end of `vr4300_rf_stage`.
    unfoldable pub fetch : Machine S → ℕ → ℕ → Bool → Option (ℕ × Machine S)
    fetch m vaddr paddr cached =
        let refill : Option (ℕ × Machine S) =
          icb b (record m { rfex_paddr = paddr; rfex_cached = cached }) >>= λ m'. some (1, m') in
        let word = bit_and paddr 0x1C >>> 2 in
        elim (icache_probe m.icache vaddr paddr) [
          | none ↦ refill
          | some line ↦ if cached then some (0, record m { rfex_iw = line.words word }) else refill
        ]

    -- The translation of `vr4300_rf_stage`.
    unfoldable pub rf_segment : Machine S → ℕ → Segment → Option (ℕ × Machine S)
    unfolding translate fetch
    rf_segment m vaddr segment = elim segment.mapped [
      | false ↦ fetch m vaddr (unmapped segment vaddr) segment.cached
      | true ↦ do
        t ← translate m vaddr
        if t.miss || not (has t.bits 0x2)
            then some (1, with_cpu m (instruction_tlb_fault m.cpu segment t.miss))
            else fetch m vaddr t.paddr (not (bit_and t.bits 0x38 == 0x10))
    ]

    unfoldable pub rf_stage : Stage S
    unfolding rf_segment
    rf_stage m =
        let m1 = with_cpu m (record m.cpu { rfex_common = m.cpu.icrf_common }) in
        m.cpu.icrf_segment >>= rf_segment m1 m.cpu.icrf_common.pc
