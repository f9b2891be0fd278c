-- ===== src/Cpu/Pipeline/Cycle.antt =====
-- vr4300/pipeline.c and vr4300/cpu.c: the cycles, from the stage at which one starts.
use cen.Base.{
  ℕ, ◌+◌, ◌-◌, false, not, ◌&&◌, ◌||◌, Option, none, some, bit_and, bit_or, ltb, ◌==◌,
  if◌then◌else◌, has, u32, u64, ◌>>>◌, ◌>>=◌,
}
use cen.Segment.{default_segment}
use cen.Cpu.State.{no_fault, set_reg, pipeline_cycle_type, cp0_status, cp0_cause}
use cen.Cpu.Decode.{Opcode}
use cen.Cpu.Fault.{with_fault, interrupt}
use cen.Cpu.Tlb.{tlb_init}
use cen.Cpu.Machine.{BusOps, Machine, MachineFunction, with_cpu, is_no_fault, then_stage}
use cen.Cpu.Interlock.{dcm}
use cen.Cpu.Pipeline.{ic_stage, rf_stage, ex_stage, wb_stage}
use cen.Cpu.Pipeline.DataStage.{dc_stage}

abbrev pub cp0_count : ℕ
cp0_count = 41

abbrev pub cp0_compare : ℕ
cp0_compare = 43

module _ {S : Type 0} where
  unfoldable pub pipeline_init : Machine S → Machine S
  pipeline_init m =
      with_cpu m
        (record m.cpu { icrf_segment = some default_segment; exdc_segment = default_segment })

  -- The part of `vr4300_init` that this state has, after the allocation of zeroes.
  unfoldable pub cpu_init : Machine S → Machine S
  unfolding pipeline_init
  cpu_init m =
      let m1 = pipeline_init (record m { tlb = tlb_init m.tlb }) in
      with_cpu m1 (record m1.cpu { signals = 0x2 })

  unfoldable pub cycle_slow_ic : Machine S → Option (Machine S)
  cycle_slow_ic m =
      let c = record m.cpu { icrf_common = with_fault m.cpu.icrf_common no_fault } in
      ic_stage (with_cpu m (set_reg c pipeline_cycle_type 0))

  unfoldable pub cycle_busywait : Machine S → Machine S
  cycle_busywait m =
      let status = u32 (m.cpu.regs cp0_status) in
      let cause = u32 (m.cpu.regs cp0_cause) in
      let over = has (bit_and cause status) 0xFF00 && (has status 0x1 && not (has status 0x6)) in
      if over then with_cpu m (interrupt m.cpu) else m

  module _ (b : BusOps S) where
    unfoldable pub cycle_slow_rf : Machine S → Option (Machine S)
    cycle_slow_rf m =
        let killed = with_cpu m (record m.cpu { rfex_common = m.cpu.icrf_common }) in
        if is_no_fault m.cpu.icrf_common.fault
        then then_stage (rf_stage b m) cycle_slow_ic
        else cycle_slow_ic killed

    module _ (random : ℕ) (fpu : Opcode → MachineFunction S) where
      unfoldable pub cycle_slow_ex : Machine S → Option (Machine S)
      cycle_slow_ex m =
          let killed =
            with_cpu m (record m.cpu { exdc_common = m.cpu.rfex_common; exdc_dest = 0 }) in
          if is_no_fault m.cpu.rfex_common.fault
          then then_stage (ex_stage random fpu m) cycle_slow_rf
          else cycle_slow_rf killed

      unfoldable pub cycle_slow_dc : Machine S → Option (Machine S)
      cycle_slow_dc m =
          let latched = with_cpu m (record m.cpu { dcwb_common = m.cpu.exdc_common }) in
          if is_no_fault m.cpu.exdc_common.fault
          then then_stage (dc_stage b m) cycle_slow_ex
          else cycle_slow_ex (record latched { dcwb_dest = 0 })

      -- The test of `exception_history++ > 3` reads the old value.
      unfoldable pub cycle_slow_wb : Machine S → Option (Machine S)
      cycle_slow_wb m =
          let history = m.cpu.exception_history in
          let present = if ltb 3 history then false else m.cpu.fault_present in
          let c = record m.cpu { exception_history = u32 (history + 1); fault_present = present } in
          let m1 = with_cpu m c in
          cycle_slow_dc (if is_no_fault m.cpu.dcwb_common.fault then wb_stage m1 else m1)

      -- The table of functions, by the type of the cycle.
      unfoldable pub cycle_slow : ℕ → Machine S → Option (Machine S)
      cycle_slow kind m =
          if kind == 0
          then cycle_slow_wb m
          else if kind == 1
          then cycle_slow_dc m
          else if kind == 2
          then cycle_slow_ex m
          else if kind == 3
          then cycle_slow_rf m
          else if kind == 4
          then cycle_slow_ic m
          else if kind == 5
          then some (cycle_busywait m)
          else if kind == 6
          then dcm b m
          else none

      -- The path without a fault.
      unfoldable pub cycle_fast : Machine S → Option (Machine S)
      cycle_fast m =
          then_stage (dc_stage b (wb_stage m))
            λ m1. then_stage (ex_stage random fpu m1) λ m2. then_stage (rf_stage b m2) ic_stage

      -- `vr4300_cycle_`.
      unfoldable pub pipeline_cycle : Machine S → Option (Machine S)
      unfolding cycle_slow cycle_fast
      pipeline_cycle m =
          let kind = m.cpu.regs pipeline_cycle_type in
          if m.cpu.fault_present || not (kind == 0) then cycle_slow kind m else cycle_fast m

      -- `vr4300_cycle`: the counters around it.
      unfoldable pub cycle : Machine S → Option (Machine S)
      unfolding pipeline_cycle
      cycle m = do
        let counted = set_reg m.cpu cp0_count (u64 (m.cpu.regs cp0_count + 1))
        let left = counted.cycles_to_stall
        let m1 = with_cpu m counted
        let stalled = with_cpu m (record counted { cycles_to_stall = left - 1 })
        m2 ← if ltb 0 left then some stalled else pipeline_cycle m1
        let count = m2.cpu.regs cp0_count
        let due = (bit_and count 1 == 1) && (u32 (count >>> 1) == u32 (m2.cpu.regs cp0_compare))
        let cause = bit_or (m2.cpu.regs cp0_cause) 0x8000
        some (if due then with_cpu m2 (set_reg m2.cpu cp0_cause cause) else m2)
