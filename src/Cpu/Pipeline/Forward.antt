-- ===== src/Cpu/Pipeline/Forward.antt =====
-- The registers as the program sees them: a result in flight counts from the EX stage on.
use cen.Base.{ℕ, ◌<◌, ◌≡◌, refl, false, Option, none, some, ◌==◌, if◌then◌else◌, has, u32, arith}
use cen.Cpu.State.{Vr4300, request_value, cp0_status, cp0_cause, set_reg}
use cen.Cpu.Words.{get_rs, get_rt}
use cen.Cpu.Decode.{Opcode, info_fpu}
use cen.Cpu.Execute.{Function, ready, dispatch, vr4300_function}
use cen.Cpu.Machine.{BusOps, Machine, MachineFunction, with_cpu, on_cpu}
use cen.Cpu.Pipeline.{function_table, on_table, forwarded, restored, ex_stage, wb_stage, sources}
use cen.Cpu.Pipeline.DataStage.{interrupted, latch_dc, dc_stage}

module _ {S : Type 0} where
  abbrev pub seen : Machine S → ℕ → ℕ
  seen m r =
      if r == 0
      then 0
      else if m.cpu.exdc_dest == r
      then m.cpu.exdc_result
      else if m.dcwb_dest == r
      then m.dcwb_result
      else m.cpu.regs r

  -- No reset, no interrupt that is let through, and no access to memory in the DC stage.
  pub record Quiet (m : Machine S) : Type 0 where
    pub no_reset : has m.cpu.signals 0x2 ≡ false
    pub no_interrupt :
        interrupted (u32 (m.cpu.regs cp0_cause)) (u32 (m.cpu.regs cp0_status)) ≡ false
    pub no_access : request_value m.cpu.request.request_type ≡ 0
    pub general : m.dcwb_dest < 32

  -- After WB and DC the results have moved on by one latch.
  abbrev pub moved : Machine S → Machine S
  moved m = latch_dc (with_cpu m (set_reg m.cpu m.dcwb_dest m.dcwb_result))

  pub wb_dc : (b : BusOps S) (m : Machine S) → Quiet m → dc_stage b (wb_stage m) ≡ some (0, moved m)
  unfolding wb_stage dc_stage
  wb_dc b m q =
      let status : (m.dcwb_dest == 44) ≡ false = ground (arith, q.general) in
      let cause : (m.dcwb_dest == 45) ≡ false = ground (arith, q.general) in
      rw (status, cause, q.no_reset, q.no_interrupt, q.no_access) refl

  -- What EX reads is what the program sees.
  pub forwarded-moved : (m : Machine S) (r : ℕ) → forwarded (moved m) r ≡ seen m r
  forwarded-moved m r = ground arith

  -- The state in which the instruction runs.
  abbrev pub running : Machine S → Vr4300
  running m = record (moved m).cpu { exdc_common = m.cpu.rfex_common; regs = restored (moved m) }

  module _ (random : ℕ) (fpu : Opcode → MachineFunction S) where
    on_dispatch :
        (o : Option Function) (other : MachineFunction S) (m : Machine S) (c : Vr4300)
        (iw rs rt : ℕ) (r : ℕ × Vr4300)
        → dispatch o c iw rs rt ≡ some r
        → on_table o other (with_cpu m (ready c)) iw rs rt ≡ on_cpu r m
    on_dispatch none other m c iw rs rt r h = cc
    on_dispatch (some f) other m c iw rs rt r h = ground (arith, h)

    -- The system instructions are not in the table of Cpu/Execute.
    in_table :
        (op : Opcode) (m : Machine S) (c : Vr4300) (iw rs rt : ℕ) (r : ℕ × Vr4300)
        → dispatch (vr4300_function op) c iw rs rt ≡ some r
        → function_table random fpu op (with_cpu m (ready c)) iw rs rt ≡ on_cpu r m
    unfolding function_table vr4300_function
    in_table Opcode.cache m c iw rs rt r h = cc
    in_table Opcode.tlbp m c iw rs rt r h = cc
    in_table Opcode.tlbr m c iw rs rt r h = cc
    in_table Opcode.tlbwi m c iw rs rt r h = cc
    in_table Opcode.tlbwr m c iw rs rt r h = cc
    in_table Opcode.dmfc0 m c iw rs rt r h = cc
    in_table Opcode.mfc0 m c iw rs rt r h = cc
    in_table Opcode.dmtc0 m c iw rs rt r h = cc
    in_table Opcode.mtc0 m c iw rs rt r h = cc
    in_table op m c iw rs rt r h = on_dispatch (vr4300_function op) (fpu op) m c iw rs rt r h

    -- EX after WB and DC: an instruction of Cpu/Execute runs with the operands that are seen.
    pub ex_runs :
        (m : Machine S) (r : ℕ × Vr4300)
        → Quiet m
        → has m.rfex_flags info_fpu ≡ false
        → dispatch
            (vr4300_function m.rfex_opcode)
            (running m)
            m.rfex_iw
            (seen m (get_rs m.rfex_iw))
            (seen m (get_rt m.rfex_iw))
          ≡ some r
        → ex_stage random fpu (moved m) ≡ on_cpu r (moved m)
    unfolding ex_stage sources
    ex_runs m r q integer h =
        let no_load : (request_value m.cpu.request.request_type == 1) ≡ false =
          rw q.no_access refl in
        rw (integer, no_load)
          (rw (forwarded-moved m (get_rs m.rfex_iw), forwarded-moved m (get_rt m.rfex_iw))
            (in_table m.rfex_opcode (moved m) (running m) m.rfex_iw _ _ r h))
