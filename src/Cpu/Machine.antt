-- ===== src/Cpu/Machine.antt =====
-- struct vr4300 as the stages of its pipeline see it: the state of Cpu/State with the rest of the
-- latches of vr4300/pipeline.h, the TLB and the tables of vr4300/cp0.h, the caches, and the bus.

use cen.Base.{ℕ, Bool, Option, some, ◌==◌, if◌then◌else◌, ◌>>=◌}
use cen.Cpu.State.{Vr4300, FaultId, no_fault}
use cen.Cpu.Decode.{Opcode}
use cen.Cpu.Cache.{Lines}
use cen.Cpu.Tlb.{Tlb}

-- `bus_read_word` and `bus_write_word`, for a bus and its devices in a state S. A read can change
-- a device.
pub record BusOps (S : Type 0) : Type 0 where
  pub read_word : S → ℕ → Option (ℕ × S)
  pub write_word : S → ℕ → ℕ → ℕ → Option S

-- The functions of `cacheop_lut`.
pub data CacheOp : Type 0 where
  unimplemented ic_invalidate ic_set_taglo ic_invalidate_hit : CacheOp
  dc_wb_invalidate dc_get_taglo dc_set_taglo dc_create_dirty_ex dc_hit_invalidate : CacheOp
  dc_hit_wb_invalidate dc_hit_wb : CacheOp

pub record Machine (S : Type 0) : Type 0 where
  pub cpu : Vr4300
  pub bus : S
  pub dcwb_result : ℕ
  pub dcwb_dest : ℕ
  pub last_op_was_cache_store : Bool
  pub request_paddr : ℕ
  pub request_cacheop : CacheOp
  pub exdc_cached : Bool
  pub rfex_opcode : Opcode
  pub rfex_flags : ℕ
  pub rfex_iw : ℕ
  pub rfex_paddr : ℕ
  pub rfex_cached : Bool
  pub dcache : Lines
  pub icache : Lines
  pub tlb : Tlb
  pub page_mask : ℕ → ℕ
  pub pfn : ℕ → ℕ → ℕ
  pub state : ℕ → ℕ → ℕ

-- A stage, or an instruction: 1 ends the cycle. `none` is `abort` or undefined in C.
abbrev pub Stage : Type 0 → Type 0
Stage S = Machine S → Option (ℕ × Machine S)

abbrev pub MachineFunction : Type 0 → Type 0
MachineFunction S = Machine S → ℕ → ℕ → ℕ → Option (ℕ × Machine S)

-- `fault == VR4300_FAULT_NONE`.
abbrev pub is_no_fault : FaultId → Bool
is_no_fault no_fault = Bool.true
is_no_fault other = Bool.false

module _ {S : Type 0} where
  abbrev pub with_cpu : Machine S → Vr4300 → Machine S
  with_cpu m c = record m { cpu = c }

  -- `if (stage(vr4300)) return;` before the rest of a cycle.
  abbrev pub then_stage :
      Option (ℕ × Machine S) → (Machine S → Option (Machine S)) → Option (Machine S)
  then_stage o rest = do (code, m) ← o; if code == 0 then rest m else some m

  -- An instruction of Cpu/Execute.
  abbrev pub on_cpu : ℕ × Vr4300 → Machine S → Option (ℕ × Machine S)
  on_cpu (code, c) m = some (code, with_cpu m c)
