-- ===== src/Cpu/State.antt =====
-- The state: struct vr4300, struct vr4300_pipeline and its latches, with the fields that the
-- instructions and the exceptions use.
mod Register
pub use Register.*
use cen.Base.{ℕ, ◌-◌, Bool, Option, update, sub32}
use cen.Segment.{Segment}

-- enum vr4300_fault_id; `killed` is the value ~0 that ERET stores.
pub data FaultId : Type 0 where
  no_fault cp0i rst nmi ovfl trap fpe dade dtlb wat intr dcm dcb cop dbe sysc brpt : FaultId
  cpu rsvd ldi mci iade itm icb unc itlb ibe ri killed : FaultId

-- struct vr4300_latch, the part that every latch has.
pub record Latch : Type 0 where
  pub pc : ℕ
  pub fault : FaultId
  pub cause_data : ℕ

-- enum vr4300_bus_request_type.
pub data RequestType : Type 0 where
  request_none request_read request_write request_cache request_cache_write : RequestType

abbrev pub request_value : RequestType → ℕ
request_value request_none = 0
request_value request_read = 1
request_value request_write = 2
request_value request_cache = 4
request_value request_cache_write = 5

-- enum vr4300_access_type.
pub data AccessType : Type 0 where
  access_word access_dword : AccessType

-- struct vr4300_bus_request, as the EX stage fills it.
pub record BusRequest : Type 0 where
  pub vaddr : ℕ
  pub data_mask : ℕ
  pub wdqm : ℕ
  pub access_type : AccessType
  pub request_type : RequestType
  pub size : ℕ
  pub postshift : ℕ

pub record Vr4300 : Type 0 where
  pub regs : ℕ → ℕ
  pub dcwb_common : Latch
  pub exdc_common : Latch
  pub exdc_segment : Segment
  pub exdc_result : ℕ
  pub exdc_dest : ℕ
  pub request : BusRequest
  pub rfex_common : Latch
  pub rfex_iw_mask : ℕ
  pub icrf_common : Latch
  pub icrf_segment : Option Segment
  pub icrf_pc : ℕ
  pub exception_history : ℕ
  pub cycles_to_stall : ℕ
  pub fault_present : Bool
  pub signals : ℕ

abbrev pub set_reg : Vr4300 → ℕ → ℕ → Vr4300
set_reg c index value = record c { regs = update c.regs index value }

-- `exdc_latch->result = result; exdc_latch->dest = dest;`.
abbrev pub latch_result : Vr4300 → ℕ → ℕ → Vr4300
latch_result c dest result = record c { exdc_result = result; exdc_dest = dest }

abbrev pub do_mci : Vr4300 → ℕ → ℕ × Vr4300
do_mci c cycles = (1, record (set_reg c pipeline_cycle_type 3) { cycles_to_stall = sub32 cycles 1 })
