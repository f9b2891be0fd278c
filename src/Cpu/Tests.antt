-- ===== src/Cpu/Tests.antt =====
-- The theorems on the VR4300 at concrete instructions.
use cen.Base.{ℕ, ◌+◌, ◌*◌, ◌-◌, ◌/◌, ◌%◌, ◌^◌, ◌≡◌, refl, some, true, false, load_be, arith, sext32}
use cen.Segment.{default_segment}
use cen.Bus.Dispatch.{bus_map}
use cen.Ri.{RiController, read_rdram}
use cen.Cpu.State.{
  cp0_status, Vr4300, Latch, BusRequest, request_none, access_word, no_fault, cp0_status,
}
use cen.Cpu.Execute.{ready, execute}
use cen.Cpu.Memory.{swl_swr}
use cen.Cpu.Multiply.{dmult}
use cen.Cpu.Multiply.Divide.{div_divu, ddiv}
use cen.Cpu.Multiply.Product.{hi_lo_64, signed_product, dmult-product}
use cen.Cpu.Multiply.Quotient.{lo_of, hi_of, IsQuotient, ddiv-IsQuotient, div-IsQuotient}
use cen.Cpu.Fault.{eret}
use cen.Cpu.Fault.Return.{
  Exception, raise_exception, exception_code, resume_pc, Entered, raise_exception-Entered,
}
use cen.Cpu.Fault.RoundTrip.{eret-raise_exception}
use cen.Cpu.Branch.Reference.{BranchOp, branch_state, branch_code}
use cen.Cpu.Branch.Taken.{execute-branch}
use cen.Cpu.Store.Unaligned.{store}
use cen.Cpu.Store.Across.{swl_swr-across}

abbrev at_pc : ℕ → Latch
at_pc pc = record { pc = pc; fault = no_fault; cause_data = 0 }

abbrev no_request : BusRequest
no_request = record {
  vaddr = 0;
  data_mask = 0;
  wdqm = 0;
  access_type = access_word;
  request_type = request_none;
  size = 0;
  postshift = 0;
}

abbrev idle : Vr4300
idle = record {
  regs = λ i. 0;
  dcwb_common = at_pc 0x100;
  exdc_common = at_pc 0x104;
  exdc_segment = default_segment;
  exdc_result = 0;
  exdc_dest = 0;
  request = no_request;
  rfex_common = at_pc 0x108;
  rfex_iw_mask = 0xFFFFFFFF;
  icrf_common = at_pc 0x10C;
  icrf_segment = some default_segment;
  icrf_pc = 0x110;
  exception_history = 0;
  cycles_to_stall = 0;
  fault_present = false;
  signals = 0;
}

-- BEQ of register 0 with itself to itself.
execute-branch_example :
    execute idle 0x1000FFFF 0 0 ≡ some (branch_state BranchOp.beq (ready idle) 0x1000FFFF 0 0)
unfolding branch_code
execute-branch_example =
    execute-branch BranchOp.beq idle 0x1000FFFF 0 0 (omega arith) refl (omega arith)

ddiv-IsQuotient_example :
    IsQuotient
      (2 ^ 63)
      (lo_of (ddiv idle 0 (2 ^ 64 - 7) 2))
      (hi_of (ddiv idle 0 (2 ^ 64 - 7) 2))
      (2 ^ 64 - 7)
      2
ddiv-IsQuotient_example =
    ddiv-IsQuotient idle 0 (2 ^ 64 - 7) 2 (omega arith) (omega arith) (omega arith)

div-IsQuotient_example :
    IsQuotient
      (2 ^ 64 - 2 ^ 31)
      (lo_of (div_divu idle 0x1A 0x80000000 0xFFFFFFFF))
      (hi_of (div_divu idle 0x1A 0x80000000 0xFFFFFFFF))
      (sext32 0x80000000)
      (sext32 0xFFFFFFFF)
div-IsQuotient_example = div-IsQuotient idle 0x1A 0x80000000 0xFFFFFFFF refl (omega arith)

dmult-product_example : hi_lo_64 (dmult idle 0 (2 ^ 64 - 3) 5) ≡ signed_product (2 ^ 64 - 3) 5
dmult-product_example = dmult-product idle 0 (2 ^ 64 - 3) 5 (omega arith) (omega arith)

raise_exception-Entered_example :
    Entered idle (raise_exception Exception.sysc idle) (exception_code Exception.sysc)
raise_exception-Entered_example = raise_exception-Entered Exception.sysc idle refl

eret-raise_exception_example :
    ((eret (raise_exception Exception.trap idle) 0 0 0).1.icrf_pc ≡ resume_pc (at_pc 0x104))
    × ((eret (raise_exception Exception.trap idle) 0 0 0).1.regs cp0_status ≡ sext32 0)
eret-raise_exception_example = eret-raise_exception Exception.trap idle 0 0 0 refl refl

abbrev ram : RiController
ram = record { rdram_regs = λ i. 0; regs = λ i. 0; ram = λ i. 0xFF }

-- SWL to 0x101 and SWR to 0x104 on a bus whose other components ignore writes.
swl_swr-across_example :
    (ri1 : RiController) × (ri2 : RiController) × (w0 : ℕ) × (w1 : ℕ) × (store
        (bus_map true)
        (λ h ri a w d. some ri)
        ram
        (swl_swr idle 0xA8020101 0 0x11223344).1.request
        (0x100 + 1)
      ≡ some ri1)
    × (store
          (bus_map true)
          (λ h ri a w d. some ri)
          ri1
          (swl_swr idle 0xB8020104 0 0x11223344).1.request
          (0x100 + 1 + 3)
        ≡ some ri2)
    × (read_rdram ri2 0x100 ≡ some w0)
    × (read_rdram ri2 (0x100 + 4) ≡ some w1)
    × (w0 * 2 ^ 32 + w1
        ≡ load_be ram.ram 0x100 / 2 ^ (32 - 8 * 1) * 2 ^ (64 - 8 * 1)
          + 0x11223344 % 2 ^ 32 * 2 ^ (32 - 8 * 1)
          + load_be ram.ram (0x100 + 4) % 2 ^ (32 - 8 * 1))
swl_swr-across_example =
    swl_swr-across (bus_map true) (λ h ri a w d. some ri) idle ram 0xA8020101 0xB8020104 0
      0x11223344 0x100 (λ i. omega arith) refl (omega arith) refl refl 1 (omega arith) (omega arith)
      refl refl

-- An access to a mapped address.
abbrev at_page : Vr4300
at_page = record idle { request = record (idle.request) { vaddr = 0x12345678 } }
