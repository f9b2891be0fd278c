-- ===== src/Cpu/Pipeline/Tests.antt =====
-- Runs of the pipeline, the TLB and the caches, and inputs for their theorems.
use cen.Base.{
  ℕ, zero, suc, ◌+◌, ◌-◌, ◌^◌, ◌<◌, ◌≡◌, refl, true, false, none, some, [], ◌∷◌, get_or, arith, map,
}
use cen.Segment.{kseg0}
use cen.Bus.Dispatch.{bus_map}
use cen.Ri.{RiController}
use cen.Cpu.State.{Vr4300, Latch, BusRequest, no_fault, request_none, request_read, access_word}
use cen.Cpu.Decode.{Opcode}
use cen.Cpu.Alu.{Operation, reference}
use cen.Cpu.Interlock.Rdram.{bus, rdram_memory}
use cen.Cpu.Cache.{Line, Lines, is_valid, dcache_probe}
use cen.Cpu.Interlock.{dcm, interlocked, dcache_access_delay}
use cen.Cpu.Interlock.Transfer.{InRam, Memory}
use cen.Cpu.Interlock.Flush.{Coherent, IsPlaced, value}
use cen.Cpu.Interlock.Coherence.{dcm-Coherent}
use cen.Cpu.Tlb.{Tlb, tlb_probe}
use cen.Cpu.Tlb.Probe.{scan, tlb_probe-scan, tlb_probe-asid_zero}
use cen.Cpu.Machine.{BusOps, CacheOp, Machine, MachineFunction}
use cen.Cpu.Pipeline.Forward.{seen}
use cen.Cpu.Pipeline.Program.{after}

abbrev latch_at : ℕ → Latch
latch_at pc = record { pc = pc; fault = no_fault; cause_data = 0 }

-- ADDU r3, r1, r2; SUBU r4, r3, r1; then ADDU r0, r0, r0.
abbrev prog : ℕ → ℕ
prog k = get_or (0x00221821 ∷ 0x00612023 ∷ []) k 0x21

abbrev ops : ℕ → Operation
ops k = get_or (Operation.addu ∷ Operation.subu ∷ []) k Operation.addu

-- A line that is valid for the first page of memory.
abbrev line : Line
line = record { words = prog; metadata = 1 }

abbrev icache : Lines
icache i = line

abbrev base : ℕ
base = 0xFFFFFFFF80000000

abbrev no_request : BusRequest
no_request = record {
  vaddr = 0;
  data_mask = 0;
  wdqm = 0;
  access_type = access_word;
  request_type = request_none;
  size = 0;
  postshift = 0;
}

-- r1 holds 7 and r2 holds 5; the first instruction has been decoded.
abbrev start_cpu : Vr4300
start_cpu = record {
  regs = λ r. get_or (0 ∷ 7 ∷ 5 ∷ []) r 0;
  dcwb_common = latch_at 0;
  exdc_common = latch_at 0;
  exdc_segment = kseg0;
  exdc_result = 0;
  exdc_dest = 0;
  request = no_request;
  rfex_common = latch_at base;
  rfex_iw_mask = 0xFFFFFFFF;
  icrf_common = latch_at (base + 4);
  icrf_segment = some kseg0;
  icrf_pc = base + 8;
  exception_history = 0;
  cycles_to_stall = 0;
  fault_present = false;
  signals = 0;
}

abbrev no_tlb : Tlb
no_tlb = record {
  page_mask = λ i. 0x7FFFFFF;
  vpn2 = λ i. i;
  global = λ i. 0;
  asid = λ i. 3;
  valid = λ i. 0;
}

abbrev ram : RiController
ram = record { rdram_regs = λ i. 0; regs = λ i. 0; ram = λ i. 0x11 }

-- One dirty line, for the addresses from 0x40 on.
abbrev dcache : Lines
dcache (suc (suc (suc (suc zero)))) = record { words = λ k. 0x22; metadata = 3 }
dcache other = record { words = λ k. 0; metadata = 0 }

abbrev machine_of : Vr4300 → Machine RiController
machine_of c = record {
  cpu = c;
  bus = ram;
  dcwb_result = 0;
  dcwb_dest = 0;
  last_op_was_cache_store = false;
  request_paddr = 0;
  request_cacheop = CacheOp.unimplemented;
  exdc_cached = true;
  rfex_opcode = Opcode.addu;
  rfex_flags = 0x18;
  rfex_iw = prog 0;
  rfex_paddr = 0;
  rfex_cached = true;
  dcache = dcache;
  icache = icache;
  tlb = no_tlb;
  page_mask = λ i. 0;
  pfn = λ i half. 0;
  state = λ i half. 0;
}

abbrev start : Machine RiController
start = machine_of start_cpu

abbrev the_bus : BusOps RiController
the_bus = bus (bus_map true) (λ h ri a. some (0, ri)) (λ h ri a w d. some ri)

-- CP1 is not reached.
abbrev no_fpu : Opcode → MachineFunction RiController
no_fpu op m iw rs rt = none

-- r3 is 12, and r4 is 5.
after_two : map (after prog ops 0 2 (seen start)) (3 ∷ 4 ∷ []) ≡ 12 ∷ 5 ∷ []
unfolding reference
after_two = refl

-- A load from page 2 that meets the dirty line.
abbrev missing : Machine RiController
missing =
    record (machine_of (record start_cpu {
      request = record no_request { vaddr = base + 0x2040; request_type = request_read; size = 4 };
    })) { request_paddr = 0x2040 }

-- The memory behind the bus.
abbrev memory : Memory RiController the_bus
memory = rdram_memory (bus_map true) (λ h ri a. some (0, ri)) (λ h ri a w d. some ri)

missing-Coherent : Coherent memory missing.dcache missing.bus
missing-Coherent = record { valid = λ i. omega arith; small = small; placed = placed }
  where
    small : (i : ℕ) → (dcache i).metadata < 2 ^ 32
    small (suc (suc (suc (suc zero)))) = omega arith
    small other = omega arith

    placed : (i : ℕ) → i < 512 → is_valid (dcache i) ≡ true → IsPlaced memory ram i (dcache i)
    placed (suc (suc (suc (suc zero)))) h valid = record {
      words_small = λ k. omega arith;
      in_ram = omega arith;
      at_index = refl;
      clean = λ is_clean k below. cc;
    }
    placed other h valid = cc

dcm-Coherent_example :
    (m : Machine RiController) × (found : Line) × (dcm the_bus missing ≡ some m)
    × (m.cpu ≡ interlocked missing.cpu dcache_access_delay 1)
    × Coherent memory m.dcache m.bus
    × (dcache_probe m.dcache (base + 0x2040) 0x2040 ≡ some found)
    × ((a : ℕ)
        → InRam a
        → value memory m.dcache m.bus a ≡ value memory missing.dcache missing.bus a)
dcm-Coherent_example = dcm-Coherent memory missing refl missing-Coherent refl (omega arith)

-- The page of entry 5, in the address space 3.
tlb_probe-scan_example : tlb_probe no_tlb 0xA000 3 ≡ scan no_tlb 0xA000 3 0 32
tlb_probe-scan_example =
    tlb_probe-scan no_tlb 0xA000 3 (omega arith) (λ j k hj hk mj mk. ground arith)

-- Entry 5 again, for the kernel's ASID 0.
tlb_probe-asid_zero_example : tlb_probe no_tlb 0xA000 0 ≡ (0, 2 ^ 32 - 1)
tlb_probe-asid_zero_example =
    tlb_probe-asid_zero no_tlb 0xA000 0 5 refl (omega arith) refl (λ k h. ground arith)
