-- ===== src/Cpu/Fault/Vector.antt =====
-- Where the exceptions of the TLB go, and what they record.
use cen.Base.{
  ℕ, ◌+◌, ◌/◌, ◌%◌, ◌^◌, ◌<◌, ◌≡◌, ◌⊎◌, Bool, true, false, not, ◌||◌, bit_or, ◌==◌, if◌then◌else◌,
  has, u32, u64, sub64, ◌>>>◌,
}
use cen.Cpu.State.{Vr4300, Latch, request_value, cp0_status, cp0_cause, cp0_epc}
use cen.Cpu.Fault.Context.{IsNarrow, IsWide}
use cen.Cpu.Fault.Tlb.{cp0_badvaddr, cp0_context, cp0_xcontext, data_tlb_fault}

-- The return address: the branch, for an instruction in its delay slot.
abbrev pub resume_at : Latch → ℕ
resume_at l = if not (l.cause_data >>> 31 == 0) then sub64 l.pc 4 else l.pc

abbrev pub vector : ℕ → ℕ → ℕ
vector status offs =
    if has status 0x400000 then u64 (0xFFFFFFFFBFC00200 + offs) else u64 (0xFFFFFFFF80000000 + offs)

-- What the code of the exception is by the access, for a miss or an invalid page.
abbrev pub access_code : Vr4300 → ℕ
access_code c = if request_value c.request.request_type == 2 then 3 else 2

-- The offset of the refill vector, the one of the extended addresses if they are on for the segment.
abbrev pub refill : Vr4300 → ℕ
refill c = if has (u32 (c.regs cp0_status)) c.exdc_segment.xmode_mask then 0x80 else 0

-- The state that a fault at the DC stage's address leaves, outside of a handler.
pub record IsFaulted (c d : Vr4300) (code offs : ℕ) : Type 0 where
  pub badvaddr : d.regs cp0_badvaddr ≡ c.request.vaddr
  pub epc : d.regs cp0_epc ≡ resume_at c.exdc_common
  pub status : d.regs cp0_status ≡ bit_or (u32 (c.regs cp0_status)) 0x2
  pub exc_code : d.regs cp0_cause / 4 % 32 ≡ code
  pub fault_vector : d.icrf_pc ≡ vector (u32 (c.regs cp0_status)) offs
  pub page :
      ((has (u32 (c.regs cp0_status)) c.exdc_segment.xmode_mask ≡ true)
        × IsWide c d c.request.vaddr)
      ⊎ ((has (u32 (c.regs cp0_status)) c.exdc_segment.xmode_mask ≡ false)
          × IsNarrow c d c.request.vaddr)

-- Registers of 64 bits, outside of a handler.
pub record IsOutside (c : Vr4300) : Type 0 where
  pub exl_clear : has (u32 (c.regs cp0_status)) 0x2 ≡ false
  pub vaddr_fits : c.request.vaddr < 2 ^ 64
  pub context_fits : c.regs cp0_context < 2 ^ 64
  pub xcontext_fits : c.regs cp0_xcontext < 2 ^ 64

module _ (c : Vr4300) (o : IsOutside c) (miss inv modified : Bool) where
  abbrev code : ℕ
  code = if miss || inv then access_code c else 1

  abbrev faulted : Vr4300
  faulted = data_tlb_fault c miss inv modified
