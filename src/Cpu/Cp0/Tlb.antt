-- ===== src/Cpu/Cp0/Tlb.antt =====
-- vr4300/cp0.c: the instructions of the TLB. `random` is a value of the C library's `rand`.
use cen.Base.{
  ℕ, ◌+◌, ◌-◌, ◌%◌, Option, some, bit_and, bit_or, ◌==◌, if◌then◌else◌, u32, not32, ◌>>>◌, ◌<<<◌,
  update,
}
use cen.Cpu.State.{set_reg}
use cen.Cpu.Words.{shl64}
use cen.Cpu.Cp0.{mask_reg}
use cen.Cpu.Tlb.{tlb_probe, tlb_read, tlb_write}
use cen.Cpu.Machine.{Machine, with_cpu}

abbrev cp0_index : ℕ
cp0_index = 32

-- The registers that TLBR writes and TLBWI reads: EntryLo0, EntryLo1, PageMask and EntryHi.
abbrev cp0_entrylo0 : ℕ
cp0_entrylo0 = 34

abbrev cp0_entrylo1 : ℕ
cp0_entrylo1 = 35

abbrev cp0_pagemask : ℕ
cp0_pagemask = 37

abbrev cp0_entryhi : ℕ
cp0_entryhi = 42

module _ {S : Type 0} where
  unfoldable pub tlbp : Machine S → ℕ → ℕ → ℕ → Option (ℕ × Machine S)
  tlbp m iw rs rt =
      let entry_hi = mask_reg 10 (m.cpu.regs cp0_entryhi) in
      let probe = tlb_probe m.tlb entry_hi (bit_and entry_hi 0xFF) in
      let missed = set_reg m.cpu cp0_index (bit_or (m.cpu.regs cp0_index) 0x80000000) in
      some (0, with_cpu m (if probe.0 == 0 then set_reg missed cp0_index probe.1 else missed))

  unfoldable pub tlbr : Machine S → ℕ → ℕ → ℕ → Option (ℕ × Machine S)
  tlbr m iw rs rt =
      let index = bit_and (m.cpu.regs cp0_index) 0x1F in
      let page_mask = bit_and (u32 (m.page_mask index <<< 1)) 0x1FFE000 in
      let entrylo = λ (half : ℕ). bit_or (m.pfn index half >>> 6) (m.state index half) in
      let c1 = set_reg m.cpu cp0_entryhi (tlb_read m.tlb index) in
      let c2 = set_reg (set_reg c1 cp0_entrylo0 (entrylo 0)) cp0_entrylo1 (entrylo 1) in
      some (0, with_cpu m (set_reg c2 cp0_pagemask page_mask))

  -- The body that TLBWI and TLBWR share.
  unfoldable pub write_entry : Machine S → ℕ → Machine S
  write_entry m index =
      let entry_hi = mask_reg 10 (m.cpu.regs cp0_entryhi) in
      let entry_lo_0 = mask_reg 2 (m.cpu.regs cp0_entrylo0) in
      let entry_lo_1 = mask_reg 3 (m.cpu.regs cp0_entrylo1) in
      let page_mask = u32 (mask_reg 5 (m.cpu.regs cp0_pagemask)) in
      let frame = λ (entry_lo : ℕ). bit_and (u32 (shl64 entry_lo 6)) (not32 0xFFF) in
      let pfn = update (update (m.pfn index) 0 (frame entry_lo_0)) 1 (frame entry_lo_1) in
      let bits =
        update (update (m.state index) 0 (bit_and entry_lo_0 0x3F)) 1 (bit_and entry_lo_1 0x3F) in
      record m {
        tlb = tlb_write m.tlb index entry_hi entry_lo_0 entry_lo_1 page_mask;
        page_mask = update m.page_mask index (bit_or page_mask 0x1FFF >>> 1);
        pfn = update m.pfn index pfn;
        state = update m.state index bits;
      }

  unfoldable pub tlbwi : Machine S → ℕ → ℕ → ℕ → Option (ℕ × Machine S)
  unfolding write_entry
  tlbwi m iw rs rt = some (0, write_entry m (bit_and (m.cpu.regs cp0_index) 0x1F))

  unfoldable pub tlbwr : ℕ → Machine S → ℕ → ℕ → ℕ → Option (ℕ × Machine S)
  unfolding write_entry
  tlbwr random m iw rs rt =
      let wired = bit_and (m.cpu.regs 38) 0x1F in
      some (0, write_entry m (random % (32 - wired) + wired))
