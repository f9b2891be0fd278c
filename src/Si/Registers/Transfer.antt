-- ===== src/Si/Registers/Transfer.antt =====
-- The two transfers, as writes of the registers.
use cen.Base.{ℕ, ◌+◌, ◌%◌, ◌^◌, ◌≤◌, ◌<◌, ◌≡◌, refl, some, Option, bit_and_low, Bytes, copy, arith}
use cen.Si.Rtc.{TimeStamp}
use cen.Si.Pif.{SiController, si_dram_addr_reg}
use cen.Si.Registers.{write_si_regs, dma_to_pif, dma_offset, signal_si}

masked : (s : SiController) → dma_offset s ≡ s.regs si_dram_addr_reg % 2 ^ 29
unfolding dma_offset
masked s = bit_and_low 29 (s.regs si_dram_addr_reg)

module _ (get_local_time : ℕ → TimeStamp) (get_offset_seconds : TimeStamp → ℕ) (junk : Bytes) where
  -- A write of a whole word to the register at an offset.
  abbrev pub poke : SiController → ℕ → ℕ → Option SiController
  poke s offset word =
      write_si_regs get_local_time get_offset_seconds junk s (0x04800000 + offset) word 0xFFFFFFFF

  fetch :
      (s : SiController)
      → s.regs si_dram_addr_reg % 2 ^ 29 + 0x40 ≤ 0x800000
      → (s' : SiController) × (poke s 0x10 0 ≡ some s')
        × (s'.ri ≡ s.ri)
        × ((i : ℕ)
            → i < 0x40
            → (s'.ram i ≡ s.ri.ram (s.regs si_dram_addr_reg % 2 ^ 29 + i))
              × (s'.command i ≡ s.ri.ram (s.regs si_dram_addr_reg % 2 ^ 29 + i)))
  unfolding write_si_regs dma_to_pif signal_si
  fetch s fits =
      let ram' = copy s.ram 0 s.ri.ram (dma_offset s) 0x40 in
      let at : dma_offset s ≡ s.regs si_dram_addr_reg % 2 ^ 29 = masked s in
      (
        signal_si (record s { ram = ram'; command = copy s.command 0 ram' 0 0x40 }),
        ground (arith, at),
        refl,
        λ i h. ground (arith, at, h),
      )
