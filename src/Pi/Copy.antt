-- ===== src/Pi/Copy.antt =====
-- A transfer from the cartridge to RDRAM, as `pi_dma_write` carries it out.
use cen.Base.{
  ℕ, ◌+◌, ◌<◌, ◌≡◌, ◌≢◌, true, some, none, bit_and, Bytes, Option-cases, inl, inr, arith,
}
use cen.Pi.{PiController, DdInterface, pi_dram_addr_reg, pi_cart_addr_reg, pi_wr_len_reg}
use cen.Pi.Dma.{RomLoop, dma_write_rom, pi_dma_write}
use cen.Pi.Rom.{IsAligned, Copied, Copies, rom_loop_aligned}

module _ {Dd : Type 0} (io : DdInterface Dd) where
  -- The transfer that the registers ask for.
  abbrev pub asked : PiController Dd → ℕ
  asked s = bit_and (s.regs pi_wr_len_reg) 0xFFFFFF + 1

  abbrev pub start : Bytes → PiController Dd → RomLoop
  start junk s = record {
    dram = s.regs pi_dram_addr_reg;
    cart = s.regs pi_cart_addr_reg;
    ri = s.ri;
    mem = junk;
  }

  write_rom-Copies :
      (junk rom : Bytes) (s s' : PiController Dd)
      → Copies (asked s + 1) rom s.rom_size true (asked s) (start junk s)
      → dma_write_rom io junk rom (asked s) s ≡ some s'
      → Copied rom s.rom_size (asked s) (start junk s) s'.ri
  unfolding dma_write_rom
  write_rom-Copies junk rom s s' (t, e, c) p i = ground (arith, c i)

  write_rom_returns :
      (junk rom : Bytes) (s : PiController Dd)
      → Copies (asked s + 1) rom s.rom_size true (asked s) (start junk s)
      → dma_write_rom io junk rom (asked s) s ≢ none
  unfolding dma_write_rom
  write_rom_returns junk rom s (t, e, c) p = ground arith

  from_rom :
      (junk rom : Bytes) (s : PiController Dd)
      → s.rom ≡ some rom
      → io.ipl_rom s.dd ≡ none
      → bit_and (s.regs pi_cart_addr_reg) 0xFFFFFFE < 0x08000000
      → bit_and (bit_and (s.regs pi_cart_addr_reg) 0xFFFFFFE) 0x05000000 ≢ 0x05000000
      → pi_dma_write io junk s ≡ dma_write_rom io junk rom (asked s) s
  unfolding pi_dma_write
  from_rom junk rom s has_rom no_ipl low no_disk = ground arith

  -- With a ROM, no 64DD, a cartridge address below 0x08000000 on the bus of 28 bits that is not the
  -- 64DD's, and an aligned transfer inside both memories, `pi_dma_write` is defined: RDRAM then holds
  -- the bytes of the cartridge, 0xFF past the end of the ROM, and is unchanged elsewhere.
  pub pi_dma_write_copies :
      (junk rom : Bytes) (s : PiController Dd)
      → s.rom ≡ some rom
      → io.ipl_rom s.dd ≡ none
      → bit_and (s.regs pi_cart_addr_reg) 0xFFFFFFE < 0x08000000
      → bit_and (bit_and (s.regs pi_cart_addr_reg) 0xFFFFFFE) 0x05000000 ≢ 0x05000000
      → IsAligned (start junk s) (asked s)
      → (s' : PiController Dd) × (pi_dma_write io junk s ≡ some s')
        × Copied rom s.rom_size (asked s) (start junk s) s'.ri
  pi_dma_write_copies junk rom s has_rom no_ipl low no_disk a =
      let copies =
        rom_loop_aligned (asked s + 1) rom s.rom_size true (asked s) (start junk s) (omega arith)
          a in
      rw (from_rom junk rom s has_rom no_ipl low no_disk)
        (elim (Option-cases (dma_write_rom io junk rom (asked s) s)) [
          | inl e ↦ absurd (write_rom_returns junk rom s copies e)
          | inr (s', e) ↦ (s', e, write_rom-Copies junk rom s s' copies e)
        ])
