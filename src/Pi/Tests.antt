-- ===== src/Pi/Tests.antt =====
-- The theorems on the PI at concrete transfers.
use mathlib.Core.Option.{get_or}
use cen.Base.{
  ℕ, ◌+◌, ◌-◌, ◌*◌, ◌%◌, ◌^◌, ◌<◌, ◌≡◌, ◌↔◌, refl, false, some, none, ◌&&◌, leb, ltb, ◌==◌,
  if◌then◌else◌, bit, Bytes, arith,
}
use cen.Ri.{RiController}
use cen.Pi.{PiController, DdInterface, Flashram, flashram_idle, flashram_size}
use cen.Pi.Dma.{RomLoop, rom_loop, pi_dma_write, pi_cycle_}
use cen.Pi.Rom.{IsAligned, Copied}
use cen.Pi.Copy.{pi_dma_write_copies}
use cen.Pi.Registers.{write_pi_regs, start_dma}
use cen.Pi.Link.{IsLinked, write_pi_regs-IsLinked, pi_cycle_-IsLinked}
use cen.Pi.Flash.{flash_command, execute}
use cen.Pi.Flash.Laws.{flash_erase, flash_program}

abbrev ri_zero : RiController
ri_zero = record { rdram_regs = λ i. 0; regs = λ i. 0; ram = λ i. i % 2 ^ 8 }

abbrev boot_rom : Bytes
boot_rom i = (i + 3) % 2 ^ 8

-- From 0x10001000 on the cartridge to 0x400.
abbrev boot_copy : RomLoop
boot_copy = record { dram = 0x400; cart = 0x10001000; ri = ri_zero; mem = λ i. 0 }

boot_copy-IsAligned : IsAligned boot_copy 0x180
boot_copy-IsAligned = record {
  dram_aligned = refl;
  cart_even = refl;
  length_even = refl;
  in_ram = omega arith;
  in_cart = omega arith;
  cart_word = omega arith;
}

-- A system with no 64DD.
abbrev no_dd : DdInterface ℕ
no_dd = record {
  ipl_rom = λ dd. none;
  dd_dma_read = λ dd ri source dest length. dd;
  dd_dma_write = λ dd ri source dest length. (dd, ri);
  dd_pi_write = λ dd word. dd;
}

abbrev fresh_flash : Flashram
fresh_flash = record {
  contents = none;
  status = 0;
  mode = flashram_idle;
  offset = 0;
  rdram_pointer = 0;
}

abbrev board : PiController ℕ
board = record {
  vr4300 = record { mi_regs = λ i. 0; cause = 0 };
  ri = ri_zero;
  dd = 0;
  rom = some boot_rom;
  rom_size = 0x1100;
  sram = record { ptr = none; size = 0 };
  flashram = fresh_flash;
  counter = 0;
  bytes_to_copy = 0;
  is_dma_read = false;
  regs = λ i. 0;
}

board-IsLinked : IsLinked board
unfolding bit
board-IsLinked = record { linked = refl; wired = refl }

-- A write of 7 to PI_WR_LEN_REG asks for eight bytes.
abbrev started : PiController ℕ
started = get_or (write_pi_regs no_dd board 0x0460000C 7 0xFFFFFFFF) board

started_lem : write_pi_regs no_dd board 0x0460000C 7 0xFFFFFFFF ≡ some started
unfolding write_pi_regs start_dma
started_lem = refl

write_pi_regs-IsLinked_example : IsLinked started
write_pi_regs-IsLinked_example =
    write_pi_regs-IsLinked no_dd board started 0x0460000C 7 0xFFFFFFFF board-IsLinked started_lem

-- The eight bytes arrive.
abbrev delivered : PiController ℕ
delivered = get_or (pi_cycle_ no_dd (λ i. 0) started) started

delivered_lem : pi_cycle_ no_dd (λ i. 0) started ≡ some delivered
unfolding pi_cycle_ write_pi_regs start_dma rom_loop
delivered_lem = refl

pi_cycle_-IsLinked_example : (IsLinked delivered) × (delivered.bytes_to_copy ≡ 0)
pi_cycle_-IsLinked_example =
    pi_cycle_-IsLinked no_dd (λ i. 0) started delivered
      (write_pi_regs-IsLinked no_dd board started 0x0460000C 7 0xFFFFFFFF board-IsLinked
        started_lem)
      delivered_lem

-- Page 3 of the chip.
abbrev step : Flashram → ℕ → Flashram
step f word = get_or (flash_command f (λ i. 0) ri_zero word) f

flash_erase_example :
    ((flash_command (step (step fresh_flash 0x4B000003) 0x78000000) (λ i. 0) ri_zero 0xD2000000
        ≡ none)
      ↔ (flashram_size < 3 * 0x80 + 0x80))
    × ((f3 : Flashram) (bytes : Bytes) (i : ℕ)
        → flash_command (step (step fresh_flash 0x4B000003) 0x78000000) (λ j. 0) ri_zero 0xD2000000
          ≡ some f3
        → f3.contents ≡ some bytes
        → bytes i ≡ (if leb (3 * 0x80) i && ltb i (3 * 0x80 + 0x80) then 0xFF else 0))
unfolding flash_command
flash_erase_example =
    flash_erase fresh_flash (step fresh_flash 0x4B000003)
      (step (step fresh_flash 0x4B000003) 0x78000000) (λ i. 0) ri_zero 0x4B000003 0x78000000
      0xD2000000 refl refl refl refl refl

abbrev programmed : Flashram
programmed = step (step (step fresh_flash 0xB4000000) 0xA5000003) 0xD2000000

abbrev programmed_bytes : Bytes
programmed_bytes = get_or (programmed.contents) (λ i. 0)

flash_program_example : programmed_bytes 0x185 ≡ (
    if leb (3 * 0x80) 0x185 && ltb 0x185 (3 * 0x80 + 0x80) then (0x185 - 3 * 0x80) % 2 ^ 8 else 0)
unfolding flash_command execute
flash_program_example =
    flash_program fresh_flash (step fresh_flash 0xB4000000)
      (step (step fresh_flash 0xB4000000) 0xA5000003) (λ i. 0) ri_zero 0xB4000000 0xA5000003
      0xD2000000 refl refl refl refl refl programmed programmed_bytes 0x185 refl refl

-- A request for 0x180 bytes from 0x10001000 to 0x400.
abbrev boot : PiController ℕ
boot = record board {
  regs = λ i. if i == 0 then 0x400 else if i == 1 then 0x10001000 else if i == 3 then 0x17F else 0;
}

pi_dma_write_copies_example :
    (s' : PiController ℕ) × (pi_dma_write no_dd (λ i. 0) boot ≡ some s')
    × Copied boot_rom 0x1100 0x180 boot_copy s'.ri
pi_dma_write_copies_example =
    pi_dma_write_copies no_dd (λ i. 0) boot_rom boot refl refl (omega arith) (omega arith)
      boot_copy-IsAligned
