-- ===== src/Si/Tests.antt =====
-- Tests of the SI, and the theorems at concrete inputs.
use mathlib.Core.Option.{get_or}
use cen.Base.{
  ℕ, ◌+◌, ◌-◌, ◌%◌, ◌/◌, ◌^◌, ◌≤◌, ◌<◌, ◌≡◌, ◌⊎◌, refl, true, false, some, Option, ◌==◌,
  if◌then◌else◌, bit, Bytes, arith,
}
use cen.Mi.{Vr4300}
use cen.Ri.{RiController}
use cen.Si.Eeprom.{Eeprom, eeprom_read, eeprom_write}
use cen.Si.Eeprom.Laws.{eeprom_read-write}
use cen.Si.Rtc.{Rtc, TimeStamp, put_time, rtc_read, rtc_write}
use cen.Si.Rtc.Laws.{IsTime, rtc_read-write}
use cen.Si.Gb.{GbCart, ReadHandler, WriteHandler, gb_write, run_write, ram_write}
use cen.Si.Pak.{
  Controller, pak_mem, pak_transfer, controller_pak_read, controller_pak_write, block_address,
}
use cen.Si.Pak.Transfer.{Breaks}
use cen.Si.Pak.Mempak.{mempak_read-write}
use cen.Si.Cic.{si_crc32}
use cen.Si.Cic.Crc.{serial_crc32, si_crc32-serial}
use cen.Si.Pif.{
  SiController, Outcome, done, fault, pif_process, pif_loop, pif_turn, pif_perform_command,
}
use cen.Si.Pif.Loop.{process, Wraps}
use cen.Si.Pif.Safe.{pif_process_ends, pif_process_faults}
use cen.Si.Registers.{signal_si, write_si_regs, dma_to_pif}
use cen.Si.Registers.Transfer.{poke}
use cen.Si.Registers.Link.{IsLinked, write_si_regs-IsLinked}

-- A cartridge slot with nothing mapped, and a clock that stands still.
abbrev blank : GbCart
blank = record {
  gb_readmem = λ i. ReadHandler.null_read;
  gb_writemem = λ i. WriteHandler.null_write;
  cartrom = λ i. 0;
  cartromsize = 0;
  cartrom_num_banks = 0;
  reg_rom_bank_low = 0;
  reg_rom_bank_high = 0;
  cartrom_bank_zero = 0;
  cartrom_bank_n = 0;
  cart_bank_num = 0;
  extram = λ i. 0;
  extram_size = 0;
  extram_bank = 0;
  extram_bank_num = 0;
  extram_num_banks = 0;
  extram_enabled = false;
  mbc1_mode = 0;
}

abbrev noon : TimeStamp
noon = record { year = 2015; month = 5; day = 17; hour = 12; min = 0; sec = 30; week_day = 0 }

abbrev clock : ℕ → TimeStamp
clock offset = noon

abbrev no_offset : TimeStamp → ℕ
no_offset t = 0

abbrev pad : Controller
pad = record {
  mempak = λ i. 0;
  pak = pak_mem;
  pak_enabled = false;
  present = true;
  tpak_rom = false;
  tpak_mode = 0;
  tpak_mode_changed = false;
  tpak_bank = 0;
  cart = blank;
}

abbrev chip : Eeprom
chip = record { contents = some (λ i. 0); size = 0x800 }

abbrev stopped : Rtc
stopped = record { control = 0x0004; now = noon; offset_seconds = 0 }

abbrev idle_cpu : Vr4300
idle_cpu = record { mi_regs = λ i. 0; cause = 0 }

abbrev ram_interface : RiController
ram_interface = record { rdram_regs = λ i. 0; regs = λ i. 0; ram = λ i. i / 2 ^ 4 }

abbrev console : Bytes → SiController
console command = record {
  rom = λ i. 0;
  command = command;
  ram = command;
  regs = λ i. 0;
  pif_status = 0;
  input = λ i. 0;
  eeprom = chip;
  rtc = stopped;
  controller = λ i. pad;
  window = true;
  vr4300 = idle_cpu;
  ri = ram_interface;
}

-- One byte to send, and 0xFD to receive.
abbrev bad_command : Bytes
bad_command i = if i == 0 then 1 else if i == 1 then 0xFD else if i == 0x3F then 1 else 0

abbrev runs : SiController → Outcome
runs = process clock no_offset (λ i. 0)

-- A console with a transfer pak in the first channel, and a cartridge of MBC5 with 0x2000 bytes of
-- external RAM, of which bank 8 is selected.
abbrev past_ram : GbCart
past_ram = record blank {
  gb_writemem = λ i. WriteHandler.write_extram;
  extram_size = 0x2000;
  extram_bank = 0x10000;
  extram_num_banks = 1;
  extram_enabled = true;
}

-- Command 3 for block 0xE000, with 35 bytes to send and one to receive.
abbrev write_block : Bytes
write_block i =
    if i == 0
    then 35
    else if i == 1
    then 1
    else if i == 2
    then 3
    else if i == 3
    then 0xE0
    else if i == 0x3F
    then 1
    else 0

abbrev with_transfer_pak : SiController
with_transfer_pak = record (console write_block) {
  controller = λ i. record pad { pak = pak_transfer; tpak_bank = 2; cart = past_ram };
}

pif_process_ends_example :
    ((s' : SiController) × (runs with_transfer_pak ≡ done s')
      × ((i : ℕ) → 0x40 ≤ i → s'.ram i ≡ write_block i))
    ⊎ ((runs with_transfer_pak ≡ fault)
        × (((ptr : ℕ) × Wraps write_block ptr)
            ⊎ ((channel : ℕ) × (channel ≤ 3)
                × ((with_transfer_pak.controller channel).pak ≡ pak_transfer)
                × Breaks past_ram)))
pif_process_ends_example =
    pif_process_ends clock no_offset (λ i. 0) with_transfer_pak (λ i. ground arith)

transfer_pak_fault : runs with_transfer_pak ≡ fault
unfolding pif_process pif_loop pif_turn pif_perform_command controller_pak_write block_address
    gb_write run_write ram_write
transfer_pak_fault = refl

pif_process_faults_example : runs (console bad_command) ≡ fault
pif_process_faults_example =
    pif_process_faults clock no_offset (λ i. 0) (console bad_command) refl (omega arith)
      (omega arith) (omega arith) (omega arith) (omega arith) (omega arith)

-- A command to block 3 of the EEPROM, with ascending bytes, and one to block 4.
abbrev block_3 : Bytes
block_3 i = if i == 1 then 3 else i

abbrev block_4 : Bytes
block_4 i = if i == 1 then 4 else i

abbrev small_chip : Eeprom
small_chip = record { contents = some (λ i. 0); size = 8 }

eeprom_read-write_example :
    ((eeprom_write chip block_3).0 ≡ 0)
    × ((eeprom_read (eeprom_write chip block_3).1 block_3 (λ i. 0)).0 ≡ 0)
    × ((eeprom_read (eeprom_write chip block_3).1 block_3 (λ i. 0)).1 5 ≡ 7)
eeprom_read-write_example =
    eeprom_read-write chip (λ i. 0) block_3 block_3 (λ i. 0) 5 refl (omega arith) (omega arith)
      (ground arith) refl (omega arith)

noon-IsTime : IsTime noon
noon-IsTime = record {
  sec_fits = omega arith;
  min_fits = omega arith;
  hour_fits = omega arith;
  day_fits = omega arith;
  week_day_fits = omega arith;
  month_fits = omega arith;
  year_fits = omega arith;
}

-- A write of block 2 with the time at noon, and a read of block 2.
abbrev set_noon : Bytes
set_noon i = if i == 1 then 2 else put_time (λ j. 0) noon (i - 2)

abbrev ask_time : Bytes
ask_time i = if i == 1 then 2 else 0

abbrev set_clock : Rtc
set_clock = (rtc_write clock no_offset stopped set_noon (λ i. 0)).rtc

rtc_read-write_example :
    (set_clock.now ≡ noon)
    × ((i : ℕ)
        → i < 8
        → (rtc_read clock no_offset set_clock ask_time (λ j. 0) 9).recv_buf i ≡ set_noon (2 + i))
rtc_read-write_example =
    rtc_read-write clock no_offset stopped noon set_noon ask_time (λ j. 0) (λ j. 0) (λ j. 0)
      noon-IsTime refl refl refl refl (λ i h. ground arith)

-- Block 0x40 and block 0x60 of the memory pak, with the address in two bytes.
abbrev block_40 : Bytes
block_40 i = if i == 1 then 0 else if i == 2 then 0x40 else i

abbrev block_60 : Bytes
block_60 i = if i == 1 then 0 else if i == 2 then 0x60 else i

block_40_lem : block_address block_40 ≡ 0x40
unfolding block_address
block_40_lem = refl

block_60_lem : block_address block_60 ≡ 0x60
unfolding block_address
block_60_lem = refl

mempak_read-write_example :
    (w : Controller × Bytes) × (r : Controller × Bytes) × (controller_pak_write pad block_40
        (λ i. 0)
      ≡ some w)
    × (controller_pak_read w.0 block_40 (λ i. 0) ≡ some r)
    × ((i : ℕ) → i < 0x20 → r.1 i ≡ block_40 (3 + i))
    × (r.1 0x20 ≡ w.1 0)
mempak_read-write_example =
    mempak_read-write pad block_40 (λ i. 0) block_40 (λ i. 0) refl (omega (arith, block_40_lem))
      refl

si_crc32-serial_example : si_crc32 (λ i. i % 2 ^ 8) 5 ≡ serial_crc32 (λ i. i % 2 ^ 8) 5
si_crc32-serial_example = si_crc32-serial (λ i. i % 2 ^ 8) 5 (λ i. omega arith)

-- The address of the uncached mirror of 0x200, and the one of 0x1000.
abbrev pokes : SiController → ℕ → ℕ → Option SiController
pokes = poke clock no_offset (λ i. 0)

idle-IsLinked : IsLinked (console bad_command)
unfolding bit
idle-IsLinked = record { linked = refl; wired = refl }

-- A write to SI_PIF_ADDR_WR64B_REG.
abbrev transferred : SiController
transferred = get_or (dma_to_pif (console bad_command)) (console bad_command)

transferred_lem :
    write_si_regs clock no_offset (λ i. 0) (console bad_command) 0x04800010 0 0 ≡ some transferred
unfolding write_si_regs dma_to_pif signal_si
transferred_lem = refl

write_si_regs-IsLinked_example : IsLinked transferred
write_si_regs-IsLinked_example =
    write_si_regs-IsLinked clock no_offset (λ i. 0) (console bad_command) transferred 0x04800010 0 0
      idle-IsLinked transferred_lem
