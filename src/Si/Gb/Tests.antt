-- ===== src/Si/Gb/Tests.antt =====
-- A cartridge of MBC1 with two banks, and inputs for the theorems.
use cen.Base.{
  ℕ, ◌/◌, ◌<◌, ◌≡◌, refl, false, none, some, List, [], ◌∷◌, Bytes, ◌==◌, if◌then◌else◌, ◌>>=◌,
  arith,
}
use cen.Si.Gb.{
  GbCart, ReadHandler, WriteHandler, gb_read, gb_write, run_write, run_read, mbc1_rom_bank_select,
  mbc1_bank_mode_select, mbc1_rom_ram_bank_select,
}
use cen.Si.Gb.Install.{gb_init}
use cen.Si.Gb.Select.{rom_reader}
use cen.Si.Gb.Reads.{rom_offset, run_writes, gb_read-run_writes}

-- Kind 1; each byte is the number of its bank, but for the header.
abbrev rom : Bytes
rom i = if i == 0x147 then 1 else if i == 0x148 then 0 else i / 0x4000

abbrev before : GbCart
before = record {
  gb_readmem = λ i. ReadHandler.null_read;
  gb_writemem = λ i. WriteHandler.null_write;
  cartrom = λ i. 0;
  cartromsize = 0;
  cartrom_num_banks = 0;
  reg_rom_bank_low = 0;
  reg_rom_bank_high = 0;
  cartrom_bank_zero = 0;
  cartrom_bank_n = 0;
  cart_bank_num = 0;
  extram = λ i. 0;
  extram_size = 0;
  extram_bank = 0;
  extram_bank_num = 0;
  extram_num_banks = 0;
  extram_enabled = false;
  mbc1_mode = 0;
}

-- Bank 3 is bank 1 of two; then RAM mode, with a RAM bank.
abbrev writes : List (ℕ × ℕ)
writes = (0x2000, 3) ∷ (0x6000, 1) ∷ (0x4000, 2) ∷ []

gb_read-run_writes_example :
    (c0 : GbCart) × (c : GbCart) × (gb_init before rom 0x8000 none ≡ some c0)
    × (run_writes writes c0 ≡ some c)
    × (gb_read c 0x4123 ≡ some (rom (rom_offset c 0x4123)))
    × (rom_offset c 0x4123 < 0x8000)
gb_read-run_writes_example =
    gb_read-run_writes rom 0x8000 before none writes 0x4123 (omega arith) refl refl
      (omega arith, (omega arith, (omega arith, tt))) (omega arith)

second_bank :
    (gb_init before rom 0x8000 none >>= λ c. run_writes writes c >>= λ c'. gb_read c' 0x4123)
    ≡ some 1
unfolding gb_init gb_write gb_read run_write run_read mbc1_rom_bank_select mbc1_bank_mode_select
    mbc1_rom_ram_bank_select
second_bank = refl

-- Both windows set, with the functions of MBC1 for the registers.
abbrev mapped : GbCart
mapped = record before {
  gb_readmem = rom_reader;
  gb_writemem = λ i. WriteHandler.mbc1_write_rom_bank_select;
  cartrom = rom;
  cartromsize = 0x8000;
  cartrom_num_banks = 2;
  cartrom_bank_n = 0x4000;
}
