-- ===== src/Si/Gb/Install.antt =====
-- si/gb.c: the tables of each kind of cartridge, and `gb_init`.
use cen.Base.{
  ℕ, ◌+◌, ◌^◌, ◌&&◌, ◌||◌, Option, none, some, Bytes, leb, ◌==◌, if◌then◌else◌, has, ◌>>=◌,
}
use cen.Si.Gb.{GbCart, ReadHandler, WriteHandler, rom_at, set_range, install_extram}

-- 0000-3FFF and 4000-7FFF are read the same way by all.
abbrev pub install_rom : GbCart → GbCart
install_rom c = record c {
  gb_readmem =
      set_range (set_range c.gb_readmem 0x00 0x3F ReadHandler.read_bank_0) 0x40 0x7F
        ReadHandler.read_bank_n;
}

-- The handler of the page between two others.
abbrev pub with_writes : GbCart → ℕ → ℕ → WriteHandler → GbCart
with_writes c from to handler = record c { gb_writemem = set_range c.gb_writemem from to handler }

-- The pages of the ROM.
abbrev pub mbc1_tables : GbCart → GbCart
mbc1_tables c =
    let c1 = install_rom (record c { mbc1_mode = 0 }) in
    let c2 = with_writes c1 0x00 0x1F WriteHandler.write_ram_enable in
    let c3 = with_writes c2 0x20 0x3F WriteHandler.mbc1_write_rom_bank_select in
    let c4 = with_writes c3 0x40 0x5F WriteHandler.mbc1_write_rom_ram_bank_select in
    with_writes c4 0x60 0x7F WriteHandler.mbc1_write_bank_mode_select

unfoldable pub mbc1_install : GbCart → GbCart
mbc1_install c = install_extram (mbc1_tables c)

-- The loop over the pages to read ends before 0xBF.
unfoldable pub mbc2_install : GbCart → GbCart
mbc2_install c =
    let c1 = install_rom c in
    let select = λ (i : ℕ).
      if leb i 0x3F
      then (if has i 1
          then WriteHandler.mbc2_write_rom_bank_select
          else WriteHandler.write_ram_enable)
      else c1.gb_writemem i in
    record c1 {
      gb_readmem = set_range c1.gb_readmem 0xA0 0xBE ReadHandler.mbc2_read_extram;
      gb_writemem = set_range select 0xA0 0xBF WriteHandler.mbc2_write_extram;
    }

-- The pages of the ROM.
abbrev pub mbc3_tables : GbCart → GbCart
mbc3_tables c =
    let c1 = install_rom c in
    let c2 = with_writes c1 0x00 0x1F WriteHandler.write_ram_enable in
    let c3 = with_writes c2 0x20 0x3F WriteHandler.mbc3_write_rom_bank_select in
    let c4 = with_writes c3 0x40 0x5F WriteHandler.mbc3_write_ram_bank_select in
    with_writes c4 0x60 0x7F WriteHandler.mbc3_write_clock_data_latch

unfoldable pub mbc3_install : GbCart → GbCart
mbc3_install c = install_extram (mbc3_tables c)

-- The loops over external RAM end before 0xBF.
unfoldable pub rom_only_install : GbCart → GbCart
rom_only_install c =
    let c1 = with_writes (install_rom c) 0x00 0x7F WriteHandler.write_dummy in
    record c1 {
      gb_readmem = set_range c1.gb_readmem 0xA0 0xBE ReadHandler.read_ff;
      gb_writemem = set_range c1.gb_writemem 0xA0 0xBE WriteHandler.write_dummy;
    }

-- The pages of the ROM.
abbrev pub mbc5_tables : GbCart → GbCart
mbc5_tables c =
    let c1 = install_rom c in
    let c2 = with_writes c1 0x00 0x1F WriteHandler.mbc5_write_ram_enable in
    let c3 = with_writes c2 0x20 0x2F WriteHandler.mbc5_write_rom_bank_select_lower in
    let c4 = with_writes c3 0x30 0x3F WriteHandler.mbc5_write_rom_bank_select_upper in
    with_writes c4 0x40 0x5F WriteHandler.mbc5_write_ram_bank_select

unfoldable pub mbc5_install : GbCart → GbCart
mbc5_install c = install_extram (mbc5_tables c)

-- The number of ROM banks; an unknown code leaves it.
unfoldable pub rom_banks : ℕ → ℕ → ℕ
rom_banks before code =
    if leb code 8
    then 2 ^ (code + 1)
    else if code == 0x52
    then 72
    else if code == 0x53
    then 80
    else if code == 0x54
    then 96
    else before

unfoldable pub extram_banks : ℕ → ℕ → ℕ
extram_banks before code =
    if code == 0
    then 0
    else if (code == 1) || (code == 2)
    then 1
    else if code == 3
    then 4
    else if code == 4
    then 16
    else if code == 5
    then 8
    else before

unfoldable pub install : ℕ → GbCart → GbCart
unfolding mbc1_install mbc2_install mbc3_install mbc5_install rom_only_install
install kind c =
    if kind == 0
    then rom_only_install c
    else if leb 1 kind && leb kind 3
    then mbc1_install c
    else if (kind == 5) || (kind == 6)
    then mbc2_install c
    else if leb 25 kind && leb kind 30
    then mbc5_install c
    else mbc3_install c

-- The ROM and the save memory are given; without a save memory there are 65536 bytes of zeroes.
abbrev pub set_up : GbCart → Bytes → ℕ → Option (Bytes × ℕ) → GbCart
set_up c rom size save =
    let saved : Bytes × ℕ = elim save [ none ↦ (λ i. 0, 65536) | some s ↦ s ] in
    record c {
      gb_readmem = λ i. ReadHandler.null_read;
      gb_writemem = λ i. WriteHandler.null_write;
      cartrom = rom;
      cartromsize = size;
      cartrom_bank_zero = 0;
      cartrom_bank_n = 0x4000;
      extram = saved.0;
      extram_size = saved.1;
      extram_bank = 0;
    }

-- The numbers of banks, by their codes.
abbrev pub with_banks : GbCart → ℕ → ℕ → GbCart
with_banks c rom_size_code extram_size_code = record c {
  cartrom_num_banks = rom_banks c.cartrom_num_banks rom_size_code;
  extram_num_banks = extram_banks c.extram_num_banks extram_size_code;
}

unfoldable pub gb_init : GbCart → Bytes → ℕ → Option (Bytes × ℕ) → Option GbCart
unfolding rom_banks extram_banks install
gb_init c rom size save = do
  let c1 = set_up c rom size save
  rom_size_code ← rom_at c1 0x148
  extram_size_code ← rom_at c1 0x149
  kind ← rom_at c1 0x147
  some (install kind (with_banks c1 rom_size_code extram_size_code))
