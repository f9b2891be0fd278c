-- ===== src/Si/Gb.antt =====
-- si/gb.c and si/gb.h: Game Boy cartridges in the transfer pak. A pointer to a function is its name,
-- a pointer into the ROM or the RAM an offset. `none` is undefined in C: an access out of bounds, or
-- a division by 0.
pub mod Install
pub mod Select
pub mod Banks
pub mod Kinds
pub mod Reads
pub mod Tests
use cen.Base.{
  ℕ, ◌+◌, ◌-◌, ◌*◌, ◌/◌, ◌%◌, Bool, true, false, ◌&&◌, ◌||◌, Option, none, some, Bytes, bit_and,
  bit_or, ltb, leb, ◌==◌, if◌then◌else◌, u8, u16, ◌>>>◌, ◌<<<◌, update, ◌>>=◌,
}

pub data ReadHandler : Type 0 where
  null_read read_ff read_bank_0 read_bank_n read_extram mbc2_read_extram mbc3_read_rtc : ReadHandler

pub data WriteHandler : Type 0 where
  null_write write_dummy write_ram_enable write_extram : WriteHandler
  mbc1_write_rom_bank_select mbc1_write_rom_ram_bank_select mbc1_write_bank_mode_select :
      WriteHandler
  mbc2_write_rom_bank_select mbc2_write_extram : WriteHandler
  mbc3_write_rom_bank_select mbc3_write_ram_bank_select : WriteHandler
  mbc3_write_clock_data_latch mbc3_write_rtc : WriteHandler
  mbc5_write_ram_enable mbc5_write_rom_bank_select_lower : WriteHandler
  mbc5_write_rom_bank_select_upper mbc5_write_ram_bank_select : WriteHandler

-- struct gb_cart, with the tables of the controller.
pub record GbCart : Type 0 where
  pub gb_readmem : ℕ → ReadHandler
  pub gb_writemem : ℕ → WriteHandler
  pub cartrom : Bytes
  pub cartromsize : ℕ
  pub cartrom_num_banks : ℕ
  pub reg_rom_bank_low : ℕ
  pub reg_rom_bank_high : ℕ
  pub cartrom_bank_zero : ℕ
  pub cartrom_bank_n : ℕ
  pub cart_bank_num : ℕ
  pub extram : Bytes
  pub extram_size : ℕ
  pub extram_bank : ℕ
  pub extram_bank_num : ℕ
  pub extram_num_banks : ℕ
  pub extram_enabled : Bool
  pub mbc1_mode : ℕ

-- `cartrom + offset` and `extram + offset`, read.
abbrev pub rom_at : GbCart → ℕ → Option ℕ
rom_at c offset = if ltb offset c.cartromsize then some (c.cartrom offset) else none

abbrev pub ram_at : GbCart → ℕ → Option ℕ
ram_at c offset = if ltb offset c.extram_size then some (c.extram offset) else none

abbrev pub set_ram : GbCart → ℕ → ℕ → Option GbCart
set_ram c offset value =
    if ltb offset c.extram_size
    then some (record c { extram = update c.extram offset value })
    else none

-- `if (bank >= cart->cartrom_num_banks) bank = bank % cart->cartrom_num_banks;`.
unfoldable pub wrap : ℕ → ℕ → Option ℕ
wrap bank num_banks =
    if leb num_banks bank
    then (if num_banks == 0 then none else some (bank % num_banks))
    else some bank

-- Bank 0 of each group of 32 cannot be selected.
abbrev pub skip_zero : ℕ → ℕ
skip_zero bank =
    if (bank == 0x00) || ((bank == 0x20) || ((bank == 0x40) || (bank == 0x60)))
    then bank + 1
    else bank

-- The functions that the table of reads names.
unfoldable pub ram_read : GbCart → ℕ → Option ℕ
ram_read c address =
    if c.extram_enabled then ram_at c (c.extram_bank + bit_and address 0x1FFF) else some 0xFF

unfoldable pub mbc2_ram_read : GbCart → ℕ → Option ℕ
mbc2_ram_read c address =
    if c.extram_enabled
    then (do
      value ← ram_at c (c.extram_bank + bit_and (bit_and address 0x1FF) 0x1FFF)
      some (bit_and value 0xF))
    else some 0xFF

unfoldable pub run_read : ReadHandler → GbCart → ℕ → Option ℕ
run_read null_read c address = some 0xFF
run_read read_ff c address = some 0xFF
run_read read_bank_0 c address = rom_at c (c.cartrom_bank_zero + address)
run_read read_bank_n c address = rom_at c (c.cartrom_bank_n + bit_and address 0x3FFF)
run_read read_extram c address = ram_read c address
run_read mbc2_read_extram c address = mbc2_ram_read c address
run_read mbc3_read_rtc c address = some 0

-- `for (i = from; i <= to; ++i) table[i] = handler;`.
abbrev pub set_range {ℓ} : {A : Type ℓ} → (ℕ → A) → ℕ → ℕ → A → ℕ → A
set_range table from to handler i = if leb from i && leb i to then handler else table i

-- The end of the pages of external RAM.
abbrev pub extram_end : GbCart → ℕ
extram_end c = 0xA0 + (if ltb 8192 c.extram_size then 8192 else c.extram_size) / 256

-- The pages of A000-BFFF, as MBC1, MBC3 and MBC5 install them.
abbrev pub install_extram : GbCart → GbCart
install_extram c =
    let end = extram_end c in
    record c {
      gb_readmem = set_range (set_range c.gb_readmem 0xA0 (end - 1) read_extram) end 0xBF read_ff;
      gb_writemem =
          set_range (set_range c.gb_writemem 0xA0 (end - 1) write_extram) end 0xBF write_dummy;
    }

-- The upper bits of the ROM bank of MBC1.
unfoldable pub mbc1_select_high : GbCart → ℕ → Option GbCart
unfolding wrap
mbc1_select_high c data' =
    if ltb 0x1F c.cartrom_num_banks
    then (do
      bank ← wrap (skip_zero (u8 (bit_or (data' <<< 5) c.reg_rom_bank_low))) c.cartrom_num_banks
      some (record c { reg_rom_bank_high = bank >>> 5; cartrom_bank_n = bank * 0x4000 }))
    else some c

-- The bank at address 0 of MBC1 in mode 1.
unfoldable pub mbc1_select_zero : GbCart → ℕ → Option GbCart
unfolding wrap
mbc1_select_zero c data' =
    if ltb 0x20 c.cartrom_num_banks
    then (do
      bank ← wrap (u8 (data' <<< 5)) c.cartrom_num_banks
      some (record c { cartrom_bank_zero = bank * 0x4000 }))
    else some c

-- The second half, for mode 1: the bank at address 0 and the bank of the external RAM.
unfoldable pub mbc1_select_ram : GbCart → ℕ → Option GbCart
unfolding mbc1_select_zero
mbc1_select_ram c data' = do
  c1 ← mbc1_select_zero c data'
  some (
      if leb c1.extram_num_banks 1
      then c1
      else record c1 { extram_bank_num = data'; extram_bank = data' * 0x2000 })

unfoldable pub mbc1_rom_ram_bank_select : GbCart → ℕ → Option GbCart
unfolding mbc1_select_high mbc1_select_ram
mbc1_rom_ram_bank_select c value = do
  let data' = bit_and value 3
  c1 ←
      (if (c.mbc1_mode == 0) || ltb 0x1F c.cartrom_num_banks
        then (do high ← mbc1_select_high c data'; some (record high { cartrom_bank_zero = 0 }))
        else some c)
  if c1.mbc1_mode == 1 then mbc1_select_ram c1 data' else some c1

unfoldable pub mbc3_ram_bank_select : GbCart → ℕ → GbCart
mbc3_ram_bank_select c value =
    if leb value 0x03
    then install_extram (record c { extram_bank_num = value; extram_bank = value * 8192 })
    else if leb 0x08 value && leb value 0x0C
    then record c {
      extram_bank_num = value;
      gb_readmem = set_range c.gb_readmem 0xA0 0xBF mbc3_read_rtc;
      gb_writemem = set_range c.gb_writemem 0xA0 0xBF mbc3_write_rtc;
    }
    else c

-- A bank chosen for 4000-7FFF: `cartrom_bank_n`, the number and the low register.
abbrev pub select_bank : GbCart → ℕ → ℕ → GbCart
select_bank c bank low = record c {
  reg_rom_bank_low = low;
  cart_bank_num = bank;
  cartrom_bank_n = bank * 0x4000;
}

-- The functions that the table of writes names.
unfoldable pub ram_enable : GbCart → ℕ → GbCart
ram_enable c value =
    let data' = bit_and value 0xF in
    if data' == 0
    then record c { extram_enabled = false }
    else if data' == 0x0A
    then record c { extram_enabled = true }
    else c

unfoldable pub ram_write : GbCart → ℕ → ℕ → Option GbCart
ram_write c address value =
    if c.extram_enabled then set_ram c (c.extram_bank + bit_and address 0x1FFF) value else some c

unfoldable pub mbc1_rom_bank_select : GbCart → ℕ → Option GbCart
unfolding wrap
mbc1_rom_bank_select c value = do
  let chosen = skip_zero (u8 (bit_or (c.reg_rom_bank_high <<< 5) (bit_and value 0x1F)))
  bank ← wrap chosen c.cartrom_num_banks
  some (select_bank c bank (bit_and bank 0x1F))

unfoldable pub mbc1_bank_mode_select : GbCart → ℕ → GbCart
mbc1_bank_mode_select c value =
    let mode = bit_and value 1 in
    if mode == 0
    then record c { mbc1_mode = mode; extram_bank_num = 0; extram_bank = 0 }
    else record c {
      mbc1_mode = mode;
      reg_rom_bank_high = 0;
      cartrom_bank_n = c.reg_rom_bank_low * 0x4000;
    }

unfoldable pub mbc2_rom_bank_select : GbCart → ℕ → Option GbCart
unfolding wrap
mbc2_rom_bank_select c value = do
  wrapped ← wrap (bit_and value 0xF) c.cartrom_num_banks
  let bank = if wrapped == 0 then wrapped + 1 else wrapped
  some (select_bank c bank bank)

unfoldable pub mbc2_ram_write : GbCart → ℕ → ℕ → Option GbCart
mbc2_ram_write c address value =
    if c.extram_enabled
    then set_ram c (c.extram_bank + bit_and (bit_and address 0x1FF) 0x1FFF) (bit_and value 0xF)
    else some c

unfoldable pub mbc3_rom_bank_select : GbCart → ℕ → Option GbCart
mbc3_rom_bank_select c value =
    let data' = bit_and value 0x7F in
    if data' == 0
    then some (record c { cart_bank_num = data'; cartrom_bank_n = 16384 })
    else if c.cartromsize == 0
    then none
    else some (record c { cart_bank_num = data'; cartrom_bank_n = (data' * 16384) % c.cartromsize })

unfoldable pub mbc5_rom_bank_select_lower : GbCart → ℕ → Option GbCart
unfolding wrap
mbc5_rom_bank_select_lower c value = do
  bank ← wrap (u16 (bit_or (c.reg_rom_bank_high <<< 8) value)) c.cartrom_num_banks
  some (select_bank c bank value)

unfoldable pub mbc5_rom_bank_select_upper : GbCart → ℕ → Option GbCart
unfolding wrap
mbc5_rom_bank_select_upper c value = do
  let data' = bit_and value 1
  bank ← wrap (u16 (bit_or (data' <<< 8) c.reg_rom_bank_low)) c.cartrom_num_banks
  some
      (record c { reg_rom_bank_high = data'; cart_bank_num = bank; cartrom_bank_n = bank * 0x4000 })

unfoldable pub mbc5_ram_bank_select : GbCart → ℕ → GbCart
mbc5_ram_bank_select c value =
    let data' = bit_and value 0xF in
    record c { extram_bank_num = data'; extram_bank = data' * 0x2000 }

unfoldable pub run_write : WriteHandler → GbCart → ℕ → ℕ → Option GbCart
run_write null_write c address value = some c
run_write write_dummy c address value = some c
run_write write_ram_enable c address value = some (ram_enable c value)
run_write write_extram c address value = ram_write c address value
run_write mbc1_write_rom_bank_select c address value = mbc1_rom_bank_select c value
run_write mbc1_write_rom_ram_bank_select c address value = mbc1_rom_ram_bank_select c value
run_write mbc1_write_bank_mode_select c address value = some (mbc1_bank_mode_select c value)
run_write mbc2_write_rom_bank_select c address value = mbc2_rom_bank_select c value
run_write mbc2_write_extram c address value = mbc2_ram_write c address value
run_write mbc3_write_rom_bank_select c address value = mbc3_rom_bank_select c value
run_write mbc3_write_ram_bank_select c address value = some (mbc3_ram_bank_select c value)
run_write mbc3_write_clock_data_latch c address value = some c
run_write mbc3_write_rtc c address value = some c
run_write mbc5_write_ram_enable c address value = some (record c { extram_enabled = value == 0x0A })
run_write mbc5_write_rom_bank_select_lower c address value = mbc5_rom_bank_select_lower c value
run_write mbc5_write_rom_bank_select_upper c address value = mbc5_rom_bank_select_upper c value
run_write mbc5_write_ram_bank_select c address value = some (mbc5_ram_bank_select c value)

unfoldable pub gb_read : GbCart → ℕ → Option ℕ
gb_read c address = run_read (c.gb_readmem (address >>> 8)) c address

unfoldable pub gb_write : GbCart → ℕ → ℕ → Option GbCart
gb_write c address value = run_write (c.gb_writemem (address >>> 8)) c address value
