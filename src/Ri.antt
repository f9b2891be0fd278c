-- ===== src/Ri.antt =====
-- ri/controller.c and ri/controller.h: the RAM interface. RDRAM is kept byte by byte in the order
-- of the N64; a word is loaded and stored through `byteswap_32`.
pub mod Memory
pub mod Registers
pub mod Tests
use cen.Base.{
  ℕ, ◌+◌, ◌-◌, ◌*◌, ◌/◌, ◌%◌, ◌^◌, Option, none, some, bit_and, bit_or, ltb, leb, ◌==◌,
  if◌then◌else◌, not32, sub32, ◌>>>◌, update, Bytes, load32, store32, load_be, byteswap_32, merge,
}

abbrev pub max_rdram_size : ℕ
max_rdram_size = 0x800000

abbrev pub rdram_base_address : ℕ
rdram_base_address = 0

abbrev pub rdram_regs_base_address : ℕ
rdram_regs_base_address = 0x03F00000

abbrev pub rdram_regs_address_len : ℕ
rdram_regs_address_len = 0x28

abbrev pub ri_regs_base_address : ℕ
ri_regs_base_address = 0x04700000

abbrev pub ri_regs_address_len : ℕ
ri_regs_address_len = 0x20

-- Indices into `regs`.
abbrev pub ri_mode_reg : ℕ
ri_mode_reg = 0

abbrev pub ri_config_reg : ℕ
ri_config_reg = 1

abbrev pub ri_select_reg : ℕ
ri_select_reg = 3

abbrev pub ri_refresh_reg : ℕ
ri_refresh_reg = 4

abbrev pub num_ri_registers : ℕ
num_ri_registers = 8

abbrev pub num_rdram_registers : ℕ
num_rdram_registers = 9

-- struct ri_controller.
pub record RiController : Type 0 where
  pub rdram_regs : ℕ → ℕ
  pub regs : ℕ → ℕ
  pub ram : Bytes

unfoldable pub ri_init : RiController → RiController
ri_init ri = record ri {
  regs =
      update
        (update (update (update ri.regs ri_mode_reg 0xE) ri_config_reg 0x40) ri_select_reg 0x14)
        ri_refresh_reg 0x63634;
}

-- A word access that is not inside `ram` is undefined in C: `none`.
abbrev pub in_ram : ℕ → ℕ
in_ram offset = offset + 3

unfoldable pub read_rdram : RiController → ℕ → Option ℕ
read_rdram ri address =
    let offset = sub32 address rdram_base_address in
    if ltb (in_ram offset) max_rdram_size then some (load_be ri.ram offset) else none

unfoldable pub write_rdram : RiController → ℕ → ℕ → ℕ → Option RiController
write_rdram ri address word dqm =
    let offset = sub32 address rdram_base_address in
    let orig_word = bit_and (load_be ri.ram offset) (not32 dqm) in
    let word' = byteswap_32 (bit_or orig_word word) in
    if ltb (in_ram offset) max_rdram_size
    then some (record ri { ram = store32 ri.ram offset word' })
    else none

-- An index past the end of a register file is undefined in C: `none`.
unfoldable pub read_rdram_regs : RiController → ℕ → Option ℕ
read_rdram_regs ri address =
    let reg = sub32 address rdram_regs_base_address >>> 2 in
    if ltb reg num_rdram_registers then some (ri.rdram_regs reg) else none

unfoldable pub read_ri_regs : RiController → ℕ → Option ℕ
read_ri_regs ri address =
    let reg = sub32 address ri_regs_base_address >>> 2 in
    if ltb reg num_ri_registers then some (ri.regs reg) else none

unfoldable pub write_rdram_regs : RiController → ℕ → ℕ → ℕ → Option RiController
write_rdram_regs ri address word dqm =
    let reg = sub32 address rdram_regs_base_address >>> 2 in
    if ltb reg num_rdram_registers
    then some
        (record ri { rdram_regs = update ri.rdram_regs reg (merge (ri.rdram_regs reg) word dqm) })
    else none

unfoldable pub write_ri_regs : RiController → ℕ → ℕ → ℕ → Option RiController
write_ri_regs ri address word dqm =
    let reg = sub32 address ri_regs_base_address >>> 2 in
    if ltb reg num_ri_registers
    then some (record ri { regs = update ri.regs reg (merge (ri.regs reg) word dqm) })
    else none
