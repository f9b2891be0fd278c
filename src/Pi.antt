-- ===== src/Pi.antt =====
-- pi/controller.c and pi/controller.h: the parallel interface to the cartridge. Transfers are
-- started by a register write and carried out at once when the counter has run out. The 64DD
-- controller is an interface. `none` marks an access that is undefined in C.
pub mod Dma
pub mod Flash
pub mod Registers
pub mod Rom
pub mod Copy
pub mod Cart
pub mod Link
pub mod Tests
use cen.Base.{
  ℕ, ◌+◌, ◌-◌, ◌*◌, ◌/◌, Bool, ◌&&◌, Option, none, some, bit_and, ltb, leb, ◌==◌, if◌then◌else◌,
  has, sub32, u32, ◌>>>◌, Bytes,
}
use cen.Mi.{Vr4300}
use cen.Ri.{RiController, max_rdram_size}

-- Indices into `regs`.
abbrev pub pi_dram_addr_reg : ℕ
pi_dram_addr_reg = 0

abbrev pub pi_cart_addr_reg : ℕ
pi_cart_addr_reg = 1

abbrev pub pi_rd_len_reg : ℕ
pi_rd_len_reg = 2

abbrev pub pi_wr_len_reg : ℕ
pi_wr_len_reg = 3

abbrev pub pi_status_reg : ℕ
pi_status_reg = 4

abbrev pub num_pi_registers : ℕ
num_pi_registers = 13

abbrev pub pi_regs_base_address : ℕ
pi_regs_base_address = 0x04600000

-- enum pi_status and enum pi_status_write.
abbrev pub pi_status_dma_busy : ℕ
pi_status_dma_busy = 1

abbrev pub pi_status_error : ℕ
pi_status_error = 4

abbrev pub pi_status_interrupt : ℕ
pi_status_interrupt = 8

abbrev pub pi_status_is_busy : ℕ
pi_status_is_busy = 3

-- enum flashram_mode.
pub data FlashramMode : Type 0 where
  flashram_idle flashram_erase flashram_write flashram_reading flashram_status : FlashramMode

-- struct flashram; `data` is null or the bytes of the chip.
pub record Flashram : Type 0 where
  pub contents : Option Bytes
  pub status : ℕ
  pub mode : FlashramMode
  pub offset : ℕ
  pub rdram_pointer : ℕ

abbrev pub flashram_size : ℕ
flashram_size = 0x20000

-- struct save_file.
pub record SaveFile : Type 0 where
  pub ptr : Option Bytes
  pub size : ℕ

-- struct pi_controller, with the parts of the system that it reaches through the bus.
pub record PiController (Dd : Type 0) : Type 0 where
  pub vr4300 : Vr4300
  pub ri : RiController
  pub dd : Dd
  pub rom : Option Bytes
  pub rom_size : ℕ
  pub sram : SaveFile
  pub flashram : Flashram
  pub counter : ℕ
  pub bytes_to_copy : ℕ
  pub is_dma_read : Bool
  pub regs : ℕ → ℕ

-- The operations of dd/controller.c that the PI calls; a transfer also has RDRAM at hand.
pub record DdInterface (Dd : Type 0) : Type 0 where
  pub ipl_rom : Dd → Option Bytes
  pub dd_dma_read : Dd → RiController → ℕ → ℕ → ℕ → Dd
  pub dd_dma_write : Dd → RiController → ℕ → ℕ → ℕ → Dd × RiController
  pub dd_pi_write : Dd → ℕ → Dd

-- memcpy(ram + dest, source, length), in bounds of RDRAM.
unfoldable pub store_ram : RiController → ℕ → Bytes → ℕ → Option RiController
store_ram ri dest source length =
    if ltb max_rdram_size (dest + length)
    then none
    else some (record ri {
      ram = λ i. if leb dest i && ltb i (dest + length) then source (i - dest) else ri.ram i;
    })

-- The offset into SRAM, and whether the transfer stays in its bank and in the file.
abbrev pub sram_offset : ℕ → ℕ
sram_offset address = bit_and (address >>> 18) 3 * 0x8000 + bit_and address 0x7FFF

unfoldable pub in_sram : SaveFile → ℕ → ℕ → Bool
in_sram sram address length =
    (sub32 (u32 (sram_offset address + length)) 1 / 0x8000 == bit_and (address >>> 18) 3)
    && leb (u32 (sram_offset address + length)) sram.size

-- The 16-bit words of the cartridge, 0xFF past its end; the rest of `mem` as it was.
unfoldable pub pi_rom_fetch : Bytes → ℕ → ℕ → ℕ → Bytes → Bytes
pi_rom_fetch rom rom_size source length mem i =
    let l =
      if leb rom_size source
      then 0
      else if ltb rom_size (u32 (source + length))
      then rom_size - source
      else length in
    if ltb i l then rom (source + i) else if ltb i length then 0xFF else mem i
