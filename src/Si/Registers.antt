-- ===== src/Si/Registers.antt =====
-- si/controller.c: the memory-mapped side of the SI. PIF ROM and RAM, the registers, the transfers
-- between RDRAM and the PIF, and `si_init`. `none` marks an access that is undefined in C.
pub mod Link
pub mod Transfer
use cen.Base.{
  ℕ, zero, suc, ◌+◌, ◌-◌, ◌*◌, ◌/◌, ◌%◌, ◌^◌, Bool, true, false, not, ◌&&◌, ◌||◌, Option, none,
  some, bit_and, bit_or, ltb, leb, ◌==◌, if◌then◌else◌, not32, sub32, u8, ◌>>>◌, Bytes, copy,
  update, load_be, store32, byteswap_32, merge,
}
use mathlib.Core.Option.{get_or}
use cen.Mi.{si, signal_rcp_interrupt, clear_rcp_interrupt}
use cen.Ri.{RiController, max_rdram_size, write_rdram}
use cen.Si.Rtc.{TimeStamp, rtc_init}
use cen.Si.Eeprom.{Eeprom}
use cen.Si.Pak.{Controller}
use cen.Si.Cic.{get_cic_seed}
use cen.Si.Pif.{
  SiController, Outcome, done, fault, out_of_fuel, pif_process, si_dram_addr_reg,
  si_pif_addr_rd64b_reg, si_pif_addr_wr64b_reg, si_status_reg, num_si_registers,
  si_regs_base_address, pif_rom_base_address, pif_ram_base_address,
}

-- Raises the interrupt of the SI.
unfoldable pub signal_si : SiController → SiController
signal_si s = record s {
  regs = update s.regs si_status_reg (bit_or (s.regs si_status_reg) 0x1000);
  vr4300 = signal_rcp_interrupt s.vr4300 si;
}

-- A read of PIF RAM sets `pif_status` at one address.
unfoldable pub read_pif_ram : SiController → ℕ → Option (ℕ × SiController)
read_pif_ram s address =
    let offset = bit_and (sub32 address pif_ram_base_address) 0x3F in
    if offset == 0x24
    then some (load_be s.ram offset, record s { pif_status = 0x80 })
    else if offset == 0x3C
    then some (s.pif_status, s)
    else if ltb (offset + 3) 0x40
    then some (load_be s.ram offset, s)
    else none

-- The bus maps the PIF's ROM and RAM as one range.
unfoldable pub read_pif_rom_and_ram : SiController → ℕ → Option (ℕ × SiController)
unfolding read_pif_ram
read_pif_rom_and_ram s address =
    if leb pif_ram_base_address address
    then read_pif_ram s address
    else some (load_be s.rom (sub32 address pif_rom_base_address), s)

unfoldable pub read_si_regs : SiController → ℕ → Option ℕ
read_si_regs s address =
    let reg = sub32 address si_regs_base_address >>> 2 in
    if ltb reg num_si_registers then some (s.regs reg) else none

unfoldable pub write_pif_ram : SiController → ℕ → ℕ → ℕ → Option (SiController)
write_pif_ram s address word dqm =
    let offset = bit_and (sub32 address pif_ram_base_address) 0x3F in
    let orig_word = bit_and (load_be s.ram offset) (not32 dqm) in
    if ltb (offset + 3) 0x40
    then some
        (signal_si (record s { ram = store32 s.ram offset (byteswap_32 (bit_or orig_word word)) }))
    else none

unfoldable pub write_pif_rom_and_ram : SiController → ℕ → ℕ → ℕ → Option (SiController)
unfolding write_pif_ram
write_pif_rom_and_ram s address word dqm =
    if leb pif_ram_base_address address then write_pif_ram s address word dqm else some s

-- Where a transfer starts in RDRAM.
unfoldable pub dma_offset : SiController → ℕ
dma_offset s = bit_and (s.regs si_dram_addr_reg) 0x1FFFFFFF

-- SI_PIF_ADDR_WR64B_REG: 64 bytes from RDRAM to the PIF.
unfoldable pub dma_to_pif : SiController → Option (SiController)
unfolding dma_offset
dma_to_pif s =
    let ram' = copy s.ram 0 s.ri.ram (dma_offset s) 0x40 in
    if leb (dma_offset s + 0x40) max_rdram_size
    then some (signal_si (record s { ram = ram'; command = copy s.command 0 ram' 0 0x40 }))
    else none

-- SI_PIF_ADDR_RD64B_REG, after `pif_process`: 64 bytes from the PIF to RDRAM. `offset` was
-- read before.
unfoldable pub dma_from_pif : ℕ → SiController → Option (SiController)
dma_from_pif offset s =
    if leb (offset + 0x40) max_rdram_size
    then some
        (signal_si (record s { ri = record (s.ri) { ram = copy s.ri.ram offset s.ram 0 0x40 } }))
    else none

module _ (get_local_time : ℕ → TimeStamp) (get_offset_seconds : TimeStamp → ℕ) where
  unfoldable pub process_and_send : Bytes → SiController → Option (SiController)
  process_and_send junk s = elim (pif_process get_local_time get_offset_seconds junk s) [
    | done s' ↦ dma_from_pif (dma_offset s) s'
    | fault ↦ none
    | out_of_fuel ↦ none
  ]

  unfoldable pub write_si_regs : Bytes → SiController → ℕ → ℕ → ℕ → Option (SiController)
  write_si_regs junk s address word dqm =
      let reg = sub32 address si_regs_base_address >>> 2 in
      if not (ltb reg num_si_registers)
      then none
      else if reg == si_status_reg
      then some (record s {
        vr4300 = clear_rcp_interrupt s.vr4300 si;
        regs = update s.regs si_status_reg (bit_and (s.regs si_status_reg) (not32 0x1000));
      })
      else if reg == si_pif_addr_rd64b_reg
      then process_and_send junk s
      else if reg == si_pif_addr_wr64b_reg
      then dma_to_pif s
      else some (record s { regs = update s.regs reg (merge (s.regs reg) word dqm) })

module _ (get_local_time : ℕ → TimeStamp) where
  -- The four bytes of the seed in PIF RAM.
  abbrev put_seed : SiController → ℕ → ℕ → ℕ → ℕ → SiController
  put_seed s a b c d = record s {
    ram = update (update (update (update s.ram 0x24 a) 0x25 b) 0x26 c) 0x27 d;
  }

  -- bus_write_word of the memory size; the address is inside RDRAM.
  abbrev put_memory_size : SiController → ℕ → SiController
  put_memory_size s address = record s {
    ri = get_or (write_rdram s.ri address 0x800000 0xFFFFFFFF) s.ri;
  }

  unfoldable pub rdram_size : SiController → SiController
  rdram_size s =
      if s.ram 0x26 == 0x3F && s.ram 0x27 == 0x3F
      then put_memory_size s 0x318
      else if s.ram 0x26 == 0x91 && s.ram 0x27 == 0x3F
      then put_memory_size s 0x3F0
      else s

  -- What `si_init` does after the seed.
  unfoldable pub si_init_rest :
      SiController → Option Bytes → ℕ → (ℕ → Controller) → ℕ × SiController
  unfolding rdram_size
  si_init_rest s eeprom eeprom_size controller = (
    0,
    record (rdram_size s) {
      eeprom = record { contents = eeprom; size = eeprom_size };
      rtc = rtc_init get_local_time (λ _. 0);
      controller = controller;
    },
  )

  -- `cart_rom` and the seed of `dd_variant` are `none` for NULL.
  unfoldable pub si_init :
      SiController
      → Bytes
      → Option Bytes
      → Option ℕ
      → Option Bytes
      → ℕ
      → (ℕ → Controller)
      → ℕ × SiController
  unfolding si_init_rest
  si_init s pif_rom cart_rom dd_seed eeprom eeprom_size controller =
      let s = record s { rom = pif_rom } in
      elim cart_rom [
        | some rom ↦
            (let (code, seed) = get_cic_seed rom in
              if code == 0
              then si_init_rest
                  (put_seed s (u8 (seed >>> 24)) (u8 (seed >>> 16)) (u8 (seed >>> 8)) (u8 seed))
                  eeprom eeprom_size controller
              else (1, s))
        | none ↦ elim dd_seed [
          | some seed ↦ si_init_rest (put_seed s 0x00 0x0A seed 0x3F) eeprom eeprom_size controller
          | none ↦ si_init_rest s eeprom eeprom_size controller
        ]
      ]
