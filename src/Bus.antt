-- ===== src/Bus.antt =====
-- bus/controller.c and bus/address.h: which component answers an address. The handlers of the
-- mappings are named; the components that are modelled have them as definitions.
pub mod Map
pub mod Numbers
pub mod Intervals
pub mod Dispatch
pub mod Access
pub mod Tests
use cen.Base.{
  List, [], ◌∷◌, ℕ, ◌+◌, ◌/◌, ◌^◌, Bool, true, false, Option, none, some, bit_and, bit_or, ltb,
  ◌==◌, if◌then◌else◌, ◌>>>◌,
}
use Map.{MemoryMap, Mapping, create_memory_map, map_address_range, resolve_mapped_address}

-- The pairs of a read and a write function. `open_bus` is bus_open_read and bus_dead_write.
pub data Handler : Type 0 where
  ai_regs dp_regs mi_regs pi_regs ri_regs si_regs sp_regs vi_regs : Handler
  cart_rom flashram dd_controller dd_ipl_rom pif_rom_and_ram rdram_regs : Handler
  sp_regs2 sp_mem sram open_bus : Handler

-- struct bus_controller_mapping.
pub record BusMapping : Type 0 where
  pub handler : Handler
  pub address : ℕ
  pub length : ℕ

abbrev pub range : Handler → ℕ → ℕ → BusMapping
range handler address length = record { handler = handler; address = address; length = length }

-- The table of `bus_init`; without a 64DD its two ranges are open.
abbrev pub bus_mappings : Bool → List BusMapping
bus_mappings dd_present =
    range ai_regs 0x04500000 0x18
    ∷ range dp_regs 0x04100000 0x20
    ∷ range mi_regs 0x04300000 0x10
    ∷ range pi_regs 0x04600000 0x100000
    ∷ range ri_regs 0x04700000 0x20
    ∷ range si_regs 0x04800000 0x1C
    ∷ range sp_regs 0x04040000 0x20
    ∷ range vi_regs 0x04400000 0x38
    ∷ range cart_rom 0x10000000 0x0FC00000
    ∷ range flashram 0x08000000 0x10004
    ∷ range (if dd_present then dd_controller else open_bus) 0x05000000 0x5C0
    ∷ range (if dd_present then dd_ipl_rom else open_bus) 0x06000000 0x400000
    ∷ range pif_rom_and_ram 0x1FC00000 0x800
    ∷ range rdram_regs 0x03F00000 0x28
    ∷ range sp_regs2 0x04080000 0x8
    ∷ range sp_mem 0x04000000 0x2000
    ∷ range sram 0x08000000 0x0801FFFF
    ∷ []

-- The loop of `bus_init`: a mapping that does not fit ends it with 1.
unfoldable pub map_all : List BusMapping → MemoryMap Handler → Option (ℕ × MemoryMap Handler)
map_all [] m = some (0, m)
map_all (b ∷ rest) m = elim (map_address_range open_bus m b.address b.length b.handler) [
  | none ↦ none
  | some (code, m') ↦ elim (code == 0) [ true ↦ map_all rest m' | false ↦ some (1, m') ]
]

unfoldable pub bus_init : Bool → Option (ℕ × MemoryMap Handler)
unfolding map_all create_memory_map map_address_range
bus_init dd_present = map_all (bus_mappings dd_present) (create_memory_map open_bus)

-- What an address reaches.
pub data Target : Type 0 where
  rdram unmapped : Target
  handled : Handler → Target

-- bus_read_word and bus_write_word choose alike; a word read from nowhere is `open_word`.
unfoldable pub bus_target : MemoryMap Handler → ℕ → Target
bus_target m address =
    if ltb address 0x00800000 then rdram else elim (resolve_mapped_address open_bus m address) [
      | none ↦ unmapped
      | some found ↦ handled found.handler
    ]

unfoldable pub open_word : ℕ → ℕ
open_word address = bit_or (address >>> 16) (bit_and address 0xFFFF0000)
