-- ===== src/Bus/Tests.antt =====
-- The bus at concrete addresses.
use cen.Base.{◌≡◌, refl, some, true, arith, [], ◌∷◌, map}
use cen.Bus.{
  Handler, Target, bus_init, bus_mappings, bus_target, flashram, cart_rom, pif_rom_and_ram,
}
use cen.Bus.Map.{MemoryMap}
use cen.Bus.Intervals.{first_range, table_target}
use cen.Bus.Dispatch.{bus_init-routes}

bus_init-routes_example :
    (m : MemoryMap Handler) × (bus_init true ≡ some (0, m))
    × (bus_target m 0x10000040 ≡ table_target (bus_mappings true) 0x10000040)
bus_init-routes_example = bus_init-routes true 0x10000040 (omega arith)

-- The first bytes of the save memory are answered by the flash chip, the ROM by the cartridge.
answers :
    map (table_target (bus_mappings true)) (0x08000000 ∷ 0x10000040 ∷ 0x1FC007FC ∷ [])
    ≡ Target.handled flashram ∷ Target.handled cart_rom ∷ Target.handled pif_rom_and_ram ∷ []
unfolding first_range table_target
answers = refl
