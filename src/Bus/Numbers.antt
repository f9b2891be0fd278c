-- ===== src/Bus/Numbers.antt =====
-- A number for each target of bus/controller.c, by which two targets are compared.
use cen.Base.{get_or, List, [], ◌∷◌, ℕ, ◌≡◌, refl}
use cen.Bus.{
  Target, rdram, unmapped, handled, ai_regs, dp_regs, mi_regs, pi_regs, ri_regs, si_regs, sp_regs,
  vi_regs, cart_rom, flashram, dd_controller, dd_ipl_rom, pif_rom_and_ram, rdram_regs, sp_regs2,
  sp_mem, sram, open_bus,
}

-- Targets are compared by number.
unfoldable pub number : Target → ℕ
number unmapped = 0
number rdram = 1
number (handled ai_regs) = 2
number (handled dp_regs) = 3
number (handled mi_regs) = 4
number (handled pi_regs) = 5
number (handled ri_regs) = 6
number (handled si_regs) = 7
number (handled sp_regs) = 8
number (handled vi_regs) = 9
number (handled cart_rom) = 10
number (handled flashram) = 11
number (handled dd_controller) = 12
number (handled dd_ipl_rom) = 13
number (handled pif_rom_and_ram) = 14
number (handled rdram_regs) = 15
number (handled sp_regs2) = 16
number (handled sp_mem) = 17
number (handled sram) = 18
number (handled open_bus) = 19

abbrev pub by_number : List Target
by_number =
    unmapped
    ∷ rdram
    ∷ handled ai_regs
    ∷ handled dp_regs
    ∷ handled mi_regs
    ∷ handled pi_regs
    ∷ handled ri_regs
    ∷ handled si_regs
    ∷ handled sp_regs
    ∷ handled vi_regs
    ∷ handled cart_rom
    ∷ handled flashram
    ∷ handled dd_controller
    ∷ handled dd_ipl_rom
    ∷ handled pif_rom_and_ram
    ∷ handled rdram_regs
    ∷ handled sp_regs2
    ∷ handled sp_mem
    ∷ handled sram
    ∷ handled open_bus
    ∷ []

pub number_lem : (t : Target) → get_or by_number (number t) unmapped ≡ t
unfolding number
number_lem unmapped = refl
number_lem rdram = refl
number_lem (handled ai_regs) = refl
number_lem (handled dp_regs) = refl
number_lem (handled mi_regs) = refl
number_lem (handled pi_regs) = refl
number_lem (handled ri_regs) = refl
number_lem (handled si_regs) = refl
number_lem (handled sp_regs) = refl
number_lem (handled vi_regs) = refl
number_lem (handled cart_rom) = refl
number_lem (handled flashram) = refl
number_lem (handled dd_controller) = refl
number_lem (handled dd_ipl_rom) = refl
number_lem (handled pif_rom_and_ram) = refl
number_lem (handled rdram_regs) = refl
number_lem (handled sp_regs2) = refl
number_lem (handled sp_mem) = refl
number_lem (handled sram) = refl
number_lem (handled open_bus) = refl
