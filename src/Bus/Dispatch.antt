-- ===== src/Bus/Dispatch.antt =====
-- The tree that `bus_init` builds, and what it answers, against the table that it is built from.
use cen.Base.{
  List, [], ◌∷◌, ℕ, ◌<◌, ◌≤◌, ◌≡◌, ◌^◌, refl, Bool-cases, inl, inr, Bool, true, false, some, ltb,
  ltb→lt, ◌==◌, ◌&&◌, if◌then◌else◌, arith,
}
use cen.Bus.{
  Handler, bus_mappings, bus_init, bus_target, open_bus, ai_regs, dp_regs, mi_regs, pi_regs,
  ri_regs, si_regs, sp_regs, vi_regs, cart_rom, flashram, dd_controller, dd_ipl_rom,
  pif_rom_and_ram, rdram_regs, sp_regs2, sp_mem, sram,
}
use cen.Bus.Intervals.{
  table_target, tree_on, table_on, on_interval, same_answer, resolve_on, first_range_on, place,
}
use cen.Bus.Map.{at, Node, MemoryMap}

abbrev entry : ℕ → ℕ → ℕ → Handler → ℕ → ℕ → ℕ → Bool → Node Handler
entry left parent right handler length start last red = record {
  left = left;
  parent = parent;
  right = right;
  mapping = record { handler = handler; length = length; start = start; last = last };
  red = red;
}

abbrev nodes : Bool → List (Node Handler)
nodes dd_present =
    entry 0 0 0 open_bus 0x0 0x0 0x0 false
    ∷ entry 8 3 0 ai_regs 0x18 0x4500000 0x4500017 false
    ∷ entry 15 7 0 dp_regs 0x20 0x4100000 0x410001F false
    ∷ entry 7 4 1 mi_regs 0x10 0x4300000 0x430000F false
    ∷ entry 3 0 6 pi_regs 0x100000 0x4600000 0x46FFFFF false
    ∷ entry 0 6 0 ri_regs 0x20 0x4700000 0x470001F false
    ∷ entry 5 4 10 si_regs 0x1C 0x4800000 0x480001B false
    ∷ entry 14 3 2 sp_regs 0x20 0x4040000 0x404001F true
    ∷ entry 0 1 0 vi_regs 0x38 0x4400000 0x4400037 true
    ∷ entry 17 10 13 cart_rom 0xFC00000 0x10000000 0x1FBFFFFF false
    ∷ entry 11 6 9 flashram 0x10004 0x8000000 0x8010003 true
    ∷ entry 0 10 12 (if dd_present then dd_controller else open_bus) 0x5C0 0x5000000 0x50005BF false
    ∷ entry 0 11 0 (if dd_present then dd_ipl_rom else open_bus) 0x400000 0x6000000 0x63FFFFF true
    ∷ entry 0 9 0 pif_rom_and_ram 0x800 0x1FC00000 0x1FC007FF true
    ∷ entry 0 7 16 rdram_regs 0x28 0x3F00000 0x3F00027 false
    ∷ entry 0 2 0 sp_regs2 0x8 0x4080000 0x4080007 true
    ∷ entry 0 14 0 sp_mem 0x2000 0x4000000 0x4001FFF true
    ∷ entry 0 9 0 sram 0x801FFFF 0x8000000 0x1001FFFE true
    ∷ entry 0 0 0 open_bus 0x0 0x0 0x0 false
    ∷ []

abbrev pub bus_map : Bool → MemoryMap Handler
bus_map dd_present = record { mappings = nodes dd_present; root = 4; next_map_index = 18 }

bus_init_lem : (dd_present : Bool) → bus_init dd_present ≡ some (0, bus_map dd_present)
unfolding bus_init
bus_init_lem true = refl
bus_init_lem false = refl

bus_init_same :
    (dd_present : Bool) (m : MemoryMap Handler)
    → bus_init dd_present ≡ some (0, m)
    → m ≡ bus_map dd_present
bus_init_same dd_present m e = ground (arith, bus_init_lem dd_present)

&&_both : (a b : Bool) → (a && b) ≡ true → (a ≡ true) × (b ≡ true)
&&_both a b e = ground arith

-- The boundaries of the ranges. Between two of them every address has one answer.
abbrev boundaries : List ℕ
boundaries =
    0x800000 ∷ 0x3F00000 ∷ 0x3F00028 ∷ 0x4000000 ∷ 0x4002000 ∷ 0x4040000 ∷ 0x4040020 ∷ 0x4080000
    ∷ 0x4080008 ∷ 0x4100000 ∷ 0x4100020 ∷ 0x4300000 ∷ 0x4300010 ∷ 0x4400000 ∷ 0x4400038 ∷ 0x4500000
    ∷ 0x4500018 ∷ 0x4600000 ∷ 0x4700000 ∷ 0x4700020 ∷ 0x4800000 ∷ 0x480001C ∷ 0x5000000 ∷ 0x50005C0
    ∷ 0x6000000 ∷ 0x6400000 ∷ 0x8000000 ∷ 0x8010004 ∷ 0x10000000 ∷ 0x1001FFFF ∷ 0x1FC00000
    ∷ 0x1FC00800 ∷ 0x100000000 ∷ []

-- The interval from one boundary to the next has an answer, and the tree and the table give it.
agree_from : Bool → ℕ → List ℕ → Bool
agree_from dd_present lo [] = lo == 2 ^ 32
agree_from dd_present lo (hi ∷ rest) =
    same_answer (tree_on (bus_map dd_present) lo hi) (table_on (bus_mappings dd_present) lo hi)
    && agree_from dd_present hi rest

agree_everywhere : (dd_present : Bool) → agree_from dd_present 0 boundaries ≡ true
unfolding agree_from same_answer tree_on table_on resolve_on first_range_on place at
agree_everywhere true = refl
agree_everywhere false = refl

cover :
    (dd_present : Bool) (lo : ℕ) (rest : List ℕ) (address : ℕ)
    → lo ≤ address
    → address < 2 ^ 32
    → agree_from dd_present lo rest ≡ true
    → bus_target (bus_map dd_present) address ≡ table_target (bus_mappings dd_present) address
unfolding agree_from
cover dd_present lo [] address above below agree = absurd (ground arith)
cover dd_present lo (hi ∷ rest) address above below agree =
    let both = &&_both _ _ agree in
    elim (Bool-cases (ltb address hi)) [
      | inl inside ↦
          on_interval (bus_map dd_present) (bus_mappings dd_present) lo hi address above
            (ltb→lt address hi inside) both.0
      | inr outside ↦ cover dd_present hi rest address (ground arith) below both.1
    ]

-- The tree that `bus_init` builds answers every 32-bit address with RDRAM below 8 MB, and above with
-- the first range of the table that holds the address, or nothing.
pub bus_init-table :
    (dd_present : Bool) (m : MemoryMap Handler) (address : ℕ)
    → bus_init dd_present ≡ some (0, m)
    → address < 2 ^ 32
    → bus_target m address ≡ table_target (bus_mappings dd_present) address
bus_init-table dd_present m address e below =
    rw (bus_init_same dd_present m e)
      (cover dd_present 0 boundaries address (omega arith) below (agree_everywhere dd_present))

-- `bus_init` succeeds, and the tree that it builds answers every 32-bit address with RDRAM below 8
-- MB, and above with the first range of the table that holds the address, or nothing.
pub bus_init-routes :
    (dd_present : Bool) (address : ℕ)
    → address < 2 ^ 32
    → (m : MemoryMap Handler) × (bus_init dd_present ≡ some (0, m))
      × (bus_target m address ≡ table_target (bus_mappings dd_present) address)
bus_init-routes dd_present address below = (
  bus_map dd_present,
  bus_init_lem dd_present,
  bus_init-table dd_present (bus_map dd_present) address (bus_init_lem dd_present) below,
)
