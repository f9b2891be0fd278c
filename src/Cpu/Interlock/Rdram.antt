-- ===== src/Cpu/Interlock/Rdram.antt =====
-- RDRAM behind bus/controller.c is memory as the caches need it.
use cen.Base.{
  ℕ, ◌+◌, ◌-◌, ◌^◌, ◌≤◌, ◌<◌, ◌≡◌, ◌≢◌, ◌⊎◌, refl, sym, ◌∙◌, ap, Option, none, some, bit_and,
  bit_or, bit_and_low, bit_and-zero, zero-bit_or, sub32, lt→ltb, merge, load_be, IsBytes, arith,
  ◌>>=◌,
}
use cen.Bus.{Handler}
use cen.Bus.Map.{MemoryMap}
use cen.Bus.Access.{bus_read_word, bus_write_word}
use cen.Ri.{RiController, read_rdram, write_rdram, max_rdram_size, rdram_base_address}
use cen.Ri.Memory.{load_be-lt, read-write_rdram, read-write_rdram_far}
use cen.Cpu.Machine.{BusOps}
use cen.Cpu.Interlock.Transfer.{InRam, Memory}

-- A read of RDRAM, which changes nothing.
abbrev pub read_ram : RiController → ℕ → Option (ℕ × RiController)
read_ram ri address = do w ← read_rdram ri address; some (w, ri)

word_of : Option ℕ → ℕ
word_of none = 0
word_of (some w) = w

in_rdram :
    (ri : RiController) (a : ℕ) → a + 4 ≤ 0x800000 → read_rdram ri a ≡ some (load_be ri.ram a)
unfolding read_rdram
in_rdram ri a h =
    let at : sub32 a rdram_base_address ≡ a = omega arith in
    rw (at, lt→ltb (a + 3) max_rdram_size (omega arith)) refl

whole_word : (old w : ℕ) → w < 2 ^ 32 → merge old (bit_and w (2 ^ 32 - 1)) (2 ^ 32 - 1) ≡ w
whole_word old w h =
    ap (λ (t : ℕ). bit_or t (bit_and w (2 ^ 32 - 1))) (bit_and-zero old)
    ∙ zero-bit_or (bit_and w (2 ^ 32 - 1))
    ∙ bit_and_low 32 w
    ∙ omega arith

module _ (map : MemoryMap Handler)
    (on_read : Handler → RiController → ℕ → Option (ℕ × RiController))
    (on_write : Handler → RiController → ℕ → ℕ → ℕ → Option RiController) where
  -- The bus, with functions for the other devices.
  abbrev pub bus : BusOps RiController
  bus = record {
    read_word = bus_read_word read_ram on_read map;
    write_word = bus_write_word write_rdram on_write map;
  }

  pub read_lem :
      (ri : RiController) (a : ℕ)
      → IsBytes ri.ram
      → InRam a
      → bus.read_word ri a ≡ some (load_be ri.ram a, ri)
  unfolding bus_read_word
  read_lem ri a bytes inside =
      rw (lt→ltb a 0x00800000 (omega (arith, inside.below)))
        (ap (λ (o : Option ℕ). o >>= λ w. some (w, ri)) (in_rdram ri a inside.below))

  pub write_lem :
      (ri : RiController) (a w : ℕ)
      → IsBytes ri.ram
      → InRam a
      → w < 2 ^ 32
      → (ri' : RiController) × (bus.write_word ri a w (2 ^ 32 - 1) ≡ some ri')
        × IsBytes ri'.ram
        × (load_be ri'.ram a ≡ w)
        × ((c : ℕ) → InRam c → c ≢ a → load_be ri'.ram c ≡ load_be ri.ram c)
  unfolding bus_write_word word_of
  write_lem ri a w bytes inside small =
      let masked : bit_and w (2 ^ 32 - 1) < 2 ^ 32 = omega (arith, bit_and_low 32 w) in
      let r =
        read-write_rdram ri a (bit_and w (2 ^ 32 - 1)) (2 ^ 32 - 1) bytes
          (omega (arith, inside.below)) masked in
      (
        r.0,
        rw (lt→ltb a 0x00800000 (omega (arith, inside.below))) r.1,
        r.3,
        ap word_of (sym (in_rdram r.0 a inside.below) ∙ r.2)
            ∙ whole_word (load_be ri.ram a) w small,
        λ c at other.
            let apart : (a + 4 ≤ c) ⊎ (c + 4 ≤ a) =
              omega (arith, at.aligned, inside.aligned, other) in
            ap word_of (
              sym (in_rdram r.0 c at.below)
              ∙ read-write_rdram_far ri r.0 a c (bit_and w (2 ^ 32 - 1)) (2 ^ 32 - 1)
                  (omega (arith, inside.below)) (omega (arith, at.below)) apart r.1
              ∙ in_rdram ri c at.below),
      )

  abbrev pub rdram_memory : Memory RiController bus
  rdram_memory = record {
    Valid = λ ri. IsBytes ri.ram;
    word = λ ri a. load_be ri.ram a;
    word_small = λ ri a bytes. load_be-lt ri.ram a bytes;
    read_lem = read_lem;
    write_lem = write_lem;
  }
