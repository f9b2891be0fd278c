-- ===== src/Bus/Access.antt =====
-- bus/controller.c: a read and a write on the bus, for components with a state S. `on_read` and
-- `on_write` stand for the functions of the mappings; a read can change a component. NULL, an
-- address that no mapping covers, reads as its upper half, and a write there changes nothing.
use cen.Base.{ℕ, Option, none, some, bit_and, bit_or, ltb, if◌then◌else◌, ◌>>>◌}
use cen.Bus.{Handler, open_bus}
use cen.Bus.Map.{MemoryMap, resolve_mapped_address}

module _ {S : Type 0} (write_ram : S → ℕ → ℕ → ℕ → Option S)
    (on_write : Handler → S → ℕ → ℕ → ℕ → Option S) where
  unfoldable pub bus_write_word : MemoryMap Handler → S → ℕ → ℕ → ℕ → Option S
  bus_write_word m s address word dqm =
      if ltb address 0x00800000
      then write_ram s address (bit_and word dqm) dqm
      else elim (resolve_mapped_address open_bus m address) [
        | none ↦ some s
        | some found ↦ on_write found.handler s address (bit_and word dqm) dqm
      ]

module _ {S : Type 0} (read_ram : S → ℕ → Option (ℕ × S))
    (on_read : Handler → S → ℕ → Option (ℕ × S)) where
  unfoldable pub bus_read_word : MemoryMap Handler → S → ℕ → Option (ℕ × S)
  bus_read_word m s address =
      if ltb address 0x00800000
      then read_ram s address
      else elim (resolve_mapped_address open_bus m address) [
        | none ↦ some (bit_or (address >>> 16) (bit_and address 0xFFFF0000), s)
        | some found ↦ on_read found.handler s address
      ]
