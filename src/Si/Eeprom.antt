-- ===== src/Si/Eeprom.antt =====
-- si/controller.c: the EEPROM commands of the PIF.
pub mod Laws
use cen.Base.{
  ℕ, ◌+◌, ◌-◌, ◌*◌, ◌%◌, ◌^◌, Bool, true, false, ◌&&◌, Option, none, some, leb, if◌then◌else◌, u16,
  sub64, Bytes, copy, ◌<<<◌,
}

-- struct eeprom; `contents` is `data`, `none` for NULL. `size` is a size_t.
pub record Eeprom : Type 0 where
  pub contents : Option Bytes
  pub size : ℕ

-- The first byte of the block that a command names; both commands then test
-- `address <= eeprom->size - 8` in size_t.
abbrev pub block_address : Bytes → ℕ
block_address send_buf = u16 (send_buf 1 <<< 3)

abbrev pub in_eeprom : Eeprom → ℕ → Bool
in_eeprom eeprom address = leb address (sub64 eeprom.size 8)

-- The result is the return code and the filled receive buffer.
unfoldable pub eeprom_read : Eeprom → Bytes → Bytes → ℕ × Bytes
eeprom_read eeprom send_buf recv_buf = elim eeprom.contents [
  | none ↦ (1, recv_buf)
  | some bytes ↦
      if in_eeprom eeprom (block_address send_buf)
      then (0, copy recv_buf 0 bytes (block_address send_buf) 8)
      else (1, recv_buf)
]

unfoldable pub eeprom_write : Eeprom → Bytes → ℕ × Eeprom
eeprom_write eeprom send_buf = elim eeprom.contents [
  | none ↦ (1, eeprom)
  | some bytes ↦
      if in_eeprom eeprom (block_address send_buf)
      then (0, record eeprom { contents = some (copy bytes (block_address send_buf) send_buf 2 8) })
      else (1, eeprom)
]
