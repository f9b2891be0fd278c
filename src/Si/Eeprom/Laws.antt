-- ===== src/Si/Eeprom/Laws.antt =====
-- Blocks of eight bytes are written and read back; nothing outside the chip is touched.
use cen.Base.{ℕ, ◌+◌, ◌^◌, ◌≤◌, ◌<◌, ◌≡◌, ◌≢◌, some, Bytes, arith}
use cen.Si.Eeprom.{Eeprom, eeprom_read, eeprom_write, block_address}

-- A block inside the chip that was written is read back, byte for byte, by a command that names
-- the same block; both commands return 0.
pub eeprom_read-write :
    (e : Eeprom) (bytes send send' recv : Bytes) (i : ℕ)
    → e.contents ≡ some bytes
    → 8 ≤ e.size
    → e.size < 2 ^ 64
    → block_address send + 8 ≤ e.size
    → send' 1 ≡ send 1
    → i < 8
    → ((eeprom_write e send).0 ≡ 0)
      × ((eeprom_read (eeprom_write e send).1 send' recv).0 ≡ 0)
      × ((eeprom_read (eeprom_write e send).1 send' recv).1 i ≡ send (2 + i))
unfolding eeprom_read eeprom_write
eeprom_read-write e bytes send send' recv i has_bytes big word fits same below =
    (ground arith, ground arith, ground arith)

-- After a write, a block with another number reads as before, with the same return code.
pub eeprom_read-write_other :
    (e : Eeprom) (send send' recv : Bytes) (i : ℕ)
    → send 1 < 256
    → send' 1 < 256
    → send 1 ≢ send' 1
    → i < 8
    → ((eeprom_read (eeprom_write e send).1 send' recv).0 ≡ (eeprom_read e send' recv).0)
      × ((eeprom_read (eeprom_write e send).1 send' recv).1 i ≡ (eeprom_read e send' recv).1 i)
unfolding eeprom_read eeprom_write
eeprom_read-write_other e send send' recv i b b' ne below = (ground arith, ground arith)

-- A block past the end of a chip of at least 8 bytes is refused by both commands with code 1, and
-- the chip and the reply stay as they were.
pub eeprom_refused :
    (e : Eeprom) (send recv : Bytes)
    → 8 ≤ e.size
    → e.size < 2 ^ 64
    → e.size < block_address send + 8
    → (eeprom_write e send ≡ (1, e)) × (eeprom_read e send recv ≡ (1, recv))
unfolding eeprom_read eeprom_write
eeprom_refused e send recv big word past = (ground arith, ground arith)
