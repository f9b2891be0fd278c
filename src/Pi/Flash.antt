-- ===== src/Pi/Flash.antt =====
-- pi/controller.c: the flash chip on the cartridge, which is driven by command words.
pub mod Laws
use cen.Base.{
  ℕ, ◌+◌, ◌-◌, ◌*◌, ◌/◌, ◌%◌, ◌^◌, ◌||◌, ◌&&◌, Bool, true, false, Option, none, some, bit_and, ltb,
  leb, ◌==◌, if◌then◌else◌, ◌>>>◌, Bytes, fill, copy,
}
use cen.Ri.{RiController, max_rdram_size}
use cen.Pi.{
  PiController, Flashram, FlashramMode, flashram_idle, flashram_erase, flashram_write,
  flashram_reading, flashram_status, flashram_size,
}

-- The status word, or -1 without a chip.
unfoldable pub read_flashram : {Dd : Type 0} → PiController Dd → Option ℕ
read_flashram s = elim s.flashram.contents [
  | none ↦ none
  | some chip ↦ some (s.flashram.status >>> 32)
]

-- The erase or the write that was set up, 0x80 bytes of the chip; `none` past its end.
unfoldable pub execute : Flashram → Bytes → RiController → Option Flashram
execute f chip ri = elim f.mode [
  | flashram_erase ↦
      if ltb flashram_size (f.offset + 0x80)
      then none
      else some (record f { contents = some (fill chip f.offset 0xFF 0x80) })
  | flashram_write ↦
      if ltb flashram_size (f.offset + 0x80) || ltb max_rdram_size (f.rdram_pointer + 0x80)
      then none
      else some (record f { contents = some (copy chip f.offset ri.ram f.rdram_pointer 0x80) })
  | _ ↦ some f
]

-- The command in the top byte of the word.
unfoldable pub flash_command : Flashram → Bytes → RiController → ℕ → Option Flashram
unfolding execute
flash_command f chip ri word =
    let command = word >>> 24 in
    if command == 0x4B
    then some (record f { offset = bit_and word 0xFFFF * 128 })
    else if command == 0x78
    then some (record f { mode = flashram_erase; status = 0x1111800800C20000 })
    else if command == 0xA5
    then some (record f { offset = bit_and word 0xFFFF * 128; status = 0x1111800400C20000 })
    else if command == 0xB4
    then some (record f { mode = flashram_write })
    else if command == 0xD2
    then execute f chip ri
    else if command == 0xE1
    then some (record f { mode = flashram_status; status = 0x1111800100C20000 })
    else if command == 0xF0
    then some (record f { mode = flashram_reading; status = 0x11118004F0000000 })
    else some f

-- The return code and the new state; a write without a chip returns 1.
unfoldable pub write_flashram :
    {Dd : Type 0} → PiController Dd → ℕ → ℕ → Option (ℕ × PiController Dd)
unfolding flash_command
write_flashram s address word = elim s.flashram.contents [
  | none ↦ some (1, s)
  | some chip ↦
      if address == 0x08000000
      then some (0, s)
      else elim (flash_command s.flashram chip s.ri word) [
        | none ↦ none
        | some f ↦ some (0, record s { flashram = f })
      ]
]
