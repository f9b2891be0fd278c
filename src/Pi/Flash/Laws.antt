-- ===== src/Pi/Flash/Laws.antt =====
-- The commands of the flash chip, taken together.
use cen.Base.{
  ℕ, ◌+◌, ◌-◌, ◌*◌, ◌/◌, ◌%◌, ◌^◌, ◌<◌, ◌≡◌, ◌↔◌, some, none, ◌&&◌, leb, ltb, if◌then◌else◌,
  bit_and_low, Bytes, arith,
}
use cen.Ri.{RiController}
use cen.Pi.{Flashram, flashram_size}
use cen.Pi.Flash.{flash_command, execute}

-- The page that an offset command selects: 0x80 bytes.
abbrev page : ℕ → ℕ
page word = word % 2 ^ 16 * 0x80

-- After the commands that choose a page and set the erase mode, the execute command is undefined
-- in C exactly if the page ends past the chip; else the 0x80 bytes of the page are 0xFF, and no
-- other byte has changed.
pub flash_erase :
    (f f1 f2 : Flashram) (chip : Bytes) (ri : RiController) (choose set go : ℕ)
    → choose / 2 ^ 24 ≡ 0x4B
    → set / 2 ^ 24 ≡ 0x78
    → go / 2 ^ 24 ≡ 0xD2
    → flash_command f chip ri choose ≡ some f1
    → flash_command f1 chip ri set ≡ some f2
    → ((flash_command f2 chip ri go ≡ none) ↔ (flashram_size < page choose + 0x80))
      × ((f3 : Flashram) (bytes : Bytes) (i : ℕ)
          → flash_command f2 chip ri go ≡ some f3
          → f3.contents ≡ some bytes
          → bytes i ≡ (if leb (page choose) i && ltb i (page choose + 0x80) then 0xFF else chip i))
unfolding flash_command execute
flash_erase f f1 f2 chip ri choose set go c s g e e' =
    let p = bit_and_low 16 choose in (ground (arith, p), λ f3 bytes i e'' found. ground (arith, p))

-- After the commands that set the write mode and choose a page, an execute command that is defined
-- fills the 0x80 bytes of the page from the RDRAM address that was kept, and changes no other
-- byte.
pub flash_program :
    (f f1 f2 : Flashram) (chip : Bytes) (ri : RiController) (set choose go : ℕ)
    → set / 2 ^ 24 ≡ 0xB4
    → choose / 2 ^ 24 ≡ 0xA5
    → go / 2 ^ 24 ≡ 0xD2
    → flash_command f chip ri set ≡ some f1
    → flash_command f1 chip ri choose ≡ some f2
    → (f3 : Flashram) (bytes : Bytes) (i : ℕ) → flash_command f2 chip ri go ≡ some f3
    → f3.contents ≡ some bytes
    → bytes i ≡ (
        if leb (page choose) i && ltb i (page choose + 0x80)
        then ri.ram (f.rdram_pointer + (i - page choose))
        else chip i)
unfolding flash_command execute
flash_program f f1 f2 chip ri set choose go s c g e e' f3 bytes i e'' found =
    ground (arith, bit_and_low 16 choose)
