-- ===== src/Si/Pak.antt =====
-- si/pak.c, si/pak.h and si/pak_transfer.c: the accessories of a controller. The Game Boy cartridge
-- in a transfer pak is that of si/gb.c. `none` is an access to it that is undefined in C.
pub mod Crc
pub mod Format
pub mod Mempak
pub mod Transfer
use cen.Base.{
  ℕ, zero, suc, ◌+◌, ◌-◌, ◌*◌, ◌^◌, Bool, true, false, bit_and, bit_or, bit_xor, ltb, leb, ◌==◌,
  if◌then◌else◌, has, u8, u16, ◌<<<◌, Bytes, copy, fill, update, ◌&&◌, Option, none, some, ◌>>=◌,
}
use cen.Si.Gb.{GbCart, gb_read, gb_write}

abbrev pub mempak_size : ℕ
mempak_size = 0x8000

-- enum pak_type.
pub data PakType : Type 0 where
  pak_none pak_mem pak_rumble pak_transfer : PakType

-- struct controller, without the paths of files; the tables of handlers are in `cart`. `mempak` is the
-- memory of `mempak_save`, and `tpak_rom` says whether `tpak_rom.ptr` is set.
pub record Controller : Type 0 where
  pub mempak : Bytes
  pub pak : PakType
  pub pak_enabled : Bool
  pub present : Bool
  pub tpak_rom : Bool
  pub tpak_mode : ℕ
  pub tpak_mode_changed : Bool
  pub tpak_bank : ℕ
  pub cart : GbCart

-- The block of 32 bytes that a command names; the low five bits are a checksum of the address.
unfoldable pub block_address : Bytes → ℕ
block_address send_buf = bit_and (u16 (bit_or (send_buf 1 <<< 8) (send_buf 2))) 0xFFE0

-- controller_pak_crc: one step of the register.
unfoldable pub crc_round : ℕ → Bool → ℕ
crc_round crc next =
    let xor_tap : ℕ = if has crc 0x80 then 0x85 else 0x00 in
    let shifted = u8 (crc <<< 1) in bit_xor (if next then bit_or shifted 1 else shifted) xor_tap

-- The loop over `mask`, with 2^(k-1) the next mask.
unfoldable pub crc_masks : ℕ → ℕ → ℕ → ℕ
unfolding crc_round
crc_masks zero byte crc = crc
crc_masks (suc k) byte crc = crc_masks k byte (crc_round crc (has byte (2 ^ k)))

-- The loop over `i`, with the rounds that are left.
unfoldable pub crc_bytes : ℕ → ℕ → Bytes → ℕ → ℕ
unfolding crc_masks
crc_bytes zero i input crc = crc
crc_bytes (suc left) i input crc =
    crc_bytes left (i + 1) input (crc_masks 8 (if ltb i 0x20 then input i else 0) crc)

unfoldable pub controller_pak_crc : Bytes → ℕ
unfolding crc_bytes
controller_pak_crc input = crc_bytes 0x21 0 input 0

-- The address on the cartridge; 0xC000 to 0xFFFF shows one of four banks of 0x4000.
abbrev pub gb_address : Controller → ℕ → ℕ
gb_address c address = u16 (address - 0xC000 + bit_and c.tpak_bank 3 * 0x4000)

-- The loops over a block, with the rounds that are left.
unfoldable pub gameboy_read : ℕ → ℕ → GbCart → ℕ → Bytes → Option Bytes
unfolding gb_read
gameboy_read zero i cart address buffer = some buffer
gameboy_read (suc left) i cart address buffer = do
  value ← gb_read cart (u16 (address + i))
  gameboy_read left (i + 1) cart address (update buffer i value)

unfoldable pub gameboy_write : ℕ → ℕ → GbCart → ℕ → Bytes → Option GbCart
unfolding gb_write
gameboy_write zero i cart address buffer = some cart
gameboy_write (suc left) i cart address buffer = do
  cart' ← gb_write cart (u16 (address + i)) (buffer i)
  gameboy_write left (i + 1) cart' address buffer

unfoldable pub transfer_pak_read : Controller → Bytes → Bytes → Option (Controller × Bytes)
unfolding gameboy_read
transfer_pak_read c send_buf recv_buf =
    let address = block_address send_buf in
    let shown =
      if c.tpak_rom
      then (let mode = fill recv_buf 0 (if c.tpak_mode == 1 then 0x89 else 0x80) 0x20 in
          update mode 0 (bit_or (mode 0) (if c.tpak_mode_changed then 0x4 else 0)))
      else fill recv_buf 0 0x40 0x20 in
    if address == 0x8000
    then some (c, fill recv_buf 0 (if c.pak_enabled then 0x84 else 0x00) 0x20)
    else if address == 0xB000
    then some
        (if c.pak_enabled then (record c { tpak_mode_changed = false }, shown) else (c, recv_buf))
    else if leb 0xC000 address && c.pak_enabled
    then (do loaded ← gameboy_read 0x20 0 c.cart (gb_address c address) recv_buf; some (c, loaded))
    else some (c, recv_buf)

unfoldable pub transfer_pak_write : Controller → Bytes → Option Controller
unfolding gameboy_write
transfer_pak_write c send_buf =
    let address = block_address send_buf in
    if address == 0xA000
    then some (if c.pak_enabled then record c { tpak_bank = send_buf 3 } else c)
    else if address == 0xB000
    then some (
        if c.pak_enabled
        then record c { tpak_mode = bit_and (send_buf 3) 1; tpak_mode_changed = true }
        else c)
    else if leb 0xC000 address
    then (do
      cart ← gameboy_write 0x20 0 c.cart (gb_address c address) (λ i. send_buf (3 + i))
      some (record c { cart = cart }))
    else some c

-- What a kind of pak itself answers, before the checksum is appended.
unfoldable pub pak_bytes : PakType → Controller → Bytes → Bytes → Option (Controller × Bytes)
unfolding transfer_pak_read
pak_bytes pak_none c send_buf recv_buf = some (c, fill recv_buf 0 0x00 0x20)
pak_bytes pak_rumble c send_buf recv_buf = some (c, fill recv_buf 0 0x80 0x20)
pak_bytes pak_mem c send_buf recv_buf =
    let address = block_address send_buf in
    if leb address (mempak_size - 0x20)
    then some (c, copy recv_buf 0 c.mempak address 0x20)
    else some (c, recv_buf)
pak_bytes pak_transfer c send_buf recv_buf = transfer_pak_read c send_buf recv_buf

unfoldable pub controller_pak_read : Controller → Bytes → Bytes → Option (Controller × Bytes)
unfolding pak_bytes
controller_pak_read c send_buf recv_buf = do
  (c', bytes) ← pak_bytes c.pak c send_buf recv_buf
  some (c', update bytes 0x20 (controller_pak_crc bytes))

-- What a write to a block stores, but for the block that enables the pak.
unfoldable pub pak_store : PakType → Controller → Bytes → Option Controller
unfolding transfer_pak_write
pak_store pak_none c send_buf = some c
pak_store pak_rumble c send_buf = some c
pak_store pak_mem c send_buf =
    let address = block_address send_buf in
    if leb address (mempak_size - 0x20)
    then some (record c { mempak = copy c.mempak address send_buf 3 0x20 })
    else some c
pak_store pak_transfer c send_buf = transfer_pak_write c send_buf

unfoldable pub pak_enable : Controller → Bytes → Controller
pak_enable c send_buf =
    if send_buf 3 == 0xFE
    then record c { pak_enabled = false }
    else if send_buf 3 == 0x84
    then record c { pak_enabled = true }
    else c

unfoldable pub controller_pak_write : Controller → Bytes → Bytes → Option (Controller × Bytes)
unfolding pak_store pak_enable
controller_pak_write c send_buf recv_buf = do
  c' ←
      (if block_address send_buf == 0x8000
        then some (pak_enable c send_buf)
        else pak_store c.pak c send_buf)
  some (c', update recv_buf 0 (controller_pak_crc (λ i. send_buf (3 + i))))
