-- ===== src/Si/Pak/Mempak.antt =====
-- A memory pak as a memory of 32-byte blocks.
use cen.Base.{
  ℕ, ◌+◌, ◌*◌, ◌/◌, ◌≤◌, ◌<◌, ◌≡◌, ◌≢◌, bit_and_high, bit_or_fields, Bytes, copy, update, some,
  arith,
}
use cen.Si.Pak.{
  Controller, pak_mem, block_address, controller_pak_crc, controller_pak_read, controller_pak_write,
  mempak_size,
}
use cen.Si.Pak.Crc.{controller_pak_crc_cong}

-- Block addresses are multiples of 32 below 2^16.
pub block_address_lem :
    (send : Bytes)
    → send 1 < 256
    → send 2 < 256
    → block_address send ≡ send 1 * 256 + send 2 / 32 * 32
unfolding block_address
block_address_lem send a b = ground (
  arith,
  bit_or_fields 8 (send 1) (send 2) b,
  bit_and_high 16 5 (send 1 * 256 + send 2) (omega arith) (omega arith),
)

-- The memory of a pak after a block was written, and what a block reads as.
abbrev stored : Controller → Bytes → Controller
stored c send = record c { mempak = copy c.mempak (block_address send) send 3 0x20 }

abbrev loaded : Controller → Bytes → Bytes → Bytes
loaded c ask reply = copy reply 0 c.mempak (block_address ask) 0x20

mempak_write :
    (c : Controller) (send recv : Bytes)
    → c.pak ≡ pak_mem
    → block_address send + 0x20 ≤ mempak_size
    → controller_pak_write c send recv
      ≡ some (stored c send, update recv 0 (controller_pak_crc (λ i. send (3 + i))))
unfolding controller_pak_write
mempak_write c send recv mem fits = ground arith

mempak_read :
    (c : Controller) (ask reply : Bytes)
    → c.pak ≡ pak_mem
    → block_address ask + 0x20 ≤ mempak_size
    → controller_pak_read c ask reply
      ≡ some (c, update (loaded c ask reply) 0x20 (controller_pak_crc (loaded c ask reply)))
unfolding controller_pak_read
mempak_read c ask reply mem fits = ground arith

-- A block inside a memory pak is written and read, both defined, and is read back byte for byte,
-- under the checksum that the write answered.
pub mempak_read-write :
    (c : Controller) (send recv ask reply : Bytes)
    → c.pak ≡ pak_mem
    → block_address send + 0x20 ≤ mempak_size
    → block_address ask ≡ block_address send
    → (w : Controller × Bytes) × (r : Controller × Bytes) × (controller_pak_write c send recv
        ≡ some w)
      × (controller_pak_read w.0 ask reply ≡ some r)
      × ((i : ℕ) → i < 0x20 → r.1 i ≡ send (3 + i))
      × (r.1 0x20 ≡ w.1 0)
mempak_read-write c send recv ask reply mem fits same = (
  _,
  _,
  mempak_write c send recv mem fits,
  mempak_read (stored c send) ask reply mem (omega arith),
  λ i h. ground arith,
  controller_pak_crc_cong _ _ (λ i h. ground arith),
)

-- After a write of a block inside a memory pak, another block inside it reads as before, and all
-- three accesses are defined; the addresses are two bytes.
pub mempak_read-write_other :
    (c : Controller) (send recv ask reply : Bytes)
    → c.pak ≡ pak_mem
    → send 1 < 256
    → send 2 < 256
    → ask 1 < 256
    → ask 2 < 256
    → block_address send + 0x20 ≤ mempak_size
    → block_address ask + 0x20 ≤ mempak_size
    → block_address ask ≢ block_address send
    → (w : Controller × Bytes) × (r : Controller × Bytes) × (r' : Controller × Bytes)
      × (controller_pak_write c send recv ≡ some w)
      × (controller_pak_read w.0 ask reply ≡ some r)
      × (controller_pak_read c ask reply ≡ some r')
      × ((i : ℕ) → i < 0x20 → r.1 i ≡ r'.1 i)
mempak_read-write_other c send recv ask reply mem s1 s2 a1 a2 fits fits' ne = (
  _,
  _,
  _,
  mempak_write c send recv mem fits,
  mempak_read (stored c send) ask reply mem fits',
  mempak_read c ask reply mem fits',
  λ i h. ground (arith, block_address_lem send s1 s2, block_address_lem ask a1 a2),
)
