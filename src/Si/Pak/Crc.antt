-- ===== src/Si/Pak/Crc.antt =====
-- The checksum of a block.
use cen.Base.{ℕ, zero, suc, ◌+◌, ◌<◌, ◌≡◌, refl, ltb, if◌then◌else◌, Bytes, arith}
use cen.Si.Pak.{crc_bytes, controller_pak_crc}

-- The checksum reads 32 bytes: blocks that agree there have one checksum.
crc_bytes_cong :
    (left i : ℕ) (a b : Bytes) (crc : ℕ)
    → ((j : ℕ) → j < 0x20 → a j ≡ b j)
    → crc_bytes left i a crc ≡ crc_bytes left i b crc
unfolding crc_bytes
crc_bytes_cong zero i a b crc same = refl
crc_bytes_cong (suc left) i a b crc same =
    let e : (if ltb i 0x20 then a i else 0) ≡ (if ltb i 0x20 then b i else 0) =
      ground (arith, same i) in
    rw e (crc_bytes_cong left (i + 1) a b _ same)

pub controller_pak_crc_cong :
    (a b : Bytes) → ((j : ℕ) → j < 0x20 → a j ≡ b j) → controller_pak_crc a ≡ controller_pak_crc b
unfolding controller_pak_crc
controller_pak_crc_cong a b same = crc_bytes_cong 0x21 0 a b 0 same
