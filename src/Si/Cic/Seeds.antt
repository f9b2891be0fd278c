-- ===== src/Si/Cic/Seeds.antt =====
-- The seeds that `get_cic_seed` knows.
use cen.Base.{ℕ, ◌+◌, ◌-◌, ◌<◌, ◌^◌, ◌≡◌, ◌⊎◌, ◌↔◌, Bytes, arith}
use cen.Si.Cic.{seed_of_crc, get_cic_seed, si_crc32}

seed_of_crc_codes :
    (crc : ℕ)
    → (((seed_of_crc crc).0 ≡ 0) ⊎ ((seed_of_crc crc).0 ≡ 1))
      × (((seed_of_crc crc).0 ≡ 1) ↔ ((seed_of_crc crc).1 ≡ 0))
      × ((seed_of_crc crc).1 < 2 ^ 19)
unfolding seed_of_crc
seed_of_crc_codes crc = (ground arith, ground arith, ground arith)

-- `get_cic_seed` returns 0 or 1, and 1 exactly with the seed 0. Every seed lies in the bits that
-- si/cic.c describes: the ROM type (bit 19) is a game pack.
pub get_cic_seed_codes :
    (rom : Bytes)
    → (((get_cic_seed rom).0 ≡ 0) ⊎ ((get_cic_seed rom).0 ≡ 1))
      × (((get_cic_seed rom).0 ≡ 1) ↔ ((get_cic_seed rom).1 ≡ 0))
      × ((get_cic_seed rom).1 < 2 ^ 19)
unfolding get_cic_seed
get_cic_seed_codes rom =
    ground (arith, seed_of_crc_codes (si_crc32 (λ i. rom (0x40 + i)) (0x1000 - 0x40)))
