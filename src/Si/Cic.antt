-- ===== src/Si/Cic.antt =====
-- si/cic.c: which lockout chip a cartridge was made for, from a CRC-32 of its boot code.
pub mod Crc
pub mod Seeds
use cen.Base.{
  ℕ, zero, suc, ◌+◌, ◌-◌, ◌*◌, ◌/◌, ◌%◌, ◌^◌, not, ◌||◌, bit_and, bit_xor, ◌==◌, if◌then◌else◌, has,
  ◌>>>◌, Bytes,
}

abbrev pub polynomial : ℕ
polynomial = 0xEDB88320

-- One of the eight shifts of a table entry.
unfoldable pub crc_shift : ℕ → ℕ
crc_shift c = if has c 1 then bit_xor polynomial (c >>> 1) else c >>> 1

unfoldable pub crc_shifts : ℕ → ℕ → ℕ
unfolding crc_shift
crc_shifts zero c = c
crc_shifts (suc k) c = crc_shifts k (crc_shift c)

-- Entry n of the table.
unfoldable pub crc_table : ℕ → ℕ
unfolding crc_shifts
crc_table n = crc_shifts 8 n

-- The loop over the bytes, with the rounds that are left.
unfoldable pub crc_loop : ℕ → ℕ → Bytes → ℕ → ℕ
unfolding crc_table
crc_loop zero n input c = c
crc_loop (suc left) n input c =
    crc_loop left (n + 1) input (bit_xor (crc_table (bit_and (bit_xor c (input n)) 0xFF)) (c >>> 8))

unfoldable pub si_crc32 : Bytes → ℕ → ℕ
unfolding crc_loop
si_crc32 input size = bit_xor (crc_loop size 0 input (bit_xor 0 0xFFFFFFFF)) 0xFFFFFFFF

-- The seed that goes with a CRC of the whole boot code; `cic_seed = 0; return 1;` otherwise.
unfoldable pub seed_of_crc : ℕ → ℕ × ℕ
seed_of_crc crc =
    if crc == 0x6170A4A1
      || (crc == 0x009E9EA3 || (crc == 0xCD19FEF1 || (crc == 0xB98CED9A || crc == 0xE71C2766)))
    then (0, 0x00043F3F)
    else if crc == 0x90BB6CB5
    then (0, 0x00003F3F)
    else if crc == 0x0B050EE0
    then (0, 0x0000783F)
    else if crc == 0x98BC2C86
    then (0, 0x0000913F)
    else if crc == 0xACC8580A
    then (0, 0x0000853F)
    else if crc == 0x0E018159
    then (0, 0x0000DD00)
    else (1, 0)

-- The return code and the seed.
unfoldable pub get_cic_seed : Bytes → ℕ × ℕ
get_cic_seed rom_data =
    let boot : Bytes = λ i. rom_data (0x40 + i) in
    let crc = si_crc32 boot (0x1000 - 0x40) in
    let aleck64crc = si_crc32 boot (0xC00 - 0x40) in
    if aleck64crc == 0x587BD543 then (0, 0x0000AC00) else seed_of_crc crc
