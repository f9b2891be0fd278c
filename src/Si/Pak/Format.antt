-- ===== src/Si/Pak/Format.antt =====
-- si/pak.c: the contents of a formatted memory pak.
use cen.Base.{
  ℕ, zero, suc, ◌+◌, ◌-◌, ◌*◌, ◌/◌, ◌%◌, ◌^◌, ◌≡◌, refl, ltb, if◌then◌else◌, List, [], ◌∷◌, ◌++◌,
  replicate, get_or, Bytes, update,
}
use cen.Si.Pak.{mempak_size}

abbrev mempak_num_pages : ℕ
mempak_num_pages = 128

abbrev mempak_page_size : ℕ
mempak_page_size = mempak_size / mempak_num_pages

-- The identification of a pak, and the bytes that go with it, twice.
abbrev pak_id : List ℕ
pak_id =
    0xFF ∷ 0xFF ∷ 0xFF ∷ 0xFF ∷ 0x05 ∷ 0x1A ∷ 0x5F ∷ 0x13 ∷ replicate 8 0x00
    ++ replicate 10 0xFF
    ++ 0x01 ∷ 0xFF ∷ 0x66 ∷ 0x25 ∷ 0x99 ∷ 0xCD ∷ []

abbrev blank_rows : List ℕ
blank_rows = replicate 32 0x00

abbrev pub init_id_area : List ℕ
init_id_area =
    0x81 ∷ 0x01 ∷ 0x02 ∷ 0x03 ∷ 0x04 ∷ 0x05 ∷ 0x06 ∷ 0x07 ∷ 0x08 ∷ 0x09 ∷ 0x0A ∷ 0x0B ∷ 0x0C ∷ 0x0D
      ∷ 0x0E ∷ 0x0F ∷ 0x10 ∷ 0x11 ∷ 0x12 ∷ 0x13 ∷ 0x14 ∷ 0x15 ∷ 0x16 ∷ 0x17 ∷ 0x18 ∷ 0x19 ∷ 0x1A
      ∷ 0x1B ∷ 0x1C ∷ 0x1D ∷ 0x1E ∷ 0x1F ∷ pak_id
    ++ blank_rows
    ++ pak_id
    ++ pak_id
    ++ blank_rows
    ++ pak_id
    ++ blank_rows

-- The loop over the entries of the two tables of pages.
unfoldable pub page_entries : ℕ → ℕ → Bytes → Bytes
page_entries i zero m = m
page_entries i (suc left) m =
    let first = update m (mempak_page_size * 1 + i * 2 + 1) 0x03 in
    page_entries (i + 1) left (update first (mempak_page_size * 2 + i * 2 + 1) 0x03)

unfoldable pub controller_pak_format : Bytes → Bytes
unfolding page_entries
controller_pak_format m =
    let cleared : Bytes = λ i. if ltb i mempak_size then get_or init_id_area i 0 else m i in
    let checksums =
      update (update cleared (mempak_page_size * 1 + 1) 0x71) (mempak_page_size * 2 + 1) 0x71 in
    page_entries 5 (mempak_num_pages - 5) checksums

abbrev sum_bytes : Bytes → ℕ → ℕ → ℕ
sum_bytes m i zero = 0
sum_bytes m i (suc left) = m i + sum_bytes m (i + 1) left

-- In both tables of pages, byte 1 is the sum of the entries behind it, whatever the pak held.
pub format-checksums :
    (m : Bytes)
    → (sum_bytes (controller_pak_format m) 0x102 0xFE % 2 ^ 8 ≡ controller_pak_format m 0x101)
      × (sum_bytes (controller_pak_format m) 0x202 0xFE % 2 ^ 8 ≡ controller_pak_format m 0x201)
unfolding controller_pak_format
format-checksums m = (refl, refl)
