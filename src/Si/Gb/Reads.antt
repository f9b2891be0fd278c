-- ===== src/Si/Gb/Reads.antt =====
-- What a Game Boy cartridge answers after any writes to its registers.
use cen.Base.{
  ℕ, ◌+◌, ◌*◌, ◌%◌, ◌^◌, ◌≤◌, ◌<◌, ◌≡◌, inl, inr, refl, ◌∙◌, ap, Bool, true, false, Bool-cases,
  Option, none, some, Bytes, List, [], ◌∷◌, bit_and, bit_and_low, lt→ltb, ltb, if◌then◌else◌, ◌>>>◌,
  ◌>>=◌, arith,
}
use cen.Si.Gb.{GbCart, ReadHandler, rom_at, run_read, gb_read, gb_write}
use cen.Si.Gb.Install.{gb_init}
use cen.Si.Gb.Kinds.{is_mbc5, gb_init-Mapped}
use cen.Si.Gb.Select.{rom_reader, IsMapped, Kept}
use cen.Si.Gb.Banks.{gb_write-IsMapped}

-- The offset into the ROM of an address below 0x8000.
abbrev pub rom_offset : GbCart → ℕ → ℕ
rom_offset c address =
    if ltb address 0x4000
    then c.cartrom_bank_zero + address
    else c.cartrom_bank_n + bit_and address 0x3FFF

-- Writes below the external RAM, one after the other.
abbrev pub run_writes : List (ℕ × ℕ) → GbCart → Option GbCart
run_writes [] c = some c
run_writes ((address, value) ∷ rest) c = gb_write c address value >>= run_writes rest

abbrev pub BelowRam : List (ℕ × ℕ) → Type 0
BelowRam [] = Unit {0}
BelowRam ((address, value) ∷ rest) = (address < 0xA000) × BelowRam rest

module _ (rom : Bytes) (len : ℕ) (five : Bool) where
  byte_inside :
      (c : GbCart) (offset : ℕ)
      → IsMapped five rom len c
      → offset < c.cartromsize
      → (rom_at c offset ≡ some (rom offset)) × (offset < len)
  byte_inside c offset i inside =
      let found : rom_at c offset ≡ some (c.cartrom offset) =
        ap (λ (t : Bool). if t then some (c.cartrom offset) else none) (lt→ltb _ _ inside) in
      (found ∙ ap (λ (bytes : Bytes). some (bytes offset)) i.same_rom, omega (arith, i.same_size))

  pub gb_read-rom :
      (c : GbCart) (address : ℕ)
      → IsMapped five rom len c
      → address < 0x8000
      → (gb_read c address ≡ some (rom (rom_offset c address))) × (rom_offset c address < len)
  unfolding gb_read run_read
  gb_read-rom c address i below =
      let page = address >>> 8 in
      let reader : c.gb_readmem page ≡ rom_reader page = i.readers page (omega arith) in
      let read = λ (handler : ReadHandler). run_read handler c address in
      let reader_of =
        λ (t : Bool). if t then ReadHandler.read_bank_0 else ReadHandler.read_bank_n in
      elim (Bool-cases (ltb address 0x4000)) [
        | inl first ↦
            let low : ltb page 0x40 ≡ true = ground (arith, first) in
            let inside : c.cartrom_bank_zero + address < c.cartromsize =
              ground (arith, first, i.zero_inside) in
            let byte = byte_inside c _ i inside in
            rw first (ap read (reader ∙ ap reader_of low) ∙ byte.0, byte.1)
        | inr second ↦
            let high : ltb page 0x40 ≡ false = ground (arith, second) in
            let masked : bit_and address 0x3FFF ≡ address % 2 ^ 14 = bit_and_low 14 address in
            let inside : c.cartrom_bank_n + bit_and address 0x3FFF < c.cartromsize =
              omega (arith, masked, i.bank_inside) in
            let byte = byte_inside c _ i inside in
            rw second (ap read (reader ∙ ap reader_of high) ∙ byte.0, byte.1)
      ]

  run_writes-Kept :
      (writes : List (ℕ × ℕ)) (c : GbCart)
      → IsMapped five rom len c
      → BelowRam writes
      → Kept five rom len (run_writes writes c)
  run_writes-Kept [] c i below = (c, refl, i)
  run_writes-Kept ((address, value) ∷ rest) c i (below, others) =
      elim (gb_write-IsMapped five rom len c address value i) [
        | inl (undefined, high) ↦ absurd (omega arith)
        | inr (c', e, i') ↦
            let (c'', e', i'') = run_writes-Kept rest c' i' others in
            (c'', ap (λ (o : Option GbCart). o >>= run_writes rest) e ∙ e', i'')
      ]

-- With a ROM whose size is what its code, 0 to 8, says, and a cartridge of zeroes, `gb_init` and
-- any sequence of writes below 0xA000 are defined, and a read below 0x8000 is then the byte of the
-- ROM at the offset of the selected bank, which is inside the ROM.
pub gb_read-run_writes :
    (rom : Bytes) (len : ℕ) (before : GbCart) (save : Option (Bytes × ℕ)) (writes : List (ℕ × ℕ))
    (address : ℕ)
    → rom 0x148 ≤ 8
    → len ≡ 2 ^ (rom 0x148 + 1) * 0x4000
    → before.reg_rom_bank_low ≡ 0
    → BelowRam writes
    → address < 0x8000
    → (c0 : GbCart) × (c : GbCart) × (gb_init before rom len save ≡ some c0)
      × (run_writes writes c0 ≡ some c)
      × (gb_read c address ≡ some (rom (rom_offset c address)))
      × (rom_offset c address < len)
gb_read-run_writes rom len before save writes address small sized blank registers below =
    let (c0, e0, i0) = gb_init-Mapped rom len before save small sized blank in
    let (c, e, i) = run_writes-Kept rom len (is_mbc5 (rom 0x147)) writes c0 i0 registers in
    let (value, inside) = gb_read-rom rom len (is_mbc5 (rom 0x147)) c address i below in
    (c0, c, e0, e, value, inside)
