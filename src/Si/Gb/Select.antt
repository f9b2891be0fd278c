-- ===== src/Si/Gb/Select.antt =====
-- The banks that the registers of a Game Boy cartridge select are inside its ROM.
use cen.Base.{
  ℕ, ◌+◌, ◌*◌, ◌/◌, ◌%◌, ◌≤◌, ◌<◌, ◌≡◌, inl, inr, refl, sym, ◌∙◌, ap, bit_and-le_left, Bool, true,
  false, not, Bool-cases, ◌||◌, Option, some, Bytes, bit_and, ltb, leb, ◌==◌, if◌then◌else◌, ◌>>=◌,
  arith,
}
use cen.Si.Gb.{
  GbCart, ReadHandler, WriteHandler, wrap, mbc1_select_high, mbc1_select_zero, mbc1_select_ram,
  mbc1_rom_ram_bank_select, mbc1_rom_bank_select, mbc1_bank_mode_select, mbc2_rom_bank_select,
  mbc3_rom_bank_select, mbc5_rom_bank_select_lower, mbc5_rom_bank_select_upper,
}

-- The functions that may stand in the table of writes: those for RAM above the ROM, and not those
-- of MBC1 and MBC2 together with the low register of MBC5.
abbrev pub allowed : Bool → ℕ → WriteHandler → Bool
allowed five page WriteHandler.write_extram = leb 0xA0 page
allowed five page WriteHandler.mbc2_write_extram = leb 0xA0 page
allowed five page WriteHandler.mbc1_write_rom_bank_select = not five
allowed five page WriteHandler.mbc1_write_bank_mode_select = not five
allowed five page WriteHandler.mbc2_write_rom_bank_select = not five
allowed five page WriteHandler.mbc5_write_rom_bank_select_lower = five
allowed five page other = true

-- The table of reads for the ROM.
abbrev pub rom_reader : ℕ → ReadHandler
rom_reader page = if ltb page 0x40 then ReadHandler.read_bank_0 else ReadHandler.read_bank_n

-- The ROM, of whole banks, with both windows and the bank of the low register inside it.
pub record Mapped (five : Bool) (rom : Bytes) (len : ℕ) (cartrom : Bytes) (num_banks size : ℕ)
    (zero_bank bank low : ℕ) (writes : ℕ → WriteHandler) (reads : ℕ → ReadHandler) : Type 0 where
  pub same_rom : cartrom ≡ rom
  pub same_size : size ≡ len
  pub two_banks : 2 ≤ num_banks
  pub all_banks : num_banks * 0x4000 ≤ size
  pub whole : size % 0x4000 ≡ 0
  pub zero_inside : zero_bank + 0x4000 ≤ size
  pub bank_inside : bank + 0x4000 ≤ size
  pub low_inside : five ≡ false → low < num_banks
  pub writers : (page : ℕ) → allowed five page (writes page) ≡ true
  pub readers : (page : ℕ) → page < 0x80 → reads page ≡ rom_reader page

abbrev pub IsMapped : Bool → Bytes → ℕ → GbCart → Type 0
IsMapped five rom len c =
    Mapped five rom len c.cartrom c.cartrom_num_banks c.cartromsize c.cartrom_bank_zero
      c.cartrom_bank_n c.reg_rom_bank_low c.gb_writemem c.gb_readmem

wrap_lem : (bank n : ℕ) → 2 ≤ n → (k : ℕ) × (wrap bank n ≡ some k) × (k < n)
unfolding wrap
wrap_lem bank n two = elim (Bool-cases (leb n bank)) [
  | inl past ↦ (bank % n, ground (arith, past), omega (arith, two))
  | inr inside ↦ (bank, ground (arith, inside), ground (arith, inside))
]

-- A multiple of the bank size, modulo another.
banks_mod : (d q : ℕ) → 0 < q → (d * 16384) % (16384 * q) ≡ (d % q) * 16384
banks_mod d q pos = grind arith

pub flipped : (b : Bool) → not b ≡ true → b ≡ false
flipped false e = refl
flipped true e = sym e

-- What a write that is defined leaves.
abbrev pub Kept : Bool → Bytes → ℕ → Option GbCart → Type 0
Kept five rom len o = (c : GbCart) × (o ≡ some c) × IsMapped five rom len c

module _ (five : Bool) (rom : Bytes) (len : ℕ) where
  module _ (c : GbCart) (i : IsMapped five rom len c) where
    -- Another bank for 4000-7FFF.
    moved :
        (bank low : ℕ)
        → bank + 0x4000 ≤ c.cartromsize
        → (five ≡ false → low < c.cartrom_num_banks)
        → Mapped five rom len c.cartrom c.cartrom_num_banks c.cartromsize c.cartrom_bank_zero bank
            low c.gb_writemem c.gb_readmem
    moved bank low inside low_below = record {
      same_rom = i.same_rom;
      same_size = i.same_size;
      two_banks = i.two_banks;
      all_banks = i.all_banks;
      whole = i.whole;
      zero_inside = i.zero_inside;
      bank_inside = inside;
      low_inside = low_below;
      writers = i.writers;
      readers = i.readers;
    }

    banked :
        (k low : ℕ)
        → k < c.cartrom_num_banks
        → (five ≡ false → low < c.cartrom_num_banks)
        → Mapped five rom len c.cartrom c.cartrom_num_banks c.cartromsize c.cartrom_bank_zero
            (k * 0x4000)
            low
            c.gb_writemem
            c.gb_readmem
    banked k low below = moved (k * 0x4000) low (omega (arith, i.all_banks))

    -- Another bank for 0000-3FFF.
    rebased :
        (k : ℕ)
        → k < c.cartrom_num_banks
        → Mapped five rom len c.cartrom c.cartrom_num_banks c.cartromsize
            (k * 0x4000)
            c.cartrom_bank_n
            c.reg_rom_bank_low
            c.gb_writemem
            c.gb_readmem
    rebased k below = record {
      same_rom = i.same_rom;
      same_size = i.same_size;
      two_banks = i.two_banks;
      all_banks = i.all_banks;
      whole = i.whole;
      zero_inside = omega (arith, i.all_banks);
      bank_inside = i.bank_inside;
      low_inside = i.low_inside;
      writers = i.writers;
      readers = i.readers;
    }

    -- A bank that is chosen through the wrap-around is inside.
    chosen-Kept :
        (bank : ℕ) (f : ℕ → GbCart)
        → ((k : ℕ) → k < c.cartrom_num_banks → IsMapped five rom len (f k))
        → Kept five rom len (wrap bank c.cartrom_num_banks >>= λ k. some (f k))
    chosen-Kept bank f mapped =
        let (k, e, below) = wrap_lem bank c.cartrom_num_banks i.two_banks in
        (f k, ap (λ (o : Option ℕ). o >>= λ j. some (f j)) e, mapped k below)

    pub mbc1_rom : (value : ℕ) → Kept five rom len (mbc1_rom_bank_select c value)
    unfolding mbc1_rom_bank_select
    mbc1_rom value =
        chosen-Kept _ _
          λ k below. banked k (bit_and k 0x1F) below λ e. omega (arith, bit_and-le_left k 0x1F)

    pub mbc2_rom : (value : ℕ) → Kept five rom len (mbc2_rom_bank_select c value)
    unfolding mbc2_rom_bank_select
    mbc2_rom value = chosen-Kept _ _ λ k below.
        let inside : (if k == 0 then k + 1 else k) < c.cartrom_num_banks =
          ground (arith, i.two_banks) in
        banked (if k == 0 then k + 1 else k) _ inside λ e. inside

    pub mbc5_lower :
        (value : ℕ) → five ≡ true → Kept five rom len (mbc5_rom_bank_select_lower c value)
    unfolding mbc5_rom_bank_select_lower
    mbc5_lower value is_five = chosen-Kept _ _ λ k below. banked k value below λ e. cc

    pub mbc5_upper : (value : ℕ) → Kept five rom len (mbc5_rom_bank_select_upper c value)
    unfolding mbc5_rom_bank_select_upper
    mbc5_upper value = chosen-Kept _ _ λ k below. banked k c.reg_rom_bank_low below i.low_inside

    pub mbc3_rom : (value : ℕ) → Kept five rom len (mbc3_rom_bank_select c value)
    unfolding mbc3_rom_bank_select
    mbc3_rom value = elim (Bool-cases (bit_and value 0x7F == 0)) [
      | inl first ↦ rw first (
        record c { cart_bank_num = bit_and value 0x7F; cartrom_bank_n = 16384 },
        refl,
        banked 1 c.reg_rom_bank_low (omega (arith, i.two_banks)) i.low_inside,
      )
      | inr other ↦
          let data' = bit_and value 0x7F in
          let banks = c.cartromsize / 16384 in
          let size : c.cartromsize ≡ 16384 * banks = omega (arith, i.whole) in
          let some_rom : 0 < banks = omega (arith, i.two_banks, i.all_banks) in
          let bank : (data' * 16384) % c.cartromsize ≡ (data' % banks) * 16384 =
            ap (λ (x : ℕ). (data' * 16384) % x) size ∙ banks_mod data' banks some_rom in
          let inside : (data' * 16384) % c.cartromsize + 0x4000 ≤ c.cartromsize =
            omega (arith, size, bank, some_rom) in
          let some_banks : (c.cartromsize == 0) ≡ false =
            ground (arith, i.two_banks, i.all_banks) in
          rw (other, some_banks) (_, refl, moved _ c.reg_rom_bank_low inside i.low_inside)
    ]

    pub mode_select :
        (value : ℕ) → five ≡ false → IsMapped five rom len (mbc1_bank_mode_select c value)
    unfolding mbc1_bank_mode_select
    mode_select value not_five = elim (Bool-cases (bit_and value 1 == 0)) [
      | inl rom_mode ↦ rw rom_mode i
      | inr ram_mode ↦
          rw ram_mode (banked c.reg_rom_bank_low _ (i.low_inside not_five) i.low_inside)
    ]

    high-Kept : (data' : ℕ) → Kept five rom len (mbc1_select_high c data')
    unfolding mbc1_select_high
    high-Kept data' = elim (Bool-cases (ltb 0x1F c.cartrom_num_banks)) [
      | inl large ↦
          rw large (chosen-Kept _ _ λ k below. banked k c.reg_rom_bank_low below i.low_inside)
      | inr small ↦ rw small (c, refl, i)
    ]

    zero-Kept : (data' : ℕ) → Kept five rom len (mbc1_select_zero c data')
    unfolding mbc1_select_zero
    zero-Kept data' = elim (Bool-cases (ltb 0x20 c.cartrom_num_banks)) [
      | inl large ↦ rw large (chosen-Kept _ _ rebased)
      | inr small ↦ rw small (c, refl, i)
    ]

  then_Kept :
      (o : Option GbCart) (f : GbCart → Option GbCart)
      → Kept five rom len o
      → ((c : GbCart) → IsMapped five rom len c → Kept five rom len (f c))
      → Kept five rom len (o >>= f)
  then_Kept o f (c, e, i) next =
      let (c', e', i') = next c i in (c', ap (λ (x : Option GbCart). x >>= f) e ∙ e', i')

  -- The two halves of MBC1's selection.
  rom_half :
      (c : GbCart) (data' : ℕ)
      → IsMapped five rom len c
      → Kept five rom len (
          if (c.mbc1_mode == 0) || ltb 0x1F c.cartrom_num_banks
          then (mbc1_select_high c data' >>= λ high. some (record high { cartrom_bank_zero = 0 }))
          else some c)
  rom_half c data' i = elim (Bool-cases ((c.mbc1_mode == 0) || ltb 0x1F c.cartrom_num_banks)) [
    | inl set ↦ rw set (
        then_Kept _ _ (high-Kept c i data')
          λ high j. (_, refl, rebased high j 0 (omega (arith, j.two_banks))))
    | inr kept ↦ rw kept (c, refl, i)
  ]

  ram_half :
      (c : GbCart) (data' : ℕ)
      → IsMapped five rom len c
      → Kept five rom len (mbc1_select_ram c data')
  unfolding mbc1_select_ram
  ram_half c data' i = then_Kept _ _ (zero-Kept c i data') λ c1 j.
      elim (Bool-cases (leb c1.extram_num_banks 1)) [
        | inl one ↦ rw one (c1, refl, j)
        | inr more ↦ rw more (_, refl, j)
      ]

  pub mbc1_ram :
      (c : GbCart) (value : ℕ)
      → IsMapped five rom len c
      → Kept five rom len (mbc1_rom_ram_bank_select c value)
  unfolding mbc1_rom_ram_bank_select
  mbc1_ram c value i = then_Kept _ _ (rom_half c (bit_and value 3) i) λ c1 j.
      elim (Bool-cases (c1.mbc1_mode == 1)) [
        | inl ram_mode ↦ rw ram_mode (ram_half c1 (bit_and value 3) j)
        | inr rom_mode ↦ rw rom_mode (c1, refl, j)
      ]
