-- ===== src/Si/Gb/Banks.antt =====
-- The banks of a Game Boy cartridge stay inside its ROM, whatever is written.
use cen.Base.{
  ℕ, ◌*◌, ◌≤◌, ◌<◌, ◌≡◌, ◌⊎◌, inl, inr, refl, Bool, true, false, Bool-cases, ◌&&◌, Option, none,
  some, Bytes, bit_and, ltb, leb, ◌==◌, if◌then◌else◌, ◌>>>◌, arith,
}
use cen.Si.Gb.{
  GbCart, ReadHandler, WriteHandler, set_range, install_extram, mbc3_ram_bank_select, ram_enable,
  ram_write, set_ram, mbc2_ram_write, mbc5_ram_bank_select, run_write, gb_write,
}
use cen.Si.Gb.Select.{
  allowed, rom_reader, Mapped, IsMapped, Kept, flipped, mbc1_rom, mbc2_rom, mbc5_lower, mbc5_upper,
  mbc3_rom, mode_select, mbc1_ram,
}

module _ (five : Bool) (rom : Bytes) (len : ℕ) where
  -- Other functions for pages of the external RAM.
  pub writers-set_range :
      (table : ℕ → WriteHandler) (from to : ℕ) (handler : WriteHandler)
      → ((page : ℕ) → allowed five page (table page) ≡ true)
      → ((page : ℕ) → from ≤ page → allowed five page handler ≡ true)
      → (page : ℕ) → allowed five page (set_range table from to handler page) ≡ true
  writers-set_range table from to handler before fits page =
      elim (Bool-cases (leb from page && leb page to)) [
        | inl inside ↦ rw inside (fits page (ground (arith, inside)))
        | inr outside ↦ rw outside (before page)
      ]

  pub readers-set_range :
      (table : ℕ → ReadHandler) (from to : ℕ) (handler : ReadHandler)
      → ((page : ℕ) → page < 0x80 → table page ≡ rom_reader page)
      → 0xA0 ≤ from
      → (page : ℕ) → page < 0x80
      → set_range table from to handler page ≡ rom_reader page
  readers-set_range table from to handler before above page below =
      let outside : (leb from page && leb page to) ≡ false = ground (arith, above, below) in
      rw outside (before page below)

  pub retabled :
      (c : GbCart) (writes : ℕ → WriteHandler) (reads : ℕ → ReadHandler)
      → IsMapped five rom len c
      → ((page : ℕ) → allowed five page (writes page) ≡ true)
      → ((page : ℕ) → page < 0x80 → reads page ≡ rom_reader page)
      → Mapped five rom len c.cartrom c.cartrom_num_banks c.cartromsize c.cartrom_bank_zero
          c.cartrom_bank_n c.reg_rom_bank_low writes reads
  retabled c writes reads i fit fit' = record {
    same_rom = i.same_rom;
    same_size = i.same_size;
    two_banks = i.two_banks;
    all_banks = i.all_banks;
    whole = i.whole;
    zero_inside = i.zero_inside;
    bank_inside = i.bank_inside;
    low_inside = i.low_inside;
    writers = fit;
    readers = fit';
  }

  pub install_extram-Mapped :
      (c : GbCart) → IsMapped five rom len c → IsMapped five rom len (install_extram c)
  install_extram-Mapped c i =
      retabled c _ _ i
        (writers-set_range _ _ _ _
          (writers-set_range _ _ _ _ i.writers (λ page h. ground (arith, h))) (λ page h. refl))
        (readers-set_range _ _ _ _ (readers-set_range _ _ _ _ i.readers (omega arith))
          (omega arith))

  mbc3_ram :
      (c : GbCart) (value : ℕ)
      → IsMapped five rom len c
      → IsMapped five rom len (mbc3_ram_bank_select c value)
  unfolding mbc3_ram_bank_select
  mbc3_ram c value i = elim (Bool-cases (leb value 0x03)) [
    | inl bank ↦
        rw bank (
          install_extram-Mapped (record c { extram_bank_num = value; extram_bank = value * 8192 })
            i)
    | inr other ↦ elim (Bool-cases (leb 0x08 value && leb value 0x0C)) [
      | inl clock ↦
          rw (other, clock)
            (retabled c _ _ i (writers-set_range _ _ _ _ i.writers (λ page h. refl))
              (readers-set_range _ _ _ _ i.readers (omega arith)))
      | inr none_of_them ↦ rw (other, none_of_them) i
    ]
  ]

  -- Undefined, at an address of the external RAM, or kept.
  abbrev pub Outcome : ℕ → Option GbCart → Type 0
  Outcome address o = ((o ≡ none) × (0xA000 ≤ address)) ⊎ Kept five rom len o

  ram_outcome :
      (on : Bool) (c : GbCart) (address offset value : ℕ)
      → IsMapped five rom len c
      → leb 0xA0 (address >>> 8) ≡ true
      → Outcome address (if on then set_ram c offset value else some c)
  ram_outcome false c address offset value i high = inr (c, refl, i)
  ram_outcome true c address offset value i high = elim (Bool-cases (ltb offset c.extram_size)) [
    | inl inside ↦ rw inside (inr (_, refl, i))
    | inr outside ↦ rw outside (inl (refl, ground (arith, high)))
  ]

  enabled :
      (c : GbCart) (value : ℕ)
      → IsMapped five rom len c
      → IsMapped five rom len (ram_enable c value)
  unfolding ram_enable
  enabled c value i = elim (Bool-cases (bit_and value 0xF == 0)) [
    | inl zero_nibble ↦ rw zero_nibble i
    | inr other ↦ elim (Bool-cases (bit_and value 0xF == 0x0A)) [
      | inl ten ↦ rw (other, ten) i
      | inr neither ↦ rw (other, neither) i
    ]
  ]

  run_write-Outcome :
      (handler : WriteHandler) (c : GbCart) (address value : ℕ)
      → IsMapped five rom len c
      → allowed five (address >>> 8) handler ≡ true
      → Outcome address (run_write handler c address value)
  unfolding run_write ram_write mbc2_ram_write mbc5_ram_bank_select
  run_write-Outcome WriteHandler.null_write c address value i fits = inr (c, refl, i)
  run_write-Outcome WriteHandler.write_dummy c address value i fits = inr (c, refl, i)
  run_write-Outcome WriteHandler.write_ram_enable c address value i fits =
      inr (_, refl, enabled c value i)
  run_write-Outcome WriteHandler.write_extram c address value i fits =
      ram_outcome c.extram_enabled c address _ value i fits
  run_write-Outcome WriteHandler.mbc1_write_rom_bank_select c address value i fits =
      inr (mbc1_rom five rom len c i value)
  run_write-Outcome WriteHandler.mbc1_write_rom_ram_bank_select c address value i fits =
      inr (mbc1_ram five rom len c value i)
  run_write-Outcome WriteHandler.mbc1_write_bank_mode_select c address value i fits =
      inr (_, refl, mode_select five rom len c i value (flipped five fits))
  run_write-Outcome WriteHandler.mbc2_write_rom_bank_select c address value i fits =
      inr (mbc2_rom five rom len c i value)
  run_write-Outcome WriteHandler.mbc2_write_extram c address value i fits =
      ram_outcome c.extram_enabled c address _ _ i fits
  run_write-Outcome WriteHandler.mbc3_write_rom_bank_select c address value i fits =
      inr (mbc3_rom five rom len c i value)
  run_write-Outcome WriteHandler.mbc3_write_ram_bank_select c address value i fits =
      inr (_, refl, mbc3_ram c value i)
  run_write-Outcome WriteHandler.mbc3_write_clock_data_latch c address value i fits =
      inr (c, refl, i)
  run_write-Outcome WriteHandler.mbc3_write_rtc c address value i fits = inr (c, refl, i)
  run_write-Outcome WriteHandler.mbc5_write_ram_enable c address value i fits = inr (_, refl, i)
  run_write-Outcome WriteHandler.mbc5_write_rom_bank_select_lower c address value i fits =
      inr (mbc5_lower five rom len c i value fits)
  run_write-Outcome WriteHandler.mbc5_write_rom_bank_select_upper c address value i fits =
      inr (mbc5_upper five rom len c i value)
  run_write-Outcome WriteHandler.mbc5_write_ram_bank_select c address value i fits =
      inr (_, refl, i)

  pub gb_write-IsMapped :
      (c : GbCart) (address value : ℕ)
      → IsMapped five rom len c
      → Outcome address (gb_write c address value)
  unfolding gb_write
  gb_write-IsMapped c address value i =
      run_write-Outcome (c.gb_writemem (address >>> 8)) c address value i
        (i.writers (address >>> 8))
