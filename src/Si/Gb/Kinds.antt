-- ===== src/Si/Gb/Kinds.antt =====
-- What `gb_init` installs for each kind of Game Boy cartridge.
use cen.Base.{
  ℕ, ◌+◌, ◌*◌, ◌^◌, ◌≤◌, ◌<◌, ◌≡◌, inl, inr, refl, Bool, true, false, Bool-cases, ◌&&◌, ◌||◌,
  Option, Bytes, ltb, leb, ◌==◌, if◌then◌else◌, has, arith,
}
use native.Mathlib.Nat.{one-le-pow, two-pow-succ}
use cen.Si.Gb.{GbCart, ReadHandler, WriteHandler, set_range}
use cen.Si.Gb.Install.{
  install_rom, mbc1_tables, mbc3_tables, mbc5_tables, mbc1_install, mbc2_install, mbc3_install,
  mbc5_install, rom_only_install, install, set_up, with_banks, rom_banks, gb_init,
}
use cen.Si.Gb.Select.{allowed, rom_reader, IsMapped, Kept}
use cen.Si.Gb.Banks.{writers-set_range, readers-set_range, install_extram-Mapped, retabled}

-- The kinds that install the functions of MBC5.
abbrev pub is_mbc5 : ℕ → Bool
is_mbc5 kind = leb 25 kind && leb kind 30

rom_readers :
    (table : ℕ → ReadHandler) (page : ℕ)
    → page < 0x80
    → set_range
        (set_range table 0x00 0x3F ReadHandler.read_bank_0)
        0x40
        0x7F
        ReadHandler.read_bank_n
        page
      ≡ rom_reader page
rom_readers table page below = elim (Bool-cases (ltb page 0x40)) [
  | inl low ↦
      let not_second : (leb 0x40 page && leb page 0x7F) ≡ false = ground (arith, low) in
      let first : (leb 0x00 page && leb page 0x3F) ≡ true = ground (arith, low) in
      rw (low, not_second, first) refl
  | inr high ↦
      let second : (leb 0x40 page && leb page 0x7F) ≡ true = ground (arith, high) in
      rw (high, second) refl
]

module _ (rom : Bytes) (len : ℕ) where
  -- The banks before the tables are installed: `rom_reader` stands for the table of reads.
  abbrev Ready : Bool → GbCart → Type 0
  Ready five c = IsMapped five rom len (record c { gb_readmem = rom_reader })

  module _ (c : GbCart) where
    rom_only-Mapped : (five : Bool) → Ready five c → IsMapped five rom len (rom_only_install c)
    unfolding rom_only_install
    rom_only-Mapped five i =
        retabled five rom len (record c { gb_readmem = rom_reader }) _ _ i
          (writers-set_range five rom len _ _ _ _
            (writers-set_range five rom len _ _ _ _ i.writers (λ p h. refl)) (λ p h. refl))
          (readers-set_range five rom len _ _ _ _ (rom_readers _) (omega arith))

    four :
        (five : Bool) (h1 h2 h3 h4 : WriteHandler) (e1 s2 e2 s3 e3 s4 e4 : ℕ)
        → ((page : ℕ) → allowed five page (c.gb_writemem page) ≡ true)
        → ((page : ℕ) → allowed five page h1 ≡ true)
        → ((page : ℕ) → allowed five page h2 ≡ true)
        → ((page : ℕ) → allowed five page h3 ≡ true)
        → ((page : ℕ) → allowed five page h4 ≡ true)
        → (page : ℕ)
        → allowed five page (
            set_range
              (set_range (set_range (set_range c.gb_writemem 0x00 e1 h1) s2 e2 h2) s3 e3 h3)
              s4
              e4
              h4
              page)
          ≡ true
    four five h1 h2 h3 h4 e1 s2 e2 s3 e3 s4 e4 before f1 f2 f3 f4 =
        let fit = writers-set_range five rom len in
        fit _ s4 e4 h4
          (fit _ s3 e3 h3 (fit _ s2 e2 h2 (fit _ 0x00 e1 h1 before (λ p h. f1 p)) (λ p h. f2 p))
            (λ p h. f3 p))
          (λ p h. f4 p)

    -- The pages of a controller with four functions for its registers, and then of its RAM.
    with_extram :
        (five : Bool) (tables : ℕ → WriteHandler)
        → Ready five c
        → ((page : ℕ) → allowed five page (tables page) ≡ true)
        → IsMapped five rom len (record (install_rom c) { gb_writemem = tables })
    with_extram five tables i fit =
        retabled five rom len (record c { gb_readmem = rom_reader }) tables _ i fit (rom_readers _)

    mbc1-Mapped : Ready false c → IsMapped false rom len (mbc1_install c)
    unfolding mbc1_install
    mbc1-Mapped i = install_extram-Mapped false rom len (mbc1_tables c) (
        with_extram false _ i (
          four false _ _ _ _ _ _ _ _ _ _ _ i.writers (λ p. refl) (λ p. refl) (λ p. refl)
            (λ p. refl)))

    mbc3-Mapped : (five : Bool) → Ready five c → IsMapped five rom len (mbc3_install c)
    unfolding mbc3_install
    mbc3-Mapped five i = install_extram-Mapped five rom len (mbc3_tables c) (
        with_extram five _ i (
          four five _ _ _ _ _ _ _ _ _ _ _ i.writers (λ p. refl) (λ p. refl) (λ p. refl)
            (λ p. refl)))

    mbc5-Mapped : Ready true c → IsMapped true rom len (mbc5_install c)
    unfolding mbc5_install
    mbc5-Mapped i = install_extram-Mapped true rom len (mbc5_tables c) (
        with_extram true _ i (
          four true _ _ _ _ _ _ _ _ _ _ _ i.writers (λ p. refl) (λ p. refl) (λ p. refl)
            (λ p. refl)))

    mbc2-Mapped : Ready false c → IsMapped false rom len (mbc2_install c)
    unfolding mbc2_install
    mbc2-Mapped i =
        retabled false rom len (record c { gb_readmem = rom_reader }) _ _ i
          (writers-set_range false rom len _ _ _ _ selected (λ p h. ground (arith, h)))
          (readers-set_range false rom len _ _ _ _ (rom_readers _) (omega arith))
      where
        selected :
            (page : ℕ)
            → allowed false page (
                if leb page 0x3F
                then (if has page 1
                    then WriteHandler.mbc2_write_rom_bank_select
                    else WriteHandler.write_ram_enable)
                else c.gb_writemem page)
              ≡ true
        selected page = elim (Bool-cases (leb page 0x3F)) [
          | inr past ↦ rw past (i.writers page)
          | inl low ↦ elim (Bool-cases (has page 1)) [
            | inl odd ↦ rw (low, odd) refl
            | inr even ↦ rw (low, even) refl
          ]
        ]

    install-Mapped :
        (five : Bool) (kind : ℕ)
        → is_mbc5 kind ≡ five
        → Ready five c
        → IsMapped five rom len (install kind c)
    unfolding install
    install-Mapped true kind e i =
        let not_rom : (kind == 0) ≡ false = ground (arith, e) in
        let not_mbc1 : (leb 1 kind && leb kind 3) ≡ false = ground (arith, e) in
        let not_mbc2 : ((kind == 5) || (kind == 6)) ≡ false = ground (arith, e) in
        rw (not_rom, not_mbc1, not_mbc2, e) (mbc5-Mapped i)
    install-Mapped false kind e i = elim (Bool-cases (kind == 0)) [
      | inl rom_only ↦ rw rom_only (rom_only-Mapped false i)
      | inr not_rom ↦ elim (Bool-cases (leb 1 kind && leb kind 3)) [
        | inl mbc1 ↦ rw (not_rom, mbc1) (mbc1-Mapped i)
        | inr not_mbc1 ↦ elim (Bool-cases ((kind == 5) || (kind == 6))) [
          | inl mbc2 ↦ rw (not_rom, not_mbc1, mbc2) (mbc2-Mapped i)
          | inr not_mbc2 ↦ rw (not_rom, not_mbc1, not_mbc2, e) (mbc3-Mapped false i)
        ]
      ]
    ]

  -- A ROM with the size that its code says, on a cartridge of zeroes.
  pub gb_init-Mapped :
      (before : GbCart) (save : Option (Bytes × ℕ))
      → rom 0x148 ≤ 8
      → len ≡ 2 ^ (rom 0x148 + 1) * 0x4000
      → before.reg_rom_bank_low ≡ 0
      → Kept (is_mbc5 (rom 0x147)) rom len (gb_init before rom len save)
  unfolding gb_init rom_banks
  gb_init-Mapped before save small sized blank =
      let code = rom 0x148 in
      let two : 2 ≤ 2 ^ (code + 1) = grind (arith, one-le-pow code 2, two-pow-succ code) in
      let at_148 : ltb 0x148 len ≡ true = ground (arith, two, sized) in
      let at_149 : ltb 0x149 len ≡ true = ground (arith, two, sized) in
      let at_147 : ltb 0x147 len ≡ true = ground (arith, two, sized) in
      let known : leb code 8 ≡ true = ground (arith, small) in
      let c = with_banks (set_up before rom len save) code (rom 0x149) in
      let banks : c.cartrom_num_banks ≡ 2 ^ (code + 1) = rw known refl in
      let ready : Ready (is_mbc5 (rom 0x147)) c = record {
        same_rom = refl;
        same_size = refl;
        two_banks = omega (arith, two, banks);
        all_banks = omega (arith, sized, banks);
        whole = omega (arith, sized);
        zero_inside = omega (arith, two, sized);
        bank_inside = omega (arith, two, sized);
        low_inside = λ e. omega (arith, two, banks, blank);
        writers = λ page. refl;
        readers = λ page below. refl;
      } in
      let mapped = install-Mapped c (is_mbc5 (rom 0x147)) (rom 0x147) refl ready in
      rw (at_148, at_149, at_147) (install (rom 0x147) c, refl, mapped)
