-- ===== src/Pi/Rom.antt =====
-- The transfer from ROM to RDRAM: it ends, and an aligned one copies the bytes.
use cen.Base.{
  ℕ, zero, suc, ◌+◌, ◌-◌, ◌*◌, ◌/◌, ◌%◌, ◌^◌, ◌≤◌, ◌<◌, ◌≡◌, ◌≢◌, refl, Bool, true, false, ◌&&◌,
  some, bit_and, bit_and_high, bit_and_mod, ◌∙◌, bit_and_low, ltb, leb, if◌then◌else◌, not32, u32,
  Bytes, Bool-cases, Option-cases, inl, inr, arith,
}
use cen.Ri.{RiController, max_rdram_size}
use cen.Pi.{store_ram, pi_rom_fetch}
use cen.Pi.Dma.{
  RomLoop, finished, out_of_fuel, block_size, written_back, left_after, rom_block, rom_loop,
}

-- With fuel above the length, the loop over the blocks of a transfer does not run out of it,
-- whatever the alignment.
pub rom_loop_ends :
    (fuel : ℕ) (rom : Bytes) (rom_size : ℕ) (first : Bool) (length : ℕ) (s : RomLoop)
    → length < fuel
    → rom_loop fuel rom rom_size first length s ≢ out_of_fuel
unfolding rom_loop
rom_loop_ends zero rom rom_size first length s h = absurd (omega arith)
rom_loop_ends (suc fuel) rom rom_size first length s h = elim (Bool-cases (ltb 0 length)) [
  | inr off ↦ rw (off, rom_loop) (ground arith)
  | inl on ↦ elim (Option-cases (rom_block rom rom_size first length s)) [
    | inl e ↦ rw (on, e, rom_loop) (ground arith)
    | inr (s', e) ↦
        rw (on, e, rom_loop)
          (rom_loop_ends fuel rom rom_size false _ s'
            (ground (arith, bit_and_low 3 (bit_and s.dram 0x7FFFFE))))
  ]
]

-- The bytes of the cartridge bus: the ROM, and 0xFF past its end.
pub rom_byte : Bytes → ℕ → ℕ → ℕ
rom_byte rom rom_size address = if ltb address rom_size then rom address else 0xFF

-- Where an aligned transfer can be: on a multiple of eight in RDRAM, even on the cartridge,
-- whose bus has 28 address bits.
pub record IsAligned (s : RomLoop) (length : ℕ) : Type 0 where
  pub dram_aligned : s.dram % 8 ≡ 0
  pub cart_even : s.cart % 2 ≡ 0
  pub length_even : length % 2 ≡ 0
  pub in_ram : s.dram + length ≤ max_rdram_size
  pub in_cart : s.cart % 2 ^ 28 + length ≤ 2 ^ 28
  pub cart_word : s.cart + length < 2 ^ 32

block_aligned :
    (rom : Bytes) (rom_size : ℕ) (first : Bool) (length : ℕ) (s : RomLoop)
    → 0 < length
    → IsAligned s length
    → (s' : RomLoop) × (rom_block rom rom_size first length s ≡ some s')
      × (s'.dram ≡ (s.dram + block_size 0 length + 7) / 8 * 8)
      × (s'.cart ≡ s.cart + block_size 0 length)
      × ((i : ℕ)
          → s'.ri.ram i ≡ (
              if leb s.dram i && ltb i (s.dram + block_size 0 length)
              then rom_byte rom rom_size (s.cart % 2 ^ 28 + (i - s.dram))
              else s.ri.ram i))
unfolding rom_block store_ram pi_rom_fetch rom_byte
block_aligned rom rom_size first length s some_left a =
    let cur = block_size 0 length in
    let dest : bit_and s.dram 0x7FFFFE ≡ s.dram =
      omega
        (arith, bit_and_high 23 1 s.dram (omega arith) (omega (arith, a.in_ram)), a.dram_aligned) in
    let aligned : bit_and s.dram 7 ≡ 0 = omega (arith, bit_and_low 3 s.dram, a.dram_aligned) in
    let source : bit_and s.cart 0xFFFFFFE ≡ s.cart % 2 ^ 28 =
      bit_and_mod 28 s.cart 0xFFFFFFE (omega arith)
      ∙ omega
          (arith, bit_and_high 28 1 (s.cart % 2 ^ 28) (omega arith) (omega arith), a.cart_even) in
    let even : cur % 2 ≡ 0 = ground (arith, a.length_even) in
    let le : cur ≤ length = ground arith in
    let fetched : (cur + 1) / 2 * 2 ≡ cur = omega arith in
    let back : written_back first 0 cur ≡ cur = ground arith in
    let next : bit_and (u32 (s.dram + cur + 7)) (not32 7) ≡ (s.dram + cur + 7) / 8 * 8 =
      omega
        (arith, bit_and_high 32 3 (u32 (s.dram + cur + 7)) (omega arith) (omega arith), a.in_ram) in
    let inside : ltb max_rdram_size (s.dram + cur) ≡ false = ground (arith, a.in_ram) in
    rw
      (
        dest, aligned, back, inside, rom_block, store_ram, dest, aligned, source, fetched, back,
        next,
      )
      (_, refl, refl, ground (arith, a.cart_word), λ i. ground (arith, a.in_cart))

-- The ROM bytes of the transfer are in RDRAM, and nothing else changed.
abbrev pub Copied : Bytes → ℕ → ℕ → RomLoop → RiController → Type 0
Copied rom rom_size length s ri =
    (i : ℕ)
    → ri.ram i ≡ (
        if leb s.dram i && ltb i (s.dram + length)
        then rom_byte rom rom_size (s.cart % 2 ^ 28 + (i - s.dram))
        else s.ri.ram i)

misalign_zero :
    (s : RomLoop) (length : ℕ)
    → 0 < length
    → IsAligned s length
    → bit_and (bit_and s.dram 0x7FFFFE) 7 ≡ 0
misalign_zero s length some_left a = omega (
  arith,
  bit_and_low 3 (bit_and s.dram 0x7FFFFE),
  bit_and_high 23 1 s.dram (omega arith),
  a.in_ram,
  a.dram_aligned,
)

left_even :
    (length : ℕ)
    → length % 2 ≡ 0
    → left_after (length - block_size 0 length) ≡ length - block_size 0 length
left_even length e = ground arith

-- An aligned loop that ends well.
abbrev pub Copies : ℕ → Bytes → ℕ → Bool → ℕ → RomLoop → Type 0
Copies fuel rom rom_size first length s =
    (t : RomLoop) × (rom_loop fuel rom rom_size first length s ≡ finished t)
    × Copied rom rom_size length s t.ri

rest-IsAligned :
    (length : ℕ) (s s' : RomLoop)
    → IsAligned s length
    → s'.dram ≡ (s.dram + block_size 0 length + 7) / 8 * 8
    → s'.cart ≡ s.cart + block_size 0 length
    → IsAligned s' (length - block_size 0 length)
rest-IsAligned length s s' a dram cart = record {
  dram_aligned = omega (arith, dram);
  cart_even = ground (arith, a.length_even, a.cart_even, cart);
  length_even = ground (arith, a.length_even);
  in_ram = ground (arith, a.in_ram, a.dram_aligned, dram);
  in_cart = ground (arith, a.in_cart, cart);
  cart_word = ground (arith, a.cart_word, cart);
}

step-Copies :
    (fuel : ℕ) (rom : Bytes) (rom_size : ℕ) (first : Bool) (length : ℕ) (s s' : RomLoop)
    → 0 < length
    → IsAligned s length
    → rom_block rom rom_size first length s ≡ some s'
    → s'.dram ≡ (s.dram + block_size 0 length + 7) / 8 * 8
    → s'.cart ≡ s.cart + block_size 0 length
    → Copied rom rom_size (block_size 0 length) s s'.ri
    → Copies fuel rom rom_size false (length - block_size 0 length) s'
    → Copies (suc fuel) rom rom_size first length s
unfolding rom_loop
step-Copies fuel rom rom_size first length s s' some_left a e dram cart ram (t, e', ram') =
    let on : ltb 0 length ≡ true = ground arith in
    (
      t,
      rw (on, e, rom_loop, misalign_zero s length some_left a, left_even length a.length_even) e',
      λ i. ground (arith, ram i, ram' i, a.dram_aligned, dram, cart),
    )

-- With fuel above the length, a transfer with RDRAM on a multiple of eight, an even address on the
-- cartridge, whose bus has 28 address bits, and an even length, that stays inside both and inside
-- 32 bits, finishes; RDRAM then holds the bytes of the cartridge, 0xFF past the end of the ROM,
-- and is unchanged elsewhere.
pub rom_loop_aligned :
    (fuel : ℕ) (rom : Bytes) (rom_size : ℕ) (first : Bool) (length : ℕ) (s : RomLoop)
    → length < fuel
    → IsAligned s length
    → Copies fuel rom rom_size first length s
unfolding rom_loop
rom_loop_aligned zero rom rom_size first length s h a = absurd (omega arith)
rom_loop_aligned (suc fuel) rom rom_size first length s h a = elim (Bool-cases (ltb 0 length)) [
  | inr off ↦ (s, rw (off, rom_loop) refl, λ i. ground arith)
  | inl on ↦
      let some_left : 0 < length = ground arith in
      let b = block_aligned rom rom_size first length s some_left a in
      step-Copies fuel rom rom_size first length s b.0 some_left a b.1 b.2 b.3 b.4 (
        rom_loop_aligned fuel rom rom_size false (length - block_size 0 length) b.0 (ground arith)
          (rest-IsAligned length s b.0 a b.2 b.3))
]
