-- ===== src/Si/Cic/Crc.antt =====
-- The table-driven CRC against the register that shifts one bit at a time.
use cen.Base.{
  ℕ, zero, suc, ◌+◌, ◌*◌, ◌/◌, ◌%◌, ◌^◌, ◌<◌, ◌≡◌, refl, ap, ap₂, ◌∙◌, sym, min, bit_and, bit_xor,
  bit, bit-le, bit-xor, bit_xor-lt, bit_xor-zero, bit_xor-shift, bit_xor-split, bit_and_low,
  bit_ext, Bytes, IsBytes, arith,
}
use native.Mathlib.Nat.{two-pow-succ}
use mathlib.Core.Path.{◌≡⟨◌⟩◌, ◌∎}
use cen.Si.Cic.{crc_shift, crc_shifts, crc_table, crc_loop, si_crc32, polynomial}

crc_shift-lt : (c : ℕ) → c < 2 ^ 32 → crc_shift c < 2 ^ 32
unfolding crc_shift
crc_shift-lt c h = ground (arith, bit_xor-lt 32 polynomial (c / 2 ^ 1) (omega arith) (omega arith))

crc_shifts-lt : (k c : ℕ) → c < 2 ^ 32 → crc_shifts k c < 2 ^ 32
unfolding crc_shifts
crc_shifts-lt zero c h = h
crc_shifts-lt (suc k) c h = crc_shifts-lt k (crc_shift c) (crc_shift-lt c h)

half-bit : (k c : ℕ) → bit k (c / 2 ^ 1) ≡ bit (suc k) c
unfolding bit
half-bit k c = refl

-- Each bit of a shift is the next bit, flipped under the polynomial if the low bit was set.
bit-crc_shift :
    (k c : ℕ) → bit k (crc_shift c) ≡ (bit (suc k) c + min (bit 0 c) (bit k polynomial)) % 2
unfolding crc_shift
bit-crc_shift k c = ground (
  arith,
  bit_and_low 1 c,
  low c,
  bit-xor k polynomial (c / 2 ^ 1),
  half-bit k c,
  bit-le k polynomial,
  bit-le (suc k) c,
)
  where
    low : (c : ℕ) → bit 0 c ≡ c % 2
    low c = unfold bit in refl

crc_shift-xor :
    (a b : ℕ)
    → a < 2 ^ 32
    → b < 2 ^ 32
    → crc_shift (bit_xor a b) ≡ bit_xor (crc_shift a) (crc_shift b)
crc_shift-xor a b ha hb =
    bit_ext 32 _ _ (crc_shift-lt (bit_xor a b) (bit_xor-lt 32 a b ha hb))
      (bit_xor-lt 32 (crc_shift a) (crc_shift b) (crc_shift-lt a ha) (crc_shift-lt b hb))
      λ k h. ground (
        arith,
        bit-crc_shift k (bit_xor a b),
        bit-crc_shift k a,
        bit-crc_shift k b,
        bit-xor k (crc_shift a) (crc_shift b),
        bit-xor (suc k) a b,
        bit-xor 0 a b,
        bit-le 0 a,
        bit-le 0 b,
        bit-le k polynomial,
      )

-- The shifts act on the parts of an exclusive or separately.
crc_shifts-xor :
    (k a b : ℕ)
    → a < 2 ^ 32
    → b < 2 ^ 32
    → crc_shifts k (bit_xor a b) ≡ bit_xor (crc_shifts k a) (crc_shifts k b)
unfolding crc_shifts
crc_shifts-xor zero a b ha hb = refl
crc_shifts-xor (suc k) a b ha hb =
    rw (crc_shift-xor a b ha hb)
      (crc_shifts-xor k (crc_shift a) (crc_shift b) (crc_shift-lt a ha) (crc_shift-lt b hb))

-- Zeros shift out without a trace.
crc_shift_even : (z : ℕ) → crc_shift (z * 2) ≡ z
unfolding crc_shift
crc_shift_even z = ground (arith, bit_and_low 1 (z * 2))

crc_shifts-pow : (k z : ℕ) → crc_shifts k (z * 2 ^ k) ≡ z
unfolding crc_shifts
crc_shifts-pow zero z = omega arith
crc_shifts-pow (suc k) z =
    let e : z * 2 ^ suc k ≡ z * 2 ^ k * 2 = omega (arith, ap (λ (t : ℕ). z * t) (two-pow-succ k)) in
    rw (e, crc_shift_even (z * 2 ^ k)) (crc_shifts-pow k z)

-- One look-up is eight shifts.
table_step :
    (c d : ℕ)
    → c < 2 ^ 32
    → d < 256
    → bit_xor (crc_table (bit_and (bit_xor c d) 0xFF)) (c / 2 ^ 8) ≡ crc_shifts 8 (bit_xor c d)
unfolding crc_table
table_step c d hc hd =
    bit_xor (crc_shifts 8 (bit_and x 0xFF)) (c / 2 ^ 8)
    ≡⟨ ap₂ (λ (a b : ℕ). bit_xor (crc_shifts 8 a) b) (bit_and_low 8 x) (sym high) ⟩
      bit_xor (crc_shifts 8 (x % 2 ^ 8)) (x / 2 ^ 8)
    ≡⟨ ap (bit_xor (crc_shifts 8 (x % 2 ^ 8))) (sym (crc_shifts-pow 8 (x / 2 ^ 8))) ⟩
      bit_xor (crc_shifts 8 (x % 2 ^ 8)) (crc_shifts 8 (x / 2 ^ 8 * 2 ^ 8))
    ≡⟨ sym (crc_shifts-xor 8 (x % 2 ^ 8) (x / 2 ^ 8 * 2 ^ 8) (omega arith) (omega (arith, x-lt))) ⟩
      crc_shifts 8 (bit_xor (x % 2 ^ 8) (x / 2 ^ 8 * 2 ^ 8))
    ≡⟨ ap (crc_shifts 8) (bit_xor-split 8 x) ⟩ crc_shifts 8 x ∎
  where
    x : ℕ
    x = bit_xor c d

    x-lt : bit_xor c d < 2 ^ 32
    x-lt = bit_xor-lt 32 c d hc (omega arith)

    high : bit_xor c d / 2 ^ 8 ≡ c / 2 ^ 8
    high =
        let none_left : d / 2 ^ 8 ≡ 0 = omega arith in
        bit_xor-shift 8 c d ∙ ap (bit_xor (c / 2 ^ 8)) none_left ∙ bit_xor-zero (c / 2 ^ 8)

-- CRC-32 with no table: eight shifts for each byte.
pub serial_loop : ℕ → ℕ → Bytes → ℕ → ℕ
serial_loop zero n input c = c
serial_loop (suc left) n input c =
    serial_loop left (n + 1) input (crc_shifts 8 (bit_xor c (input n)))

pub serial_crc32 : Bytes → ℕ → ℕ
serial_crc32 input size = bit_xor (serial_loop size 0 input 0xFFFFFFFF) 0xFFFFFFFF

crc_loop-serial :
    (left n : ℕ) (input : Bytes) (c : ℕ)
    → IsBytes input
    → c < 2 ^ 32
    → crc_loop left n input c ≡ serial_loop left n input c
unfolding crc_loop serial_loop
crc_loop-serial zero n input c b h = refl
crc_loop-serial (suc left) n input c b h = rw (table_step c (input n) h (b n)) (
    crc_loop-serial left (n + 1) input _ b
      (crc_shifts-lt 8 (bit_xor c (input n)) (bit_xor-lt 32 c (input n) h (omega (arith, b n)))))

-- The table-driven checksum of any bytes is the CRC-32 computed one bit at a time.
pub si_crc32-serial :
    (input : Bytes) (size : ℕ) → IsBytes input → si_crc32 input size ≡ serial_crc32 input size
unfolding si_crc32 serial_crc32
si_crc32-serial input size b =
    ap (λ (c : ℕ). bit_xor c 0xFFFFFFFF) (crc_loop-serial size 0 input 0xFFFFFFFF b (omega arith))
