-- ===== src/Mi/InitMode.antt =====
-- What a write to MI_INIT_MODE_REG stores.
use cen.Base.{
  ℕ, ◌≤◌, ◌<◌, ◌≡◌, bit, bit-le, bit-pow_ne, bit-complement, bit-zero, bit-bit_and, has, min,
  if◌then◌else◌, arith,
}
use cen.Mi.{Vr4300, write_init_mode, mi_init_mode_reg}
use cen.Mi.Bits.{commanded, bit-command}

abbrev stored : Vr4300 → ℕ → ℕ
stored v word = (write_init_mode v word).mi_regs mi_init_mode_reg

three_commands :
    (v : Vr4300) (word k : ℕ)
    → k < 32
    → bit k (stored v word)
      ≡ commanded k word 0x1000 0x2000 0x0200 (
          commanded k word 0x0200 0x0400 0x0080
            (commanded k word 0x0080 0x0100 0x0100 (min (bit k word) (bit k 0x3FF))))
unfolding write_init_mode
three_commands v word k h = rw (bit-command k word 0x1000 0x2000 0x0200 _ (omega arith) h) (
    rw (bit-command k word 0x0200 0x0400 0x0080 _ (omega arith) h) (
      rw (bit-command k word 0x0080 0x0100 0x0100 _ (omega arith) h)
        (rw (bit-bit_and k word 0x3FF))))

-- The low seven bits, the length of an initialisation, are stored as written.
pub init_length : (v : Vr4300) (word k : ℕ) → k < 7 → bit k (stored v word) ≡ bit k word
init_length v word k h = ground (
  arith,
  three_commands v word k (omega arith),
  bit-pow_ne k 9 (omega arith),
  bit-pow_ne k 8 (omega arith),
  bit-pow_ne k 7 (omega arith),
  bit-complement 10 k 0 (omega arith) (omega arith),
  bit-zero k,
  bit-le k word,
)

mode_bit :
    (v : Vr4300) (word k : ℕ)
    → 7 ≤ k
    → k < 10
    → bit k (stored v word)
      ≡ commanded k word 0x1000 0x2000 0x0200 (
          commanded k word 0x0200 0x0400 0x0080
            (commanded k word 0x0080 0x0100 0x0100 (bit k word)))
mode_bit v word k le h = ground (
  arith,
  three_commands v word k (omega arith),
  bit-complement 10 k 0 (omega arith) h,
  bit-zero k,
  bit-le k word,
)

-- After a write to MI_INIT_MODE_REG, bits 8, 7 and 9 of the register are each 0 if the command to
-- clear it is in the word (bits 7, 9 and 12), else 1 if the command to set it is (bits 8, 10 and
-- 13), else the word's own bit.
pub init_modes :
    (v : Vr4300) (word : ℕ)
    → (bit 8 (stored v word)
        ≡ (if has word 0x80 then 0 else if has word 0x100 then 1 else bit 8 word))
      × (bit 7 (stored v word)
          ≡ (if has word 0x200 then 0 else if has word 0x400 then 1 else bit 7 word))
      × (bit 9 (stored v word)
          ≡ (if has word 0x1000 then 0 else if has word 0x2000 then 1 else bit 9 word))
unfolding bit
init_modes v word = (
  mode_bit v word 8 (omega arith) (omega arith),
  mode_bit v word 7 (omega arith) (omega arith),
  mode_bit v word 9 (omega arith) (omega arith),
)
