-- ===== src/Mi/Write.antt =====
-- What a write to MI_INTR_MASK_REG and to MI_INIT_MODE_REG stores.
use cen.Base.{
  ℕ, zero, suc, ◌+◌, ◌*◌, ◌^◌, ◌≤◌, ◌<◌, ◌≡◌, bit, bit-beyond, has, if◌then◌else◌, arith,
}
use cen.Mi.{mask_commands}
use cen.Mi.Bits.{commanded, bit-command}

-- The six commands at one bit, for every bit at once.
six_commands :
    (k word mask : ℕ)
    → k < 32
    → bit k (mask_commands word mask)
      ≡ commanded k word 0x400 0x800 0x20 (
          commanded k word 0x100 0x200 0x10 (
            commanded k word 0x40 0x80 0x8 (
              commanded k word 0x10 0x20 0x4
                (commanded k word 0x4 0x8 0x2 (commanded k word 0x1 0x2 0x1 (bit k mask))))))
unfolding mask_commands
six_commands k word mask h = rw (bit-command k word 0x400 0x800 0x20 _ (omega arith) h) (
    rw (bit-command k word 0x100 0x200 0x10 _ (omega arith) h) (
      rw (bit-command k word 0x40 0x80 0x8 _ (omega arith) h) (
        rw (bit-command k word 0x10 0x20 0x4 _ (omega arith) h) (
          rw (bit-command k word 0x4 0x8 0x2 _ (omega arith) h)
            (rw (bit-command k word 0x1 0x2 0x1 _ (omega arith) h))))))

-- The bit pairs of the written word act on the mask independently: source k (0 SP, 1 SI, 2 AI,
-- 3 VI, 4 PI, 5 DP) is masked by bit 2k of the word, else unmasked by bit 2k + 1, else left alone.
pub bit-mask_commands :
    (k word mask : ℕ)
    → k < 6
    → bit k (mask_commands word mask)
      ≡ (if has word (2 ^ (2 * k)) then 0 else if has word (2 ^ (2 * k + 1)) then 1 else bit k mask)
unfolding bit
bit-mask_commands zero word mask h = six_commands 0 word mask (omega arith)
bit-mask_commands (suc zero) word mask h = six_commands 1 word mask (omega arith)
bit-mask_commands (suc (suc zero)) word mask h = six_commands 2 word mask (omega arith)
bit-mask_commands (suc (suc (suc zero))) word mask h = six_commands 3 word mask (omega arith)
bit-mask_commands (suc (suc (suc (suc zero)))) word mask h = six_commands 4 word mask (omega arith)
bit-mask_commands (suc (suc (suc (suc (suc zero))))) word mask h =
    six_commands 5 word mask (omega arith)
bit-mask_commands (suc (suc (suc (suc (suc (suc k)))))) word mask h = absurd (omega arith)

-- The other bits of the mask keep their value.
pub bit-mask_commands_high :
    (k word mask : ℕ) → 6 ≤ k → k < 32 → bit k (mask_commands word mask) ≡ bit k mask
bit-mask_commands_high k word mask le h = ground (
  arith,
  six_commands k word mask h,
  bit-beyond 6 k 0x20 (omega arith) le,
  bit-beyond 6 k 0x10 (omega arith) le,
  bit-beyond 6 k 0x8 (omega arith) le,
  bit-beyond 6 k 0x4 (omega arith) le,
  bit-beyond 6 k 0x2 (omega arith) le,
  bit-beyond 6 k 0x1 (omega arith) le,
)
