-- ===== src/Mi/Pending.antt =====
-- The pending interrupts in MI_INTR_REG.
use cen.Base.{
  ℕ, ◌-◌, ◌^◌, ◌<◌, ◌≡◌, ap, bit_and, bit_or, bit, bit-le, bit-bit_and, bit-bit_or, bit-complement,
  bit_ext, min, max, bit-zero, bit_or-lt, bit_and-le_left, not32, arith,
}
use cen.Mi.{
  Vr4300, RcpInterrupt, intr_mask, mi_intr_reg, clear_rcp_interrupt, signal_rcp_interrupt, sp,
}
use cen.Mi.Line.{check_regs}

pub intr_mask-lt : (i : RcpInterrupt) → intr_mask i < 2 ^ 32
intr_mask-lt sp = omega arith
intr_mask-lt _ = omega arith

-- Setting a source and clearing it again gives back a word in which it was not set.
unset : (x m : ℕ) → x < 2 ^ 32 → m < 2 ^ 32 → bit_and x m ≡ 0 → bit_and (bit_or x m) (not32 m) ≡ x
unset x m hx hm none_set = bit_ext 32 _ x below hx λ k h. omega (
  arith,
  bit-bit_and k (bit_or x m) (not32 m),
  bit-bit_or k x m,
  bit-complement 32 k m hm h,
  bit-bit_and k x m,
  ap (bit k) none_set,
  bit-zero k,
  bit-le k x,
)
  where
    below : bit_and (bit_or x m) (not32 m) < 2 ^ 32
    below = omega (arith, bit_and-le_left (bit_or x m) (not32 m), bit_or-lt 32 x m hx hm)

-- If MI_INTR_REG is a 32-bit word in which a source is not pending, raising and clearing the
-- source leaves every MI register as it was.
pub clear-signal :
    (v : Vr4300) (i : RcpInterrupt) (r : ℕ)
    → v.mi_regs mi_intr_reg < 2 ^ 32
    → bit_and (v.mi_regs mi_intr_reg) (intr_mask i) ≡ 0
    → (clear_rcp_interrupt (signal_rcp_interrupt v i) i).mi_regs r ≡ v.mi_regs r
unfolding clear_rcp_interrupt signal_rcp_interrupt
clear-signal v i r h idle =
    rw (check_regs _ _, check_regs _ _)
      (ground (arith, unset (v.mi_regs mi_intr_reg) (intr_mask i) h (intr_mask-lt i) idle))

pub bit-signal :
    (v : Vr4300) (i : RcpInterrupt) (k : ℕ)
    → bit k ((signal_rcp_interrupt v i).mi_regs mi_intr_reg)
      ≡ max (bit k (v.mi_regs mi_intr_reg)) (bit k (intr_mask i))
unfolding signal_rcp_interrupt
bit-signal v i k = rw (check_regs _ _) (bit-bit_or k (v.mi_regs mi_intr_reg) (intr_mask i))

pub bit-clear :
    (v : Vr4300) (i : RcpInterrupt) (k : ℕ)
    → k < 32
    → bit k ((clear_rcp_interrupt v i).mi_regs mi_intr_reg)
      ≡ min (bit k (v.mi_regs mi_intr_reg)) (1 - bit k (intr_mask i))
unfolding clear_rcp_interrupt
bit-clear v i k h = rw (check_regs _ _) (
    omega (
      arith,
      bit-bit_and k (v.mi_regs mi_intr_reg) (not32 (intr_mask i)),
      bit-complement 32 k (intr_mask i) (intr_mask-lt i) h,
    ))
