-- ===== src/Mi/Line.antt =====
-- The level of the interrupt line: Cause bit 10 against the pending and enabled interrupts.
use cen.Base.{
  ℕ, ◌-◌, ◌^◌, ◌<◌, ◌≡◌, ◌≢◌, some, bit, bit-le, bit-bit_and, bit-bit_or, bit-complement,
  bit-pow_self, bit-pow_ne, has, if◌then◌else◌, arith,
}
use cen.Mi.{
  Vr4300, RcpInterrupt, dp, check_for_interrupts, clear_rcp_interrupt, signal_rcp_interrupt,
  mi_intr_reg, mi_intr_mask_reg, mi_reg, write_mi_regs, write_init_mode, write_intr_mask,
}

-- Cause bit 10 is the OR of the pending interrupts that the mask lets through.
abbrev pub IsWired : Vr4300 → Type 0
IsWired v =
    bit 10 v.cause ≡ (if has (v.mi_regs mi_intr_reg) (v.mi_regs mi_intr_mask_reg) then 1 else 0)

pub check_level :
    (v : Vr4300) (flags : ℕ)
    → bit 10 (check_for_interrupts v flags).cause
      ≡ (if has flags (v.mi_regs mi_intr_mask_reg) then 1 else 0)
unfolding check_for_interrupts
check_level v flags = ground (
  arith,
  bit-bit_and 10 v.cause (2 ^ 64 - 1 - 0x400),
  bit-bit_or 10 v.cause 0x400,
  bit-complement 64 10 0x400 (omega arith) (omega arith),
  bit-pow_self 10,
  bit-le 10 v.cause,
)

-- The check changes no other bit of Cause, and no register.
pub check_frame :
    (v : Vr4300) (flags k : ℕ)
    → k ≢ 10
    → k < 64
    → (bit k (check_for_interrupts v flags).cause ≡ bit k v.cause)
      × ((check_for_interrupts v flags).mi_regs ≡ v.mi_regs)
unfolding check_for_interrupts
check_frame v flags k ne h = ground (
  arith,
  bit-bit_and k v.cause (2 ^ 64 - 1 - 0x400),
  bit-bit_or k v.cause 0x400,
  bit-complement 64 k 0x400 (omega arith) h,
  bit-pow_ne k 10 ne,
  bit-le k v.cause,
)

pub check_regs : (v : Vr4300) (flags : ℕ) → (check_for_interrupts v flags).mi_regs ≡ v.mi_regs
check_regs v flags = (check_frame v flags 0 (omega arith) (omega arith)).1

-- Raising and clearing a source leave the line at the level of what is then pending.
pub signal-IsWired : (v : Vr4300) (i : RcpInterrupt) → IsWired (signal_rcp_interrupt v i)
unfolding signal_rcp_interrupt
signal-IsWired v i = rw (check_regs _ _, check_level _ _)

pub clear-IsWired : (v : Vr4300) (i : RcpInterrupt) → IsWired (clear_rcp_interrupt v i)
unfolding clear_rcp_interrupt
clear-IsWired v i = rw (check_regs _ _, check_level _ _)

write_init_mode-IsWired : (v : Vr4300) (word : ℕ) → IsWired v → IsWired (write_init_mode v word)
unfolding write_init_mode
write_init_mode-IsWired v word h = ground (arith, clear-IsWired v dp)

write_intr_mask-IsWired : (v : Vr4300) (word : ℕ) → IsWired (write_intr_mask v word)
unfolding write_intr_mask
write_intr_mask-IsWired v word = rw (check_regs _ _, check_level _ _)

-- A register write that is in bounds, to any register but MI_INTR_REG, keeps this: Cause bit 10 is
-- set exactly if a pending interrupt is let through by the mask.
pub write_mi_regs-IsWired :
    (v w : Vr4300) (address word dqm : ℕ)
    → IsWired v
    → mi_reg address ≢ mi_intr_reg
    → write_mi_regs v address word dqm ≡ some w
    → IsWired w
unfolding write_mi_regs
write_mi_regs-IsWired v w address word dqm h ne e =
    ground (arith, write_init_mode-IsWired v word h, write_intr_mask-IsWired v word)
