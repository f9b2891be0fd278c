-- ===== src/Mi/Tests.antt =====
-- The theorems on the MI at concrete registers.
use cen.Base.{◌≡◌, refl, some, bit, ◌==◌, if◌then◌else◌, arith}
use cen.Mi.{Vr4300, mi_intr_reg, write_mi_regs, write_intr_mask, write_init_mode, mi_init_mode_reg}
use cen.Mi.Line.{IsWired, write_mi_regs-IsWired}
use cen.Mi.InitMode.{init_modes}

abbrev idle : Vr4300
idle = record { mi_regs = λ i. if i == mi_intr_reg then 0x08 else 0; cause = 0 }

idle-IsWired : IsWired idle
unfolding bit
idle-IsWired = refl

-- VI is pending; the write unmasks it.
unmask_vi : write_mi_regs idle 0x0430000C 0x80 0xFFFFFFFF ≡ some (write_intr_mask idle 0x80)
unfolding write_mi_regs
unmask_vi = refl

write_mi_regs-IsWired_example : IsWired (write_intr_mask idle 0x80)
write_mi_regs-IsWired_example =
    write_mi_regs-IsWired idle (write_intr_mask idle 0x80) 0x0430000C 0x80 0xFFFFFFFF idle-IsWired
      (omega arith) unmask_vi

-- `clear init mode` is 0x80, bit 7 of the word, and stays in the register.
init_modes_example :
    (bit 8 ((write_init_mode idle 0x80).mi_regs mi_init_mode_reg) ≡ 0)
    × (bit 7 ((write_init_mode idle 0x80).mi_regs mi_init_mode_reg) ≡ 1)
    × (bit 9 ((write_init_mode idle 0x80).mi_regs mi_init_mode_reg) ≡ 0)
unfolding bit
init_modes_example = init_modes idle 0x80
