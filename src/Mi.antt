-- ===== src/Mi.antt =====
-- vr4300/interface.c and bus/address.h: the MIPS interface (MI), which collects the interrupts of
-- the RCP and drives bit 10 of the CPU's Cause register, and the interrupt line of the 64DD.
pub mod Bits
pub mod Line
pub mod Write
pub mod InitMode
pub mod Pending
pub mod Tests
use cen.Base.{
  ℕ, zero, suc, ◌+◌, ◌-◌, ◌*◌, ◌/◌, ◌%◌, ◌^◌, ◌≡◌, refl, Bool, true, false, Option, none, some,
  bit_and, bit_or, ltb, ◌==◌, if◌then◌else◌, has, not32, sub32, ◌>>>◌, update, merge,
}

-- Indices into `mi_regs`.
abbrev pub mi_init_mode_reg : ℕ
mi_init_mode_reg = 0

abbrev pub mi_version_reg : ℕ
mi_version_reg = 1

abbrev pub mi_intr_reg : ℕ
mi_intr_reg = 2

abbrev pub mi_intr_mask_reg : ℕ
mi_intr_mask_reg = 3

abbrev pub num_mi_registers : ℕ
num_mi_registers = 4

abbrev pub mi_regs_base_address : ℕ
mi_regs_base_address = 0x04300000

abbrev pub mi_regs_address_len : ℕ
mi_regs_address_len = 0x10

-- The parts of `struct vr4300` that the interface touches. `cause` is
-- `regs[VR4300_CP0_REGISTER_CAUSE]`, a 64-bit word; the MI registers are 32-bit words.
pub record Vr4300 : Type 0 where
  pub mi_regs : ℕ → ℕ
  pub cause : ℕ

-- enum rcp_interrupt_mask.
pub data RcpInterrupt : Type 0 where
  sp si ai vi pi dp : RcpInterrupt

abbrev pub intr_mask : RcpInterrupt → ℕ
intr_mask sp = 0x01
intr_mask si = 0x02
intr_mask ai = 0x04
intr_mask vi = 0x08
intr_mask pi = 0x10
intr_mask dp = 0x20

-- `&= ~mask` and `|= mask` on the 64-bit Cause register.
unfoldable pub lower_rcp_interrupt : Vr4300 → Vr4300
lower_rcp_interrupt v = record v { cause = bit_and v.cause (2 ^ 64 - 1 - 0x400) }

unfoldable pub raise_rcp_interrupt : Vr4300 → Vr4300
raise_rcp_interrupt v = record v { cause = bit_or v.cause 0x400 }

unfoldable pub clear_dd_interrupt : Vr4300 → Vr4300
clear_dd_interrupt v = record v { cause = bit_and v.cause (2 ^ 64 - 1 - 0x800) }

unfoldable pub signal_dd_interrupt : Vr4300 → Vr4300
signal_dd_interrupt v = record v { cause = bit_or v.cause 0x800 }

unfoldable pub check_for_interrupts : Vr4300 → ℕ → Vr4300
unfolding lower_rcp_interrupt raise_rcp_interrupt
check_for_interrupts v flags =
    if has flags (v.mi_regs mi_intr_mask_reg) then raise_rcp_interrupt v else lower_rcp_interrupt v

unfoldable pub clear_rcp_interrupt : Vr4300 → RcpInterrupt → Vr4300
clear_rcp_interrupt v i =
    let flags = bit_and (v.mi_regs mi_intr_reg) (not32 (intr_mask i)) in
    check_for_interrupts (record v { mi_regs = update v.mi_regs mi_intr_reg flags }) flags

unfoldable pub signal_rcp_interrupt : Vr4300 → RcpInterrupt → Vr4300
signal_rcp_interrupt v i =
    let flags = bit_or (v.mi_regs mi_intr_reg) (intr_mask i) in
    check_for_interrupts (record v { mi_regs = update v.mi_regs mi_intr_reg flags }) flags

-- The register that an address selects.
abbrev pub mi_reg : ℕ → ℕ
mi_reg address = sub32 address mi_regs_base_address >>> 2

-- Reads and writes past the end of `mi_regs` are undefined in C: `none`.
unfoldable pub read_mi_regs : Vr4300 → ℕ → Option ℕ
read_mi_regs v address =
    if ltb (mi_reg address) num_mi_registers then some (v.mi_regs (mi_reg address)) else none

-- One pair of command bits: `if (word & c) x &= ~mask; else if (word & s) x |= mask;`
unfoldable pub command : ℕ → ℕ → ℕ → ℕ → ℕ → ℕ
command word c s mask x =
    if has word c then bit_and x (not32 mask) else if has word s then bit_or x mask else x

unfoldable pub write_init_mode : Vr4300 → ℕ → Vr4300
write_init_mode v word =
    let result = bit_and word 0x3FF in
    let result = command word 0x0080 0x0100 0x0100 result in
    let result = command word 0x0200 0x0400 0x0080 result in
    let cleared = if has word 0x0800 then clear_rcp_interrupt v dp else v in
    let result = command word 0x1000 0x2000 0x0200 result in
    record cleared { mi_regs = update cleared.mi_regs mi_init_mode_reg result }

-- The new contents of MI_INTR_MASK_REG.
unfoldable pub mask_commands : ℕ → ℕ → ℕ
mask_commands word mask =
    let mask = command word 0x0001 0x0002 (intr_mask sp) mask in
    let mask = command word 0x0004 0x0008 (intr_mask si) mask in
    let mask = command word 0x0010 0x0020 (intr_mask ai) mask in
    let mask = command word 0x0040 0x0080 (intr_mask vi) mask in
    let mask = command word 0x0100 0x0200 (intr_mask pi) mask in
    command word 0x0400 0x0800 (intr_mask dp) mask

unfoldable pub write_intr_mask : Vr4300 → ℕ → Vr4300
write_intr_mask v word =
    let mask = mask_commands word (v.mi_regs mi_intr_mask_reg) in
    let written = record v { mi_regs = update v.mi_regs mi_intr_mask_reg mask } in
    check_for_interrupts written (written.mi_regs mi_intr_reg)

unfoldable pub write_mi_regs : Vr4300 → ℕ → ℕ → ℕ → Option Vr4300
write_mi_regs v address word dqm =
    let reg = mi_reg address in
    if ltb reg num_mi_registers
    then (if reg == mi_init_mode_reg
        then some (write_init_mode v word)
        else if reg == mi_intr_mask_reg
        then some (write_intr_mask v word)
        else some (record v { mi_regs = update v.mi_regs reg (merge (v.mi_regs reg) word dqm) }))
    else none
