-- ===== src/Cpu/Cp0.antt =====
-- vr4300/cp0.c: the moves from and to the registers of coprocessor 0. `random` is a value of the
-- C library's `rand`.
pub mod Moves
pub mod Tlb
use cen.Base.{
  ℕ, ◌+◌, ◌-◌, ◌%◌, List, [], ◌∷◌, bit_and, bit_or, ◌==◌, if◌then◌else◌, u32, sext32, ◌>>>◌, get_or,
}
use cen.Segment.{default_segment, get_segment}
use cen.Cpu.State.{Vr4300, latch_result, set_reg, cp0_cause}
use cen.Cpu.Words.{get_rd, get_rt, not64, shl64}

-- vr4300_cp0_reg_masks.
abbrev pub cp0_reg_masks : List ℕ
cp0_reg_masks =
    0x8000003F ∷ 0x3F ∷ 0x7FFFFFFF ∷ 0x7FFFFFFF ∷ 0xFFFFFFFFFFFFFFF0 ∷ 0x01FFE000
    ∷ 0xFFFFFFFFFFFFFFFF ∷ 0xBAD ∷ 0xFFFFFFFFFFFFFFFF ∷ 0xFFFFFFFF ∷ 0xC00000FFFFFFE0FF ∷ 0xFFFFFFFF
    ∷ 0xFFFFFFFF ∷ 0xB000FFFF ∷ 0xFFFFFFFFFFFFFFFF ∷ 0xFFFF ∷ 0x7FFFFFFF ∷ 0xFFFFFFFF ∷ 0xFFFFFFFB
    ∷ 0xF ∷ 0xFFFFFFFFFFFFFFFF ∷ 0xBAD ∷ 0xBAD ∷ 0xBAD ∷ 0xBAD ∷ 0xBAD ∷ 0 ∷ 0 ∷ 0x0FFFFFC0 ∷ 0
    ∷ 0xFFFFFFFFFFFFFFFF ∷ 0xBAD ∷ []

abbrev pub reg_mask : ℕ → ℕ
reg_mask reg = get_or cp0_reg_masks reg 0

abbrev pub mask_reg : ℕ → ℕ → ℕ
mask_reg reg value = bit_and (reg_mask reg) value

unfoldable pub dmfc0 : Vr4300 → ℕ → ℕ → ℕ → ℕ × Vr4300
dmfc0 c iw rs rt =
    let src = get_rd iw in
    let result =
      if src == 9
      then u32 (c.regs 41 >>> 1)
      else if reg_mask src == 0xBAD
      then c.regs 39
      else if src == 15
      then 0xB22
      else mask_reg src (c.regs (32 + src)) in
    (0, latch_result c (get_rt iw) result)

unfoldable pub mfc0 : ℕ → Vr4300 → ℕ → ℕ → ℕ → ℕ × Vr4300
mfc0 random c iw rs rt =
    let src = get_rd iw in
    let index = bit_and (c.regs 38) 0x1F in
    let result =
      if src == 9
      then sext32 (c.regs 41 >>> 1)
      else if reg_mask src == 0xBAD
      then sext32 (c.regs 39)
      else if src == 15
      then 0xB22
      else if src == 1
      then random % (32 - index) + index
      else sext32 (mask_reg src (c.regs (32 + src))) in
    (0, latch_result c (get_rt iw) result)

-- The `switch` on the register, and the register that takes the value at the end.
abbrev prepare : Vr4300 → ℕ → ℕ → Vr4300
prepare c dest rt =
    if dest == 11
    then set_reg c cp0_cause (bit_and (c.regs cp0_cause) (not64 0x8000))
    else if dest == 12
    then record c {
      icrf_segment = get_segment c.icrf_common.pc (u32 rt);
      exdc_segment = default_segment;
    }
    else c

abbrev pub target : ℕ → ℕ
target dest = if reg_mask dest == 0xBAD then 39 else 32 + dest

-- Only the two software interrupts of the cause can be written.
abbrev with_cause : Vr4300 → ℕ → Vr4300
with_cause c rt =
    let cleared = set_reg c cp0_cause (bit_and (c.regs cp0_cause) (not64 0x300)) in
    set_reg cleared cp0_cause (bit_or (cleared.regs cp0_cause) (bit_and rt 0x300))

unfoldable pub dmtc0 : Vr4300 → ℕ → ℕ → ℕ → ℕ × Vr4300
dmtc0 c iw rs rt =
    let dest = get_rd iw in
    let value = if dest == 9 then shl64 rt 1 else rt in
    if dest == 13
    then (0, with_cause c rt)
    else (0, set_reg (prepare c dest rt) (target dest) value)

unfoldable pub mtc0 : Vr4300 → ℕ → ℕ → ℕ → ℕ × Vr4300
mtc0 c iw rs rt =
    let dest = get_rd iw in
    let value = if dest == 9 then shl64 rt 1 else rt in
    if dest == 13
    then (0, with_cause c rt)
    else (0, set_reg (prepare c dest rt) (target dest) (sext32 value))
