-- ===== src/Cpu/Shift.antt =====
-- vr4300/functions.c: the shifts. `sa` of the 32-bit shifts by a register is the sum of a field
-- and a register one of which is 0 in a valid instruction.
use cen.Base.{ℕ, ◌+◌, bit_and, sext32, u32, ◌>>>◌, ◌<<<◌}
use cen.Cpu.State.{Vr4300, latch_result}
use cen.Cpu.Words.{get_rd, shl64, sar64}

unfoldable pub dsll_dsll32 : Vr4300 → ℕ → ℕ → ℕ → ℕ × Vr4300
dsll_dsll32 c iw rs rt =
    let sa = bit_and (iw >>> 6) 0x1F + bit_and iw 0x4 <<< 3 in
    (0, latch_result c (get_rd iw) (shl64 rt sa))

unfoldable pub dsllv : Vr4300 → ℕ → ℕ → ℕ → ℕ × Vr4300
dsllv c iw rs rt = (0, latch_result c (get_rd iw) (shl64 rt (bit_and rs 0x3F)))

unfoldable pub dsra_dsra32 : Vr4300 → ℕ → ℕ → ℕ → ℕ × Vr4300
dsra_dsra32 c iw rs rt =
    let sa = bit_and (iw >>> 6) 0x1F + bit_and iw 0x4 <<< 3 in
    (0, latch_result c (get_rd iw) (sar64 rt sa))

unfoldable pub dsrav : Vr4300 → ℕ → ℕ → ℕ → ℕ × Vr4300
dsrav c iw rs rt = (0, latch_result c (get_rd iw) (sar64 rt (bit_and rs 0x3F)))

unfoldable pub dsrl_dsrl32 : Vr4300 → ℕ → ℕ → ℕ → ℕ × Vr4300
dsrl_dsrl32 c iw rs rt =
    let sa = bit_and (iw >>> 6) 0x1F + bit_and iw 0x4 <<< 3 in
    (0, latch_result c (get_rd iw) (rt >>> sa))

unfoldable pub dsrlv : Vr4300 → ℕ → ℕ → ℕ → ℕ × Vr4300
dsrlv c iw rs rt = (0, latch_result c (get_rd iw) (rt >>> bit_and rs 0x3F))

unfoldable pub sll_sllv : Vr4300 → ℕ → ℕ → ℕ → ℕ × Vr4300
sll_sllv c iw rs rt =
    let sa = bit_and rs 0x1F + bit_and (iw >>> 6) 0x1F in
    (0, latch_result c (get_rd iw) (sext32 (shl64 rt sa)))

unfoldable pub sra : Vr4300 → ℕ → ℕ → ℕ → ℕ × Vr4300
sra c iw rs rt = (0, latch_result c (get_rd iw) (sext32 (rt >>> bit_and (iw >>> 6) 0x1F)))

unfoldable pub srav : Vr4300 → ℕ → ℕ → ℕ → ℕ × Vr4300
srav c iw rs rt = (0, latch_result c (get_rd iw) (sext32 (rt >>> bit_and rs 0x1F)))

unfoldable pub srl : Vr4300 → ℕ → ℕ → ℕ → ℕ × Vr4300
srl c iw rs rt = (0, latch_result c (get_rd iw) (sext32 (u32 rt >>> bit_and (iw >>> 6) 0x1F)))

unfoldable pub srlv : Vr4300 → ℕ → ℕ → ℕ → ℕ × Vr4300
srlv c iw rs rt = (0, latch_result c (get_rd iw) (sext32 (u32 rt >>> bit_and rs 0x1F)))
