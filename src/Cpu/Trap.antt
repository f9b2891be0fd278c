-- ===== src/Cpu/Trap.antt =====
-- vr4300/functions.c: BREAK, SYSCALL, the trap instructions, and the instruction that is not one.
use cen.Base.{ℕ, Bool, not, ◌==◌, leb, if◌then◌else◌, has, sext16, ◌>>>◌}
use cen.Cpu.State.{Vr4300}
use cen.Cpu.Words.{same, signed_lt}
use cen.Cpu.Fault.{breakpoint, system_call, raise_trap, reserved_instruction}

-- BREAK; the source calls it `VR4300_BREAK`.
unfoldable pub break_instruction : Vr4300 → ℕ → ℕ → ℕ → ℕ × Vr4300
break_instruction c iw rs rt = (1, breakpoint c)

unfoldable pub syscall_instruction : Vr4300 → ℕ → ℕ → ℕ → ℕ × Vr4300
syscall_instruction c iw rs rt = (1, system_call c)

unfoldable pub invalid_instruction : Vr4300 → ℕ → ℕ → ℕ → ℕ × Vr4300
invalid_instruction c iw rs rt = (0, reserved_instruction c)

-- `if (cmp != flag) VR4300_TRAP(vr4300); return 0;`.
abbrev pub trap_if : Vr4300 → Bool → Bool → ℕ × Vr4300
trap_if c cmp flag = if same cmp flag then (0, c) else (0, raise_trap c)

unfoldable pub teq_tne : Vr4300 → ℕ → ℕ → ℕ → ℕ × Vr4300
teq_tne c iw rs rt = trap_if c (rs == rt) (has (iw >>> 1) 0x1)

unfoldable pub teqi_tnei : Vr4300 → ℕ → ℕ → ℕ → ℕ × Vr4300
teqi_tnei c iw rs rt = trap_if c (rs == sext16 iw) (has (iw >>> 17) 0x1)

unfoldable pub tge_tlt : Vr4300 → ℕ → ℕ → ℕ → ℕ × Vr4300
tge_tlt c iw rs rt = trap_if c (not (signed_lt rs rt)) (has (iw >>> 1) 0x1)

unfoldable pub tgei_tlti : Vr4300 → ℕ → ℕ → ℕ → ℕ × Vr4300
tgei_tlti c iw rs rt = trap_if c (not (signed_lt rs (sext16 iw))) (has (iw >>> 17) 0x1)

unfoldable pub tgeiu_tltiu : Vr4300 → ℕ → ℕ → ℕ → ℕ × Vr4300
tgeiu_tltiu c iw rs rt = trap_if c (leb (sext16 iw) rs) (has (iw >>> 17) 0x1)

unfoldable pub tgeu_tltu : Vr4300 → ℕ → ℕ → ℕ → ℕ × Vr4300
tgeu_tltu c iw rs rt = trap_if c (leb rt rs) (has (iw >>> 1) 0x1)
