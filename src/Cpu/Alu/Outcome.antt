-- ===== src/Cpu/Alu/Outcome.antt =====
-- What an operation of the group SPECIAL has to leave, and the way there.
use cen.Base.{ℕ, ◌/◌, ◌%◌, ◌^◌, ◌<◌, ◌≡◌, ◌∙◌, ap, Option, some, get_or}
use cen.Cpu.State.{Vr4300, latch_result}
use cen.Cpu.Words.{get_rd}
use cen.Cpu.Decode.{Opcode, opcode_table}
use cen.Cpu.Execute.{Function, ready, vr4300_function, execute}
use cen.Cpu.Execute.Special.{execute_special}
use cen.Cpu.Alu.{Operation, reference, completed}

-- The field of the shift amount.
abbrev pub shift_amount : ℕ → ℕ
shift_amount iw = iw / 2 ^ 6 % 32

abbrev pub written : Vr4300 → ℕ → ℕ → ℕ × Vr4300
written c iw value = (0, latch_result (ready c) (get_rd iw) value)

abbrev pub outcome : Vr4300 → ℕ → ℕ → ℕ → Operation → Option (ℕ × Vr4300)
outcome c iw rs rt op =
    some (completed op (latch_result (ready c) (get_rd iw) (reference op (shift_amount iw) rs rt)))

pub reached :
    (c : Vr4300) (iw rs rt code : ℕ) (function : Function) (r : ℕ × Vr4300)
    → iw < 2 ^ 26
    → iw % 64 ≡ code
    → vr4300_function (get_or opcode_table code Opcode.invalid) ≡ some function
    → function (ready c) iw rs rt ≡ r
    → execute c iw rs rt ≡ some r
reached c iw rs rt code function r small low found value =
    execute_special c iw code rs rt function small low found
    ∙ ap (λ (r' : ℕ × Vr4300). some r') value
