-- ===== src/Cpu/Execute/Special.antt =====
-- How an instruction word of the group SPECIAL reaches its function.
use cen.Base.{
  ℕ, zero, suc, ◌+◌, ◌%◌, ◌^◌, ◌<◌, ◌≡◌, refl, ◌∙◌, ap, Option, some, bit_and, bit_and_low, ◌>>>◌,
  get_or, arith,
}
use cen.Cpu.State.{Vr4300}
use cen.Cpu.Decode.{
  Opcode, Escape, escape, escape_table, opcode_table, flags_table, escaped, decode_instruction,
  decode_flags,
}
use cen.Cpu.Execute.{Function, ready, dispatch, vr4300_function, execute}

-- The six bits above are 0, so the escape is one of the first two.
escape_special : (top : ℕ) → top < 2 → get_or escape_table top (escape 0 0 0) ≡ escape 0 0 0x3F
escape_special zero h = refl
escape_special (suc zero) h = refl
escape_special (suc (suc top)) h = absurd (omega arith)

low_six : (iw : ℕ) → 0 + bit_and (iw >>> 0) 0x3F ≡ iw % 64
low_six iw = let e : iw >>> 0 ≡ iw = omega arith in rw e (omega (arith, bit_and_low 6 iw))

decode_special :
    (iw : ℕ) → iw < 2 ^ 26 → decode_instruction iw ≡ get_or opcode_table (iw % 64) Opcode.invalid
unfolding decode_instruction
decode_special iw h =
    ap (λ (e : Escape). escaped e iw) (escape_special (iw >>> 25) (omega arith))
    ∙ ap (λ (i : ℕ). get_or opcode_table i Opcode.invalid) (low_six iw)

pub execute_special :
    (c : Vr4300) (iw code rs rt : ℕ) (function : Function)
    → iw < 2 ^ 26
    → iw % 64 ≡ code
    → vr4300_function (get_or opcode_table code Opcode.invalid) ≡ some function
    → execute c iw rs rt ≡ some (function (ready c) iw rs rt)
unfolding execute
execute_special c iw code rs rt function small low found =
    let by_code =
      decode_special iw small ∙ ap (λ (i : ℕ). get_or opcode_table i Opcode.invalid) low in
    ap (λ (o : Option Function). dispatch o c iw rs rt) (ap vr4300_function by_code ∙ found)

pub flags_special : (iw : ℕ) → iw < 2 ^ 26 → decode_flags iw ≡ get_or flags_table (iw % 64) 0
unfolding decode_flags
flags_special iw h =
    ap (λ (e : Escape). get_or flags_table (e.offset + bit_and (iw >>> e.shift) e.mask) 0)
      (escape_special (iw >>> 25) (omega arith))
    ∙ ap (λ (i : ℕ). get_or flags_table i 0) (low_six iw)
