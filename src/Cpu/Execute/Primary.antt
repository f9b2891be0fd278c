-- ===== src/Cpu/Execute/Primary.antt =====
-- How an instruction word reaches its function by the six bits of its opcode field.
use cen.Base.{
  ℕ, ◌+◌, ◌*◌, ◌/◌, ◌^◌, ◌<◌, ◌≡◌, ◌⊎◌, inl, inr, ◌∙◌, ap, Option, some, bit_and, bit_and_low,
  ◌>>>◌, get_or, arith,
}
use cen.Cpu.State.{Vr4300}
use cen.Cpu.Decode.{Opcode, Escape, escape, escape_table, opcode_table, escaped, decode_instruction}
use cen.Cpu.Execute.{Function, ready, dispatch, vr4300_function, execute}

-- No escape at either of the two places of an opcode.
abbrev pub IsPrimary : ℕ → Type 0
IsPrimary op =
    (get_or escape_table (2 * op) (escape 0 0 0) ≡ escape 288 26 0x3F)
    × (get_or escape_table (2 * op + 1) (escape 0 0 0) ≡ escape 288 26 0x3F)

either : (iw op : ℕ) → iw / 2 ^ 26 ≡ op → (iw >>> 25 ≡ 2 * op) ⊎ (iw >>> 25 ≡ 2 * op + 1)
either iw op h = omega arith

escape_primary :
    (iw op : ℕ)
    → iw / 2 ^ 26 ≡ op
    → IsPrimary op
    → get_or escape_table (iw >>> 25) (escape 0 0 0) ≡ escape 288 26 0x3F
escape_primary iw op h primary = elim (either iw op h) [
  | inl e ↦ ap (λ (top : ℕ). get_or escape_table top (escape 0 0 0)) e ∙ primary.0
  | inr e ↦ ap (λ (top : ℕ). get_or escape_table top (escape 0 0 0)) e ∙ primary.1
]

opcode_field : (iw op : ℕ) → iw < 2 ^ 32 → iw / 2 ^ 26 ≡ op → bit_and (iw >>> 26) 0x3F ≡ op
opcode_field iw op small h = omega (arith, bit_and_low 6 (iw >>> 26))

pub execute_primary :
    (c : Vr4300) (iw op rs rt : ℕ) (function : Function)
    → iw < 2 ^ 32
    → iw / 2 ^ 26 ≡ op
    → IsPrimary op
    → vr4300_function (get_or opcode_table (288 + op) Opcode.invalid) ≡ some function
    → execute c iw rs rt ≡ some (function (ready c) iw rs rt)
unfolding execute decode_instruction
execute_primary c iw op rs rt function small h primary found =
    let by_op : decode_instruction iw ≡ get_or opcode_table (288 + op) Opcode.invalid =
      ap (λ (e : Escape). escaped e iw) (escape_primary iw op h primary)
      ∙ ap (λ (i : ℕ). get_or opcode_table (288 + i) Opcode.invalid) (opcode_field iw op small h) in
    ap (λ (o : Option Function). dispatch o c iw rs rt) (ap vr4300_function by_op ∙ found)
