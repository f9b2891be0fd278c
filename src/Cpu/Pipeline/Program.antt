-- ===== src/Cpu/Pipeline/Program.antt =====
-- Straight-line programs of the group SPECIAL, by the description of their instructions.
use native.Mathlib.Nat.{div-le_self}
use cen.Base.{
  ℕ, zero, suc, ◌+◌, ◌/◌, ◌%◌, ◌^◌, ◌≤◌, ◌<◌, ◌≡◌, ◌≢◌, refl, ◌∙◌, ap, false, bit_or-lt, bit_xor-lt,
  bit_and-le_left, ◌==◌, if◌then◌else◌, has, get_or, arith,
}
use cen.Cpu.State.{Vr4300}
use cen.Cpu.Words.{get_rs, get_rt, get_rd, not64, sar64}
use cen.Cpu.Decode.{flags_table, decode_flags, info_fpu}
use cen.Cpu.Execute.Special.{flags_special}
use cen.Cpu.Alu.{Operation, code_of, reference, completed, IsEncoded}
use cen.Cpu.Alu.Outcome.{shift_amount}

-- The words of a program, and the operations that they encode.
module _ (prog : ℕ → ℕ) (ops : ℕ → Operation) where
  abbrev pub result_of : ℕ → (ℕ → ℕ) → ℕ
  result_of k regs =
      reference (ops k) (shift_amount (prog k)) (regs (get_rs (prog k))) (regs (get_rt (prog k)))

  -- The registers after instruction k.
  abbrev pub step : ℕ → (ℕ → ℕ) → ℕ → ℕ
  step k regs r = if r == 0 then 0 else if get_rd (prog k) == r then result_of k regs else regs r

  -- The registers after n instructions from k on.
  abbrev pub after : ℕ → ℕ → (ℕ → ℕ) → ℕ → ℕ
  after k zero regs = regs
  after k (suc n) regs = after (k + 1) n (step k regs)

  -- What the description asks of the operands, along the program.
  abbrev pub Encoded : ℕ → ℕ → (ℕ → ℕ) → Type 0
  Encoded k zero regs = Unit {0}
  Encoded k (suc n) regs =
      IsEncoded (ops k) (shift_amount (prog k)) (regs (get_rs (prog k))) (regs (get_rt (prog k)))
      × Encoded (k + 1) n (step k regs)

  -- The first instructions, `limit` in number, are encoded, and none of them stalls.
  pub record IsProgram (limit : ℕ) : Type 0 where
    pub small : (k : ℕ) → k < limit → prog k < 2 ^ 26
    pub code : (k : ℕ) → k < limit → prog k % 64 ≡ code_of (ops k)
    pub no_stall : (k : ℕ) → k < limit → ops k ≢ Operation.nor

pub completed_at_once : (op : Operation) (c : Vr4300) → op ≢ Operation.nor → completed op c ≡ (0, c)
unfolding completed
completed_at_once Operation.nor c h = absurd (h refl)
completed_at_once other c h = refl

shift_le : (x k : ℕ) → x / 2 ^ k ≤ x
shift_le x k = div-le_self x (2 ^ k)

sar64-lt : (x k : ℕ) → x < 2 ^ 64 → sar64 x k < 2 ^ 64
sar64-lt x k h = ground (arith, shift_le x k, shift_le (not64 x) k)

pub reference-lt :
    (op : Operation) (sa rs rt : ℕ) → rs < 2 ^ 64 → rt < 2 ^ 64 → reference op sa rs rt < 2 ^ 64
unfolding reference
reference-lt Operation.and sa rs rt hs ht = omega (arith, bit_and-le_left rs rt)
reference-lt Operation.or sa rs rt hs ht = bit_or-lt 64 rs rt hs ht
reference-lt Operation.xor sa rs rt hs ht = bit_xor-lt 64 rs rt hs ht
reference-lt Operation.sra sa rs rt hs ht = sar64-lt rt sa ht
reference-lt Operation.srav sa rs rt hs ht = sar64-lt rt (rs % 32) ht
reference-lt Operation.dsra sa rs rt hs ht = sar64-lt rt sa ht
reference-lt Operation.dsra32 sa rs rt hs ht = sar64-lt rt (sa + 32) ht
reference-lt Operation.dsrav sa rs rt hs ht = sar64-lt rt (rs % 64) ht
reference-lt Operation.dsrlv sa rs rt hs ht = omega (arith, shift_le rt (rs % 64))
reference-lt Operation.dsrl sa rs rt hs ht = omega (arith, shift_le rt sa)
reference-lt Operation.dsrl32 sa rs rt hs ht = omega (arith, shift_le rt (sa + 32))
reference-lt other sa rs rt hs ht = ground arith

special_flags : (op : Operation) → has (get_or flags_table (code_of op) 0) info_fpu ≡ false
unfolding code_of
special_flags Operation.add = refl
special_flags other = refl

pub integer_flags :
    (op : Operation) (iw : ℕ)
    → iw < 2 ^ 26
    → iw % 64 ≡ code_of op
    → has (decode_flags iw) info_fpu ≡ false
integer_flags op iw small code =
    ap (λ (flags : ℕ). has flags info_fpu)
      (flags_special iw small ∙ ap (λ (i : ℕ). get_or flags_table i 0) code)
    ∙ special_flags op
