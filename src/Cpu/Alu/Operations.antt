-- ===== src/Cpu/Alu/Operations.antt =====
-- The additions, the logical operations and the comparisons of the group SPECIAL.
use cen.Base.{
  ℕ, ◌+◌, ◌/◌, ◌%◌, ◌^◌, ◌<◌, ◌≡◌, refl, ◌∙◌, ap, Bool, bit_and, bit_xor, if◌then◌else◌, u64, sub64,
  sext32, arith, bit_and_low,
}
use cen.Cpu.State.{Vr4300}
use cen.Cpu.Words.{addsub_mask}
use cen.Cpu.Words.Laws.{signed_lt_lem}
use cen.Cpu.Execute.{vr4300_function, execute}
use cen.Cpu.Arith.{add_sub, addu_subu, dadd_dsub, daddu_dsubu, and_or_xor, nor, slt, sltu}
use cen.Cpu.Alu.{Operation, reference, completed}
use cen.Cpu.Alu.Results.{sext32_mod, sum, difference, sext32-difference, disjunction}
use cen.Cpu.Alu.Outcome.{written, outcome, reached}

module _ (c : Vr4300) (iw rs rt : ℕ) where
  module _ (small : iw < 2 ^ 26) (hs : rs < 2 ^ 64) (ht : rt < 2 ^ 64) where
    sums :
        (code : ℕ)
        → iw % 64 ≡ code
        → code / 2 % 2 ≡ 0
        → u64 (rs + sub64 (bit_xor rt (addsub_mask iw)) (addsub_mask iw)) ≡ u64 (rs + rt)
    sums code low plus = sum iw rs rt ht (omega arith)

    differences :
        (code : ℕ)
        → iw % 64 ≡ code
        → code / 2 % 2 ≡ 1
        → u64 (rs + sub64 (bit_xor rt (addsub_mask iw)) (addsub_mask iw)) ≡ sub64 rs rt
    differences code low minus = difference iw rs rt hs ht (omega arith)

    pub special_add : iw % 64 ≡ 32 → execute c iw rs rt ≡ outcome c iw rs rt Operation.add
    unfolding add_sub vr4300_function completed reference
    special_add low =
        reached c iw rs rt 32 add_sub _ small low refl
          (ap (written c iw) (ap sext32 (sums 32 low refl) ∙ sext32_mod (rs + rt)))

    pub special_addu : iw % 64 ≡ 33 → execute c iw rs rt ≡ outcome c iw rs rt Operation.addu
    unfolding addu_subu vr4300_function completed reference
    special_addu low =
        reached c iw rs rt 33 addu_subu _ small low refl
          (ap (written c iw) (ap sext32 (sums 33 low refl) ∙ sext32_mod (rs + rt)))

    pub special_sub : iw % 64 ≡ 34 → execute c iw rs rt ≡ outcome c iw rs rt Operation.sub
    unfolding add_sub vr4300_function completed reference
    special_sub low =
        reached c iw rs rt 34 add_sub _ small low refl
          (ap (written c iw) (ap sext32 (differences 34 low refl) ∙ sext32-difference rs rt hs ht))

    pub special_subu : iw % 64 ≡ 35 → execute c iw rs rt ≡ outcome c iw rs rt Operation.subu
    unfolding addu_subu vr4300_function completed reference
    special_subu low =
        reached c iw rs rt 35 addu_subu _ small low refl
          (ap (written c iw) (ap sext32 (differences 35 low refl) ∙ sext32-difference rs rt hs ht))

    pub special_and : iw % 64 ≡ 36 → execute c iw rs rt ≡ outcome c iw rs rt Operation.and
    unfolding and_or_xor vr4300_function completed reference
    special_and low =
        let e : bit_and iw 3 ≡ 0 = omega (arith, bit_and_low 2 iw) in
        reached c iw rs rt 36 and_or_xor _ small low refl (ap (written c iw) (rw e refl))

    pub special_or : iw % 64 ≡ 37 → execute c iw rs rt ≡ outcome c iw rs rt Operation.or
    unfolding and_or_xor vr4300_function completed reference
    special_or low =
        let e : bit_and iw 3 ≡ 1 = omega (arith, bit_and_low 2 iw) in
        let e' : bit_and iw 1 ≡ 1 = omega (arith, bit_and_low 1 iw) in
        reached c iw rs rt 37 and_or_xor _ small low refl
          (ap (written c iw) (rw (e, e') (disjunction rs rt hs ht)))

    pub special_xor : iw % 64 ≡ 38 → execute c iw rs rt ≡ outcome c iw rs rt Operation.xor
    unfolding and_or_xor vr4300_function completed reference
    special_xor low =
        let e : bit_and iw 3 ≡ 2 = omega (arith, bit_and_low 2 iw) in
        let e' : bit_and iw 1 ≡ 0 = omega (arith, bit_and_low 1 iw) in
        reached c iw rs rt 38 and_or_xor _ small low refl (ap (written c iw) (rw (e, e') refl))

    pub special_nor : iw % 64 ≡ 39 → execute c iw rs rt ≡ outcome c iw rs rt Operation.nor
    unfolding nor vr4300_function completed reference
    special_nor low = reached c iw rs rt 39 nor _ small low refl refl

    pub special_slt : iw % 64 ≡ 42 → execute c iw rs rt ≡ outcome c iw rs rt Operation.slt
    unfolding slt vr4300_function completed reference
    special_slt low =
        reached c iw rs rt 42 slt _ small low refl
          (ap (λ (b : Bool). (written c iw) (if b then 1 else 0)) (signed_lt_lem rs rt hs ht))

    pub special_sltu : iw % 64 ≡ 43 → execute c iw rs rt ≡ outcome c iw rs rt Operation.sltu
    unfolding sltu vr4300_function completed reference
    special_sltu low = reached c iw rs rt 43 sltu _ small low refl refl

    pub special_dadd : iw % 64 ≡ 44 → execute c iw rs rt ≡ outcome c iw rs rt Operation.dadd
    unfolding dadd_dsub vr4300_function completed reference
    special_dadd low =
        reached c iw rs rt 44 dadd_dsub _ small low refl (ap (written c iw) (sums 44 low refl))

    pub special_daddu : iw % 64 ≡ 45 → execute c iw rs rt ≡ outcome c iw rs rt Operation.daddu
    unfolding daddu_dsubu vr4300_function completed reference
    special_daddu low =
        reached c iw rs rt 45 daddu_dsubu _ small low refl (ap (written c iw) (sums 45 low refl))

    pub special_dsub : iw % 64 ≡ 46 → execute c iw rs rt ≡ outcome c iw rs rt Operation.dsub
    unfolding dadd_dsub vr4300_function completed reference
    special_dsub low =
        reached c iw rs rt 46 dadd_dsub _ small low refl
          (ap (written c iw) (differences 46 low refl))

    pub special_dsubu : iw % 64 ≡ 47 → execute c iw rs rt ≡ outcome c iw rs rt Operation.dsubu
    unfolding daddu_dsubu vr4300_function completed reference
    special_dsubu low =
        reached c iw rs rt 47 daddu_dsubu _ small low refl
          (ap (written c iw) (differences 47 low refl))
