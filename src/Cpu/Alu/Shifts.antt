-- ===== src/Cpu/Alu/Shifts.antt =====
-- The shifts of the group SPECIAL.
use cen.Base.{
  ℕ, ◌+◌, ◌*◌, ◌/◌, ◌%◌, ◌^◌, ◌<◌, ◌≡◌, refl, ◌∙◌, ap, bit_and, u32, sext32, arith, bit_and_low,
  bit_and_pow, bit, ◌>>>◌, ◌<<<◌,
}
use cen.Cpu.State.{Vr4300}
use cen.Cpu.Words.{sar64, shl64}
use cen.Cpu.Execute.{vr4300_function, execute}
use cen.Cpu.Shift.{
  sra, srav, dsra_dsra32, dsrav, dsll_dsll32, dsrl_dsrl32, sll_sllv, srl, srlv, dsllv, dsrlv,
}
use cen.Cpu.Alu.{Operation, reference, completed}
use cen.Cpu.Alu.Results.{sext32-shl64}
use cen.Cpu.Alu.Arithmetic.{sra_lem}
use cen.Cpu.Alu.Outcome.{shift_amount, written, outcome, reached}

module _ (c : Vr4300) (iw rs rt : ℕ) where
  module _ (small : iw < 2 ^ 26) where
    pub special_sll : rs ≡ 0 → iw % 64 ≡ 0 → execute c iw rs rt ≡ outcome c iw rs rt Operation.sll
    unfolding sll_sllv vr4300_function completed reference
    special_sll exact low =
        let e : bit_and rs 0x1F + bit_and (iw >>> 6) 0x1F ≡ shift_amount iw =
          omega (arith, bit_and_low 5 rs, bit_and_low 5 (iw >>> 6)) in
        reached c iw rs rt 0 sll_sllv _ small low refl
          (ap (written c iw) (rw e (sext32-shl64 rt (shift_amount iw))))

    pub special_sllv :
        shift_amount iw ≡ 0 → iw % 64 ≡ 4 → execute c iw rs rt ≡ outcome c iw rs rt Operation.sllv
    unfolding sll_sllv vr4300_function completed reference
    special_sllv exact low =
        let e : bit_and rs 0x1F + bit_and (iw >>> 6) 0x1F ≡ rs % 32 =
          omega (arith, bit_and_low 5 rs, bit_and_low 5 (iw >>> 6)) in
        reached c iw rs rt 4 sll_sllv _ small low refl
          (ap (written c iw) (rw e (sext32-shl64 rt (rs % 32))))

    pub special_srl : iw % 64 ≡ 2 → execute c iw rs rt ≡ outcome c iw rs rt Operation.srl
    unfolding srl vr4300_function completed reference
    special_srl low =
        reached c iw rs rt 2 srl _ small low refl
          (ap (λ (sa : ℕ). (written c iw) (sext32 (u32 rt >>> sa))) (bit_and_low 5 (iw >>> 6)))

    pub special_srlv : iw % 64 ≡ 6 → execute c iw rs rt ≡ outcome c iw rs rt Operation.srlv
    unfolding srlv vr4300_function completed reference
    special_srlv low =
        reached c iw rs rt 6 srlv _ small low refl
          (ap (λ (sa : ℕ). (written c iw) (sext32 (u32 rt >>> sa))) (bit_and_low 5 rs))

    pub special_dsllv : iw % 64 ≡ 20 → execute c iw rs rt ≡ outcome c iw rs rt Operation.dsllv
    unfolding dsllv vr4300_function completed reference
    special_dsllv low =
        reached c iw rs rt 20 dsllv _ small low refl
          (ap (λ (sa : ℕ). (written c iw) (shl64 rt sa)) (bit_and_low 6 rs))

    pub special_dsrlv : iw % 64 ≡ 22 → execute c iw rs rt ≡ outcome c iw rs rt Operation.dsrlv
    unfolding dsrlv vr4300_function completed reference
    special_dsrlv low =
        reached c iw rs rt 22 dsrlv _ small low refl
          (ap (λ (sa : ℕ). (written c iw) (rt >>> sa)) (bit_and_low 6 rs))

    -- The shift amount of a double word, with 32 more if bit 2 of the word is set.
    double_amount :
        (code : ℕ)
        → iw % 64 ≡ code
        → bit_and (iw >>> 6) 0x1F + bit_and iw 0x4 <<< 3 ≡ shift_amount iw + code / 4 % 2 * 32
    unfolding bit
    double_amount code low = omega (arith, bit_and_low 5 (iw >>> 6), bit_and_pow 2 iw)

    pub special_dsll : iw % 64 ≡ 56 → execute c iw rs rt ≡ outcome c iw rs rt Operation.dsll
    unfolding dsll_dsll32 vr4300_function completed reference
    special_dsll low =
        reached c iw rs rt 56 dsll_dsll32 _ small low refl
          (ap (λ (sa : ℕ). (written c iw) (shl64 rt sa)) (double_amount 56 low ∙ omega arith))

    pub special_dsrl : iw % 64 ≡ 58 → execute c iw rs rt ≡ outcome c iw rs rt Operation.dsrl
    unfolding dsrl_dsrl32 vr4300_function completed reference
    special_dsrl low =
        reached c iw rs rt 58 dsrl_dsrl32 _ small low refl
          (ap (λ (sa : ℕ). (written c iw) (rt >>> sa)) (double_amount 58 low ∙ omega arith))

    pub special_dsll32 : iw % 64 ≡ 60 → execute c iw rs rt ≡ outcome c iw rs rt Operation.dsll32
    unfolding dsll_dsll32 vr4300_function completed reference
    special_dsll32 low =
        reached c iw rs rt 60 dsll_dsll32 _ small low refl
          (ap (λ (sa : ℕ). (written c iw) (shl64 rt sa)) (double_amount 60 low))

    pub special_dsrl32 : iw % 64 ≡ 62 → execute c iw rs rt ≡ outcome c iw rs rt Operation.dsrl32
    unfolding dsrl_dsrl32 vr4300_function completed reference
    special_dsrl32 low =
        reached c iw rs rt 62 dsrl_dsrl32 _ small low refl
          (ap (λ (sa : ℕ). (written c iw) (rt >>> sa)) (double_amount 62 low))

    pub special_sra :
        rt ≡ sext32 rt → iw % 64 ≡ 3 → execute c iw rs rt ≡ outcome c iw rs rt Operation.sra
    unfolding sra vr4300_function completed reference
    special_sra word low = reached c iw rs rt 3 sra _ small low refl (
        ap (λ (sa : ℕ). written c iw (sext32 (rt >>> sa))) (bit_and_low 5 (iw >>> 6))
        ∙ ap (written c iw) (sra_lem rt (shift_amount iw) word (omega arith)))

    pub special_srav :
        rt ≡ sext32 rt → iw % 64 ≡ 7 → execute c iw rs rt ≡ outcome c iw rs rt Operation.srav
    unfolding srav vr4300_function completed reference
    special_srav word low = reached c iw rs rt 7 srav _ small low refl (
        ap (λ (sa : ℕ). written c iw (sext32 (rt >>> sa))) (bit_and_low 5 rs)
        ∙ ap (written c iw) (sra_lem rt (rs % 32) word (omega arith)))

    pub special_dsra : iw % 64 ≡ 59 → execute c iw rs rt ≡ outcome c iw rs rt Operation.dsra
    unfolding dsra_dsra32 vr4300_function completed reference
    special_dsra low =
        reached c iw rs rt 59 dsra_dsra32 _ small low refl
          (ap (λ (sa : ℕ). written c iw (sar64 rt sa)) (double_amount 59 low ∙ omega arith))

    pub special_dsra32 : iw % 64 ≡ 63 → execute c iw rs rt ≡ outcome c iw rs rt Operation.dsra32
    unfolding dsra_dsra32 vr4300_function completed reference
    special_dsra32 low =
        reached c iw rs rt 63 dsra_dsra32 _ small low refl
          (ap (λ (sa : ℕ). written c iw (sar64 rt sa)) (double_amount 63 low))

    pub special_dsrav : iw % 64 ≡ 23 → execute c iw rs rt ≡ outcome c iw rs rt Operation.dsrav
    unfolding dsrav vr4300_function completed reference
    special_dsrav low =
        reached c iw rs rt 23 dsrav _ small low refl
          (ap (λ (sa : ℕ). written c iw (sar64 rt sa)) (bit_and_low 6 rs))
