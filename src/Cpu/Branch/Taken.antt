-- ===== src/Cpu/Branch/Taken.antt =====
-- The conditional branches of the primary opcodes: the condition, the target, the delay slot of a
-- likely branch, and the busy wait of BEQ and BNE.
use cen.Base.{
  ℕ, ◌+◌, ◌*◌, ◌/◌, ◌%◌, ◌^◌, ◌<◌, ◌≡◌, refl, ◌∙◌, ap, some, Bool, true, false, not, ◌||◌, bit,
  has-bit, leb, ◌==◌, if◌then◌else◌, has, u64, sext16, arith, ◌>>>◌, get_or,
}
use cen.Cpu.State.{Vr4300}
use cen.Cpu.Words.{branch_mask, same, negative, shl64}
use cen.Cpu.Decode.{Opcode, opcode_table}
use cen.Cpu.Execute.{Function, ready, vr4300_function, execute}
use cen.Cpu.Execute.Primary.{IsPrimary, execute_primary}
use cen.Cpu.Branch.{set_iw_mask, set_pc, branch_offset, beq_beql_bne_bnel, bgtz_bgtzl_blez_blezl}
use cen.Cpu.Alu.{biased}
use cen.Cpu.Branch.Reference.{
  BranchOp, branch_code, is_taken, slot_mask, branch_target, with_busy_wait, taken_state,
  branch_state,
}

target_lem : (pc s : ℕ) → u64 (pc + (shl64 s 2 + 4)) ≡ u64 (pc + 4 + 4 * s)
target_lem pc s = omega arith

module _ {ℓ} {A : Type ℓ} where
  when_equal : (b : Bool) (x y : A) → (if same b false then x else y) ≡ (if b then y else x)
  when_equal true x y = refl
  when_equal false x y = refl

  when_not : (b : Bool) (x y : A) → (if same b true then x else y) ≡ (if not b then y else x)
  when_not true x y = refl
  when_not false x y = refl

module _ (iw : ℕ) where
  bit_26 : has (iw >>> 26) 0x1 ≡ (iw / 2 ^ 26 % 2 == 1)
  unfolding bit
  bit_26 = has-bit 0 (iw >>> 26)

  bit_30 : has iw (2 ^ 30) ≡ (iw / 2 ^ 26 / 16 % 2 == 1)
  unfolding bit
  bit_30 = has-bit 30 iw ∙ ap (λ (b : ℕ). b == 1) (omega arith)

not_positive : (rs : ℕ) → rs < 2 ^ 64 → (negative rs || (rs == 0)) ≡ leb (biased rs) (2 ^ 63)
not_positive rs h = ground arith

-- The two functions, by the two bits that select among their instructions.
module _ (c : Vr4300) (iw rs rt : ℕ) (flag : Bool) (mask : ℕ) where
  equality_form : Bool → ℕ → ℕ → ℕ × Vr4300
  equality_form b k t =
      if same (rs == rt) b
      then (0, set_iw_mask c k)
      else (0, with_busy_wait (set_pc c t) iw c.rfex_common.pc)

  sign_form : Bool → ℕ → ℕ → ℕ × Vr4300
  sign_form b k t =
      if same (negative rs || (rs == 0)) b then (0, set_iw_mask c k) else (0, set_pc c t)

  module _ (e : has (iw >>> 26) 0x1 ≡ flag) (m : branch_mask iw 30 ≡ mask) where
    selected :
        (form : Bool → ℕ → ℕ → ℕ × Vr4300)
        → form
            (has (iw >>> 26) 0x1)
            (branch_mask iw 30)
            (u64 (c.rfex_common.pc + (branch_offset iw + 4)))
          ≡ form flag mask (branch_target c.rfex_common.pc iw)
    selected form =
        ap
          (λ (b : Bool).
            form b (branch_mask iw 30) (u64 (c.rfex_common.pc + (branch_offset iw + 4))))
          e
        ∙ ap (λ (k : ℕ). form flag k (u64 (c.rfex_common.pc + (branch_offset iw + 4)))) m
        ∙ ap (λ (t : ℕ). form flag mask t) (target_lem c.rfex_common.pc (sext16 iw))

    equality_lem :
        beq_beql_bne_bnel c iw rs rt ≡ equality_form flag mask (branch_target c.rfex_common.pc iw)
    unfolding beq_beql_bne_bnel equality_form
    equality_lem = selected equality_form

    sign_lem :
        rs < 2 ^ 64
        → bgtz_bgtzl_blez_blezl c iw rs rt ≡ (
            if same (leb (biased rs) (2 ^ 63)) flag
            then (0, set_iw_mask c mask)
            else (0, set_pc c (branch_target c.rfex_common.pc iw)))
    unfolding bgtz_bgtzl_blez_blezl sign_form
    sign_lem h =
        selected sign_form
        ∙ ap
            (λ (b : Bool).
              if◌then◌else◌ {A = ℕ × Vr4300} (same b flag) (0, set_iw_mask c mask)
                (0, set_pc c (branch_target c.rfex_common.pc iw)))
            (not_positive rs h)

module _ (c : Vr4300) (iw rs rt : ℕ) (small : iw < 2 ^ 32) (hs : rs < 2 ^ 64) where
  reached :
      (op : ℕ) (function : Function) (r : ℕ × Vr4300)
      → iw / 2 ^ 26 ≡ op
      → IsPrimary op
      → vr4300_function (get_or opcode_table (288 + op) Opcode.invalid) ≡ some function
      → function (ready c) iw rs rt ≡ r
      → execute c iw rs rt ≡ some r
  reached op function r h primary found value =
      execute_primary c iw op rs rt function small h primary found
      ∙ ap (λ (r' : ℕ × Vr4300). some r') value

  flag_of : (op : ℕ) → iw / 2 ^ 26 ≡ op → has (iw >>> 26) 0x1 ≡ (op % 2 == 1)
  flag_of op h = bit_26 iw ∙ ap (λ (x : ℕ). x % 2 == 1) h

  mask_of :
      (op : ℕ) → iw / 2 ^ 26 ≡ op → branch_mask iw 30 ≡ (if op / 16 % 2 == 1 then 0 else 0xFFFFFFFF)
  mask_of op h =
      ap (λ (b : Bool). if b then 0 else 0xFFFFFFFF) (bit_30 iw ∙ ap (λ (x : ℕ). x / 16 % 2 == 1) h)

  execute_beq :
      iw / 2 ^ 26 ≡ 4 → execute c iw rs rt ≡ some (branch_state BranchOp.beq (ready c) iw rs rt)
  unfolding vr4300_function is_taken slot_mask taken_state equality_form
  execute_beq h =
      reached 4 beq_beql_bne_bnel _ h (refl, refl) refl
        (equality_lem (ready c) iw rs rt false 0xFFFFFFFF (flag_of 4 h) (mask_of 4 h)
          ∙ when_equal (rs == rt) _ _)

  execute_bne :
      iw / 2 ^ 26 ≡ 5 → execute c iw rs rt ≡ some (branch_state BranchOp.bne (ready c) iw rs rt)
  unfolding vr4300_function is_taken slot_mask taken_state equality_form
  execute_bne h =
      reached 5 beq_beql_bne_bnel _ h (refl, refl) refl
        (equality_lem (ready c) iw rs rt true 0xFFFFFFFF (flag_of 5 h) (mask_of 5 h)
          ∙ when_not (rs == rt) _ _)

  execute_blez :
      iw / 2 ^ 26 ≡ 6 → execute c iw rs rt ≡ some (branch_state BranchOp.blez (ready c) iw rs rt)
  unfolding vr4300_function is_taken slot_mask taken_state
  execute_blez h =
      reached 6 bgtz_bgtzl_blez_blezl _ h (refl, refl) refl
        (sign_lem (ready c) iw rs rt false 0xFFFFFFFF (flag_of 6 h) (mask_of 6 h) hs
          ∙ when_equal (leb (biased rs) (2 ^ 63)) _ _)

  execute_bgtz :
      iw / 2 ^ 26 ≡ 7 → execute c iw rs rt ≡ some (branch_state BranchOp.bgtz (ready c) iw rs rt)
  unfolding vr4300_function is_taken slot_mask taken_state
  execute_bgtz h =
      reached 7 bgtz_bgtzl_blez_blezl _ h (refl, refl) refl
        (sign_lem (ready c) iw rs rt true 0xFFFFFFFF (flag_of 7 h) (mask_of 7 h) hs
          ∙ when_not (leb (biased rs) (2 ^ 63)) _ _)

  execute_beql :
      iw / 2 ^ 26 ≡ 20 → execute c iw rs rt ≡ some (branch_state BranchOp.beql (ready c) iw rs rt)
  unfolding vr4300_function is_taken slot_mask taken_state equality_form
  execute_beql h =
      reached 20 beq_beql_bne_bnel _ h (refl, refl) refl
        (equality_lem (ready c) iw rs rt false 0 (flag_of 20 h) (mask_of 20 h)
          ∙ when_equal (rs == rt) _ _)

  execute_bnel :
      iw / 2 ^ 26 ≡ 21 → execute c iw rs rt ≡ some (branch_state BranchOp.bnel (ready c) iw rs rt)
  unfolding vr4300_function is_taken slot_mask taken_state equality_form
  execute_bnel h =
      reached 21 beq_beql_bne_bnel _ h (refl, refl) refl
        (equality_lem (ready c) iw rs rt true 0 (flag_of 21 h) (mask_of 21 h)
          ∙ when_not (rs == rt) _ _)

  execute_blezl :
      iw / 2 ^ 26 ≡ 22 → execute c iw rs rt ≡ some (branch_state BranchOp.blezl (ready c) iw rs rt)
  unfolding vr4300_function is_taken slot_mask taken_state
  execute_blezl h =
      reached 22 bgtz_bgtzl_blez_blezl _ h (refl, refl) refl
        (sign_lem (ready c) iw rs rt false 0 (flag_of 22 h) (mask_of 22 h) hs
          ∙ when_equal (leb (biased rs) (2 ^ 63)) _ _)

  execute_bgtzl :
      iw / 2 ^ 26 ≡ 23 → execute c iw rs rt ≡ some (branch_state BranchOp.bgtzl (ready c) iw rs rt)
  unfolding vr4300_function is_taken slot_mask taken_state
  execute_bgtzl h =
      reached 23 bgtz_bgtzl_blez_blezl _ h (refl, refl) refl
        (sign_lem (ready c) iw rs rt true 0 (flag_of 23 h) (mask_of 23 h) hs
          ∙ when_not (leb (biased rs) (2 ^ 63)) _ _)

-- A 32-bit word with the opcode of one of the eight branches goes to its target if the condition
-- holds, with a busy wait after a BEQ or BNE of register 0 with itself to itself; else it gives
-- the delay slot the mask of the branch. Nothing else changes; rs is a word of 64 bits.
pub execute-branch :
    (op : BranchOp) (c : Vr4300) (iw rs rt : ℕ)
    → iw < 2 ^ 32
    → iw / 2 ^ 26 ≡ branch_code op
    → rs < 2 ^ 64
    → execute c iw rs rt ≡ some (branch_state op (ready c) iw rs rt)
unfolding branch_code
execute-branch BranchOp.beq c iw rs rt small h hs = execute_beq c iw rs rt small hs h
execute-branch BranchOp.bne c iw rs rt small h hs = execute_bne c iw rs rt small hs h
execute-branch BranchOp.blez c iw rs rt small h hs = execute_blez c iw rs rt small hs h
execute-branch BranchOp.bgtz c iw rs rt small h hs = execute_bgtz c iw rs rt small hs h
execute-branch BranchOp.beql c iw rs rt small h hs = execute_beql c iw rs rt small hs h
execute-branch BranchOp.bnel c iw rs rt small h hs = execute_bnel c iw rs rt small hs h
execute-branch BranchOp.blezl c iw rs rt small h hs = execute_blezl c iw rs rt small hs h
execute-branch BranchOp.bgtzl c iw rs rt small h hs = execute_bgtzl c iw rs rt small hs h
