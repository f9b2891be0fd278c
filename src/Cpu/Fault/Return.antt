-- ===== src/Cpu/Fault/Return.antt =====
-- An exception and the ERET that ends its handler.
use cen.Base.{
  ℕ, zero, suc, bit_or-zero, ◌+◌, ◌*◌, ◌/◌, ◌%◌, ◌^◌, ◌≡◌, ◌↔◌, inl, inr, refl, Bool-cases, ◌<◌,
  bit_or_scaled, bit_or_fields, bit_or-shift, bit_and_high, bit_and_low, bit_or-lt, ◌∙◌, ap, sym,
  Bool, true, false, bit, has-bit, bit_and, bit_or, ◌==◌, if◌then◌else◌, has, u32, sub64, not32,
  ◌>>>◌, arith,
}
use cen.Cpu.State.{Vr4300, Latch, FaultId, cp0_status, cp0_cause, cp0_epc}
use cen.Cpu.Fault.{
  exception_prolog, exception_epilogue, ex_fault, system_call, breakpoint, raise_trap,
  reserved_instruction, cp_unusable, data_address_error, cause_code,
}

-- The exceptions of the EX stage.
pub data Exception : Type 0 where
  sysc brpt trap ri cpu dade : Exception

unfoldable pub raise_exception : Exception → Vr4300 → Vr4300
raise_exception Exception.sysc c = system_call c
raise_exception Exception.brpt c = breakpoint c
raise_exception Exception.trap c = raise_trap c
raise_exception Exception.ri c = reserved_instruction c
raise_exception Exception.cpu c = cp_unusable c
raise_exception Exception.dade c = data_address_error c

-- The codes that the architecture gives them, for a load in the case of an address.
unfoldable pub exception_code : Exception → ℕ
exception_code Exception.sysc = 8
exception_code Exception.brpt = 9
exception_code Exception.trap = 13
exception_code Exception.ri = 10
exception_code Exception.cpu = 11
exception_code Exception.dade = 4

-- Where the handler returns to: the instruction, or the branch in front of it.
abbrev pub resume_pc : Latch → ℕ
resume_pc l = if l.cause_data >>> 31 == 0 then l.pc else sub64 l.pc 4

-- The state that an exception outside a handler leaves.
pub record Entered (c d : Vr4300) (code : ℕ) : Type 0 where
  pub epc : d.regs cp0_epc ≡ resume_pc c.exdc_common
  pub status : d.regs cp0_status ≡ bit_or (u32 (c.regs cp0_status)) 0x2
  pub exc_code : d.regs cp0_cause / 4 % 32 ≡ code
  pub branch_delay : (d.regs cp0_cause / 2 ^ 31 ≡ 0) ↔ (c.exdc_common.cause_data >>> 31 ≡ 0)
  pub vector :
      d.icrf_pc
      ≡ (if has (u32 (c.regs cp0_status)) 0x400000 then 0xFFFFFFFFBFC00380 else 0xFFFFFFFF80000180)

-- What all of them do, for the function that makes the cause.
abbrev raised : Vr4300 → FaultId → (ℕ → ℕ) → Vr4300
raised c id make_cause =
    let c1 = ex_fault c id in
    let p = exception_prolog c1 c1.exdc_common in
    exception_epilogue c1 (make_cause p.cause) p.status p.epc 0x180

-- Bit 31 of the cause, as the prolog leaves it outside a delay slot and in one.
abbrev mark : Bool → ℕ → ℕ
mark true cause = bit_and cause (not32 0x80000000)
mark false cause = bit_or cause 0x80000000

abbrev marked : Vr4300 → ℕ
marked c = mark (c.exdc_common.cause_data >>> 31 == 0) (u32 (c.regs cp0_cause))

mark_set : (cause : ℕ) → cause < 2 ^ 32 → bit_or cause 0x80000000 / 2 ^ 31 ≡ 1
mark_set cause h = bit_or-shift 31 cause 0x80000000 ∙ top_bit (cause / 2 ^ 31) (omega arith)
  where
    top_bit : (t : ℕ) → t < 2 → bit_or t 1 ≡ 1
    top_bit zero h = refl
    top_bit (suc zero) h = refl
    top_bit (suc (suc t)) h = absurd (omega arith)

mark_lem :
    (b : Bool) (cause : ℕ)
    → cause < 2 ^ 32
    → (mark b cause < 2 ^ 32) × (mark b cause / 2 ^ 31 ≡ (if b then 0 else 1))
mark_lem true cause h = (omega (arith, bit_and_low 31 cause), omega (arith, bit_and_low 31 cause))
mark_lem false cause h = (bit_or-lt 32 cause 0x80000000 h (omega arith), mark_set cause h)

delay_iff : (b : Bool) (top x : ℕ) → (top == 0) ≡ b → x ≡ (if b then 0 else 1) → (x ≡ 0) ↔ (top ≡ 0)
delay_iff true top x t e = ground arith
delay_iff false top x t e = ground arith

exl_word : (status : ℕ) → has (u32 status) 0x2 ≡ has status 0x2
unfolding bit
exl_word status =
    let e : u32 status / 2 % 2 ≡ status / 2 % 2 = omega arith in
    has-bit 1 (u32 status) ∙ ap (λ (b : ℕ). b == 1) e ∙ sym (has-bit 1 status)

module _ (c : Vr4300) (id : FaultId) (outside : has (c.regs cp0_status) 0x2 ≡ false) where
  prolog_lem :
      exception_prolog (ex_fault c id) (ex_fault c id).exdc_common
      ≡ record { cause = marked c; status = u32 (c.regs cp0_status); epc = resume_pc c.exdc_common }
  unfolding exception_prolog ex_fault
  prolog_lem = elim (Bool-cases (c.exdc_common.cause_data >>> 31 == 0)) [
    | inl e ↦ rw (exl_word (c.regs cp0_status) ∙ outside, e) refl
    | inr e ↦ rw (exl_word (c.regs cp0_status) ∙ outside, e) refl
  ]

  epilogue_lem :
      (cause status epc : ℕ)
      → let d = exception_epilogue (ex_fault c id) cause status epc 0x180 in
        (d.regs cp0_epc ≡ epc)
        × (d.regs cp0_status ≡ bit_or status 0x2)
        × (d.regs cp0_cause ≡ cause)
        × (d.icrf_pc ≡ (if has status 0x400000 then 0xFFFFFFFFBFC00380 else 0xFFFFFFFF80000180))
  unfolding exception_epilogue ex_fault
  epilogue_lem cause status epc = rw outside (refl, refl, refl, refl)

  entered :
      (make_cause : ℕ → ℕ) (code : ℕ)
      → (make_cause (marked c) / 4 % 32 ≡ code)
      → (make_cause (marked c) / 2 ^ 31 ≡ marked c / 2 ^ 31)
      → Entered c (raised c id make_cause) code
  entered make_cause code coded delayed =
      let m =
        mark_lem (c.exdc_common.cause_data >>> 31 == 0) (u32 (c.regs cp0_cause)) (omega arith) in
      let e =
        epilogue_lem (make_cause (marked c)) (u32 (c.regs cp0_status)) (resume_pc c.exdc_common) in
      rw prolog_lem (record {
        epc = e.0;
        status = e.1;
        exc_code = ap (λ (x : ℕ). x / 4 % 32) e.2 ∙ coded;
        branch_delay =
            delay_iff (c.exdc_common.cause_data >>> 31 == 0) (c.exdc_common.cause_data >>> 31) _
              refl (ap (λ (x : ℕ). x / 2 ^ 31) e.2 ∙ delayed ∙ m.1);
        vector = e.3;
      })

marked-lt : (c : Vr4300) → marked c < 2 ^ 32
marked-lt c =
    (mark_lem (c.exdc_common.cause_data >>> 31 == 0) (u32 (c.regs cp0_cause)) (omega arith)).0

-- The code in a cause whose low byte is replaced.
pub plain_cause :
    (x code : ℕ)
    → x < 2 ^ 32
    → code < 32
    → (cause_code x (code * 4) / 4 % 32 ≡ code) × (cause_code x (code * 4) / 2 ^ 31 ≡ x / 2 ^ 31)
plain_cause x code hx hc =
    let e : cause_code x (code * 4) ≡ x / 2 ^ 8 * 2 ^ 8 + code * 4 =
      ap (λ (y : ℕ). bit_or y (code * 4)) (bit_and_high 32 8 x (omega arith) hx)
      ∙ bit_or_fields 8 (x / 2 ^ 8) (code * 4) (omega arith) in
    (omega (arith, e), omega (arith, e))

-- The same where the unit of a coprocessor is set too.
unit_cause :
    (x code : ℕ)
    → x < 2 ^ 32
    → code < 32
    → (bit_or (cause_code x (2 ^ 28)) (code * 4) / 4 % 32 ≡ code)
      × (bit_or (cause_code x (2 ^ 28)) (code * 4) / 2 ^ 31 ≡ x / 2 ^ 31)
unit_cause x code hx hc =
    let high : cause_code x (2 ^ 28) ≡ bit_or (x / 2 ^ 8) (2 ^ 20) * 2 ^ 8 =
      ap (λ (y : ℕ). bit_or y (2 ^ 28)) (bit_and_high 32 8 x (omega arith) hx)
      ∙ bit_or_scaled 8 (x / 2 ^ 8) (2 ^ 20) in
    let e : bit_or (cause_code x (2 ^ 28)) (code * 4)
        ≡ bit_or (x / 2 ^ 8) (2 ^ 20) * 2 ^ 8 + code * 4 =
      ap (λ (y : ℕ). bit_or y (code * 4)) high
      ∙ bit_or_fields 8 (bit_or (x / 2 ^ 8) (2 ^ 20)) (code * 4) (omega arith) in
    let top : bit_or (x / 2 ^ 8) (2 ^ 20) / 2 ^ 23 ≡ x / 2 ^ 8 / 2 ^ 23 =
      bit_or-shift 23 (x / 2 ^ 8) (2 ^ 20) ∙ bit_or-zero (x / 2 ^ 8 / 2 ^ 23) in
    (omega (arith, e), omega (arith, e, top))

-- Each of six exceptions of the EX stage, raised with EXL clear, sets EXL, records its code, the
-- delay slot and the place to return to, and goes on at the vector that BEV selects.
pub raise_exception-Entered :
    (e : Exception) (c : Vr4300)
    → has (c.regs cp0_status) 0x2 ≡ false
    → Entered c (raise_exception e c) (exception_code e)
unfolding raise_exception exception_code system_call breakpoint raise_trap reserved_instruction
    cp_unusable data_address_error
raise_exception-Entered Exception.sysc c outside =
    let r = plain_cause (marked c) 8 (marked-lt c) (omega arith) in
    entered c FaultId.sysc outside (λ x. cause_code x (8 * 4)) 8 r.0 r.1
raise_exception-Entered Exception.brpt c outside =
    let r = plain_cause (marked c) 9 (marked-lt c) (omega arith) in
    entered c FaultId.brpt outside (λ x. cause_code x (9 * 4)) 9 r.0 r.1
raise_exception-Entered Exception.trap c outside =
    let r = plain_cause (marked c) 13 (marked-lt c) (omega arith) in
    entered c FaultId.trap outside (λ x. cause_code x (13 * 4)) 13 r.0 r.1
raise_exception-Entered Exception.ri c outside =
    let r = plain_cause (marked c) 10 (marked-lt c) (omega arith) in
    entered c FaultId.ri outside (λ x. cause_code x (10 * 4)) 10 r.0 r.1
raise_exception-Entered Exception.cpu c outside =
    let r = unit_cause (marked c) 11 (marked-lt c) (omega arith) in
    entered c FaultId.cpu outside (λ x. bit_or (cause_code x (2 ^ 28)) (11 * 4)) 11 r.0 r.1
raise_exception-Entered Exception.dade c outside =
    let r = unit_cause (marked c) 4 (marked-lt c) (omega arith) in
    entered c FaultId.cpu outside (λ x. bit_or (cause_code x (2 ^ 28)) (4 * 4)) 4 r.0 r.1
