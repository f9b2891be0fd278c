-- ===== src/Cpu/Fault/RoundTrip.antt =====
-- ERET undoes an exception: it goes back to the instruction and restores the status register.
use cen.Base.{
  ℕ, ◌+◌, ◌-◌, ◌/◌, ◌%◌, ◌^◌, ◌<◌, ◌≡◌, refl, ◌∙◌, ap, false, bit, bit-le, has-bit, bit_and,
  if◌then◌else◌, ltb, has, u32, sext32, arith, set_bit_one, clear_bit_one,
}
use cen.Cpu.State.{Vr4300, cp0_status, cp0_epc}
use cen.Cpu.Fault.{eret}
use cen.Cpu.Fault.Return.{Exception, raise_exception, resume_pc, raise_exception-Entered}

clear : (k x : ℕ) → has x (2 ^ k) ≡ false → bit k x ≡ 0
clear k x h = grind (arith, has-bit k x, bit-le k x)

eret_lem :
    (d : Vr4300) (iw rs rt pc s : ℕ)
    → d.regs cp0_epc ≡ pc
    → d.regs cp0_status ≡ s + 2
    → s + 2 < 2 ^ 32
    → s / 2 % 2 ≡ 0
    → s / 4 % 2 ≡ 0
    → ((eret d iw rs rt).1.icrf_pc ≡ pc) × ((eret d iw rs rt).1.regs cp0_status ≡ sext32 s)
unfolding eret bit
eret_lem d iw rs rt pc s at_epc at_status small exl erl =
    let word : u32 (d.regs cp0_status) ≡ s + 2 = omega (arith, at_status) in
    let error : has (s + 2) 0x4 ≡ false = has-bit 2 (s + 2) ∙ grind arith in
    let restored : bit_and (s + 2) 0xFFFFFFFD ≡ s =
      clear_bit_one (s + 2) small (omega arith) ∙ omega arith in
    rw (word, error, restored, at_epc) (refl, refl)

-- ERET after one of the six exceptions, raised with EXL and ERL clear, goes back to the
-- instruction, or to the branch in front of it if it stands in a delay slot, and restores the
-- status register's low 32 bits, sign-extended.
pub eret-raise_exception :
    (e : Exception) (c : Vr4300) (iw rs rt : ℕ)
    → has (c.regs cp0_status) 0x2 ≡ false
    → has (c.regs cp0_status) 0x4 ≡ false
    → ((eret (raise_exception e c) iw rs rt).1.icrf_pc ≡ resume_pc c.exdc_common)
      × ((eret (raise_exception e c) iw rs rt).1.regs cp0_status ≡ sext32 (c.regs cp0_status))
unfolding bit
eret-raise_exception e c iw rs rt exl erl =
    let d = raise_exception-Entered e c exl in
    let s = u32 (c.regs cp0_status) in
    let one : s / 2 % 2 ≡ 0 = omega (arith, clear 1 (c.regs cp0_status) exl) in
    let two : s / 4 % 2 ≡ 0 = omega (arith, clear 2 (c.regs cp0_status) erl) in
    let r =
      eret_lem (raise_exception e c) iw rs rt (resume_pc c.exdc_common) s d.epc
        (d.status ∙ set_bit_one s one) (omega arith) one two in
    let same_word : u32 s ≡ s = omega arith in
    (r.0, r.1 ∙ ap (λ (x : ℕ). if ltb x (2 ^ 31) then x else 2 ^ 64 - 2 ^ 32 + x) same_word)
