-- ===== src/Cpu/Fault/Context.antt =====
-- The registers that describe a TLB fault, field by field.
use cen.Base.{
  ℕ, ◌+◌, ◌*◌, ◌/◌, ◌%◌, ◌^◌, ◌<◌, ◌≡◌, refl, ◌∙◌, bit_and, bit_or, bit_and_step, bit_and_low,
  bit_and_high, bit_or_fields, bit_or-shift, sext32, arith,
}
use cen.Cpu.State.{Vr4300}
use cen.Cpu.Words.{not64}
use cen.Cpu.Fault.Tlb.{cp0_context, cp0_xcontext, cp0_entryhi, write_context, write_xcontext}

-- EntryHi, Context and XContext for an address: the virtual page pair, with the ASID of EntryHi and
-- the bases of the page tables kept.
abbrev pub page_pair : ℕ → ℕ → ℕ
page_pair vaddr bits = vaddr / 2 ^ 13 % 2 ^ bits

pub record IsNarrow (c d : Vr4300) (vaddr : ℕ) : Type 0 where
  pub entryhi :
      d.regs cp0_entryhi ≡ sext32 (page_pair vaddr 19 * 2 ^ 13 + c.regs cp0_entryhi % 2 ^ 8)
  pub bad_vpn : d.regs cp0_context / 2 ^ 4 % 2 ^ 19 ≡ page_pair vaddr 19
  pub base : d.regs cp0_context / 2 ^ 23 ≡ c.regs cp0_context / 2 ^ 23
  pub xcontext : d.regs cp0_xcontext ≡ c.regs cp0_xcontext

pub record IsWide (c d : Vr4300) (vaddr : ℕ) : Type 0 where
  pub entryhi :
      d.regs cp0_entryhi
      ≡ vaddr / 2 ^ 62 * 2 ^ 62 + page_pair vaddr 27 * 2 ^ 13 + c.regs cp0_entryhi % 2 ^ 8
  pub bad_vpn : d.regs cp0_xcontext / 2 ^ 4 % 2 ^ 27 ≡ page_pair vaddr 27
  pub region : d.regs cp0_xcontext / 2 ^ 31 % 4 ≡ vaddr / 2 ^ 62
  pub base : d.regs cp0_xcontext / 2 ^ 33 ≡ c.regs cp0_xcontext / 2 ^ 33
  pub context : d.regs cp0_context ≡ c.regs cp0_context

-- The part above the low four bits of a register with a field cleared.
kept_narrow :
    (x : ℕ) → x < 2 ^ 64 → bit_and x (not64 (0x7FFFF * 2 ^ 4)) / 2 ^ 4 ≡ x / 2 ^ 23 * 2 ^ 19
kept_narrow x h = omega (
  arith,
  bit_and_step x 0xFFFFFFFFFF80000F,
  bit_and_step (x / 2) 0x7FFFFFFFFFC00007,
  bit_and_step (x / 2 / 2) 0x3FFFFFFFFFE00003,
  bit_and_step (x / 2 / 2 / 2) 0x1FFFFFFFFFF00001,
  bit_and_high 60 19 (x / 2 / 2 / 2 / 2) (omega arith) (omega arith),
)

kept_wide :
    (x : ℕ) → x < 2 ^ 64 → bit_and x (not64 (0x1FFFFFFF * 2 ^ 4)) / 2 ^ 4 ≡ x / 2 ^ 33 * 2 ^ 29
kept_wide x h = omega (
  arith,
  bit_and_step x 0xFFFFFFFE0000000F,
  bit_and_step (x / 2) 0x7FFFFFFF00000007,
  bit_and_step (x / 2 / 2) 0x3FFFFFFF80000003,
  bit_and_step (x / 2 / 2 / 2) 0x1FFFFFFFC0000001,
  bit_and_high 60 29 (x / 2 / 2 / 2 / 2) (omega arith) (omega arith),
)

context_lem :
    (x v : ℕ)
    → x < 2 ^ 64
    → v < 2 ^ 19
    → bit_or (bit_and x (not64 (0x7FFFF * 2 ^ 4))) (v * 2 ^ 4) / 2 ^ 4 ≡ x / 2 ^ 23 * 2 ^ 19 + v
context_lem x v h small =
    let half : v * 2 ^ 4 / 2 ^ 4 ≡ v = omega arith in
    bit_or-shift 4 (bit_and x (not64 (0x7FFFF * 2 ^ 4))) (v * 2 ^ 4)
    ∙ rw (kept_narrow x h, half) (bit_or_fields 19 (x / 2 ^ 23) v small)

xcontext_lem :
    (x r v : ℕ)
    → x < 2 ^ 64
    → r < 4
    → v < 2 ^ 27
    → bit_or (bit_or (bit_and x (not64 (0x1FFFFFFF * 2 ^ 4))) (r * 2 ^ 31)) (v * 2 ^ 4) / 2 ^ 4
      ≡ (x / 2 ^ 33 * 4 + r) * 2 ^ 27 + v
xcontext_lem x r v h region small =
    let kept = bit_and x (not64 (0x1FFFFFFF * 2 ^ 4)) in
    let half : v * 2 ^ 4 / 2 ^ 4 ≡ v = omega arith in
    let high : r * 2 ^ 31 / 2 ^ 4 ≡ r * 2 ^ 27 = omega arith in
    let upper : bit_or kept (r * 2 ^ 31) / 2 ^ 4 ≡ (x / 2 ^ 33 * 4 + r) * 2 ^ 27 =
      bit_or-shift 4 kept (r * 2 ^ 31)
      ∙ rw (kept_wide x h, high)
          (bit_or_fields 29 (x / 2 ^ 33) (r * 2 ^ 27) (omega arith) ∙ omega arith) in
    bit_or-shift 4 (bit_or kept (r * 2 ^ 31)) (v * 2 ^ 4)
    ∙ rw (upper, half) (bit_or_fields 27 (x / 2 ^ 33 * 4 + r) v small)

entry_narrow : (v e : ℕ) → bit_or (v * 2 ^ 13) (e % 2 ^ 8) ≡ v * 2 ^ 13 + e % 2 ^ 8
entry_narrow v e =
    let split : v * 2 ^ 5 * 2 ^ 8 ≡ v * 2 ^ 13 = omega arith in
    rw split at (bit_or_fields 8 (v * 2 ^ 5) (e % 2 ^ 8) (omega arith))

entry_wide :
    (r v e : ℕ)
    → v < 2 ^ 27
    → bit_or (bit_or (r * 2 ^ 62) (v * 2 ^ 13)) (e % 2 ^ 8) ≡ r * 2 ^ 62 + v * 2 ^ 13 + e % 2 ^ 8
entry_wide r v e small =
    let split : r * 2 ^ 22 * 2 ^ 40 ≡ r * 2 ^ 62 = omega arith in
    let upper : bit_or (r * 2 ^ 62) (v * 2 ^ 13) ≡ r * 2 ^ 62 + v * 2 ^ 13 =
      rw split at (bit_or_fields 40 (r * 2 ^ 22) (v * 2 ^ 13) (omega arith)) in
    let split' : (r * 2 ^ 54 + v * 2 ^ 5) * 2 ^ 8 ≡ r * 2 ^ 62 + v * 2 ^ 13 = omega arith in
    rw upper (rw split' at (bit_or_fields 8 (r * 2 ^ 54 + v * 2 ^ 5) (e % 2 ^ 8) (omega arith)))

-- Both functions, for an address and registers of 64 bits.
pub write_context-IsNarrow :
    (c : Vr4300) (vaddr : ℕ)
    → c.regs cp0_context < 2 ^ 64
    → IsNarrow c (write_context c vaddr) vaddr
unfolding write_context
write_context-IsNarrow c vaddr h =
    let vpn2 : bit_and (vaddr / 2 ^ 13) 0x7FFFF ≡ page_pair vaddr 19 = bit_and_low 19 _ in
    let e = context_lem (c.regs cp0_context) (page_pair vaddr 19) h (omega arith) in
    rw (vpn2, entry_narrow (page_pair vaddr 19) (c.regs cp0_entryhi))
      (record {
        entryhi = refl;
        bad_vpn = omega (arith, e);
        base = omega (arith, e);
        xcontext = refl;
      })

pub write_xcontext-IsWide :
    (c : Vr4300) (vaddr : ℕ)
    → vaddr < 2 ^ 64
    → c.regs cp0_xcontext < 2 ^ 64
    → IsWide c (write_xcontext c vaddr) vaddr
unfolding write_xcontext
write_xcontext-IsWide c vaddr small h =
    let vpn2 : bit_and (vaddr / 2 ^ 13) 0x7FFFFFF ≡ page_pair vaddr 27 = bit_and_low 27 _ in
    let region : bit_and (vaddr / 2 ^ 62) 0x3 ≡ vaddr / 2 ^ 62 =
      bit_and_low 2 (vaddr / 2 ^ 62) ∙ omega arith in
    let e =
      xcontext_lem (c.regs cp0_xcontext) (vaddr / 2 ^ 62) (page_pair vaddr 27) h (omega arith)
        (omega arith) in
    rw
      (
        vpn2,
        region,
        entry_wide (vaddr / 2 ^ 62) (page_pair vaddr 27) (c.regs cp0_entryhi) (omega arith),
      )
      (record {
        entryhi = refl;
        bad_vpn = omega (arith, e);
        region = omega (arith, e);
        base = omega (arith, e);
        context = refl;
      })
