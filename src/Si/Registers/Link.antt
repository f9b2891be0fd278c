-- ===== src/Si/Registers/Link.antt =====
-- The interrupt bit of SI_STATUS_REG against the one that is pending in the MI.
use cen.Base.{
  ℕ, ◌≡◌, refl, some, bit, bit-le, bit-bit_and, bit-bit_or, bit-complement, bit-pow_self, not32,
  store32, byteswap_32, load_be, bit_and, bit_or, sub32, Bytes, copy, arith,
}
use cen.Mi.{si, mi_intr_reg}
use cen.Mi.Line.{IsWired, signal-IsWired, clear-IsWired}
use cen.Mi.Pending.{bit-signal, bit-clear}
use cen.Si.Rtc.{TimeStamp}
use cen.Si.Pif.{
  SiController, Outcome, done, fault, out_of_fuel, pif_process, si_status_reg, pif_ram_base_address,
}
use cen.Si.Registers.{
  signal_si, write_pif_rom_and_ram, write_si_regs, process_and_send, dma_to_pif, dma_from_pif,
  dma_offset,
}

-- Bit 12 of the status says that the SI's interrupt is pending, and the CPU's line is right.
pub record IsLinked (s : SiController) : Type 0 where
  pub linked : bit 12 (s.regs si_status_reg) ≡ bit 1 (s.vr4300.mi_regs mi_intr_reg)
  pub wired : IsWired s.vr4300

signal_si-IsLinked : (s : SiController) → IsLinked (signal_si s)
unfolding signal_si
signal_si-IsLinked s = record {
  linked = omega (
    arith,
    bit-bit_or 12 (s.regs si_status_reg) 0x1000,
    bit-pow_self 12,
    bit-le 12 (s.regs si_status_reg),
    bit-signal s.vr4300 si 1,
    bit-pow_self 1,
    bit-le 1 (s.vr4300.mi_regs mi_intr_reg),
  );
  wired = signal-IsWired s.vr4300 si;
}

pub write_pif_rom_and_ram-IsLinked :
    (s s' : SiController) (address word dqm : ℕ)
    → IsLinked s
    → write_pif_rom_and_ram s address word dqm ≡ some s'
    → IsLinked s'
unfolding write_pif_rom_and_ram
write_pif_rom_and_ram-IsLinked s s' address word dqm l e = ground (
  arith,
  signal_si-IsLinked (record s {
    ram = store32 s.ram (bit_and (sub32 address pif_ram_base_address) 0x3F) (
        byteswap_32 (
          bit_or
            (bit_and (load_be s.ram (bit_and (sub32 address pif_ram_base_address) 0x3F))
              (not32 dqm))
            word));
  }),
)

dma_from_pif-IsLinked :
    (offset : ℕ) (s s' : SiController) → dma_from_pif offset s ≡ some s' → IsLinked s'
unfolding dma_from_pif
dma_from_pif-IsLinked offset s s' e = ground (
  arith,
  signal_si-IsLinked (record s { ri = record (s.ri) { ram = copy s.ri.ram offset s.ram 0 0x40 } }),
)

dma_to_pif-IsLinked : (s s' : SiController) → dma_to_pif s ≡ some s' → IsLinked s'
unfolding dma_to_pif
dma_to_pif-IsLinked s s' e = ground (
  arith,
  signal_si-IsLinked (record s {
    ram = copy s.ram 0 s.ri.ram (dma_offset s) 0x40;
    command = copy s.command 0 (copy s.ram 0 s.ri.ram (dma_offset s) 0x40) 0 0x40;
  }),
)

module _ (get_local_time : ℕ → TimeStamp) (get_offset_seconds : TimeStamp → ℕ) where
  process_and_send-IsLinked :
      (junk : Bytes) (s s' : SiController)
      → process_and_send get_local_time get_offset_seconds junk s ≡ some s'
      → IsLinked s'
  unfolding process_and_send
  process_and_send-IsLinked junk s s' e =
      go (pif_process get_local_time get_offset_seconds junk s) refl
    where
      go : (o : Outcome) → pif_process get_local_time get_offset_seconds junk s ≡ o → IsLinked s'
      go (done t) p = dma_from_pif-IsLinked (dma_offset s) t s' (ground arith)
      go fault p = absurd (ground arith)
      go out_of_fuel p = absurd (ground arith)

  -- A register write of the SI that is defined keeps this: bit 12 of SI_STATUS_REG is the pending
  -- bit of the SI in the MI, and the CPU's line is right.
  pub write_si_regs-IsLinked :
      (junk : Bytes) (s s' : SiController) (address word dqm : ℕ)
      → IsLinked s
      → write_si_regs get_local_time get_offset_seconds junk s address word dqm ≡ some s'
      → IsLinked s'
  unfolding write_si_regs
  write_si_regs-IsLinked junk s s' address word dqm l e = ground (
    arith,
    process_and_send-IsLinked junk s s',
    dma_to_pif-IsLinked s s',
    clear-IsWired s.vr4300 si,
    bit-clear s.vr4300 si 1 (omega arith),
    bit-pow_self 1,
    bit-bit_and 12 (s.regs si_status_reg) (not32 0x1000),
    bit-complement 32 12 0x1000 (omega arith) (omega arith),
    bit-pow_self 12,
  )
