-- ===== src/Pi/Link.antt =====
-- The interrupt bit of PI_STATUS_REG against the one that is pending in the MI.
use cen.Base.{
  ℕ, ◌+◌, ◌≡◌, refl, some, none, Bool, true, false, bit, bit-le, bit-bit_and, bit-bit_or,
  bit-complement, bit-pow_self, not32, Option, sub32, merge, if◌then◌else◌, ◌/◌, ◌^◌, update,
  bit_and, bit_or, Bytes, arith,
}
use cen.Mi.{mi_intr_reg, pi}
use cen.Mi.Line.{IsWired, signal-IsWired, clear-IsWired}
use cen.Mi.Pending.{bit-signal, bit-clear}
use cen.Pi.{PiController, DdInterface, pi_status_reg, pi_regs_base_address}
use cen.Pi.Dma.{dma_done, pi_dma_read, pi_dma_write, pi_cycle_}
use cen.Pi.Registers.{pi_status_write, start_dma, write_pi_regs}

other_bits : (bit 3 7 ≡ 0) × (bit 3 4 ≡ 0) × (bit 3 1 ≡ 0)
unfolding bit
other_bits = (refl, refl, refl)

module _ {Dd : Type 0} where
  -- Bit 3 of the status says that the PI's interrupt is pending, and the CPU's line is right.
  pub record IsLinked (s : PiController Dd) : Type 0 where
    pub linked : bit 3 (s.regs pi_status_reg) ≡ bit 4 (s.vr4300.mi_regs mi_intr_reg)
    pub wired : IsWired s.vr4300

  dma_done-IsLinked : (s : PiController Dd) → IsLinked (dma_done s)
  unfolding dma_done
  dma_done-IsLinked s = record {
    linked = omega (
      arith,
      bit-bit_or 3 (bit_and (s.regs pi_status_reg) (not32 1)) 8,
      bit-pow_self 3,
      bit-le 3 (bit_and (s.regs pi_status_reg) (not32 1)),
      bit-signal s.vr4300 pi 4,
      bit-pow_self 4,
      bit-le 4 (s.vr4300.mi_regs mi_intr_reg),
    );
    wired = signal-IsWired s.vr4300 pi;
  }

  status_write-IsLinked :
      (s : PiController Dd) (word : ℕ) → IsLinked s → IsLinked (pi_status_write s word)
  unfolding pi_status_write
  status_write-IsLinked s word l = record {
    linked = ground (
      arith,
      l.linked,
      bit-bit_and 3 (s.regs pi_status_reg) (not32 7),
      bit-bit_and 3 (bit_and (s.regs pi_status_reg) (not32 7)) (not32 8),
      bit-bit_and 3 (s.regs pi_status_reg) (not32 8),
      bit-complement 32 3 7 (omega arith) (omega arith),
      bit-complement 32 3 8 (omega arith) (omega arith),
      bit-pow_self 3,
      other_bits,
      bit-clear s.vr4300 pi 4 (omega arith),
      bit-pow_self 4,
      bit-le 3 (s.regs pi_status_reg),
    );
    wired = ground (arith, l.wired, clear-IsWired s.vr4300 pi);
  }

  -- An update that keeps the interrupt bit and the CPU.
  same_bit :
      (s s' : PiController Dd)
      → IsLinked s
      → bit 3 (s'.regs pi_status_reg) ≡ bit 3 (s.regs pi_status_reg)
      → s'.vr4300 ≡ s.vr4300
      → IsLinked s'
  same_bit s s' l status cpu = record {
    linked = ground (arith, l.linked);
    wired = ground (arith, l.wired);
  }

  start_dma-IsLinked :
      (io : DdInterface Dd) (s : PiController Dd) (reg : ℕ) (reading : Bool)
      → IsLinked s
      → IsLinked (start_dma io s reg reading)
  unfolding start_dma
  start_dma-IsLinked io s reg reading l = ground (
    arith,
    dma_done-IsLinked s,
    same_bit s
        (record s {
          bytes_to_copy = bit_and (s.regs reg) 0xFFFFFF + 1;
          counter = (bit_and (s.regs reg) 0xFFFFFF + 1) / 2 + 100;
          regs = update s.regs pi_status_reg (bit_or (s.regs pi_status_reg) 1);
          is_dma_read = reading;
        })
        l,
    bit-bit_or 3 (s.regs pi_status_reg) 1,
    other_bits,
    bit-le 3 (s.regs pi_status_reg),
  )

  -- A register write of the PI that is defined keeps this: bit 3 of PI_STATUS_REG is the pending
  -- bit of the PI in the MI, and the CPU's line is right.
  pub write_pi_regs-IsLinked :
      (io : DdInterface Dd) (s s' : PiController Dd) (address word dqm : ℕ)
      → IsLinked s
      → write_pi_regs io s address word dqm ≡ some s'
      → IsLinked s'
  unfolding write_pi_regs
  write_pi_regs-IsLinked io s s' address word dqm l e =
      let reg = sub32 address pi_regs_base_address / 2 ^ 2 in
      let merged = record s { regs = update s.regs reg (merge (s.regs reg) word dqm) } in
      ground (
        arith,
        status_write-IsLinked s word l,
        same_bit s s' l,
        same_bit s merged l,
        start_dma-IsLinked io merged reg false,
        start_dma-IsLinked io merged reg true,
        bit-bit_or 3 (s.regs pi_status_reg) 4,
        other_bits,
        bit-le 3 (s.regs pi_status_reg),
      )

  -- If `pi_cycle_` is defined, it keeps the two interrupt bits equal and the CPU's line right, and
  -- no transfer is due after it.
  pub pi_cycle_-IsLinked :
      (io : DdInterface Dd) (junk : Bytes) (s s' : PiController Dd)
      → IsLinked s
      → pi_cycle_ io junk s ≡ some s'
      → (IsLinked s') × (s'.bytes_to_copy ≡ 0)
  unfolding pi_cycle_
  pi_cycle_-IsLinked io junk s s' l e =
      go (if s.is_dma_read then pi_dma_read io s else pi_dma_write io junk s) refl
    where
      go :
          (o : Option (PiController Dd))
          → (if s.is_dma_read then pi_dma_read io s else pi_dma_write io junk s) ≡ o
          → (IsLinked s') × (s'.bytes_to_copy ≡ 0)
      go none p = ground arith
      go (some t) p = ground (
        arith,
        dma_done-IsLinked t,
        same_bit (dma_done t) (record (dma_done t) { bytes_to_copy = 0 }),
      )
