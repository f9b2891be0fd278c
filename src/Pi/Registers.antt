-- ===== src/Pi/Registers.antt =====
-- pi/controller.c: the registers of the PI. A write to a length register starts a transfer, which
-- `pi_cycle_` carries out when the counter has run out.
use cen.Base.{
  ℕ, ◌+◌, ◌/◌, Bool, true, false, not, Option, none, some, bit_and, bit_or, ltb, ◌==◌,
  if◌then◌else◌, has, not32, sub32, ◌>>>◌, Bytes, update, merge,
}
use cen.Mi.{pi, clear_rcp_interrupt}
use cen.Pi.{
  PiController, DdInterface, SaveFile, pi_dram_addr_reg, pi_cart_addr_reg, pi_rd_len_reg,
  pi_wr_len_reg, pi_status_reg, num_pi_registers, pi_regs_base_address, pi_status_dma_busy,
  pi_status_error, pi_status_interrupt, pi_status_is_busy,
}
use cen.Pi.Dma.{dma_done}

unfoldable pub pi_init :
    {Dd : Type 0} → PiController Dd → Option Bytes → ℕ → SaveFile → Option Bytes → PiController Dd
pi_init s rom rom_size sram flashram = record s {
  rom = rom;
  rom_size = rom_size;
  sram = sram;
  flashram = record (s.flashram) { contents = flashram };
  regs = update (update s.regs pi_rd_len_reg 0x7F) pi_wr_len_reg 0x7F;
  bytes_to_copy = 0;
}

unfoldable pub read_pi_regs : {Dd : Type 0} → PiController Dd → ℕ → Option ℕ
read_pi_regs s address =
    let reg = sub32 address pi_regs_base_address >>> 2 in
    if ltb reg num_pi_registers then some (s.regs reg) else none

unfoldable pub pi_status_write : {Dd : Type 0} → PiController Dd → ℕ → PiController Dd
pi_status_write s word =
    let s1 =
      if has word 1
      then record s {
        regs =
            update s.regs pi_status_reg
              (bit_and (s.regs pi_status_reg) (not32 (bit_or pi_status_is_busy pi_status_error)));
      }
      else s in
    if has word 2
    then record s1 {
      vr4300 = clear_rcp_interrupt s1.vr4300 pi;
      regs =
          update s1.regs pi_status_reg
            (bit_and (s1.regs pi_status_reg) (not32 pi_status_interrupt));
    }
    else s1

module _ {Dd : Type 0} (io : DdInterface Dd) where
  -- The transfer of the length that was written, read or write, is due after the counter.
  unfoldable pub start_dma : PiController Dd → ℕ → Bool → PiController Dd
  unfolding dma_done
  start_dma s reg reading =
      if s.regs pi_dram_addr_reg == 0xFFFFFFFF
      then dma_done s
      else (let bytes = bit_and (s.regs reg) 0xFFFFFF + 1 in
          record s {
            bytes_to_copy = bytes;
            counter = bytes / 2 + 100;
            regs = update s.regs pi_status_reg (bit_or (s.regs pi_status_reg) pi_status_dma_busy);
            is_dma_read = reading;
          })

  unfoldable pub write_pi_regs : PiController Dd → ℕ → ℕ → ℕ → Option (PiController Dd)
  unfolding pi_status_write start_dma
  write_pi_regs s address word dqm =
      let reg = sub32 address pi_regs_base_address >>> 2 in
      if reg == pi_status_reg
      then some (pi_status_write s word)
      else if has (s.regs pi_status_reg) pi_status_is_busy
      then some (record s {
        regs = update s.regs pi_status_reg (bit_or (s.regs pi_status_reg) pi_status_error);
      })
      else if not (ltb reg num_pi_registers)
      then none
      else (let written = merge (s.regs reg) word dqm in
          let s' = record s { regs = update s.regs reg written } in
          if reg == pi_dram_addr_reg
          then some (record s { regs = update s.regs reg (bit_and written 0x00FFFFFE) })
          else if reg == pi_cart_addr_reg
          then some (record s {
            regs = update s.regs reg (bit_and written 0xFFFFFFFE);
            dd = io.dd_pi_write s.dd word;
          })
          else if reg == pi_wr_len_reg
          then some (start_dma s' reg false)
          else if reg == pi_rd_len_reg
          then some (start_dma s' reg true)
          else some s')
