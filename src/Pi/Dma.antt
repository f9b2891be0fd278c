-- ===== src/Pi/Dma.antt =====
-- pi/controller.c: the transfers, and `pi_cycle_`, which carries them out.
use cen.Base.{
  ℕ, zero, suc, ◌+◌, ◌-◌, ◌*◌, ◌/◌, ◌%◌, ◌^◌, Bool, true, false, ◌&&◌, Option, none, some, bit_and,
  bit_or, ltb, leb, ◌==◌, if◌then◌else◌, has, not32, sub32, u32, Bytes, update,
}
use cen.Mi.{pi, signal_rcp_interrupt}
use cen.Ri.{RiController, max_rdram_size}
use cen.Pi.{
  PiController, DdInterface, flashram_write, flashram_reading, flashram_status, flashram_size,
  store_ram, sram_offset, in_sram, pi_rom_fetch, pi_dram_addr_reg, pi_cart_addr_reg, pi_rd_len_reg,
  pi_wr_len_reg, pi_status_reg, pi_status_dma_busy, pi_status_interrupt,
}

-- The transfer is over: status and interrupt.
unfoldable pub dma_done : {Dd : Type 0} → PiController Dd → PiController Dd
dma_done s = record s {
  regs =
      update s.regs pi_status_reg
        (bit_or (bit_and (s.regs pi_status_reg) (not32 pi_status_dma_busy)) pi_status_interrupt);
  vr4300 = signal_rcp_interrupt s.vr4300 pi;
}

module _ {Dd : Type 0} (io : DdInterface Dd) where
  -- RDRAM to SRAM, to the flash chip (which keeps the address for its write command), or nowhere.
  unfoldable pub dma_read_bytes : PiController Dd → ℕ → ℕ → ℕ → Option (PiController Dd)
  unfolding in_sram
  dma_read_bytes s dest source length =
      if leb 0x08000000 dest && ltb dest 0x10000000
      then elim s.sram.ptr [
        | some bytes ↦
            if in_sram s.sram dest length
            then if ltb max_rdram_size (source + length)
              then none
              else some (record s {
                sram = record (s.sram) {
                  ptr = some (λ i.
                      if leb (sram_offset dest) i && ltb i (sram_offset dest + length)
                      then s.ri.ram (source + (i - sram_offset dest))
                      else bytes i);
                };
              })
            else some s
        | none ↦ elim s.flashram.contents [
          | some chip ↦ elim s.flashram.mode [
            | flashram_write ↦
                some (record s { flashram = record (s.flashram) { rdram_pointer = source } })
            | _ ↦ some s
          ]
          | none ↦ some s
        ]
      ]
      else if bit_and source 0x05000000 == 0x05000000
      then some (record s { dd = io.dd_dma_read s.dd s.ri source dest length })
      else some s

  unfoldable pub pi_dma_read : PiController Dd → Option (PiController Dd)
  unfolding dma_read_bytes
  pi_dma_read s =
      let dest = bit_and (s.regs pi_cart_addr_reg) 0xFFFFFFE in
      let source = bit_and (s.regs pi_dram_addr_reg) 0x7FFFFE in
      let whole = bit_and (s.regs pi_rd_len_reg) 0xFFFFFF + 1 in
      let length = if has source 7 then sub32 whole (bit_and source 7) else whole in
      elim (dma_read_bytes s dest source length) [
        | none ↦ none
        | some t ↦ some (record t {
          regs =
              update
                (update (update t.regs pi_rd_len_reg 0x7F) pi_dram_addr_reg
                  (bit_and (u32 (t.regs pi_dram_addr_reg + length + 7)) (not32 7)))
                pi_cart_addr_reg (bit_and (u32 (t.regs pi_cart_addr_reg + length + 1)) (not32 1));
        })
      ]

-- The loop over the blocks of a ROM transfer. The state is the two address registers, RDRAM and
-- the block buffer.
pub record RomLoop : Type 0 where
  pub dram : ℕ
  pub cart : ℕ
  pub ri : RiController
  pub mem : Bytes

pub data RomOutcome : Type 0 where
  finished : RomLoop → RomOutcome
  outside : RomOutcome
  out_of_fuel : RomOutcome

-- The bytes of a block that are fetched, by the alignment of its destination.
abbrev pub block_size : ℕ → ℕ → ℕ
block_size misalign length = if ltb (128 - misalign) length then 128 - misalign else length

-- The bytes of a block that are written back: the first one has the two bugs of the hardware.
abbrev pub written_back : Bool → ℕ → ℕ → ℕ
written_back first misalign cur =
    if first then (if cur + 1 == 128 - misalign then cur + 1 else cur) - misalign else cur

abbrev pub left_after : ℕ → ℕ
left_after length = if length % 2 == 1 then length + 1 else length

-- One block.
unfoldable pub rom_block : Bytes → ℕ → Bool → ℕ → RomLoop → Option RomLoop
unfolding store_ram
rom_block rom rom_size first length s =
    let dest = bit_and s.dram 0x7FFFFE in
    let misalign = bit_and dest 7 in
    let cur = block_size misalign length in
    let fetched = (cur + 1) / 2 * 2 in
    let mem' = pi_rom_fetch rom rom_size (bit_and s.cart 0xFFFFFFE) fetched s.mem in
    let back = written_back first misalign cur in
    elim (store_ram s.ri dest mem' back) [
      | none ↦ none
      | some ri' ↦ some record {
        dram = bit_and (u32 (s.dram + back + 7)) (not32 7);
        cart = u32 (s.cart + fetched);
        ri = ri';
        mem = mem';
      }
    ]

unfoldable pub rom_loop : ℕ → Bytes → ℕ → Bool → ℕ → RomLoop → RomOutcome
unfolding rom_block
rom_loop zero rom rom_size first length s = out_of_fuel
rom_loop (suc fuel) rom rom_size first length s = elim (ltb 0 length) [
  | false ↦ finished s
  | true ↦ elim (rom_block rom rom_size first length s) [
    | none ↦ outside
    | some s' ↦
        rom_loop fuel rom rom_size false
          (left_after (length - block_size (bit_and (bit_and s.dram 0x7FFFFE) 7) length)) s'
  ]
]

module _ {Dd : Type 0} (io : DdInterface Dd) where
  -- The transfer from ROM. No block shrinks to nothing, so `length + 1` turns are enough.
  unfoldable pub dma_write_rom : Bytes → Bytes → ℕ → PiController Dd → Option (PiController Dd)
  dma_write_rom junk rom length s =
      let regs' =
        update s.regs pi_wr_len_reg
          (if leb length 8 then 0x7F - bit_and (s.regs pi_dram_addr_reg) 7 else 0x7F) in
      elim (rom_loop (length + 1) rom s.rom_size true length record {
        dram = s.regs pi_dram_addr_reg;
        cart = s.regs pi_cart_addr_reg;
        ri = s.ri;
        mem = junk;
      }) [
        | finished t ↦ some (record s {
          ri = t.ri;
          regs = update (update regs' pi_dram_addr_reg t.dram) pi_cart_addr_reg t.cart;
        })
        | outside ↦ none
        | out_of_fuel ↦ none
      ]

  -- SRAM or the flash chip to RDRAM.
  unfoldable pub dma_write_save : ℕ → ℕ → ℕ → PiController Dd → Option (PiController Dd)
  unfolding in_sram
  dma_write_save dest source length s =
      let stored : Option RiController = elim s.sram.ptr [
        | some bytes ↦
            if in_sram s.sram source length
            then store_ram s.ri dest (λ i. bytes (sram_offset source + i)) length
            else some s.ri
        | none ↦ elim s.flashram.contents [
          | some chip ↦ elim s.flashram.mode [
            | flashram_status ↦
                store_ram s.ri dest (λ i. s.flashram.status / 2 ^ (56 - 8 * i) % 256) 8
            | flashram_reading ↦
                if ltb flashram_size (bit_and source 0x1FFFF * 2 + length)
                then none
                else store_ram s.ri dest (λ i. chip (bit_and source 0x1FFFF * 2 + i)) length
            | _ ↦ some s.ri
          ]
          | none ↦ some s.ri
        ]
      ] in
      elim stored [ none ↦ none | some ri' ↦ some (record s { ri = ri' }) ]

  -- `junk` is what the block buffer holds before it is written.
  unfoldable pub pi_dma_write : Bytes → PiController Dd → Option (PiController Dd)
  unfolding dma_write_save dma_write_rom
  pi_dma_write junk s =
      let dest = bit_and (s.regs pi_dram_addr_reg) 0x7FFFFE in
      let source = bit_and (s.regs pi_cart_addr_reg) 0xFFFFFFE in
      let length = bit_and (s.regs pi_wr_len_reg) 0xFFFFFF + 1 in
      let rest =
        if bit_and source 0x05000000 == 0x05000000
        then some (record s {
          dd = (io.dd_dma_write s.dd s.ri source dest length).0;
          ri = (io.dd_dma_write s.dd s.ri source dest length).1;
        })
        else if leb 0x08000000 source && ltb source 0x10000000
        then dma_write_save dest source length s
        else if leb 0x18000000 source && ltb source 0x18400000
        then some s
        else elim s.rom [ none ↦ some s | some rom ↦ dma_write_rom junk rom length s ] in
      elim (io.ipl_rom s.dd) [
        | none ↦ rest
        | some ipl ↦
            if bit_and source 0x06000000 == 0x06000000
            then (let from = bit_and source 0x3FFFFF in
                let l = if ltb 0x3FFFFF (from + length) then 0x3FFFFF - from else length in
                elim (store_ram s.ri dest (λ i. ipl (from + i)) l) [
                  | none ↦ none
                  | some ri' ↦ some (record s { ri = ri' })
                ])
            else rest
      ]

  -- When the counter has run out.
  unfoldable pub pi_cycle_ : Bytes → PiController Dd → Option (PiController Dd)
  unfolding dma_done pi_dma_read pi_dma_write
  pi_cycle_ junk s =
      if ltb 0 s.bytes_to_copy
      then elim (if s.is_dma_read then pi_dma_read io s else pi_dma_write junk s) [
        | none ↦ none
        | some t ↦ some (record (dma_done t) { bytes_to_copy = 0 })
      ]
      else some s
