-- ===== src/Ai.antt =====
-- ai/controller.c, ai/controller.h and ai/context.c: the audio interface. Its DMA engine takes
-- buffers from a FIFO of two entries and hands them to OpenAL, which is a parameter.
pub mod Fifo
pub mod Tests
use cen.Base.{
  ℕ, zero, suc, ◌+◌, ◌-◌, ◌*◌, ◌/◌, ◌%◌, ◌^◌, Bool, true, false, not, ◌&&◌, ◌||◌, Option, none,
  some, bit_and, bit_or, bit_xor, ltb, leb, ◌==◌, if◌then◌else◌, has, not32, sub32, ◌>>>◌, Bytes,
  update,
}
use cen.Mi.{Vr4300, ai, signal_rcp_interrupt, clear_rcp_interrupt}
use cen.Ri.{RiController, max_rdram_size}

-- Indices into `regs`.
abbrev pub ai_dram_addr_reg : ℕ
ai_dram_addr_reg = 0

abbrev pub ai_len_reg : ℕ
ai_len_reg = 1

abbrev pub ai_status_reg : ℕ
ai_status_reg = 3

abbrev pub ai_dacrate_reg : ℕ
ai_dacrate_reg = 4

abbrev pub ai_bitrate_reg : ℕ
ai_bitrate_reg = 5

abbrev pub num_ai_registers : ℕ
num_ai_registers = 6

abbrev pub ai_regs_base_address : ℕ
ai_regs_base_address = 0x04500000

abbrev pub ai_regs_address_len : ℕ
ai_regs_address_len = 0x18

abbrev pub ntsc_dac_freq : ℕ
ntsc_dac_freq = 48681812

-- struct ai_fifo_entry.
pub record FifoEntry : Type 0 where
  pub address : ℕ
  pub length : ℕ

-- struct cen64_ai_context; `al` is the state of OpenAL behind its handles.
pub record Context (Al : Type 0) : Type 0 where
  pub buffers : ℕ → ℕ
  pub unqueued_buffers : ℕ
  pub cur_frequency : ℕ
  pub frequency : ℕ
  pub al : Al

-- What the controller calls of OpenAL, with the delays that it computes in floating point:
-- `delay freq samples` is `(62500000.0 / freq) * samples` as a 64-bit integer.
pub record Host (Al : Type 0) : Type 0 where
  pub buffers_processed : Al → ℕ
  pub unqueue_buffers : Al → ℕ → (ℕ → ℕ) × Al
  pub generate : Al → (ℕ → ℕ) × Al
  pub queue_buffer : Al → ℕ → Bytes → ℕ → ℕ → Al
  pub playing : Al → Bool
  pub play : Al → Al
  pub delay : ℕ → ℕ → ℕ

-- struct ai_controller, with the parts of the CPU and of RDRAM that it reaches through the bus.
pub record AiController (Al : Type 0) : Type 0 where
  pub vr4300 : Vr4300
  pub ri : RiController
  pub regs : ℕ → ℕ
  pub ctx : Context Al
  pub counter : ℕ
  pub fifo_count : ℕ
  pub fifo_wi : ℕ
  pub fifo_ri : ℕ
  pub fifo : ℕ → FifoEntry
  pub no_output : Bool

-- Stereo samples of 16 bits, from big to little endian: byte i of the output.
unfoldable pub byteswap_audio_buffer : Bytes → ℕ → Bytes
byteswap_audio_buffer input length i =
    if ltb i (length / 2 * 2) then (if i % 2 == 0 then input (i + 1) else input (i - 1)) else 0

module _ {Al : Type 0} (host : Host Al) where
  -- New buffers and a new source, for another frequency.
  unfoldable pub ai_switch_frequency : Context Al → ℕ → Context Al
  ai_switch_frequency ctx freq =
      let fresh = host.generate ctx.al in
      record ctx { buffers = fresh.0; al = fresh.1; cur_frequency = freq; unqueued_buffers = 3 }

  -- The change of frequency, and the buffers that OpenAL gives back: with more than three of them
  -- the call writes past the end of `buffers`.
  unfoldable pub reclaim : Context Al → ℕ → Option (Context Al)
  unfolding ai_switch_frequency
  reclaim ctx freq =
      let val = host.buffers_processed ctx.al in
      let c =
        if not (ctx.cur_frequency == freq) && (val == 0)
        then ai_switch_frequency ctx freq
        else ctx in
      if val == 0
      then some c
      else if ltb 3 (c.unqueued_buffers + val)
      then none
      else (let got = host.unqueue_buffers c.al val in
          some (record c {
            buffers = λ i.
                if leb c.unqueued_buffers i && ltb i (c.unqueued_buffers + val)
                then got.0 (i - c.unqueued_buffers)
                else c.buffers i;
            unqueued_buffers = c.unqueued_buffers + val;
            al = got.1;
          }))

  -- The delay of the interrupt, by the number of buffers that are free.
  unfoldable pub delay_of : ℕ → ℕ → ℕ → ℕ → ℕ
  delay_of free freq samples old =
      if leb free 1
      then host.delay freq samples
      else if free == 2
      then host.delay freq (sub32 samples 10)
      else if free == 3
      then 1
      else old

  -- Queues a buffer with the bytes of RDRAM, if one is free, and starts the source. Bytes past
  -- the end of RDRAM are not there to be read.
  unfoldable pub enqueue : Context Al → Bytes → FifoEntry → ℕ → Option (Context Al)
  unfolding byteswap_audio_buffer
  enqueue ctx ram entry freq =
      if ctx.unqueued_buffers == 0
      then some (record ctx { al = if host.playing ctx.al then ctx.al else host.play ctx.al })
      else if ltb max_rdram_size (entry.address + entry.length) || ltb 3 ctx.unqueued_buffers
      then none
      else (let left = ctx.unqueued_buffers - 1 in
          let al' =
            host.queue_buffer ctx.al (ctx.buffers left)
              (byteswap_audio_buffer (λ i. ram (entry.address + i)) entry.length) entry.length
              freq in
          some (record ctx {
            unqueued_buffers = left;
            al = if host.playing al' then al' else host.play al';
          }))

  -- One entry is done: the interrupt, and the next entry.
  unfoldable pub retire : AiController Al → AiController Al
  retire s = record s {
    vr4300 = signal_rcp_interrupt s.vr4300 ai;
    fifo_ri = bit_xor s.fifo_ri 1;
    regs = update s.regs ai_status_reg (bit_and (s.regs ai_status_reg) (not32 0xC0000001));
    fifo_count = s.fifo_count - 1;
  }

  unfoldable pub ai_dma : AiController Al → Option (AiController Al)
  unfolding reclaim delay_of enqueue retire
  ai_dma s =
      let entry = s.fifo s.fifo_ri in
      if ltb 0 entry.length
      then (let freq = ntsc_dac_freq / (s.regs ai_dacrate_reg + 1) in
          let samples = entry.length / 4 in
          if s.no_output
          then some (record s { counter = host.delay freq samples })
          else elim (reclaim s.ctx freq) [
            | none ↦ none
            | some c ↦ elim (enqueue c s.ri.ram entry freq) [
              | none ↦ none
              | some c' ↦ some (record s {
                ctx = c';
                counter = delay_of c.unqueued_buffers freq samples s.counter;
              })
            ]
          ])
      else (let r = retire s in
          if ltb 0 r.fifo_count
          then some (record r {
            regs = update r.regs ai_status_reg (bit_or (r.regs ai_status_reg) 0x40000000);
            counter = 1;
          })
          else some r)

  -- When the counter has run out.
  unfoldable pub ai_cycle_ : AiController Al → Option (AiController Al)
  unfolding ai_dma retire
  ai_cycle_ s =
      if ltb 0 s.fifo_count
      then (let r = retire s in
          if ltb 0 r.fifo_count
          then ai_dma (record r { regs = update r.regs ai_status_reg 0x40000000 })
          else some r)
      else some s

  unfoldable pub ai_cycle : AiController Al → Option (AiController Al)
  unfolding ai_cycle_
  ai_cycle s =
      let s' = record s { counter = (s.counter + 2 ^ 64 - 1) % 2 ^ 64 } in
      if s.counter == 0 then ai_cycle_ s' else some s'

  unfoldable pub read_ai_regs : AiController Al → ℕ → Option ℕ
  read_ai_regs s address =
      let reg = sub32 address ai_regs_base_address >>> 2 in
      if ltb reg num_ai_registers
      then some (
          if reg == ai_len_reg
          then (if has (s.regs ai_status_reg) 0x80000001 then s.regs ai_len_reg else 0)
          else s.regs reg)
      else none

  -- Puts the address and the length that were written at the end of the FIFO.
  unfoldable pub push_entry : AiController Al → AiController Al
  push_entry s =
      let count = s.fifo_count + 1 in
      record s {
        fifo = λ i.
            if i == s.fifo_wi
            then record { address = s.regs ai_dram_addr_reg; length = s.regs ai_len_reg }
            else s.fifo i;
        fifo_wi = bit_xor s.fifo_wi 1;
        fifo_count = count;
        regs =
            if count == 2
            then update s.regs ai_status_reg (bit_or (s.regs ai_status_reg) 0x80000001)
            else s.regs;
      }

  unfoldable pub write_ai_len : AiController Al → ℕ → Option (AiController Al)
  unfolding push_entry ai_dma
  write_ai_len s word =
      let s' = record s { regs = update s.regs ai_len_reg (bit_and word 0x3FFF8) } in
      if s'.fifo_count == 2
      then some s'
      else (let p = push_entry s' in
          if has (p.regs ai_status_reg) 0x40000000
          then some p
          else ai_dma (record p { regs = update p.regs ai_status_reg 0x40000000 }))

  unfoldable pub write_ai_regs : AiController Al → ℕ → ℕ → Option (AiController Al)
  unfolding write_ai_len
  write_ai_regs s address word =
      let reg = sub32 address ai_regs_base_address >>> 2 in
      if reg == ai_dram_addr_reg
      then some (record s { regs = update s.regs ai_dram_addr_reg (bit_and word 0xFFFFF8) })
      else if reg == ai_len_reg
      then write_ai_len s word
      else if reg == ai_status_reg
      then some (record s { vr4300 = clear_rcp_interrupt s.vr4300 ai })
      else if reg == ai_dacrate_reg
      then some (record s {
        regs = update s.regs ai_dacrate_reg (bit_and word 0x3FFF);
        ctx = record (s.ctx) { frequency = ntsc_dac_freq / (bit_and word 0x3FFF + 1) };
      })
      else if reg == ai_bitrate_reg
      then some (record s { regs = update s.regs ai_bitrate_reg (bit_and word 0xF) })
      else if ltb reg num_ai_registers
      then some (record s { regs = update s.regs reg word })
      else none
