-- ===== src/Ai/Tests.antt =====
-- The theorems on the audio FIFO at concrete states.
use mathlib.Core.Option.{get_or}
use cen.Base.{ℕ, ◌*◌, ◌≡◌, refl, true, some, bit_and, arith}
use cen.Ai.{AiController, Host, FifoEntry, ai_cycle_, write_ai_len, write_ai_regs}
use cen.Ai.Fifo.{
  IsFifo, queue, served, offered, ai_cycle_-queue, write_ai_len-queue, write_ai_regs-IsFifo,
}

-- A host that never gives a buffer back.
abbrev silent : Host ℕ
silent = record {
  buffers_processed = λ al. 0;
  unqueue_buffers = λ al n. (λ i. 0, al);
  generate = λ al. (λ i. i, al);
  queue_buffer = λ al buffer bytes length freq. al;
  playing = λ al. true;
  play = λ al. al;
  delay = λ freq samples. 2000 * samples;
}

abbrev unused : FifoEntry
unused = record { address = 0; length = 0 }

abbrev quiet : AiController ℕ
quiet = record {
  vr4300 = record { mi_regs = λ i. 0; cause = 0 };
  ri = record { rdram_regs = λ i. 0; regs = λ i. 0; ram = λ i. 0 };
  regs = λ i. 0;
  ctx = record { buffers = λ i. i; unqueued_buffers = 3; cur_frequency = 0; frequency = 0; al = 0 };
  counter = 0;
  fifo_count = 0;
  fifo_wi = 0;
  fifo_ri = 0;
  fifo = λ i. unused;
  no_output = true;
}

quiet-IsFifo : IsFifo silent quiet
quiet-IsFifo = record {
  count_fits = omega arith;
  ri_fits = omega arith;
  wi_follows = refl;
  status_agrees = refl;
}

-- A buffer of 0x100 bytes is offered, and then its interrupt comes.
abbrev busy : AiController ℕ
busy = get_or (write_ai_len silent quiet 0x100) quiet

busy_lem : write_ai_len silent quiet 0x100 ≡ some busy
unfolding write_ai_len
busy_lem = refl

write_ai_len-queue_example :
    (IsFifo silent busy)
    × (queue silent busy
        ≡ offered silent
            (record { address = 0; length = bit_and 0x100 0x3FFF8 })
            (queue silent quiet))
write_ai_len-queue_example = write_ai_len-queue silent quiet busy 0x100 quiet-IsFifo busy_lem

write_ai_regs_lem : write_ai_regs silent quiet 0x04500004 0x100 ≡ some busy
unfolding write_ai_regs
write_ai_regs_lem = busy_lem

write_ai_regs-IsFifo_example : IsFifo silent busy
write_ai_regs-IsFifo_example =
    write_ai_regs-IsFifo silent quiet busy 0x04500004 0x100 quiet-IsFifo write_ai_regs_lem

abbrev over : AiController ℕ
over = get_or (ai_cycle_ silent busy) busy

over_lem : ai_cycle_ silent busy ≡ some over
unfolding ai_cycle_ write_ai_len
over_lem = refl

ai_cycle_-queue_example :
    (IsFifo silent over) × (queue silent over ≡ served silent (queue silent busy))
ai_cycle_-queue_example =
    ai_cycle_-queue silent busy over
      (write_ai_regs-IsFifo silent quiet busy 0x04500004 0x100 quiet-IsFifo write_ai_regs_lem)
      over_lem
