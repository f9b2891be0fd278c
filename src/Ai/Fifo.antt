-- ===== src/Ai/Fifo.antt =====
-- The FIFO of the audio interface: its counters, and the busy bits of the status register.
use cen.Base.{
  true, none, Option-cases, ◌≢◌, List, [], ◌∷◌, ℕ, zero, suc, ◌+◌, ◌-◌, ◌%◌, ◌≤◌, ◌<◌, ◌≡◌, refl,
  some, bit_and, bit_xor, ltb, ◌==◌, Bool-cases, inl, inr, if◌then◌else◌, has, not32, update, arith,
}
use cen.Ai.{
  AiController, Host, FifoEntry, ai_status_reg, ai_len_reg, ai_dram_addr_reg, retire, push_entry,
  ai_dma, ai_cycle_, write_ai_len, write_ai_regs,
}

-- The status says how many entries there are: bit 30 for one, with bits 31 and 0 for two.
abbrev pub status_of : ℕ → ℕ
status_of n = if n == 0 then 0 else if n == 1 then 0x40000000 else 0xC0000001

module _ {Al : Type 0} (host : Host Al) where
  pub record IsFifo (s : AiController Al) : Type 0 where
    pub count_fits : s.fifo_count ≤ 2
    pub ri_fits : s.fifo_ri < 2
    pub wi_follows : s.fifo_wi ≡ (s.fifo_ri + s.fifo_count) % 2
    pub status_agrees : s.regs ai_status_reg ≡ status_of s.fifo_count

  -- What OpenAL does with an entry does not touch the FIFO or the status.
  dma_sent :
      (s s' : AiController Al)
      → 0 < (s.fifo s.fifo_ri).length
      → ai_dma host s ≡ some s'
      → (s'.fifo ≡ s.fifo)
        × (s'.regs ≡ s.regs)
        × (s'.fifo_count ≡ s.fifo_count)
        × (s'.fifo_ri ≡ s.fifo_ri)
        × (s'.fifo_wi ≡ s.fifo_wi)
  unfolding ai_dma
  dma_sent s s' h e = ground arith

  flip : (x : ℕ) → x < 2 → bit_xor x 1 ≡ 1 - x
  flip zero h = refl
  flip (suc zero) h = refl
  flip (suc (suc x)) h = absurd (omega arith)

  busy : (n : ℕ) → n ≤ 2 → bit_and (status_of n) (not32 0xC0000001) ≡ 0
  busy zero h = refl
  busy (suc zero) h = refl
  busy (suc (suc zero)) h = refl
  busy (suc (suc (suc n))) h = absurd (omega arith)

  busy_bit : (n : ℕ) → n ≤ 2 → has (status_of n) 0x40000000 ≡ ltb 0 n
  busy_bit zero h = refl
  busy_bit (suc zero) h = refl
  busy_bit (suc (suc zero)) h = refl
  busy_bit (suc (suc (suc n))) h = absurd (omega arith)

  -- The entries that are waiting, the current one first.
  unfoldable pub queue : AiController Al → List FifoEntry
  queue s =
      if s.fifo_count == 0
      then []
      else if s.fifo_count == 1
      then s.fifo s.fifo_ri ∷ []
      else s.fifo s.fifo_ri ∷ s.fifo (bit_xor s.fifo_ri 1) ∷ []

  -- An entry of no length is dropped when it is started.
  abbrev pub started : FifoEntry → List FifoEntry
  started entry = if ltb 0 entry.length then entry ∷ [] else []

  -- A transfer is started when there is one entry.
  dma_one :
      (s s' : AiController Al)
      → s.fifo_count ≡ 1
      → s.fifo_ri < 2
      → s.fifo_wi ≡ (s.fifo_ri + 1) % 2
      → s.regs ai_status_reg ≡ 0x40000000
      → ai_dma host s ≡ some s'
      → (IsFifo s') × (queue s' ≡ started (s.fifo s.fifo_ri))
  unfolding ai_dma queue
  dma_one s s' one ri wi status e = elim (Bool-cases (ltb 0 (s.fifo s.fifo_ri).length)) [
    | inl sent ↦ (
      record {
        count_fits = ground (arith, dma_sent s s');
        ri_fits = ground (arith, dma_sent s s');
        wi_follows = ground (arith, dma_sent s s');
        status_agrees = ground (arith, dma_sent s s');
      },
      ground (arith, dma_sent s s'),
    )
    | inr empty ↦ (
      record {
        count_fits = ground arith;
        ri_fits = ground (arith, flip s.fifo_ri ri);
        wi_follows = ground (arith, flip s.fifo_ri ri);
        status_agrees = ground (arith, busy 1 (omega arith));
      },
      ground arith,
    )
  ]

  -- The queue after an interrupt, and after a length is written.
  pub served : List FifoEntry → List FifoEntry
  served [] = []
  served (x ∷ []) = []
  served (x ∷ y ∷ rest) = started y

  pub offered : FifoEntry → List FifoEntry → List FifoEntry
  offered e [] = started e
  offered e (x ∷ []) = x ∷ e ∷ []
  offered e (x ∷ y ∷ rest) = x ∷ y ∷ rest

  next_started : AiController Al → AiController Al
  next_started s = record (retire host s) {
    regs = update (retire host s).regs ai_status_reg 0x40000000;
  }

  cycle_count :
      (s s' : AiController Al) (n : ℕ)
      → s.fifo_count ≡ n
      → IsFifo s
      → ai_cycle_ host s ≡ some s'
      → (IsFifo s') × (queue s' ≡ served (queue s))
  unfolding ai_cycle_ retire next_started queue served
  cycle_count s s' zero z f e = (ground arith, ground arith)
  cycle_count s s' (suc zero) z f e = (
    record {
      count_fits = ground arith;
      ri_fits = ground (arith, flip s.fifo_ri f.ri_fits);
      wi_follows = ground (arith, flip s.fifo_ri f.ri_fits);
      status_agrees = ground (arith, busy 1 (omega arith));
    },
    ground arith,
  )
  cycle_count s s' (suc (suc zero)) z f e =
      ground (arith, flip s.fifo_ri f.ri_fits, dma_one (next_started s) s')
  cycle_count s s' (suc (suc (suc n))) z f e = absurd (omega (arith, f.count_fits))

  -- If the FIFO and the status are in step and `ai_cycle_` is defined, they are in step after it,
  -- and the queue has lost its first entry; the next entry is started and stays unless its length
  -- is 0.
  pub ai_cycle_-queue :
      (s s' : AiController Al)
      → IsFifo s
      → ai_cycle_ host s ≡ some s'
      → (IsFifo s') × (queue s' ≡ served (queue s))
  ai_cycle_-queue s s' f e = cycle_count s s' s.fifo_count refl f e

  pushed : AiController Al → ℕ → AiController Al
  pushed s word =
      push_entry host (record s { regs = update s.regs ai_len_reg (bit_and word 0x3FFF8) })

  write_count :
      (s s' : AiController Al) (word n : ℕ)
      → s.fifo_count ≡ n
      → IsFifo s
      → write_ai_len host s word ≡ some s'
      → (IsFifo s')
        × (queue s'
            ≡ offered
                (record { address = s.regs ai_dram_addr_reg; length = bit_and word 0x3FFF8 })
                (queue s))
  unfolding write_ai_len push_entry pushed queue offered
  write_count s s' word zero z f e = ground (
    arith,
    flip s.fifo_ri f.ri_fits,
    flip s.fifo_wi,
    dma_one (record (pushed s word) { regs = update (pushed s word).regs ai_status_reg 0x40000000 })
        s',
  )
  write_count s s' word (suc zero) z f e = (
    record {
      count_fits = ground arith;
      ri_fits = ground (arith, flip s.fifo_ri f.ri_fits);
      wi_follows = ground (arith, flip s.fifo_wi, f.ri_fits);
      status_agrees = ground arith;
    },
    ground (arith, flip s.fifo_ri f.ri_fits),
  )
  write_count s s' word (suc (suc zero)) z f e = (
    record {
      count_fits = ground arith;
      ri_fits = ground (arith, f.ri_fits);
      wi_follows = ground (arith, f.wi_follows);
      status_agrees = ground (arith, f.status_agrees);
    },
    ground arith,
  )
  write_count s s' word (suc (suc (suc n))) z f e = absurd (omega (arith, f.count_fits))

  -- If the FIFO and the status are in step and the write of a length is defined, they are in step
  -- after it. The entry of the address register and the masked length is at the end of the queue,
  -- unless the queue was full; an entry that is started at once stays unless its length is 0.
  pub write_ai_len-queue :
      (s s' : AiController Al) (word : ℕ)
      → IsFifo s
      → write_ai_len host s word ≡ some s'
      → (IsFifo s')
        × (queue s'
            ≡ offered
                (record { address = s.regs ai_dram_addr_reg; length = bit_and word 0x3FFF8 })
                (queue s))
  write_ai_len-queue s s' word f e = write_count s s' word s.fifo_count refl f e

  -- An update of another part of the controller.
  same-IsFifo :
      (s s' : AiController Al)
      → IsFifo s
      → s'.fifo_count ≡ s.fifo_count
      → s'.fifo_ri ≡ s.fifo_ri
      → s'.fifo_wi ≡ s.fifo_wi
      → s'.regs ai_status_reg ≡ s.regs ai_status_reg
      → IsFifo s'
  same-IsFifo s s' f count ri wi status = record {
    count_fits = omega (arith, f.count_fits);
    ri_fits = omega (arith, f.ri_fits);
    wi_follows = ground (arith, f.wi_follows);
    status_agrees = ground (arith, f.status_agrees);
  }

  -- A register write of the AI that is defined keeps the FIFO and the status in step.
  pub write_ai_regs-IsFifo :
      (s s' : AiController Al) (address word : ℕ)
      → IsFifo s
      → write_ai_regs host s address word ≡ some s'
      → IsFifo s'
  unfolding write_ai_regs
  write_ai_regs-IsFifo s s' address word f e = ground (
    arith,
    same-IsFifo s s' f,
    λ (h : write_ai_len host s word ≡ some s'). (write_ai_len-queue s s' word f h).0,
  )

  dma_returns : (s : AiController Al) → s.no_output ≡ true → ai_dma host s ≢ none
  unfolding ai_dma
  dma_returns s silent e = ground arith

  -- Without sound output an interrupt and the write of a length are always defined.
  pub no_output_returns :
      (s : AiController Al) (word : ℕ)
      → s.no_output ≡ true
      → ((s' : AiController Al) × (ai_cycle_ host s ≡ some s'))
        × ((s' : AiController Al) × (write_ai_len host s word ≡ some s'))
  unfolding ai_cycle_ write_ai_len push_entry retire ai_dma next_started pushed
  no_output_returns s word silent = (
    elim (Option-cases (ai_cycle_ host s)) [
      | inr found ↦ found
      | inl e ↦ absurd (ground (arith, dma_returns (next_started s) silent))
    ],
    elim (Option-cases (write_ai_len host s word)) [
      | inr found ↦ found
      | inl e ↦ absurd (
          ground (
            arith,
            dma_returns
                (record (pushed s word) {
                  regs = update (pushed s word).regs ai_status_reg 0x40000000;
                })
                silent,
          ))
    ],
  )
