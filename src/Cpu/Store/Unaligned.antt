-- ===== src/Cpu/Store/Unaligned.antt =====
-- SWL and SWR with the bus and RDRAM: together they store a register across two words.
use cen.Base.{
  ℕ, ◌+◌, ◌-◌, ◌*◌, ◌/◌, ◌%◌, ◌^◌, ◌≤◌, ◌<◌, ◌≡◌, refl, ◌∙◌, ap, sym, Option, none, some, bit_and,
  bit_and_high, bit_and-le_left, sub32, lt→ltb, u32, not32, merge, load_be, IsBytes, arith,
}
use cen.Bus.{Handler}
use cen.Bus.Map.{MemoryMap}
use cen.Bus.Access.{bus_write_word}
use cen.Ri.{RiController, read_rdram, write_rdram, max_rdram_size, rdram_base_address}
use cen.Ri.Memory.{load_be-lt, read-write_rdram, read-write_rdram_far}
use cen.Cpu.State.{BusRequest, access_word}
use cen.Cpu.Store.{dcm_write}
use cen.Cpu.Store.Merge.{merge_low, merge_high}

read_word :
    (ri : RiController) (address : ℕ)
    → address + 4 ≤ 0x00800000
    → read_rdram ri address ≡ some (load_be ri.ram address)
unfolding read_rdram
read_word ri address h =
    let at : sub32 address rdram_base_address ≡ address = omega arith in
    rw (at, lt→ltb (address + 3) max_rdram_size (omega arith)) refl

word_of : Option ℕ → ℕ
word_of none = 0
word_of (some w) = w

-- A write of one word leaves the next.
next_word :
    (ri ri' : RiController) (q word dqm : ℕ)
    → q + 8 ≤ 0x00800000
    → write_rdram ri q word dqm ≡ some ri'
    → load_be ri'.ram (q + 4) ≡ load_be ri.ram (q + 4)
unfolding word_of
next_word ri ri' q word dqm h written = ap word_of (
    sym (read_word ri' (q + 4) (omega arith))
    ∙ read-write_rdram_far ri ri' q (q + 4) word dqm (omega arith) (omega arith) (omega arith)
        written
    ∙ read_word ri (q + 4) (omega arith))

module _ (m : MemoryMap Handler)
    (on_write : Handler → RiController → ℕ → ℕ → ℕ → Option RiController) where
  -- A write of the processor on a bus whose RDRAM is `ri`.
  abbrev pub store : RiController → BusRequest → ℕ → Option RiController
  store = dcm_write (bus_write_word write_rdram on_write m)

  store_lem :
      (ri : RiController) (r : BusRequest) (q j : ℕ)
      → r.access_type ≡ access_word
      → q % 4 ≡ 0
      → j < 4
      → q + 4 ≤ 0x00800000
      → store ri r (q + j) ≡ write_rdram ri q (bit_and (u32 r.data_mask) (u32 r.wdqm)) (u32 r.wdqm)
  unfolding dcm_write bus_write_word
  store_lem ri r q j word aligned within inside =
      let at : bit_and (q + j) (not32 0x3) ≡ q =
        bit_and_high 32 2 (q + j) (omega arith) (omega arith) ∙ omega arith in
      rw (word, at, lt→ltb q 0x00800000 (omega arith)) refl

  -- Two stores next to each other, the first under a mask of low bits and the second under one of
  -- high bits.
  pub pair :
      (ri : RiController) (r r' : BusRequest) (q j j' n : ℕ)
      → IsBytes ri.ram
      → q % 4 ≡ 0
      → j < 4
      → j' < 4
      → q + 8 ≤ 0x00800000
      → n ≤ 32
      → r.access_type ≡ access_word
      → r'.access_type ≡ access_word
      → u32 r.wdqm ≡ 2 ^ n - 1
      → u32 r'.wdqm ≡ 2 ^ 32 - 2 ^ n
      → (ri1 : RiController) × (ri2 : RiController) × (store ri r (q + j) ≡ some ri1)
        × (store ri1 r' (q + 4 + j') ≡ some ri2)
        × (read_rdram ri2 q ≡ some (load_be ri.ram q / 2 ^ n * 2 ^ n + u32 r.data_mask % 2 ^ n))
        × (read_rdram ri2 (q + 4)
            ≡ some (u32 r'.data_mask / 2 ^ n * 2 ^ n + load_be ri.ram (q + 4) % 2 ^ n))
  pair ri r r' q j j' n bytes aligned hj hj' inside hn word word' low high =
      let first =
        read-write_rdram ri q (bit_and (u32 r.data_mask) (u32 r.wdqm)) (u32 r.wdqm) bytes
          (omega arith) (omega (arith, bit_and-le_left (u32 r.data_mask) (u32 r.wdqm))) in
      let ri1 = first.0 in
      let second =
        read-write_rdram ri1 (q + 4) (bit_and (u32 r'.data_mask) (u32 r'.wdqm)) (u32 r'.wdqm)
          first.3 (omega arith) (omega (arith, bit_and-le_left (u32 r'.data_mask) (u32 r'.wdqm))) in
      let ri2 = second.0 in
      let kept = load_be ri.ram q in
      let here : merge kept (bit_and (u32 r.data_mask) (u32 r.wdqm)) (u32 r.wdqm)
          ≡ kept / 2 ^ n * 2 ^ n + u32 r.data_mask % 2 ^ n =
        rw low (merge_low n kept (u32 r.data_mask) hn (load_be-lt ri.ram q bytes)) in
      let there : merge (load_be ri1.ram (q + 4)) (bit_and (u32 r'.data_mask) (u32 r'.wdqm))
            (u32 r'.wdqm)
          ≡ u32 r'.data_mask / 2 ^ n * 2 ^ n + load_be ri1.ram (q + 4) % 2 ^ n =
        rw high (merge_high n (load_be ri1.ram (q + 4)) (u32 r'.data_mask) hn (omega arith)) in
      let next = next_word ri ri1 q _ _ inside first.1 in
      (
        ri1,
        ri2,
        store_lem ri r q j word aligned hj (omega arith) ∙ first.1,
        store_lem ri1 r' (q + 4) j' word' (omega arith) hj' (omega arith) ∙ second.1,
        read-write_rdram_far ri1 ri2 (q + 4) q _ _ (omega arith) (omega arith) (omega arith)
              second.1
            ∙ first.2
            ∙ ap (λ (w : ℕ). some w) here,
        second.2
            ∙ ap (λ (w : ℕ). some w)
                (there ∙ ap (λ (w : ℕ). u32 r'.data_mask / 2 ^ n * 2 ^ n + w % 2 ^ n) next),
      )
