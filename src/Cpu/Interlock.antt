-- ===== src/Cpu/Interlock.antt =====
-- vr4300/fault.c: the interlocks, with the accesses to memory that they wait for.
pub mod Transfer
pub mod Flush
pub mod Coherence
pub mod Rdram
use cen.Base.{
  ℕ, zero, suc, ◌+◌, ◌-◌, ◌*◌, ◌^◌, true, false, Option, none, some, bit_and, bit_or, bit_xor, ◌==◌,
  u32, not32, ◌>>>◌, ◌<<<◌, update, ◌>>=◌,
}
use cen.Cpu.State.{
  Vr4300, BusRequest, AccessType, access_word, access_dword, request_none, request_value, set_reg,
  pipeline_cycle_type,
}
use cen.Cpu.Words.{shl64, sar64}
use cen.Cpu.Cache.{Line, Lines, dcache_fill, dcache_get_tag, dcache_should_flush_line, icache_fill}
use cen.Cpu.Store.{dcm_write}
use cen.Cpu.Machine.{BusOps, Machine, with_cpu}

-- MEMORY_WORD_DELAY, DCACHE_ACCESS_DELAY and ICACHE_ACCESS_DELAY.
abbrev pub memory_word_delay : ℕ
memory_word_delay = 38

abbrev pub dcache_access_delay : ℕ
dcache_access_delay = 44

abbrev pub icache_access_delay : ℕ
icache_access_delay = 48

-- `vr4300_common_interlocks`.
abbrev pub interlocked : Vr4300 → ℕ → ℕ → Vr4300
interlocked c cycles_to_stall skip_stages = record (set_reg c pipeline_cycle_type skip_stages) {
  cycles_to_stall = cycles_to_stall;
}

-- `data[i ^ (WORD_ADDR_XOR >> 2)]`: the words of a line of the data cache change places in pairs.
abbrev pub swapped : ℕ → ℕ
swapped i = bit_xor i 1

-- The mask of an access inside its word or double word.
abbrev pub offset_mask : AccessType → ℕ
offset_mask access_word = 0x3
offset_mask access_dword = 0x7

-- The result that a load adds to, from the 64 bits.
abbrev pub loaded : ℕ → BusRequest → ℕ → ℕ
loaded result request sdata =
    let rshiftamt = (8 - request.size) <<< 3 in
    let selected = bit_and (sar64 sdata rshiftamt) request.data_mask in
    bit_or result (shl64 selected request.postshift)

module _ {S : Type 0} where
  unfoldable pub dcache_busy : Machine S → Machine S
  dcache_busy m = record m { cpu = interlocked m.cpu 0 1; last_op_was_cache_store = false }

  -- VR4300_LDI.
  unfoldable pub load_interlock : Machine S → Machine S
  load_interlock m =
      let idle = record m.cpu { request = record m.cpu.request { request_type = request_none } } in
      with_cpu m (interlocked idle 0 2)

  module _ (b : BusOps S) where
    -- The loop that writes a line back.
    unfoldable pub write_line : ℕ → ℕ → S → ℕ → Line → Option S
    write_line i zero s address line = some s
    write_line i (suc left) s address line = do
      s' ← b.write_word s (u32 (address + i * 4)) (line.words (swapped i)) (2 ^ 32 - 1)
      write_line (suc i) left s' address line

    -- The loops that fill a line: word i of memory goes to index `place i`.
    unfoldable pub read_line : (ℕ → ℕ) → ℕ → ℕ → S → ℕ → (ℕ → ℕ) → Option ((ℕ → ℕ) × S)
    read_line place i zero s address words = some (words, s)
    read_line place i (suc left) s address words = do
      (word, s') ← b.read_word s (u32 (address + i * 4))
      read_line place (suc i) left s' address (update words (place i) word)

    -- The 64 bits that a read takes its bytes from.
    unfoldable pub read_sdata : AccessType → ℕ → ℕ → S → Option (ℕ × S)
    read_sdata access_word paddr lshiftamt s = do
      (hiword, s') ← b.read_word s paddr
      some (shl64 hiword (lshiftamt + 32), s')
    read_sdata access_dword paddr lshiftamt s = do
      (hiword, s') ← b.read_word s paddr
      (loword, s'') ← b.read_word s' (u32 (paddr + 4))
      some (shl64 (bit_or (hiword <<< 32) loword) lshiftamt, s'')

    -- VR4300_DCM without the cache.
    unfoldable pub dcm_uncached : Machine S → Option (Machine S)
    unfolding read_sdata dcm_write
    dcm_uncached m = elim (request_value m.cpu.request.request_type == 1) [
      | true ↦ do
        let mask = offset_mask m.cpu.request.access_type
        let lshiftamt = bit_and m.request_paddr mask <<< 3
        (sdata, s) ←
            read_sdata m.cpu.request.access_type (bit_and m.request_paddr (not32 mask)) lshiftamt
              m.bus
        some (record m { bus = s; dcwb_result = loaded m.dcwb_result m.cpu.request sdata })
      | false ↦ do
        s ← dcm_write b.write_word m.bus m.cpu.request m.request_paddr
        some (record m { bus = s })
    ]

    -- The line that has to go, written back.
    unfoldable pub flush_line : S → Lines → ℕ → Option S
    unfolding dcache_should_flush_line dcache_get_tag write_line
    flush_line s dcache vaddr = elim (dcache_should_flush_line dcache vaddr) [
      | none ↦ some s
      | some line ↦ write_line 0 4 s (dcache_get_tag line vaddr) line
    ]

    -- The memory and the cache after a miss: flush, then fill.
    unfoldable pub replace_line : S → Lines → ℕ → ℕ → Option (Lines × S)
    unfolding flush_line read_line dcache_fill
    replace_line s dcache vaddr paddr = do
      let line = bit_and paddr (not32 0xF)
      flushed ← flush_line s dcache vaddr
      (words, s') ← read_line swapped 0 4 flushed line (λ i. 0)
      some (dcache_fill dcache vaddr line words, s')

    -- VR4300_DCM with the cache.
    unfoldable pub dcm_cached : Machine S → Option (Machine S)
    dcm_cached m = do
      (dcache, s) ← replace_line m.bus m.dcache m.cpu.request.vaddr m.request_paddr
      let cpu = interlocked m.cpu dcache_access_delay 1
      some (record m { cpu = cpu; bus = s; dcache = dcache })

    -- VR4300_DCM.
    unfoldable pub dcm : Machine S → Option (Machine S)
    dcm m = elim m.exdc_cached [
      | false ↦ do m' ← dcm_uncached m; some (with_cpu m' (interlocked m'.cpu memory_word_delay 2))
      | true ↦ dcm_cached m
    ]

    -- VR4300_ICB.
    unfoldable pub icb : Machine S → Option (Machine S)
    unfolding read_line icache_fill
    icb m = elim m.rfex_cached [
      | false ↦ do
        (iw, s) ← b.read_word m.bus m.rfex_paddr
        let cpu = interlocked m.cpu memory_word_delay 4
        some (record m { cpu = cpu; bus = s; rfex_iw = iw })
      | true ↦ do
        let pc = m.cpu.icrf_common.pc
        let paddr = bit_and m.rfex_paddr (not32 0x1C)
        (words, s) ← read_line (λ i. i) 0 8 m.bus paddr (λ i. 0)
        some (record m {
          cpu = interlocked m.cpu icache_access_delay 4;
          bus = s;
          rfex_iw = words (bit_and (pc >>> 2) 0x7);
          icache = icache_fill m.icache pc paddr words;
        })
    ]
