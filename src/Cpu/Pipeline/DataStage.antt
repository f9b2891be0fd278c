-- ===== src/Cpu/Pipeline/DataStage.antt =====
-- vr4300/pipeline.c: `vr4300_dc_stage`, with the accesses through the data cache.
use cen.Base.{
  ℕ, ◌+◌, ◌-◌, ◌*◌, ◌^◌, Bool, true, false, not, ◌&&◌, ◌||◌, Option, none, some, bit_and, bit_or,
  bit_xor, ltb, ◌==◌, if◌then◌else◌, has, u32, ◌>>>◌, ◌<<<◌, update, ◌>>=◌,
}
use cen.Segment.{Segment, get_segment}
use cen.Cpu.State.{
  BusRequest, AccessType, access_word, access_dword, request_value, set_reg, pipeline_cycle_type,
  cp0_status, cp0_cause,
}
use cen.Cpu.Words.{not64, shl64}
use cen.Cpu.Fault.{data_address_error, interrupt, watch, reset}
use cen.Cpu.Fault.Tlb.{data_tlb_fault}
use cen.Cpu.Cache.{Line, set_line, dcache_probe}
use cen.Cpu.Machine.{BusOps, Machine, Stage, with_cpu}
use cen.Cpu.Interlock.{dcache_busy, loaded, dcm}
use cen.Cpu.CacheOps.{run_cacheop}
use cen.Cpu.Pipeline.{cp0_watchlo, outside, unmapped, translate}

-- A double word of a line, and the line after its write.
abbrev pub dword_at : Line → ℕ → ℕ
dword_at line k = line.words k + line.words (k + 1) * 2 ^ 32

abbrev pub set_dword : Line → ℕ → ℕ → Line
set_dword line k dword = record line {
  words = update (update line.words k (u32 dword)) (k + 1) (dword >>> 32);
}

-- `access_type` as the number of the enumeration.
abbrev pub access_shift : AccessType → ℕ
access_shift access_word = 32
access_shift access_dword = 0

-- The line after an access, and the 64 bits that a load takes its bytes from.
unfoldable pub access_line : Line → BusRequest → ℕ → Line × ℕ
access_line line request paddr =
    let s_paddr = u32 (paddr <<< 3) in
    let k = bit_and paddr 0x8 >>> 2 in
    let dword = dword_at line k in
    let shiftamt = bit_and (bit_xor s_paddr (4 <<< 3)) (access_shift request.access_type) in
    let lshiftamt = bit_and s_paddr (0x7 <<< 3) in
    let wdqm = shl64 request.wdqm shiftamt in
    let wtemp = bit_and (shl64 request.data_mask shiftamt) wdqm in
    let line' = set_dword line k (bit_or (bit_and dword (not64 wdqm)) wtemp) in
    let metadata = bit_or line.metadata (request_value request.request_type) in
    (record line' { metadata = metadata }, shl64 dword lshiftamt)

-- `cp0_cause & cp0_status & 0xFF00`, with IE set and EXL and ERL clear.
abbrev pub interrupted : ℕ → ℕ → Bool
interrupted cause status =
    has (bit_and cause status) 0xFF00 && (bit_and (bit_xor status 6) 0x7 == 0x7)

module _ {S : Type 0} where
  abbrev pub latch_dc : Machine S → Machine S
  latch_dc m = record m {
    cpu = record m.cpu { dcwb_common = m.cpu.exdc_common };
    dcwb_result = m.cpu.exdc_result;
    dcwb_dest = m.cpu.exdc_dest;
  }

  module _ (b : BusOps S) where
    -- An access through the cache.
    unfoldable pub cached_access : Machine S → ℕ → ℕ → Option (ℕ × Machine S)
    unfolding dcache_busy access_line
    cached_access m vaddr paddr =
        let request = m.cpu.request in
        let m1 = record m { last_op_was_cache_store = request_value request.request_type == 2 } in
        elim (dcache_probe m.dcache vaddr paddr) [
          | none ↦
              let stalled = set_reg (record m.cpu { cycles_to_stall = 0 }) pipeline_cycle_type 6 in
              some (1, record m1 { cpu = stalled; request_paddr = paddr; exdc_cached = true })
          | some line ↦
              let (line', sdata) = access_line line request paddr in
              let done = record m1 {
                dcwb_result = loaded m.dcwb_result request sdata;
                dcache = set_line m.dcache vaddr line';
              } in
              some (if m.last_op_was_cache_store then (1, dcache_busy m1) else (0, done))
        ]

    unfoldable pub uncached_access : Machine S → ℕ → Option (ℕ × Machine S)
    uncached_access m paddr = do
      let m1 = record m {
        last_op_was_cache_store = false;
        request_paddr = paddr;
        exdc_cached = false;
      }
      m2 ← dcm b m1
      some (1, m2)

    unfoldable pub cacheop_access : Machine S → ℕ → ℕ → Option (ℕ × Machine S)
    cacheop_access m vaddr paddr = do
      (delay, m1) ← run_cacheop b m.request_cacheop m vaddr paddr
      let stalled = set_reg m1.cpu pipeline_cycle_type 2
      if delay == 0
          then some (0, m1)
          else some (1, with_cpu m1 (record stalled { cycles_to_stall = delay - 1 }))

    -- From the watch test on; `paddr` is the physical address.
    unfoldable pub dc_access : Machine S → ℕ → ℕ → Bool → Option (ℕ × Machine S)
    unfolding cached_access uncached_access cacheop_access
    dc_access m vaddr paddr cached =
        let watchlo = m.cpu.regs cp0_watchlo in
        let kind = request_value m.cpu.request.request_type in
        let watched = bit_and paddr 0x7FFFFFF8 == bit_and watchlo 0x7FFFFFF8 in
        if watched && has (bit_and watchlo kind) 0x3
        then some (1, with_cpu m (watch m.cpu))
        else if ltb kind 4
        then (if cached then cached_access m vaddr paddr else uncached_access m paddr)
        else cacheop_access m vaddr paddr

    -- A request in the segment of its address.
    unfoldable pub dc_segment : Machine S → Segment → ℕ → Option (ℕ × Machine S)
    unfolding translate dc_access
    dc_segment m segment vaddr = elim segment.mapped [
      | false ↦ dc_access m vaddr (unmapped segment vaddr) segment.cached
      | true ↦ do
        t ← translate m vaddr
        let tlb_inv = not (has t.bits 0x2)
        let tlb_mod = not (has t.bits 0x4) && (request_value m.cpu.request.request_type == 2)
        if t.miss || (tlb_inv || tlb_mod)
            then some (1, with_cpu m (data_tlb_fault m.cpu t.miss tlb_inv tlb_mod))
            else dc_access m vaddr t.paddr (not (bit_and t.bits 0x38 == 0x10))
    ]

    unfoldable pub dc_request : Stage S
    unfolding dc_segment
    dc_request m =
        let vaddr = m.cpu.request.vaddr in
        let segment = m.cpu.exdc_segment in
        let status = u32 (m.cpu.regs cp0_status) in
        elim (if outside segment vaddr then get_segment vaddr status else some segment) [
          | none ↦ some (1, with_cpu m (data_address_error m.cpu))
          | some segment' ↦
              dc_segment (with_cpu m (record m.cpu { exdc_segment = segment' })) segment' vaddr
        ]

    unfoldable pub dc_stage : Stage S
    unfolding dc_request
    dc_stage m =
        let m1 = latch_dc m in
        let status = u32 (m.cpu.regs cp0_status) in
        let cause = u32 (m.cpu.regs cp0_cause) in
        if has m.cpu.signals 0x2
        then (do c ← reset m1.cpu; some (1, with_cpu m1 c))
        else if interrupted cause status
        then some (1, with_cpu m1 (interrupt m1.cpu))
        else if request_value m.cpu.request.request_type == 0
        then some (0, m1)
        else dc_request m1
