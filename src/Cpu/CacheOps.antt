-- ===== src/Cpu/CacheOps.antt =====
-- vr4300/functions.c: the CACHE instruction and the operations that it leaves for the DC stage.
-- The result of an operation is its delay; `none` is the abort of an unimplemented one.
use cen.Base.{
  ℕ, true, false, Option, none, some, List, ◌∷◌, bit_and, bit_or, ltb, if◌then◌else◌, u32, not32,
  sext32, ◌>>>◌, get_or, replicate, ◌>>=◌,
}
use cen.Cpu.State.{request_cache, request_cache_write, set_reg}
use cen.Cpu.Memory.{address_of}
use cen.Cpu.Cache.{
  Line, set_line, invalidate_line, is_dirty, dcache_create_dirty_exclusive, dcache_get_tag,
  dcache_get_taglo, dcache_probe, dcache_set_taglo, dcache_should_flush_line, dcache_wb_invalidate,
  icache_invalidate, icache_invalidate_hit, icache_set_taglo,
}
use cen.Cpu.Machine.{BusOps, CacheOp, Machine, with_cpu}
use cen.Cpu.Interlock.{write_line, dcache_access_delay}

abbrev cp0_taglo : ℕ
cp0_taglo = 60

-- `line->metadata &= ~0x2`.
abbrev clean : Line → Line
clean line = record line { metadata = bit_and line.metadata (not32 0x2) }

abbrev pub cacheop_lut : List CacheOp
cacheop_lut =
    CacheOp.ic_invalidate
    ∷ CacheOp.unimplemented
    ∷ CacheOp.ic_set_taglo
    ∷ CacheOp.unimplemented
    ∷ CacheOp.ic_invalidate_hit
    ∷ CacheOp.unimplemented
    ∷ CacheOp.unimplemented
    ∷ CacheOp.unimplemented
    ∷ CacheOp.dc_wb_invalidate
    ∷ CacheOp.dc_get_taglo
    ∷ CacheOp.dc_set_taglo
    ∷ CacheOp.dc_create_dirty_ex
    ∷ CacheOp.dc_hit_invalidate
    ∷ CacheOp.dc_hit_wb_invalidate
    ∷ CacheOp.dc_hit_wb
    ∷ CacheOp.unimplemented
    ∷ replicate 16 CacheOp.unimplemented

module _ {S : Type 0} where
  -- VR4300_CACHE.
  unfoldable pub cache_instruction : Machine S → ℕ → ℕ → ℕ → Option (ℕ × Machine S)
  cache_instruction m iw rs rt =
      let op_type = bit_and (iw >>> 18) 0x7 in
      let op = bit_or (bit_and (iw >>> 13) 0x18) op_type in
      let kind = if ltb 2 op_type then request_cache_write else request_cache in
      let request = record m.cpu.request { vaddr = address_of iw rs; request_type = kind } in
      some (
        0,
        record m {
          cpu = record m.cpu { request = request };
          request_cacheop = get_or cacheop_lut op CacheOp.unimplemented;
        },
      )

  module _ (b : BusOps S) where
    -- A dirty line is written back; the line that stays is given for both cases.
    unfoldable pub write_back : Machine S → ℕ → Line → Line → Line → Option (ℕ × Machine S)
    unfolding dcache_get_tag
    write_back m vaddr line after unwritten = elim (is_dirty line) [
      | true ↦ do
        s ← write_line b 0 4 m.bus (dcache_get_tag line vaddr) line
        some (dcache_access_delay, record m { bus = s; dcache = set_line m.dcache vaddr after })
      | false ↦ some (0, record m { dcache = set_line m.dcache vaddr unwritten })
    ]

    unfoldable pub on_hit :
        Machine S → ℕ → ℕ → (Line → Option (ℕ × Machine S)) → Option (ℕ × Machine S)
    unfolding dcache_probe
    on_hit m vaddr paddr found = elim (dcache_probe m.dcache vaddr paddr) [
      | none ↦ some (0, m)
      | some line ↦ found line
    ]

    unfoldable pub run_cacheop : CacheOp → Machine S → ℕ → ℕ → Option (ℕ × Machine S)
    unfolding write_back on_hit
    run_cacheop CacheOp.unimplemented m vaddr paddr = none
    run_cacheop CacheOp.ic_invalidate m vaddr paddr =
        some (0, record m { icache = icache_invalidate m.icache vaddr })
    run_cacheop CacheOp.ic_set_taglo m vaddr paddr =
        let taglo = u32 (m.cpu.regs cp0_taglo) in
        some (0, record m { icache = icache_set_taglo m.icache vaddr taglo })
    run_cacheop CacheOp.ic_invalidate_hit m vaddr paddr =
        some (0, record m { icache = icache_invalidate_hit m.icache vaddr paddr })
    run_cacheop CacheOp.dc_get_taglo m vaddr paddr =
        some (0, with_cpu m (set_reg m.cpu cp0_taglo (sext32 (dcache_get_taglo m.dcache vaddr))))
    run_cacheop CacheOp.dc_set_taglo m vaddr paddr =
        let taglo = u32 (m.cpu.regs cp0_taglo) in
        some (0, record m { dcache = dcache_set_taglo m.dcache vaddr taglo })
    run_cacheop CacheOp.dc_wb_invalidate m vaddr paddr =
        elim (dcache_wb_invalidate m.dcache vaddr) [
          | none ↦ some (0, m)
          | some (line, dcache) ↦
              write_back (record m { dcache = dcache }) vaddr line (clean line) line
        ]
    run_cacheop CacheOp.dc_create_dirty_ex m vaddr paddr =
        elim (dcache_should_flush_line m.dcache vaddr) [
          | none ↦
              some (0, record m { dcache = dcache_create_dirty_exclusive m.dcache vaddr paddr })
          | some line ↦ do
            s ← write_line b 0 4 m.bus (dcache_get_tag line vaddr) line
            let dcache = dcache_create_dirty_exclusive m.dcache vaddr paddr
            some (dcache_access_delay, record m { bus = s; dcache = dcache })
        ]
    run_cacheop CacheOp.dc_hit_invalidate m vaddr paddr =
        on_hit m vaddr paddr
          λ line. some (0, record m { dcache = set_line m.dcache vaddr (invalidate_line line) })
    run_cacheop CacheOp.dc_hit_wb_invalidate m vaddr paddr =
        on_hit m vaddr paddr
          λ line. write_back m vaddr line (invalidate_line line) (invalidate_line line)
    run_cacheop CacheOp.dc_hit_wb m vaddr paddr =
        on_hit m vaddr paddr λ line. write_back m vaddr line (clean line) line
