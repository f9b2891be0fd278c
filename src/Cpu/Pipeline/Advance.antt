-- ===== src/Cpu/Pipeline/Advance.antt =====
-- A cycle of the pipeline without a fault, for an instruction that hits the instruction cache.
use cen.Base.{
  ℕ, ◌+◌, ◌-◌, ◌^◌, ◌≡◌, refl, ap, ◌∙◌, Bool, true, false, Option, some, bit_and, ◌==◌,
  if◌then◌else◌, has, u64, ◌>>>◌, arith, ◌>>=◌,
}
use cen.Segment.{Segment}
use cen.Cpu.State.{latch_result, pipeline_cycle_type}
use cen.Cpu.Words.{get_rs, get_rt}
use cen.Cpu.Decode.{Opcode, decode_instruction, decode_flags, info_fpu, info_branch}
use cen.Cpu.Execute.{ready, dispatch, vr4300_function}
use cen.Cpu.Cache.{Line, icache_probe}
use cen.Cpu.Machine.{BusOps, Machine, MachineFunction, with_cpu, then_stage}
use cen.Cpu.Pipeline.{outside, unmapped, ic_stage, rf_segment, rf_stage, fetch, ex_stage}
use cen.Cpu.Pipeline.Cycle.{pipeline_cycle, cycle_fast}
use cen.Cpu.Pipeline.Forward.{Quiet, seen, moved, running, wb_dc, ex_runs}

module _ {S : Type 0} where
  -- After EX: a value for a register.
  abbrev pub executed : Machine S → ℕ → ℕ → Machine S
  executed m dest value = with_cpu (moved m) (latch_result (ready (running m)) dest value)

  pub seen-executed :
      (m : Machine S) (dest value r : ℕ)
      → seen (executed m dest value) r
        ≡ (if r == 0 then 0 else if dest == r then value else seen m r)
  seen-executed m dest value r = ground arith

  -- RF finds its word in a line of the cache, and IC goes on in the same segment.
  pub record Fetches (m : Machine S) (segment : Segment) (line : Line) (word : ℕ) : Type 0 where
    pub current : m.cpu.icrf_segment ≡ some segment
    pub is_unmapped : segment.mapped ≡ false
    pub is_cached : segment.cached ≡ true
    pub is_hit :
        icache_probe m.icache m.cpu.icrf_common.pc (unmapped segment m.cpu.icrf_common.pc)
        ≡ some line
    pub is_word : line.words (bit_and (unmapped segment m.cpu.icrf_common.pc) 0x1C >>> 2) ≡ word
    pub goes_on : outside segment m.cpu.icrf_pc ≡ false

  abbrev pub fetched : Machine S → ℕ → Machine S
  fetched m word = record (with_cpu m (record m.cpu { rfex_common = m.cpu.icrf_common })) {
    rfex_iw = word;
  }

  -- After IC.
  abbrev pub decoded : Machine S → Segment → Machine S
  decoded m segment =
      let iw = bit_and m.rfex_iw m.cpu.rfex_iw_mask in
      let cause_data = bit_and (decode_flags iw) info_branch in
      record m {
        cpu = record m.cpu {
          rfex_iw_mask = 2 ^ 32 - 1;
          icrf_common = record m.cpu.icrf_common { pc = m.cpu.icrf_pc; cause_data = cause_data };
          icrf_pc = u64 (m.cpu.icrf_pc + 4);
          icrf_segment = some segment;
        };
        rfex_iw = iw;
        rfex_opcode = decode_instruction iw;
        rfex_flags = decode_flags iw;
      }

  module _ (b : BusOps S) where
    fetch_hit :
        (m : Machine S) (vaddr paddr word : ℕ) (cached : Bool) (line : Line)
        → icache_probe m.icache vaddr paddr ≡ some line
        → cached ≡ true
        → line.words (bit_and paddr 0x1C >>> 2) ≡ word
        → fetch b m vaddr paddr cached ≡ some (0, record m { rfex_iw = word })
    unfolding fetch
    fetch_hit m vaddr paddr word cached line found yes_cached at =
        rw (found, fetch) (rw yes_cached (rw at refl))

    rf_segment_hit :
        (m : Machine S) (vaddr word : ℕ) (segment : Segment) (line : Line)
        → segment.mapped ≡ false
        → segment.cached ≡ true
        → icache_probe m.icache vaddr (unmapped segment vaddr) ≡ some line
        → line.words (bit_and (unmapped segment vaddr) 0x1C >>> 2) ≡ word
        → rf_segment b m vaddr segment ≡ some (0, record m { rfex_iw = word })
    unfolding rf_segment
    rf_segment_hit m vaddr word segment line direct cached found at =
        rw (direct, rf_segment)
          (fetch_hit m vaddr (unmapped segment vaddr) word segment.cached line found cached at)

    rf_hit :
        (m : Machine S) (segment : Segment) (line : Line) (word : ℕ)
        → Fetches m segment line word
        → rf_stage b m ≡ some (0, fetched m word)
    unfolding rf_stage
    rf_hit m segment line word f =
        let m1 = with_cpu m (record m.cpu { rfex_common = m.cpu.icrf_common }) in
        let pc = m.cpu.icrf_common.pc in
        ap (λ (o : Option Segment). o >>= rf_segment b m1 pc) f.current
        ∙ rf_segment_hit m1 pc word segment line f.is_unmapped f.is_cached f.is_hit f.is_word

  ic_hit :
      (m : Machine S) (segment : Segment)
      → m.cpu.icrf_segment ≡ some segment
      → outside segment m.cpu.icrf_pc ≡ false
      → ic_stage m ≡ some (decoded m segment)
  unfolding ic_stage
  ic_hit m segment current inside = rw (current, inside) refl

  module _ (b : BusOps S) (random : ℕ) (fpu : Opcode → MachineFunction S) where
    is_fast :
        (m : Machine S)
        → m.cpu.fault_present ≡ false
        → m.cpu.regs pipeline_cycle_type ≡ 0
        → pipeline_cycle b random fpu m ≡ cycle_fast b random fpu m
    unfolding pipeline_cycle
    is_fast m calm kind = simp (calm, kind)

    -- A cycle that leaves a result and fetches a word.
    pub cycle_lem :
        (m : Machine S) (segment : Segment) (line : Line) (word dest value : ℕ)
        → Quiet m
        → m.cpu.fault_present ≡ false
        → m.cpu.regs pipeline_cycle_type ≡ 0
        → has m.rfex_flags info_fpu ≡ false
        → dispatch
            (vr4300_function m.rfex_opcode)
            (running m)
            m.rfex_iw
            (seen m (get_rs m.rfex_iw))
            (seen m (get_rt m.rfex_iw))
          ≡ some (0, latch_result (ready (running m)) dest value)
        → Fetches m segment line word
        → pipeline_cycle b random fpu m
          ≡ some (decoded (fetched (executed m dest value) word) segment)
    unfolding cycle_fast
    cycle_lem m segment line word dest value q calm running_ integer h f =
        let ex =
          ex_runs random fpu m (0, latch_result (ready (running m)) dest value) q integer h in
        let f' : Fetches (executed m dest value) segment line word = record {
          current = f.current;
          is_unmapped = f.is_unmapped;
          is_cached = f.is_cached;
          is_hit = f.is_hit;
          is_word = f.is_word;
          goes_on = f.goes_on;
        } in
        let rf = rf_hit b (executed m dest value) segment line word f' in
        let ic = ic_hit (fetched (executed m dest value) word) segment f.current f.goes_on in
        let rest = λ (m2 : Machine S). then_stage (rf_stage b m2) ic_stage in
        let from_ex = λ (m1 : Machine S). then_stage (ex_stage random fpu m1) rest in
        is_fast m calm running_
        ∙ ap (λ (o : Option (ℕ × Machine S)). then_stage o from_ex) (wb_dc b m q)
        ∙ ap (λ (o : Option (ℕ × Machine S)). then_stage o rest) ex
        ∙ ap (λ (o : Option (ℕ × Machine S)). then_stage o ic_stage) rf
        ∙ ic
