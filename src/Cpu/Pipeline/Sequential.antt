-- ===== src/Cpu/Pipeline/Sequential.antt =====
-- The pipeline executes a straight-line program in its order, one instruction in a cycle.
use cen.Base.{
  ℕ, zero, suc, ◌+◌, ◌-◌, ◌*◌, ◌^◌, ◌≤◌, ◌<◌, ◌≡◌, true, false, Option, some, bit_and, ◌>>>◌, ◌>>=◌,
}
use cen.Segment.{Segment}
use cen.Cpu.State.{pipeline_cycle_type}
use cen.Cpu.Words.{get_rd}
use cen.Cpu.Decode.{Opcode, decode_instruction, decode_flags}
use cen.Cpu.Alu.{Operation}
use cen.Cpu.Cache.{Line, Lines, icache_probe}
use cen.Cpu.Machine.{BusOps, Machine, MachineFunction}
use cen.Cpu.Pipeline.{outside, unmapped}
use cen.Cpu.Pipeline.Cycle.{pipeline_cycle}
use cen.Cpu.Pipeline.Forward.{Quiet, seen}
use cen.Cpu.Pipeline.Advance.{executed, fetched, decoded}
use cen.Cpu.Pipeline.Program.{result_of, IsProgram}

-- The first words of a program, `limit` in number, are in the instruction cache, and the next
-- addresses in the same segment.
pub record InCache (prog : ℕ → ℕ) (lines : ℕ → Line) (icache : Lines) (segment : Segment)
    (base limit : ℕ) : Type 0 where
  pub direct : segment.mapped ≡ false
  pub cached : segment.cached ≡ true
  pub below : base + 4 * limit + 4 < 2 ^ 64
  pub is_hit :
      (k : ℕ)
      → k < limit
      → icache_probe icache (base + 4 * k) (unmapped segment (base + 4 * k)) ≡ some (lines k)
  pub is_word :
      (k : ℕ)
      → k < limit
      → (lines k).words (bit_and (unmapped segment (base + 4 * k)) 0x1C >>> 2) ≡ prog k
  pub inside : (k : ℕ) → k ≤ limit → outside segment (base + 4 * k) ≡ false

module _ {S : Type 0} where
  -- Instruction k is about to be executed, the next one to be fetched.
  pub record At (prog : ℕ → ℕ) (icache : Lines) (segment : Segment) (base k : ℕ) (m : Machine S)
      : Type 0 where
    pub quiet : Quiet m
    pub calm : m.cpu.fault_present ≡ false
    pub not_stalled : m.cpu.regs pipeline_cycle_type ≡ 0
    pub general : m.cpu.exdc_dest < 32
    pub words : (r : ℕ) → seen m r < 2 ^ 64
    pub opcode : m.rfex_opcode ≡ decode_instruction (prog k)
    pub flags : m.rfex_flags ≡ decode_flags (prog k)
    pub iw : m.rfex_iw ≡ prog k
    pub mask : m.cpu.rfex_iw_mask ≡ 2 ^ 32 - 1
    pub pc : m.cpu.icrf_common.pc ≡ base + 4 * (k + 1)
    pub next_pc : m.cpu.icrf_pc ≡ base + 4 * (k + 2)
    pub in_segment : m.cpu.icrf_segment ≡ some segment
    pub same_cache : m.icache ≡ icache

-- n calls of `vr4300_cycle_`.
abbrev pub cycles :
    {S : Type 0} → BusOps S → ℕ → (Opcode → MachineFunction S) → ℕ → Machine S → Option (Machine S)
cycles b random fpu zero m = some m
cycles b random fpu (suc n) m = pipeline_cycle b random fpu m >>= cycles b random fpu n

module _ {S : Type 0} (b : BusOps S) (random : ℕ) (fpu : Opcode → MachineFunction S) (prog : ℕ → ℕ)
    (ops : ℕ → Operation) (lines : ℕ → Line) (icache : Lines) (segment : Segment) (base limit : ℕ)
    (program : IsProgram prog ops limit)
    (in_cache : InCache prog lines icache segment base limit) where
  module _ (m : Machine S) (k : ℕ) (at : At prog icache segment base k m) where
    abbrev next : Machine S
    next =
        decoded
          (fetched (executed m (get_rd (prog k)) (result_of prog ops k (seen m))) (prog (k + 1)))
          segment
