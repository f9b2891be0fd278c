-- ===== src/Cpu/Alu/Immediate.antt =====
-- The decoder and the functions give each instruction with an immediate its described result.
use cen.Base.{ℕ, Option, some}
use cen.Cpu.State.{Vr4300, latch_result}
use cen.Cpu.Words.{get_rt}
use cen.Cpu.Execute.{ready}
use cen.Cpu.Alu.{WithImmediate, immediate_result}

module _ (c : Vr4300) (iw rs rt : ℕ) where
  abbrev written : ℕ → ℕ × Vr4300
  written value = (0, latch_result (ready c) (get_rt iw) value)

  abbrev outcome : WithImmediate → Option (ℕ × Vr4300)
  outcome op = some (written (immediate_result op iw rs))
