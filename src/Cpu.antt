-- ===== src/Cpu.antt =====
-- The VR4300 as its instructions see it: the latches of vr4300/pipeline.h, the registers of
-- vr4300/cpu.h, and the helpers at the top of vr4300/functions.c. A host integer is 64 bits wide,
-- and the assembly of the x86_64 build is modelled by its effect.
pub mod State
pub mod Words
pub mod Arith
pub mod Shift
pub mod Multiply
pub mod Fault
pub mod Cp0
pub mod Branch
pub mod Trap
pub mod Memory
pub mod Store
pub mod Decode
pub mod Execute
pub mod Alu
pub mod Cache
pub mod Machine
pub mod Interlock
pub mod CacheOps
pub mod Pipeline
pub mod Tlb
pub mod Tests
