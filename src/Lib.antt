-- ===== src/Lib.antt =====
-- cen64: a model of the emulator's CPU instructions, its bus, and the interfaces that surround them.
--
-- Parts and files. Each module is named for a part of the console and opens with the source that it
-- models.
--
-- - Mi.antt: the MIPS interface, vr4300/interface.c. It collects the interrupts of the RCP and drives
--   bit 10 of the CPU's Cause register. Every other part raises and clears its interrupt through
--   `signal_rcp_interrupt` and `clear_rcp_interrupt`.
-- - Ri.antt: RDRAM and its registers, ri/controller.c. The DMA engines of the other parts read and
--   write `ram`.
-- - Segment.antt: the address map of the CPU, vr4300/segment.c. `get_segment` is the function of that
--   name; its locals kernel, supervisor, user and use_64 are functions of the status register.
-- - Si.antt: the serial interface, si/controller.c, with a module for each device behind it: Si/Pif
--   (`pif_process` and its commands), Si/Registers (memory-mapped accesses, transfers, `si_init`),
--   Si/Eeprom, Si/Rtc (si/rtc.c), Si/Pak (si/pak.c, si/pak_transfer.c), Si/Cic (si/cic.c) and Si/Gb
--   (si/gb.c, the cartridges that a transfer pak holds).
-- - Ai.antt: the audio interface, ai/controller.c, with the frequency change of ai/context.c.
-- - Pi.antt: the parallel interface, pi/controller.c: Pi/Dma (the transfers), Pi/Registers, Pi/Flash
--   and Pi/Cart (the words of the cartridge, with the IS viewer of pi/is_viewer.c).
-- - Bus.antt: the bus, bus/controller.c, and Bus/Map its tree of ranges, bus/memorymap.c. Bus/Intervals
--   and Bus/Dispatch compare the tree with the table of `bus_init`; Bus/Access is `bus_write_word` and
--   `bus_read_word`.
-- - Cpu.antt: the VR4300. Cpu/State has the latches of vr4300/pipeline.h and the registers; Cpu/Arith,
--   Cpu/Shift, Cpu/Multiply, Cpu/Branch, Cpu/Trap and Cpu/Memory the functions of vr4300/functions.c;
--   Cpu/Decode vr4300/decoder.c; Cpu/Execute the table of functions and the end of `vr4300_ex_stage`;
--   Cpu/Machine the state around the latches; Cpu/Cache vr4300/dcache.c and vr4300/icache.c; Cpu/Tlb
--   arch/x86_64/tlb/tlb.c and Cpu/Cp0/Tlb its instructions; Cpu/Interlock the interlocks of
--   vr4300/fault.c, with the transfers of lines; Cpu/CacheOps the CACHE instruction; Cpu/Pipeline the
--   stages of vr4300/pipeline.c and Cpu/Pipeline/Cycle its cycles and `vr4300_cycle` of vr4300/cpu.c;
--   Cpu/Fault the exceptions of vr4300/fault.c and ERET; Cpu/Cp0 the moves of vr4300/cp0.c;
--   Cpu/Store an uncached write of `VR4300_DCM`, which meets the bus and RDRAM there. Cpu/Alu and
--   Cpu/Branch/Reference describe the instructions as the architecture does.
-- - Base.antt: names of the libraries, the tests and casts of C, bit arithmetic, memory as a function.
--
-- State. A struct is a record, and the pointer to the bus is replaced by the parts that the component
-- reaches: `vr4300` for the MI, `ri` for RDRAM. An operation takes the state and returns the new one.
-- Memories and register files are functions from indices; an access out of their bounds, which C
-- leaves undefined, is `none`, or `undefined` and `fault` for the PIF. The release build is modelled,
-- in which `assert` does nothing. Words are numbers below a power of two, with the wrap-around written
-- out.
--
-- Loops. `pif_process` is given 0x40 turns and a ROM transfer one more than its length; both are proved
-- enough, since every turn moves the pointer or shortens the rest. The walks in the bus tree and its
-- rebalancing have the number of nodes as fuel, which the theorem on `bus_init` shows to be enough for
-- its 17 ranges. The loops of fixed length are structural.
--
-- Parameters. The clock of the host, OpenAL and the delays that are computed in floating point,
-- `rand` in MFC0 and TLBWR, the read and write functions behind the bus, the functions of
-- vr4300/cp1.c, and the 64DD controller behind the PI (a record of operations).
--
-- Caches. The data of a line is kept as the words that the host stores, so that `swapped` is the
-- exchange of neighbours that the source makes on a little-endian host. An abort of the source, as in
-- an unimplemented CACHE operation, is `none`.
--
-- Not modelled. CP1, the RSP, the RDP and the video interface, the 64DD, the debugger and the
-- profiler, save files and start-up: the first are parts for later, the last are input and output of
-- the host. Of the IS viewer not the conversion and output of a line.
pub mod Ai
pub mod Base
pub mod Bus
pub mod Cpu
pub mod Mi
pub mod Pi
pub mod Ri
pub mod Segment
pub mod Si
