-- ===== src/Cpu/Store.antt =====
-- vr4300/fault.c: the write of VR4300_DCM that no cache takes part in, to a bus with a state S.
pub mod Merge
pub mod Unaligned
pub mod Across
use cen.Base.{ℕ, ◌+◌, ◌/◌, ◌%◌, ◌^◌, Option, none, some, bit_and, u32, not32, ◌>>>◌}
use cen.Cpu.State.{BusRequest, access_word, access_dword}

module _ {S : Type 0} (bus_write_word : S → ℕ → ℕ → ℕ → Option S) where
  -- `paddr &= ~mask`, then one write or two.
  unfoldable pub dcm_write : S → BusRequest → ℕ → Option S
  dcm_write s request paddr = elim request.access_type [
    | access_word ↦
        bus_write_word s (bit_and paddr (not32 0x3)) (u32 request.data_mask) (u32 request.wdqm)
    | access_dword ↦
        elim (bus_write_word s (bit_and paddr (not32 0x7)) (u32 (request.data_mask >>> 32))
          (u32 (request.wdqm >>> 32))) [
            | none ↦ none
            | some s' ↦
                bus_write_word s' (u32 (bit_and paddr (not32 0x7) + 4)) (u32 request.data_mask)
                  (u32 request.wdqm)
          ]
  ]
