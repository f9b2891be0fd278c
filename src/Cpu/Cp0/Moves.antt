-- ===== src/Cpu/Cp0/Moves.antt =====
-- A value that is moved to a register of coprocessor 0 and back.
use cen.Base.{ℕ, ◌+◌, ◌≡◌, ◌≢◌, refl, true, false, ◌==◌, arith}
use cen.Cpu.State.{Vr4300}
use cen.Cpu.Words.{get_rd}
use cen.Cpu.Cp0.{reg_mask, mask_reg, dmfc0, dmtc0}

-- After DMTC0 to a register whose mask is not that of an unknown one, other than COUNT, CAUSE and
-- PRID, DMFC0 of the same register gives the value under the register's mask.
pub dmfc0-dmtc0 :
    (c : Vr4300) (to from rs rt reg : ℕ)
    → get_rd to ≡ reg
    → get_rd from ≡ reg
    → reg ≢ 9
    → reg ≢ 13
    → reg ≢ 15
    → reg_mask reg ≢ 0xBAD
    → (dmfc0 (dmtc0 c to rs rt).1 from 0 0).1.exdc_result ≡ mask_reg reg rt
unfolding dmfc0 dmtc0
dmfc0-dmtc0 c to from rs rt reg at_to at_from count cause prid known =
    rw
      (
        at_to,
        at_from,
        differs reg 9 count,
        differs reg 13 cause,
        differs reg 15 prid,
        differs (reg_mask reg) 0xBAD known,
        equal (32 + reg),
      )
      refl
  where
    differs : (m n : ℕ) → m ≢ n → (m == n) ≡ false
    differs m n h = ground arith

    equal : (m : ℕ) → (m == m) ≡ true
    equal m = ground arith
