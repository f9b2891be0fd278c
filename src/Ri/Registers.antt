-- ===== src/Ri/Registers.antt =====
-- The register files against the address ranges of bus/address.h.
use cen.Base.{
  ℕ, ◌+◌, ◌-◌, ◌/◌, ◌≤◌, ◌<◌, ◌≡◌, update, sub32, some, merge, ◌==◌, if◌then◌else◌, arith,
}
use cen.Ri.{RiController, read_ri_regs, write_ri_regs, ri_regs_base_address, ri_regs_address_len}

-- Every access to the range of the RI registers is in bounds, and a write is read back merged
-- with the old value at its register and at no other.
pub read-write_ri_regs :
    (ri : RiController) (address other word dqm : ℕ)
    → ri_regs_base_address ≤ address
    → address < ri_regs_base_address + ri_regs_address_len
    → ri_regs_base_address ≤ other
    → other < ri_regs_base_address + ri_regs_address_len
    → (ri' : RiController) × (write_ri_regs ri address word dqm ≡ some ri')
      × (read_ri_regs ri' other
          ≡ some (
              if address / 4 == other / 4
              then merge (ri.regs ((other - ri_regs_base_address) / 4)) word dqm
              else ri.regs ((other - ri_regs_base_address) / 4)))
unfolding read_ri_regs write_ri_regs
read-write_ri_regs ri address other word dqm lo hi lo' hi' = (
  record ri {
    regs =
        update ri.regs (sub32 address ri_regs_base_address / 4)
          (merge (ri.regs (sub32 address ri_regs_base_address / 4)) word dqm);
  },
  ground arith,
  ground arith,
)
