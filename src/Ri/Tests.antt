-- ===== src/Ri/Tests.antt =====
-- The theorems on the RAM interface at concrete addresses.
use mathlib.Core.Option.{get_or}
use cen.Base.{◌≡◌, refl, some, load_be, merge, IsBytes, arith}
use cen.Ri.{RiController, read_rdram, write_rdram}
use cen.Ri.Memory.{read-write_rdram}

abbrev blank : RiController
blank = record { rdram_regs = λ i. 0; regs = λ i. 0; ram = λ i. 0 }

read-write_rdram_example :
    (ri' : RiController) × (write_rdram blank 0x400 0xCAFE0000 0xFFFF0000 ≡ some ri')
    × (read_rdram ri' 0x400 ≡ some (merge (load_be (λ i. 0) 0x400) 0xCAFE0000 0xFFFF0000))
    × IsBytes ri'.ram
read-write_rdram_example =
    read-write_rdram blank 0x400 0xCAFE0000 0xFFFF0000 (λ i. omega arith) (omega arith)
      (omega arith)

abbrev written : RiController
written = get_or (write_rdram blank 0x400 0xCAFE0000 0xFFFF0000) blank

written_lem : write_rdram blank 0x400 0xCAFE0000 0xFFFF0000 ≡ some written
unfolding write_rdram
written_lem = refl
