-- ===== src/Ri/Memory.antt =====
-- RDRAM as memory: what is written is read back, elsewhere nothing changes.
use cen.Base.{
  ℕ, ◌+◌, ◌^◌, ◌≤◌, ◌<◌, ◌≡◌, ◌⊎◌, some, load_be, load_be_lem, load_be-store_self,
  load_be-store_far, store32-IsBytes, IsBytes, bit_or-lt, bit_and-le_left, merge, not32, arith,
  byteswap_32, store32, sub32, lt→ltb,
}
use cen.Ri.{RiController, read_rdram, write_rdram, max_rdram_size, rdram_base_address}

-- The aligned addresses of RDRAM.
abbrev pub InRam : ℕ → Type 0
InRam address = address + 3 < max_rdram_size

pub load_be-lt : (m : ℕ → ℕ) (i : ℕ) → IsBytes m → load_be m i < 2 ^ 32
load_be-lt m i h = omega (arith, load_be_lem m i h, h i, h (i + 1), h (i + 2), h (i + 3))

merge-lt : (old word dqm : ℕ) → old < 2 ^ 32 → word < 2 ^ 32 → merge old word dqm < 2 ^ 32
merge-lt old word dqm p q = bit_or-lt 32 _ word (omega (arith, bit_and-le_left old (not32 dqm))) q

-- If RDRAM holds bytes, a write of a 32-bit word inside RDRAM succeeds; the same word then reads
-- as the old one merged with the written one under dqm, and RDRAM holds bytes.
pub read-write_rdram :
    (ri : RiController) (address word dqm : ℕ)
    → IsBytes ri.ram
    → InRam address
    → word < 2 ^ 32
    → (ri' : RiController) × (write_rdram ri address word dqm ≡ some ri')
      × (read_rdram ri' address ≡ some (merge (load_be ri.ram address) word dqm))
      × IsBytes ri'.ram
unfolding write_rdram read_rdram
read-write_rdram ri address word dqm b h w =
    let at : sub32 address rdram_base_address ≡ address = omega arith in
    let merged = merge (load_be ri.ram address) word dqm in
    let fits : merged < 2 ^ 32 =
      merge-lt (load_be ri.ram address) word dqm (load_be-lt ri.ram address b) w in
    (
      record ri { ram = store32 ri.ram address (byteswap_32 merged) },
      rw (at, lt→ltb _ _ h),
      rw (at, lt→ltb _ _ h, load_be-store_self ri.ram address merged fits),
      store32-IsBytes ri.ram address (byteswap_32 merged) b,
    )

-- After a write inside RDRAM that succeeds, a word inside RDRAM that shares no byte with the
-- written one reads as before.
pub read-write_rdram_far :
    (ri ri' : RiController) (address other word dqm : ℕ)
    → InRam address
    → InRam other
    → (address + 4 ≤ other) ⊎ (other + 4 ≤ address)
    → write_rdram ri address word dqm ≡ some ri'
    → read_rdram ri' other ≡ read_rdram ri other
unfolding write_rdram read_rdram
read-write_rdram_far ri ri' address other word dqm h k far e =
    let at : sub32 address rdram_base_address ≡ address = omega arith in
    let at' : sub32 other rdram_base_address ≡ other = omega arith in
    let merged = merge (load_be ri.ram address) word dqm in
    let same = load_be-store_far ri.ram address other (byteswap_32 merged) far in
    ground (arith, at, at', same)
