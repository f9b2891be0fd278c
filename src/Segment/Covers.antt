-- ===== src/Segment/Covers.antt =====
-- The segment that is found holds the address.
use cen.Base.{
  ℕ, zero, suc, ◌+◌, ◌/◌, ◌%◌, ◌^◌, ◌≤◌, ◌<◌, ◌≡◌, some, bit_and, bit_and_low, get_elem?, get_or,
  All, All-get_or, arith,
}
use cen.Segment.{
  Segment, get_segment, privileged_segment, matching, ksegs, kseg0, ksseg, kernel_segs_lut,
}

abbrev pub Holds : ℕ → Segment → Type 0
Holds address seg = (seg.start ≤ address) × (address < seg.start + seg.length)

-- No segment reaches past the end of the address space.
abbrev Fits : Segment → Type 0
Fits seg = seg.start + seg.length ≤ 2 ^ 64

lut-Fits : All Fits kernel_segs_lut
lut-Fits = omega arith

matching-Holds :
    (address : ℕ) (seg found : Segment)
    → address < 2 ^ 64
    → Fits seg
    → matching address seg ≡ some found
    → Holds address found
unfolding matching
matching-Holds address seg found h fits e = ground arith

-- The index is two address bits above the start of KSEG0.
kseg-Holds :
    (i address : ℕ) (found : Segment)
    → kseg0.start ≤ address
    → address < 2 ^ 64
    → address / 2 ^ 29 % 4 ≡ i
    → get_elem? ksegs i ≡ some found
    → Holds address found
kseg-Holds zero address found lo hi e f = ground arith
kseg-Holds (suc zero) address found lo hi e f = ground arith
kseg-Holds (suc (suc zero)) address found lo hi e f = ground arith
kseg-Holds (suc (suc (suc zero))) address found lo hi e f = ground arith
kseg-Holds (suc (suc (suc (suc i)))) address found lo hi e f = absurd (omega arith)

privileged-Holds :
    (address mode : ℕ) (found : Segment)
    → address < 2 ^ 64
    → privileged_segment address mode ≡ some found
    → Holds address found
unfolding privileged_segment
privileged-Holds address mode found h e = ground (
  arith,
  kseg-Holds (bit_and (address / 2 ^ 29) 3) address found,
  bit_and_low 2 (address / 2 ^ 29),
  matching-Holds address (get_or kernel_segs_lut (bit_and (address / 2 ^ 59) 0xF) ksseg) found,
  matching-Holds address ksseg found,
  All-get_or Fits kernel_segs_lut (bit_and (address / 2 ^ 59) 0xF) ksseg lut-Fits (omega arith),
)

-- Whatever the status register says, a segment that `get_segment` returns for a 64-bit address
-- contains the address.
pub get_segment-Holds :
    (address status : ℕ) (found : Segment)
    → address < 2 ^ 64
    → get_segment address status ≡ some found
    → Holds address found
unfolding get_segment
get_segment-Holds address status found h e =
    ground (arith, privileged-Holds address (bit_and status 0x1E) found h)
