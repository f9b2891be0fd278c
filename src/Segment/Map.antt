-- ===== src/Segment/Map.antt =====
-- The address map of each operating mode, written as in the VR4300 manual.
use cen.Base.{
  ℕ, ◌/◌, ◌%◌, ◌^◌, ◌<◌, ◌≡◌, refl, some, none, Bool, true, not, ◌&&◌, ltb, ◌==◌, if◌then◌else◌,
  bit_and, bit_and_mod, has, all_below, all_below_sound, arith,
}
use cen.Segment.{
  Segment, get_segment, privileged_segment, matching, kseg0, kseg1, ksseg, kseg3, useg, xuseg,
  xsseg, use_64, kernel, supervisor, user,
}
use cen.Segment.Mode.{segment_mode-use_64}

-- What the masked status says of the mode.
abbrev mode_agrees : ℕ → Bool
mode_agrees s =
    (if kernel s then not (bit_and s 0x1E == 0x10) && not (bit_and s 0x1E == 0x08) else true)
    && (if supervisor s then bit_and s 0x1E == 0x08 else true)
    && (if user s then bit_and s 0x1E == 0x10 else true)

modes_table : all_below mode_agrees 256 ≡ true
unfolding all_below kernel supervisor user
modes_table = refl

mode_agrees_all : (status : ℕ) → mode_agrees status ≡ true
unfolding kernel supervisor user
mode_agrees_all status =
    rw
      (
        bit_and_mod 8 status 0x1E (omega arith),
        bit_and_mod 8 status 0x6 (omega arith),
        bit_and_mod 8 status 0x18 (omega arith),
      )
      (all_below_sound mode_agrees 256 (status % 2 ^ 8) (omega arith) modes_table)

-- The 32-bit kernel map.
pub kernel_map : ℕ → Segment
kernel_map a =
    if ltb a 0x80000000
    then useg
    else if ltb a 0xA0000000
    then kseg0
    else if ltb a 0xC0000000
    then kseg1
    else if ltb a 0xE0000000
    then ksseg
    else kseg3

-- In user mode a 64-bit address has one segment: useg of 2^31 bytes or, with UX set, xuseg of
-- 2^40. Other addresses have none.
pub get_segment-user :
    (address status : ℕ)
    → address < 2 ^ 64
    → user status ≡ true
    → get_segment address status ≡ (
        if has status 0x20
        then (if ltb address (2 ^ 40) then some xuseg else none)
        else if ltb address (2 ^ 31)
        then some useg
        else none)
unfolding get_segment use_64 user kernel supervisor
get_segment-user address status h u =
    ground (arith, segment_mode-use_64 status, mode_agrees_all status)

-- In supervisor mode a 64-bit address below the end of the user segment is in it; with SX set, one
-- in the 2^40 bytes from 0x4000000000000000 is in xsseg; any other address is in the supervisor
-- segment, ksseg, or has none.
pub get_segment-supervisor :
    (address status : ℕ)
    → address < 2 ^ 64
    → supervisor status ≡ true
    → get_segment address status ≡ (
        if has status 0x40
        then (if ltb address (2 ^ 40)
            then some xuseg
            else if address / 2 ^ 40 == 0x400000
            then some xsseg
            else matching address ksseg)
        else if ltb address (2 ^ 31)
        then some useg
        else matching address ksseg)
unfolding get_segment use_64 user kernel supervisor privileged_segment matching
get_segment-supervisor address status h u =
    ground (arith, segment_mode-use_64 status, mode_agrees_all status)
