-- ===== src/Segment/Tests.antt =====
-- The theorems on segments at concrete addresses and status words.
use cen.Base.{◌≡◌, refl, some, none, true, arith}
use cen.Segment.{
  get_segment, segment_mode, use_64, supervisor, user, kseg0, matching, privileged_segment,
}
use cen.Segment.Covers.{Holds, get_segment-Holds}
use cen.Segment.Map.{get_segment-user}

-- The reset vector lies in KSEG1; an address of RDRAM in KSEG0.
kseg0_found : get_segment 0xFFFFFFFF80000400 0 ≡ some kseg0
unfolding get_segment use_64 segment_mode privileged_segment matching
kseg0_found = refl

get_segment-Holds_example : Holds 0xFFFFFFFF80000400 kseg0
get_segment-Holds_example = get_segment-Holds 0xFFFFFFFF80000400 0 kseg0 (omega arith) kseg0_found

user_10 : user 0x10 ≡ true
unfolding user
user_10 = refl

supervisor_8 : supervisor 0x08 ≡ true
unfolding supervisor
supervisor_8 = refl

get_segment-user_example : get_segment 0x80000000 0x10 ≡ none
get_segment-user_example = get_segment-user 0x80000000 0x10 (omega arith) user_10
