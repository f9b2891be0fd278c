-- ===== src/Segment.antt =====
-- vr4300/segment.c and vr4300/segment.h: the table of virtual segments and `get_segment`.
-- A pointer to a segment is its value, NULL is `none`.
pub mod Mode
pub mod Covers
pub mod Map
pub mod Tests
use cen.Base.{
  ℕ, ◌+◌, ◌-◌, ◌/◌, ◌%◌, ◌^◌, Bool, true, false, not, ◌&&◌, ◌||◌, Option, none, some, List, [], ◌∷◌,
  ◌++◌, bit_and, ltb, leb, ◌==◌, if◌then◌else◌, has, sub64, sext32, ◌>>>◌, get_elem?, get_or,
  replicate,
}

-- struct segment.
pub record Segment : Type 0 where
  pub start : ℕ
  pub length : ℕ
  pub offset : ℕ
  pub xmode_mask : ℕ
  pub mapped : Bool
  pub cached : Bool

abbrev pub useg : Segment
useg = record {
  start = 0;
  length = 0x0000000080000000;
  offset = 0;
  xmode_mask = 0x20;
  mapped = true;
  cached = true;
}

abbrev pub xuseg : Segment
xuseg = record useg { length = 0x0000010000000000 }

abbrev pub xsseg : Segment
xsseg = record {
  start = 0x4000000000000000;
  length = 0x0000010000000000;
  offset = 0;
  xmode_mask = 0x40;
  mapped = true;
  cached = true;
}

abbrev pub kseg0 : Segment
kseg0 = record {
  start = 0xFFFFFFFF80000000;
  length = 0x0000000020000000;
  offset = 0xFFFFFFFF80000000;
  xmode_mask = 0x80;
  mapped = false;
  cached = true;
}

abbrev pub kseg1 : Segment
kseg1 = record {
  start = 0xFFFFFFFFA0000000;
  length = 0x0000000020000000;
  offset = 0xFFFFFFFFA0000000;
  xmode_mask = 0x80;
  mapped = false;
  cached = false;
}

abbrev pub ksseg : Segment
ksseg = record {
  start = 0xFFFFFFFFC0000000;
  length = 0x0000000020000000;
  offset = 0;
  xmode_mask = 0x80;
  mapped = true;
  cached = true;
}

abbrev pub kseg3 : Segment
kseg3 = record {
  start = 0xFFFFFFFFE0000000;
  length = 0x0000000020000000;
  offset = 0;
  xmode_mask = 0x80;
  mapped = true;
  cached = true;
}

-- KSEGs.
abbrev pub ksegs : List Segment
ksegs = kseg0 ∷ kseg1 ∷ ksseg ∷ kseg3 ∷ []

abbrev pub xkseg : Segment
xkseg = record {
  start = 0xC000000000000000;
  length = 0x0000010000000000;
  offset = 0;
  xmode_mask = 0x80;
  mapped = true;
  cached = true;
}

-- XKPHYS0 to XKPHYS7: the start, and whether the segment is cached.
abbrev pub xkphys : ℕ → Bool → Segment
xkphys start cached = record {
  start = start;
  length = 0x0000000100000000;
  offset = start;
  xmode_mask = 0x80;
  mapped = false;
  cached = cached;
}

abbrev pub xkphys0 : Segment
xkphys0 = xkphys 0x8000000000000000 true

abbrev pub kernel_segs_lut : List Segment
kernel_segs_lut =
    xkphys0
    ∷ xkphys 0x8800000000000000 true
    ∷ xkphys 0x9000000000000000 false
    ∷ xkphys 0x9800000000000000 true
    ∷ xkphys 0xA000000000000000 true
    ∷ xkphys 0xA800000000000000 true
    ∷ xkphys 0xB000000000000000 true
    ∷ xkphys 0xB800000000000000 true
    ∷ replicate 8 xkseg

abbrev pub default_segment : Segment
default_segment = record {
  start = 1;
  length = 0;
  offset = 0;
  xmode_mask = 0;
  mapped = false;
  cached = false;
}

-- The table by its runs: `_`, the size of a segment, is 1 here, an index into USEGs.
pub segment_mode_lut : List ℕ
segment_mode_lut =
    replicate 32 0
    ++ (replicate 16 0 ++ (replicate 2 1 ++ replicate 14 0))
    ++ (replicate 8 0 ++ (replicate 2 1 ++ replicate 22 0))
    ++ (replicate 8 0 ++ (replicate 2 1 ++ (replicate 6 0 ++ (replicate 2 1 ++ replicate 14 0))))
    ++ (replicate 8 1
        ++ (replicate 2 0
            ++ (replicate 6 1
                ++ (replicate 2 0 ++ (replicate 6 1 ++ (replicate 2 0 ++ replicate 6 1))))))
    ++ (replicate 8 1 ++ (replicate 2 0 ++ (replicate 14 1 ++ (replicate 2 0 ++ replicate 6 1))))
    ++ (replicate 16 1 ++ (replicate 2 0 ++ (replicate 6 1 ++ (replicate 2 0 ++ replicate 6 1))))
    ++ (replicate 24 1 ++ (replicate 2 0 ++ replicate 6 1))

unfoldable pub segment_mode : ℕ → ℕ
unfolding segment_mode_lut
segment_mode status = get_or segment_mode_lut (bit_and status 0xFF) 0

-- The operating mode that CP0 Status selects.
unfoldable pub kernel : ℕ → Bool
kernel status = has status 0x6 || bit_and status 0x18 == 0

unfoldable pub supervisor : ℕ → Bool
supervisor status = bit_and status 0x6 == 0 && bit_and status 0x18 == 0x8

unfoldable pub user : ℕ → Bool
user status = bit_and status 0x6 == 0 && bit_and status 0x18 == 0x10

unfoldable pub use_64 : ℕ → Bool
unfolding kernel supervisor user
use_64 status =
    kernel status && has status 0x80
    || (supervisor status && has status 0x40 || user status && has status 0x20)

-- The last test of `get_segment`.
unfoldable pub matching : ℕ → Segment → Option Segment
matching address seg = if ltb (sub64 address seg.start) seg.length then some seg else none

-- Outside the user segment, in a mode other than user. `mode` is mode_and_flags_mask. Both
-- indices are masked, so they are inside their tables.
unfoldable pub privileged_segment : ℕ → ℕ → Option Segment
unfolding matching
privileged_segment address mode =
    if address >>> 40 == 0x400000
    then some xsseg
    else if not (mode == 0x08)
    then (if leb kseg0.start address
        then get_elem? ksegs (bit_and (address >>> 29) 0x3)
        else if ltb (sub64 address xkphys0.start) 0x400000FF80000000
        then matching address (get_or kernel_segs_lut (bit_and (address >>> 59) 0xF) ksseg)
        else matching address ksseg)
    else matching address ksseg

unfoldable pub get_segment : ℕ → ℕ → Option Segment
get_segment address status =
    let mode = bit_and status 0x1E in
    let seg = if segment_mode status == 0 then useg else xuseg in
    if not (use_64 status) && not (sext32 address == address)
    then none
    else if ltb address seg.length
    then some seg
    else if not (mode == 0x10)
    then privileged_segment address mode
    else none
