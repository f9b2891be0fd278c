-- ===== src/Segment/Mode.antt =====
-- The table of addressing modes against the mode tests.
use cen.Base.{
  ℕ, ◌%◌, ◌^◌, ◌<◌, ◌≡◌, refl, true, bit_and_mod, ◌==◌, ==_iff, if◌then◌else◌, all_below,
  all_below_sound, arith,
}
use cen.Segment.{segment_mode, use_64}

mode_table : all_below (λ s. segment_mode s == (if use_64 s then 1 else 0)) 256 ≡ true
unfolding all_below segment_mode use_64
mode_table = refl

mode_low : (s : ℕ) → s < 256 → segment_mode s ≡ (if use_64 s then 1 else 0)
mode_low s h = (==_iff _ _).0 (all_below_sound _ 256 s h mode_table)

-- The 256-entry table picks the 64-bit user segment exactly in the 64-bit addressing modes.
pub segment_mode-use_64 : (status : ℕ) → segment_mode status ≡ (if use_64 status then 1 else 0)
unfolding segment_mode use_64
segment_mode-use_64 status =
    rw
      (
        bit_and_mod 8 status 0xFF (omega arith),
        bit_and_mod 8 status 0x6 (omega arith),
        bit_and_mod 8 status 0x18 (omega arith),
        bit_and_mod 8 status 0x80 (omega arith),
        bit_and_mod 8 status 0x40 (omega arith),
        bit_and_mod 8 status 0x20 (omega arith),
      )
      (mode_low (status % 2 ^ 8) (omega arith))
