-- ===== src/Si/Rtc/Laws.antt =====
-- Binary-coded decimals, and the time that is set and read back.
use cen.Base.{
  ℕ, ◌+◌, ◌/◌, ◌%◌, ◌<◌, ◌≡◌, true, false, refl, all_below, all_below_sound, ==_iff, ◌==◌, has,
  Bytes, fill, sym, ◌∙◌, arith,
}
use cen.Si.Rtc.{Rtc, TimeStamp, byte2bcd, bcd2byte, put_time, take_time, rtc_read, rtc_write}

bcd_table : all_below (λ n. bcd2byte (byte2bcd n) == n) 100 ≡ true
unfolding all_below bcd2byte byte2bcd
bcd_table = refl

-- A number of two decimal digits comes back from its binary-coded form.
pub bcd2byte-byte2bcd : (n : ℕ) → n < 100 → bcd2byte (byte2bcd n) ≡ n
bcd2byte-byte2bcd n h = (==_iff _ _).0 (all_below_sound _ 100 n h bcd_table)

byte2bcd_mod : (n : ℕ) → byte2bcd n ≡ byte2bcd (n % 100)
unfolding byte2bcd
byte2bcd_mod n = let e : n % 100 % 100 ≡ n % 100 = omega arith in rw e

byte2bcd-lt : (n : ℕ) → byte2bcd n < 256
unfolding byte2bcd
byte2bcd-lt n = omega arith

-- The fields of a time that two decimal digits hold, and a year of four.
pub record IsTime (t : TimeStamp) : Type 0 where
  pub sec_fits : t.sec < 100
  pub min_fits : t.min < 100
  pub hour_fits : t.hour < 100
  pub day_fits : t.day < 100
  pub week_day_fits : t.week_day < 100
  pub month_fits : t.month < 100
  pub year_fits : t.year < 10000

-- The host rewrites block 2 with what it read there, two bytes further on: the time is the same.
pub take_time-put_time :
    (t : TimeStamp) (recv send : Bytes)
    → IsTime t
    → ((i : ℕ) → i < 8 → send (2 + i) ≡ put_time recv t i)
    → take_time send ≡ t
unfolding take_time put_time
take_time-put_time t recv send v sent = ground (
  arith,
  sent 0 (omega arith),
  sent 1 (omega arith),
  sent 2 (omega arith),
  sent 3 (omega arith),
  sent 4 (omega arith),
  sent 5 (omega arith),
  sent 6 (omega arith),
  sent 7 (omega arith),
  bcd2byte-byte2bcd t.sec v.sec_fits,
  bcd2byte-byte2bcd t.min v.min_fits,
  bcd2byte-byte2bcd t.hour v.hour_fits,
  bcd2byte-byte2bcd t.day v.day_fits,
  bcd2byte-byte2bcd t.week_day v.week_day_fits,
  bcd2byte-byte2bcd t.month v.month_fits,
  byte2bcd_mod t.year,
  bcd2byte-byte2bcd (t.year % 100) (omega arith),
  bcd2byte-byte2bcd (t.year / 100) (omega arith),
  byte2bcd-lt t.hour,
)

-- The eight bytes do not depend on what was in the buffer.
put_time_bytes :
    (t : TimeStamp) (buf other : Bytes) (i : ℕ) → i < 8 → put_time buf t i ≡ put_time other t i
unfolding put_time
put_time_bytes t buf other i h = ground arith

module _ (get_local_time : ℕ → TimeStamp) (get_offset_seconds : TimeStamp → ℕ) where
  rtc_write_set :
      (rtc : Rtc) (send buf : Bytes)
      → has rtc.control 0x0004 ≡ true
      → has rtc.control 0x0200 ≡ false
      → send 1 ≡ 2
      → (rtc_write get_local_time get_offset_seconds rtc send buf).rtc
        ≡ record rtc { now = take_time send; offset_seconds = get_offset_seconds (take_time send) }
  unfolding rtc_write
  rtc_write_set rtc send buf stopped open' two = ground arith

  rtc_read_stopped :
      (rtc : Rtc) (ask reply : Bytes) (i : ℕ)
      → has rtc.control 0x0004 ≡ true
      → ask 1 ≡ 2
      → i < 8
      → (rtc_read get_local_time get_offset_seconds rtc ask reply 9).recv_buf i
        ≡ put_time (fill reply 0 0 9) rtc.now i
  unfolding rtc_read
  rtc_read_stopped rtc ask reply i stopped two h = ground arith

  -- A clock that is stopped and not write-protected takes the time that a block 2 write encodes,
  -- with fields of two digits and a year of four, and a later read of block 2 returns the eight
  -- bytes that were written.
  pub rtc_read-write :
      (rtc : Rtc) (t : TimeStamp) (send ask old buf reply : Bytes)
      → IsTime t
      → has rtc.control 0x0004 ≡ true
      → has rtc.control 0x0200 ≡ false
      → send 1 ≡ 2
      → ask 1 ≡ 2
      → ((i : ℕ) → i < 8 → send (2 + i) ≡ put_time old t i)
      → let rtc' = (rtc_write get_local_time get_offset_seconds rtc send buf).rtc in
        (rtc'.now ≡ t)
        × ((i : ℕ)
            → i < 8
            → (rtc_read get_local_time get_offset_seconds rtc' ask reply 9).recv_buf i
              ≡ send (2 + i))
  rtc_read-write rtc t send ask old buf reply v stopped open' two two' sent =
      let time = take_time-put_time t old send v sent in
      rw (rtc_write_set rtc send buf stopped open' two, time)
        (
          refl,
          λ i h.
              rtc_read_stopped (record rtc { now = t; offset_seconds = get_offset_seconds t }) ask
                reply i stopped two' h
              ∙ put_time_bytes t (fill reply 0 0 9) old i h
              ∙ sym (sent i h),
        )
