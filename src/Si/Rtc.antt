-- ===== src/Si/Rtc.antt =====
-- si/rtc.c and os/common/local_time.h: the real-time clock of the joybus. The host's clock is the
-- parameter of the section: `get_local_time` and `get_offset_seconds` call the C library.
pub mod Laws
use cen.Base.{
  ℕ, ◌+◌, ◌-◌, ◌*◌, ◌/◌, ◌%◌, ◌^◌, bit_and, bit_or, not, ◌==◌, if◌then◌else◌, has, u8, u16, ◌>>>◌,
  ◌<<<◌, Bytes, fill, update,
}

-- struct time_stamp.
pub record TimeStamp : Type 0 where
  pub year : ℕ
  pub month : ℕ
  pub day : ℕ
  pub hour : ℕ
  pub min : ℕ
  pub sec : ℕ
  pub week_day : ℕ

-- struct rtc; `offset_seconds` is the bit pattern of an int32_t.
pub record Rtc : Type 0 where
  pub control : ℕ
  pub now : TimeStamp
  pub offset_seconds : ℕ

unfoldable pub byte2bcd : ℕ → ℕ
byte2bcd byte = u8 (bit_or ((byte % 100 / 10) <<< 4) (byte % 100 % 10))

unfoldable pub bcd2byte : ℕ → ℕ
bcd2byte bcd = u8 (u8 (bit_and bcd 0xF0 >>> 4) * 10 + bit_and bcd 0x0F)

unfoldable pub rtc_status_byte : Rtc → ℕ
rtc_status_byte rtc = if has rtc.control 0x0004 then 0x80 else 0x00

-- The result of a command: the return code, the receive buffer and the clock.
pub record Reply : Type 0 where
  pub code : ℕ
  pub recv_buf : Bytes
  pub rtc : Rtc

unfoldable pub rtc_status : Rtc → Bytes → Reply
unfolding rtc_status_byte
rtc_status rtc recv_buf = record {
  code = 0;
  recv_buf = update (update (update recv_buf 0 0x00) 1 0x10) 2 (rtc_status_byte rtc);
  rtc = rtc;
}

-- Block 2, the time, into a cleared buffer.
unfoldable pub put_time : Bytes → TimeStamp → Bytes
put_time buf t =
    update
      (update
        (update
          (update
            (update
              (update (update (update buf 0 (byte2bcd t.sec)) 1 (byte2bcd t.min)) 2
                (u8 (byte2bcd t.hour + 0x80)))
              3 (byte2bcd t.day))
            4 (byte2bcd t.week_day))
          5 (byte2bcd t.month))
        6 (byte2bcd t.year))
      7 (byte2bcd (t.year / 100))

-- Block 2, the time, out of a written buffer.
unfoldable pub take_time : Bytes → TimeStamp
take_time buf = record {
  sec = bcd2byte (buf 2);
  min = bcd2byte (buf 3);
  hour = bcd2byte (u8 (buf 4 + 2 ^ 8 - 0x80));
  day = bcd2byte (buf 5);
  week_day = bcd2byte (buf 6);
  month = bcd2byte (buf 7);
  year = bcd2byte (buf 8) + bcd2byte (buf 9) * 100;
}

abbrev accepted : Rtc → Bytes → Reply
accepted rtc recv_buf = record {
  code = 0;
  recv_buf = update recv_buf 0 (rtc_status_byte rtc);
  rtc = rtc;
}

module _ (get_local_time : ℕ → TimeStamp) (get_offset_seconds : TimeStamp → ℕ) where
  unfoldable pub rtc_init : Rtc
  rtc_init = record { control = 0x0300; now = get_local_time 0; offset_seconds = 0 }

  unfoldable pub rtc_read : Rtc → Bytes → Bytes → ℕ → Reply
  unfolding rtc_status_byte
  rtc_read rtc send_buf recv_buf recv_bytes =
      let zeroed = fill recv_buf 0 0 recv_bytes in
      let status = λ (buf : Bytes) (r : Rtc). update buf 8 (rtc_status_byte r) in
      let shown =
        if has rtc.control 0x0004
        then rtc
        else record rtc { now = get_local_time rtc.offset_seconds } in
      let block = send_buf 1 in
      if block == 0
      then record {
        code = 0;
        recv_buf =
            status (update (update zeroed 0 (u8 (rtc.control >>> 8))) 1 (u8 rtc.control)) rtc;
        rtc = rtc;
      }
      else if block == 1
      then record { code = 0; recv_buf = status zeroed rtc; rtc = rtc }
      else if block == 2
      then record { code = 0; recv_buf = status (put_time zeroed shown.now) shown; rtc = shown }
      else record { code = 1; recv_buf = zeroed; rtc = rtc }

  -- A time is set only while the clock is stopped and not write-protected.
  unfoldable pub set_time : Rtc → Bytes → Rtc
  set_time rtc send_buf =
      if not (has rtc.control 0x0004)
      then rtc
      else if has rtc.control 0x0200
      then rtc
      else record rtc {
        now = take_time send_buf;
        offset_seconds = get_offset_seconds (take_time send_buf);
      }

  unfoldable pub rtc_write : Rtc → Bytes → Bytes → Reply
  unfolding set_time rtc_status_byte
  rtc_write rtc send_buf recv_buf =
      let block = send_buf 1 in
      if block == 0
      then accepted (record rtc { control = bit_or (send_buf 2 <<< 8) (send_buf 3) }) recv_buf
      else if block == 1
      then accepted rtc recv_buf
      else if block == 2
      then accepted (set_time rtc send_buf) recv_buf
      else record { code = 1; recv_buf = recv_buf; rtc = rtc }
