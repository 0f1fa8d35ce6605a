-- ===== src/Rtc.antt =====
-- kernel/rtc.c: the real-time clock, its decoding and its two formats.
pub mod Decode
pub mod Format
mod Tests
use lons_os.Base.{
  ℕ, zero, suc, ◌+◌, ◌*◌, ◌/◌, ◌%◌, Bool, List, [], ◌∷◌, Option, none, some, ◌==◌, if◌then◌else◌,
}
use lons_os.Base.Bits.{test_bit}
use lons_os.Machine.{u8, u16}
use lons_os.Machine.Ports.{Ports}

-- `rtc_time_t`.
pub record RtcTime : Type 0 where
  pub seconds : ℕ
  pub minutes : ℕ
  pub hours : ℕ
  pub day : ℕ
  pub month : ℕ
  pub year : ℕ

unfoldable pub bcd_to_bin : ℕ → ℕ
bcd_to_bin bcd = u8 (bcd / 16 * 10 + bcd % 16)

-- The step from BCD, if status B says that the values are BCD.
unfoldable pub to_binary : ℕ → RtcTime → RtcTime
to_binary status_b t =
    if test_bit status_b 2 == 0
    then record {
      seconds = bcd_to_bin t.seconds;
      minutes = bcd_to_bin t.minutes;
      hours = bcd_to_bin (t.hours % 128);
      day = bcd_to_bin t.day;
      month = bcd_to_bin t.month;
      year = bcd_to_bin t.year;
    }
    else t

-- The step from a 12-hour clock, if status B says that it is one.
unfoldable pub to_24_hours : ℕ → ℕ → ℕ
to_24_hours status_b hours =
    let pm = u8 (hours % 128 + 12) in
    if test_bit status_b 1 == 0
    then if test_bit hours 7 == 1
      then if pm == 24 then 12 else pm
      else if hours == 12
      then 0
      else hours
    else hours

-- What `rtc_read` makes of the raw registers and status B.
unfoldable pub decode : ℕ → RtcTime → RtcTime
decode status_b raw =
    let t = to_binary status_b raw in
    record t { hours = to_24_hours status_b t.hours; year = 2000 + u16 t.year }

module _ {D : Type 0} (io : Ports D) where
  unfoldable pub cmos_read : ℕ → D → ℕ × D
  cmos_read reg d = io.inb 0x71 (io.outb 0x70 reg d)

  -- The wait for the end of an update; `none` if the clock is still busy after `fuel` reads.
  unfoldable pub rtc_wait_ready : ℕ → D → Option D
  rtc_wait_ready zero d = none
  rtc_wait_ready (suc fuel) d =
      let (a, d1) = cmos_read 0x0A d in
      let again = rtc_wait_ready fuel d1 in if test_bit a 7 == 1 then again else some d1

  -- The reads of the registers, in the order of the code, and the decoding.
  unfoldable pub read_clock : D → RtcTime × D
  read_clock d =
      let (seconds, d1) = cmos_read 0x00 d in
      let (minutes, d2) = cmos_read 0x02 d1 in
      let (hours, d3) = cmos_read 0x04 d2 in
      let (day, d4) = cmos_read 0x07 d3 in
      let (month, d5) = cmos_read 0x08 d4 in
      let (year, d6) = cmos_read 0x09 d5 in
      let (status_b, d7) = cmos_read 0x0B d6 in
      (
        decode status_b (record {
          seconds = seconds;
          minutes = minutes;
          hours = hours;
          day = day;
          month = month;
          year = year;
        }),
        d7,
      )

  unfoldable pub rtc_read : ℕ → D → Option (RtcTime × D)
  rtc_read fuel d = elim (rtc_wait_ready fuel d) [ none ↦ none | some d1 ↦ some (read_clock d1) ]

-- The bytes of the buffer, the final 0 included; `char` arithmetic is modulo 256.
abbrev pub digit : ℕ → ℕ
digit n = u8 (b'0' + n)

unfoldable pub rtc_format_time : RtcTime → List ℕ
rtc_format_time t =
    digit (t.hours / 10)
    ∷ digit (t.hours % 10)
    ∷ b':'
    ∷ digit (t.minutes / 10)
    ∷ digit (t.minutes % 10)
    ∷ b':'
    ∷ digit (t.seconds / 10)
    ∷ digit (t.seconds % 10)
    ∷ 0
    ∷ []

unfoldable pub rtc_format_date : RtcTime → List ℕ
rtc_format_date t =
    let y = u16 t.year in
    let y1 = y % 1000 in
    let y2 = y1 % 100 in
    let y3 = y2 % 10 in
    digit (y / 1000)
    ∷ digit (y1 / 100)
    ∷ digit (y2 / 10)
    ∷ digit y3
    ∷ b'-'
    ∷ digit (t.month / 10)
    ∷ digit (t.month % 10)
    ∷ b'-'
    ∷ digit (t.day / 10)
    ∷ digit (t.day % 10)
    ∷ 0
    ∷ []
