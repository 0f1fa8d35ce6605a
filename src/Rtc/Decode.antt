-- ===== src/Rtc/Decode.antt =====
-- The decoding of the clock's registers against an encoding of the time of day.
use lons_os.Base.{ℕ, ◌+◌, ◌*◌, ◌/◌, ◌%◌, ◌<◌, ◌==◌, ◌≡◌, arith, if◌then◌else◌, leb}
use lons_os.Base.Bits.{test_bit}
use lons_os.Rtc.{RtcTime, bcd_to_bin, to_binary, to_24_hours, decode}

-- A number below 100 in BCD, as the clock keeps it.
abbrev pub to_bcd : ℕ → ℕ
to_bcd n = n / 10 * 16 + n % 10

pub bcd_to_bin-to_bcd : (n : ℕ) → n < 100 → bcd_to_bin (to_bcd n) ≡ n
unfolding bcd_to_bin
bcd_to_bin-to_bcd n h = omega arith

-- The fields of a time of this century.
pub record IsTime (t : RtcTime) : Type 0 where
  pub seconds_in : t.seconds < 60
  pub minutes_in : t.minutes < 60
  pub hours_in : t.hours < 24
  pub day_in : t.day < 32
  pub month_in : t.month < 13
  pub year_in : t.year < 100

abbrev pub this_century : RtcTime → RtcTime
this_century t = record t { year = 2000 + t.year }

-- The registers of a BCD clock with 24 hours.
abbrev pub bcd_registers : RtcTime → RtcTime
bcd_registers t = record {
  seconds = to_bcd t.seconds;
  minutes = to_bcd t.minutes;
  hours = to_bcd t.hours;
  day = to_bcd t.day;
  month = to_bcd t.month;
  year = to_bcd t.year;
}

-- Whatever the other bits of status B, a BCD clock with 24 hours is read as it was set.
pub decode-bcd_registers :
    (status_b : ℕ) (t : RtcTime)
    → test_bit status_b 2 ≡ 0
    → test_bit status_b 1 ≡ 1
    → IsTime t
    → decode status_b (bcd_registers t) ≡ this_century t
unfolding decode to_binary to_24_hours bcd_to_bin
decode-bcd_registers status_b t bcd full v = ground arith

-- The hour register of a binary clock with 12 hours: 12, 1, ..., 11, with bit 7 for the afternoon.
abbrev pub hour_12 : ℕ → ℕ
hour_12 h = (if h % 12 == 0 then 12 else h % 12) + (if leb 12 h then 128 else 0)

-- A binary clock with 12 hours gives every hour of the day.
pub decode-hour_12 :
    (status_b h : ℕ) (t : RtcTime)
    → test_bit status_b 2 ≡ 1
    → test_bit status_b 1 ≡ 0
    → h < 24
    → (decode status_b (record t { hours = hour_12 h })).hours ≡ h
unfolding decode to_binary to_24_hours
decode-hour_12 status_b h t binary half lt = ground arith

-- A BCD clock with 12 hours does not: the afternoon bit is masked off before it is tested, so an
-- hour register is read alike with it and without it.
pub decode-pm_lost :
    (status_b h : ℕ) (t : RtcTime)
    → test_bit status_b 2 ≡ 0
    → h < 128
    → decode status_b (record t { hours = h + 128 }) ≡ decode status_b (record t { hours = h })
unfolding decode to_binary
decode-pm_lost status_b h t bcd lt = ground arith
