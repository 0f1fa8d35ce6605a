-- ===== src/Rtc/Format.antt =====
-- The two texts of a time, read back.
use lons_os.Base.{ℕ, ◌+◌, ◌-◌, ◌*◌, ◌<◌, ◌≡◌, List, arith, get_or, length}
use lons_os.Rtc.{RtcTime, rtc_format_time, rtc_format_date}

-- The number that two digits at index `i` stand for, and four.
abbrev pub two : List ℕ → ℕ → ℕ
two s i = (get_or s i 0 - b'0') * 10 + (get_or s (i + 1) 0 - b'0')

abbrev pub four : List ℕ → ℕ → ℕ
four s i = two s i * 100 + two s (i + 2)

-- "HH:MM:SS" and its final 0 stand for the time, for fields of two digits.
pub rtc_format_time-two :
    (t : RtcTime)
    → t.hours < 100
    → t.minutes < 100
    → t.seconds < 100
    → (two (rtc_format_time t) 0 ≡ t.hours)
      × (two (rtc_format_time t) 3 ≡ t.minutes)
      × (two (rtc_format_time t) 6 ≡ t.seconds)
      × (length (rtc_format_time t) ≡ 9)
unfolding rtc_format_time
rtc_format_time-two t h m s = omega arith

-- "YYYY-MM-DD" and its final 0 stand for the date, for a year of four digits.
pub rtc_format_date-four :
    (t : RtcTime)
    → t.year < 10000
    → t.month < 100
    → t.day < 100
    → (four (rtc_format_date t) 0 ≡ t.year)
      × (two (rtc_format_date t) 5 ≡ t.month)
      × (two (rtc_format_date t) 8 ≡ t.day)
      × (length (rtc_format_date t) ≡ 11)
unfolding rtc_format_date
rtc_format_date-four t y m d = omega arith
