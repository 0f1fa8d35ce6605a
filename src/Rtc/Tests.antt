-- ===== src/Rtc/Tests.antt =====
-- Runs of the clock's decoding and formats.
use lons_os.Base.{◌≡◌, refl, arith}
use lons_os.Rtc.{RtcTime, decode}
use lons_os.Rtc.Decode.{IsTime, this_century, bcd_registers, decode-bcd_registers}

abbrev new_year : RtcTime
new_year = record { seconds = 58; minutes = 59; hours = 23; day = 31; month = 12; year = 26 }

new_year-IsTime : IsTime new_year
new_year-IsTime = omega arith

-- Status B is 2: BCD, 24 hours.
decode-bcd_registers_example : decode 2 (bcd_registers new_year) ≡ this_century new_year
decode-bcd_registers_example = decode-bcd_registers 2 new_year refl refl new_year-IsTime

abbrev this_year : RtcTime
this_year = this_century new_year
