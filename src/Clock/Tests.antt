-- ===== src/Clock/Tests.antt =====
-- The clock at concrete times.
use ir.Prelude.{◌+◌, ◌-◌, ◌<◌, ◌≤◌, ◌≡◌, refl, some, arith}
use ir.Clock.State.{Clock}
use ir.Clock.Date.{Datetime, clock_datetime, is_leap_year}
use ir.Clock.Gregorian.{Civil, IsCivil, unix_time, leap, span, month_start, month_length}
use ir.Clock.Correct.{clock_datetime_total, clock_datetime-unix_time, shown}
use ir.Clock.Timestamp.{clock_utc2timestamp, clock_utc2timestamp-unix_time, reported}
use ir.Clock.Local.{clock_localtime, clock_localtime-is_summer, is_summer}

abbrev clock : Clock
clock = record {
  timestamp = 1000;
  ticks = 3;
  sync_timestamp = 0;
  ntp_timer = 1;
  startup_timestamp = 0;
}

-- 2023-06-15 12:34:56
abbrev june : Civil
june = record { years = 53; months = 5; days = 14; hours = 12; minutes = 34; seconds = 56 }

-- 2024-03-31 01:02:03
abbrev march : Civil
march = record { years = 54; months = 2; days = 30; hours = 1; minutes = 2; seconds = 3 }

june_time : unix_time june ≡ 1686832496
unfolding span leap month_start
june_time = refl

march_time : unix_time march ≡ 1711846923
unfolding span leap month_start
march_time = refl

june-IsCivil : IsCivil june
unfolding month_length
june-IsCivil = omega arith

march-IsCivil : IsCivil march
unfolding month_length
march-IsCivil = omega arith

clock_datetime_total_example :
    (d : Datetime) × (clock_datetime 951782400 ≡ some d)
    × (d.sec < 60)
    × (d.minute < 60)
    × (d.hour < 24)
    × (1 ≤ d.month)
    × (d.month ≤ 12)
    × (1 ≤ d.day)
    × (d.day ≤ 32)
    × (d.dow < 7)
clock_datetime_total_example = clock_datetime_total 951782400

clock_datetime-unix_time_example : clock_datetime (unix_time june) ≡ some (shown june)
unfolding leap
clock_datetime-unix_time_example =
    clock_datetime-unix_time june june-IsCivil (omega (arith, june_time)) refl

clock_utc2timestamp-unix_time_example :
    clock_utc2timestamp (reported 4 june) 1
    ≡ some (unix_time june - 7200, record (reported 4 june) { month = 0 })
clock_utc2timestamp-unix_time_example =
    clock_utc2timestamp-unix_time june 4 1 june-IsCivil (omega arith) (omega (arith, june_time))

-- Sunday, 2023-10-29 01:30:00 UTC
abbrev autumn : Datetime
autumn = record { sec = 0; minute = 30; hour = 1; day = 29; month = 10; dow = 0; year = 123 }

clock_localtime-is_summer_example : clock_localtime 1698543000 ≡ clock_datetime (1698543000 + 7200)
unfolding is_summer clock_datetime is_leap_year
clock_localtime-is_summer_example =
    clock_localtime-is_summer 1698543000 29 autumn refl (omega arith) (omega arith) (omega arith)
      refl
