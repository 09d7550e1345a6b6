-- ===== src/Clock/Correct.antt =====
-- `clock_datetime` against the calendar.
use ir.Prelude.{
  ℕ, ◌+◌, ◌-◌, ◌*◌, ◌/◌, ◌%◌, ◌^◌, ◌<◌, ◌≤◌, ◌≡◌, refl, true, false, some, arith, ap, ap₂, ◌∙◌,
}
use ir.Clock.Date.{
  Datetime, clock_datetime, is_leap_year, months, year_loop, month_loop, days_of, epoch_year,
  epoch_dow,
}
use ir.Clock.Gregorian.{Civil, IsCivil, leap_of, unix_time, day_number, day_of_year, month_start}
use ir.Clock.Years.{is_leap_year-leap, span-ge, year_loop-span, year_loop-lt}
use ir.Clock.Months.{
  is_shifted, month_loop-right, month_loop-shifted, month_loop_total, month_length-le,
  month_start_lt,
}

-- What `clock_datetime` fills in around the results of its loops.
abbrev filled : ℕ → ℕ → ℕ → ℕ → Datetime
filled t year month day = record {
  sec = t % 60;
  minute = (t / 60) % 60;
  hour = (t / 60 / 60) % 24;
  day = (day % 256 + 1) % 256;
  month = month + 1;
  dow = (days_of t + epoch_dow) % 7;
  year = (year - 1900) % 256;
}

datetime_of_loops :
    (t left year month day : ℕ)
    → year_loop (days_of t + 1) (days_of t) epoch_year ≡ (left, year)
    → month_loop months 0 (is_leap_year year) left ≡ some (month, day)
    → clock_datetime t ≡ some (filled t year month day)
unfolding clock_datetime
datetime_of_loops t left year month day e f = ground (arith)

-- For every Unix time `clock_datetime` ends, reads nothing beyond its table of months, and yields
-- an hour, a minute and a second in their ranges, a month from 1 to 12, a day from 1 to 32 and a
-- day of the week from 0 to 6.
pub clock_datetime_total :
    (t : ℕ)
    → (d : Datetime) × (clock_datetime t ≡ some d)
      × (d.sec < 60)
      × (d.minute < 60)
      × (d.hour < 24)
      × (1 ≤ d.month)
      × (d.month ≤ 12)
      × (1 ≤ d.day)
      × (d.day ≤ 32)
      × (d.dow < 7)
clock_datetime_total t =
    let r = year_loop (days_of t + 1) (days_of t) epoch_year in
    let (m, found, small, short) = month_loop_total (is_leap_year r.1) r.0 (
      rw (is_leap_year-leap r.1)
        (year_loop-lt (days_of t + 1) (days_of t) epoch_year (omega arith))) in
    (
      filled t r.1 m.0 m.1,
      datetime_of_loops t r.0 r.1 m.0 m.1 refl found,
      omega arith,
      omega arith,
      omega arith,
      omega arith,
      omega arith,
      omega arith,
      omega arith,
      omega arith,
    )

-- The clock's reading of a date and time; 1970-01-01 was a Thursday, day 4 of the week.
abbrev pub shown : Civil → Datetime
shown c = record {
  sec = c.seconds;
  minute = c.minutes;
  hour = c.hours;
  day = c.days + 1;
  month = c.months + 1;
  dow = (day_number c + 4) % 7;
  year = 70 + c.years;
}

-- The time of day and the day are read off the number of seconds.
time_of_day :
    (n h m s : ℕ)
    → h < 24
    → m < 60
    → s < 60
    → n * 86400 + h * 3600 + m * 60 + s < 2 ^ 32
    → let t = n * 86400 + h * 3600 + m * 60 + s in
      (days_of t ≡ n) × (t % 60 ≡ s) × ((t / 60) % 60 ≡ m) × ((t / 60 / 60) % 24 ≡ h)
time_of_day n h m s hh hm hs b = omega arith

module _ (c : Civil) (v : IsCivil c) (b : unix_time c < 2 ^ 32) where
  clock_time :
      (days_of (unix_time c) ≡ day_number c)
      × (unix_time c % 60 ≡ c.seconds)
      × ((unix_time c / 60) % 60 ≡ c.minutes)
      × ((unix_time c / 60 / 60) % 24 ≡ c.hours)
  clock_time =
      time_of_day (day_number c) c.hours c.minutes c.seconds v.hour_in v.minute_in v.second_in b

  year_loop-unix_time :
      year_loop (days_of (unix_time c) + 1) (days_of (unix_time c)) epoch_year
      ≡ (day_of_year c, 1970 + c.years)
  year_loop-unix_time = rw (clock_time.0) (
      year_loop-span c.years (day_number c + 1) 1970 (1970 + c.years) (day_of_year c) refl
        (month_start_lt (leap_of c) c.months c.days v.month_in v.day_in) (omega arith))

  datetime_of_month :
      (m d : ℕ)
      → d < 32
      → month_loop months 0 (leap_of c) (day_of_year c) ≡ some (m, d)
      → clock_datetime (unix_time c) ≡ some (record (shown c) { month = m + 1; day = d + 1 })
  datetime_of_month m d h e =
      datetime_of_loops (unix_time c) (day_of_year c) (1970 + c.years) m d year_loop-unix_time
        (ap (λ l. month_loop months 0 l (day_of_year c)) (is_leap_year-leap (1970 + c.years)) ∙ e)
      ∙ ap some (same (unix_time c) (day_number c) c.years m d h recent clock_time)
    where
      recent : c.years < 186
      recent = omega (arith, span-ge 1970 c.years)

      same :
          (t n y m d : ℕ)
          → d < 32
          → y < 186
          → (days_of t ≡ n)
            × (t % 60 ≡ c.seconds)
            × ((t / 60) % 60 ≡ c.minutes)
            × ((t / 60 / 60) % 24 ≡ c.hours)
          → filled t (1970 + y) m d ≡ record {
            sec = c.seconds;
            minute = c.minutes;
            hour = c.hours;
            day = d + 1;
            month = m + 1;
            dow = (n + 4) % 7;
            year = 70 + y;
          }
      same t n y m d hd hy e = ground arith

-- At every second of the calendar that fits into 32 bits, February 29 and March of leap years
-- excepted, `clock_datetime` yields that second's date and time, with the year counted from 1900
-- and the day of the week counted from Sunday.
pub clock_datetime-unix_time :
    (c : Civil)
    → IsCivil c
    → unix_time c < 2 ^ 32
    → is_shifted (leap_of c) c.months c.days ≡ false
    → clock_datetime (unix_time c) ≡ some (shown c)
clock_datetime-unix_time c v b ok =
    datetime_of_month c v b c.months c.days
      (omega (arith, month_length-le (leap_of c) (c.months + 1)))
      (month_loop-right (leap_of c) c.months c.days v.month_in v.day_in ok)

-- In March of a leap year the date is a day ahead of the calendar: the day that the code adds in a
-- leap year is added to the month with index 2, which is March.
pub leap_march-ahead :
    (c : Civil)
    → IsCivil c
    → unix_time c < 2 ^ 32
    → leap_of c ≡ true
    → c.months ≡ 2
    → clock_datetime (unix_time c) ≡ some (record (shown c) { day = c.days + 2 })
unfolding month_start
leap_march-ahead c v b leap march =
    datetime_of_month c v b 2 (c.days + 1)
      (omega (arith, month_length-le (leap_of c) (c.months + 1)))
      (ap₂ (λ l n. month_loop months 0 l n) leap day_of_march
        ∙ month_loop-shifted (c.days + 1)
            (omega (arith, month_length-le (leap_of c) (c.months + 1))))
    ∙ ap₂ (λ d m. some (record (shown c) { day = d; month = m })) (omega arith) (omega arith)
  where
    day_of_march : day_of_year c ≡ 59 + (c.days + 1)
    day_of_march = ap₂ (λ l m. month_start l m + c.days) leap march ∙ omega arith
