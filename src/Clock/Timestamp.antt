-- ===== src/Clock/Timestamp.antt =====
-- `clock_utc2timestamp` of services/clock/clock.c, which turns the date of a DCF77 receiver, with a
-- year of the century and in local time, into Unix time.
use ir.Prelude.{
  ℕ, zero, suc, ◌+◌, ◌-◌, ◌*◌, ◌%◌, ◌^◌, ◌<◌, ◌≤◌, ◌≡◌, refl, Bool, true, false, ◌&&◌, Option, none,
  some, arith, ltb, ◌==◌, ==_iff, if◌then◌else◌, get_elem?, ap, sym, ◌∙◌,
}
use ir.Prelude.Words.{add32, sub32}
use ir.Prelude.Tables.{upto, upto_at}
use mathlib.Core.Option
use ir.Clock.Date.{Datetime, months, is_leap_year, epoch_year}
use ir.Clock.Years.{span-ge, is_leap_year-leap}
use ir.Clock.Gregorian.{
  Civil, IsCivil, leap_of, unix_time, span, month_start, month_length, year_length,
}

-- The loop over the months, from `month` back to 1; `none` is a read beyond the table.
unfoldable pub months_back : ℕ → Bool → ℕ → Option ℕ
months_back zero leap timestamp = some timestamp
months_back (suc k) leap timestamp = elim (get_elem? months k) [
  | none ↦ none
  | some length ↦
      months_back k leap
        (add32 timestamp ((if suc k == 2 && leap then length + 1 else length) * 86400))
]

-- The loop over the years from `year` up to `end`, not included.
unfoldable pub years_up : ℕ → ℕ → ℕ → ℕ → ℕ
years_up zero end year timestamp = timestamp
years_up (suc fuel) end year timestamp = elim (ltb year end) [
  | true ↦
      years_up fuel end (year + 1)
        (add32 timestamp (if is_leap_year year then 31622400 else 31536000))
  | false ↦ timestamp
]

-- The seconds, minutes, hours and days, added up.
abbrev since_month_start : Datetime → ℕ
since_month_start d =
    sub32 (add32 ((d.sec + d.minute * 60 + d.hour * 3600) % 2 ^ 32) (d.day * 86400)) 86400

-- The timestamp, and the date as the function leaves it. The years take fewer rounds than `end`.
unfoldable pub clock_utc2timestamp : Datetime → ℕ → Option (ℕ × Datetime)
unfolding months_back years_up
clock_utc2timestamp d cest =
    Option.map
      (λ t.
        let all = years_up (d.year + 2000) (d.year + 2000) epoch_year t in
        (sub32 all (if cest == 0 then 3600 else 7200), record d { month = 0 }))
      (months_back ((d.month + 255) % 256) (is_leap_year d.year) (since_month_start d))

length_at : Option ℕ → Bool → ℕ → Bool
length_at none leap k = false
length_at (some n) leap k = (if suc k == 2 && leap then n + 1 else n) == month_length leap (suc k)

length_table : (leap : Bool) → upto (λ k. length_at (get_elem? months k) leap k) 12 ≡ true
unfolding upto length_at month_length
length_table true = refl
length_table false = refl

length_at_sound :
    (o : Option ℕ) (leap : Bool) (k : ℕ)
    → length_at o leap k ≡ true
    → (n : ℕ) × (o ≡ some n)
      × ((if suc k == 2 && leap then n + 1 else n) ≡ month_length leap (suc k))
unfolding length_at
length_at_sound none leap k h = cc
length_at_sound (some n) leap k h = (n, refl, (==_iff _ _).0 h)

months_back-month_start :
    (m : ℕ) (leap : Bool) (t : ℕ)
    → m < 13
    → t < 2 ^ 32
    → months_back m leap t ≡ some ((t + month_start leap m * 86400) % 2 ^ 32)
unfolding months_back month_start
months_back-month_start zero leap t h b = ap some (omega arith)
months_back-month_start (suc k) leap t h b =
    let (n, found, same) = length_at_sound (get_elem? months k) leap k (
      upto_at (λ j. length_at (get_elem? months j) leap j) k 12 (omega arith)
        (length_table leap)) in
    rw (found, same)
      (months_back-month_start k leap _ (omega arith) (omega arith) ∙ ap some (omega arith))

years_up-stop : (fuel y t : ℕ) → years_up (suc fuel) y y t ≡ t
unfolding years_up
years_up-stop fuel y t = ground arith

years_up-next :
    (fuel z y t : ℕ)
    → y < z
    → years_up (suc fuel) z y t ≡ years_up fuel z (suc y) (add32 t (year_length y * 86400))
unfolding years_up
years_up-next fuel z y t h = ground (arith, is_leap_year-leap y)

years_up-span :
    (k fuel y z t : ℕ)
    → z ≡ y + k
    → k < fuel
    → t < 2 ^ 32
    → years_up fuel z y t ≡ (t + span y k * 86400) % 2 ^ 32
unfolding span
years_up-span k zero y z t e h b = absurd (omega arith)
years_up-span zero (suc fuel) y z t e h b =
    ap (λ w. years_up (suc fuel) w y t) (omega arith) ∙ years_up-stop fuel y t ∙ omega arith
years_up-span (suc k) (suc fuel) y z t e h b =
    years_up-next fuel z y t (omega arith)
    ∙ years_up-span k fuel (suc y) z _ (omega arith) (omega arith) (omega arith)
    ∙ omega arith

-- The date that DCF77 reports for a time of the years 2000 to 2106, with a day of the week.
abbrev pub reported : ℕ → Civil → Datetime
reported dow c = record {
  sec = c.seconds;
  minute = c.minutes;
  hour = c.hours;
  day = c.days + 1;
  month = c.months + 1;
  dow = dow;
  year = c.years - 30;
}

leap-century : (y : ℕ) → is_leap_year (2000 + y) ≡ is_leap_year y
unfolding is_leap_year
leap-century y = ground arith

total :
    (s m h d n y off : ℕ)
    → h < 24
    → m < 60
    → s < 60
    → (y + (n + d)) * 86400 + h * 3600 + m * 60 + s < 2 ^ 32
    → 1 ≤ y
    → off ≤ 86400
    → sub32
        (add32
          (add32
            (sub32 (add32 ((s + m * 60 + h * 3600) % 2 ^ 32) ((d + 1) * 86400)) 86400)
            (n * 86400))
          (y * 86400))
        off
      ≡ (y + (n + d)) * 86400 + h * 3600 + m * 60 + s - off
total s m h d n y off hh hm hs b hy ho = omega arith

-- From 2000 on, the timestamp of a valid date is the number of seconds from 1970-01-01 to it, less
-- one hour, or two hours if the summer-time flag is set, as long as that number fits into 32 bits;
-- nothing beyond the table of months is read, and the date's month is left at 0.
pub clock_utc2timestamp-unix_time :
    (c : Civil) (dow cest : ℕ)
    → IsCivil c
    → 30 ≤ c.years
    → unix_time c < 2 ^ 32
    → clock_utc2timestamp (reported dow c) cest
      ≡ some
          (unix_time c - (if cest == 0 then 3600 else 7200), record (reported dow c) { month = 0 })
unfolding clock_utc2timestamp
clock_utc2timestamp-unix_time c dow cest v late b =
    rw
      (
        month,
        leap,
        months_back-month_start c.months (leap_of c) (since_month_start (reported dow c))
            (omega arith) (omega arith),
      )
      (ap (λ n. some (n, record (reported dow c) { month = 0 }))
        (rw
          (years_up-span c.years (c.years - 30 + 2000) 1970 (c.years - 30 + 2000)
            ((since_month_start (reported dow c) + month_start (leap_of c) c.months * 86400)
              % 2 ^ 32)
            (omega arith) (omega arith) (omega arith))
          (total c.seconds c.minutes c.hours c.days (month_start (leap_of c) c.months)
            (span 1970 c.years) _ v.hour_in v.minute_in v.second_in b
            (omega (arith, span-ge 1970 c.years)) (ground arith))))
  where
    month : (c.months + 1 + 255) % 256 ≡ c.months
    month = omega arith

    leap : is_leap_year (c.years - 30) ≡ leap_of c
    leap =
        sym (leap-century (c.years - 30))
        ∙ ap is_leap_year (omega arith)
        ∙ is_leap_year-leap (1970 + c.years)
