-- ===== src/Clock/Gregorian.antt =====
-- The calendar, independently of the code: lengths of years and months, and the number of a day
-- and of a second since 1970-01-01 00:00:00.
use ir.Prelude.{true, false, ◌%◌, ℕ, zero, suc, ◌+◌, ◌*◌, ◌<◌, Bool, if◌then◌else◌, ◌==◌}

-- Every fourth year, less the centuries, but every fourth century.
unfoldable pub leap : ℕ → Bool
leap y = if y % 400 == 0 then true else if y % 100 == 0 then false else y % 4 == 0

abbrev pub year_length : ℕ → ℕ
year_length y = if leap y then 366 else 365

-- the days of `k` years from `y` on
unfoldable pub span : ℕ → ℕ → ℕ
span y zero = 0
span y (suc k) = year_length y + span (suc y) k

-- the length of the month `m`, from 1
unfoldable pub month_length : Bool → ℕ → ℕ
month_length long m =
    if m == 2
    then (if long then 29 else 28)
    else if m == 4
    then 30
    else if m == 6
    then 30
    else if m == 9
    then 30
    else if m == 11
    then 30
    else 31

-- the days of the year before the month `m + 1`
unfoldable pub month_start : Bool → ℕ → ℕ
unfolding month_length
month_start long zero = 0
month_start long (suc m) = month_start long m + month_length long (suc m)

-- A date and time of the year `1970 + years`; the month and the day count from 0 here.
pub record Civil : Type 0 where
  pub years : ℕ
  pub months : ℕ
  pub days : ℕ
  pub hours : ℕ
  pub minutes : ℕ
  pub seconds : ℕ

abbrev pub leap_of : Civil → Bool
leap_of c = leap (1970 + c.years)

pub record IsCivil (c : Civil) : Type 0 where
  pub month_in : c.months < 12
  pub day_in : c.days < month_length (leap_of c) (c.months + 1)
  pub hour_in : c.hours < 24
  pub minute_in : c.minutes < 60
  pub second_in : c.seconds < 60

abbrev pub day_of_year : Civil → ℕ
day_of_year c = month_start (leap_of c) c.months + c.days

abbrev pub day_number : Civil → ℕ
day_number c = span 1970 c.years + day_of_year c

abbrev pub unix_time : Civil → ℕ
unix_time c = day_number c * 86400 + c.hours * 3600 + c.minutes * 60 + c.seconds
