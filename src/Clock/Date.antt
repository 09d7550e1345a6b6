-- ===== src/Clock/Date.antt =====
-- `clock_datetime` of services/clock/clock.c, with `struct clock_datetime_t` and `is_leap_year` of
-- services/clock/clock.h.
use ir.Prelude.{
  ℕ, zero, suc, ◌+◌, ◌-◌, ◌/◌, ◌%◌, Bool, true, false, not, ◌&&◌, ◌||◌, Option, none, some, List,
  [], ◌∷◌, ltb, leb, ◌==◌, if◌then◌else◌,
}
use ir.Prelude.Words.{add8}
use mathlib.Core.Option

pub record Datetime : Type 0 where
  pub sec : ℕ
  pub minute : ℕ
  pub hour : ℕ
  pub day : ℕ
  pub month : ℕ
  pub dow : ℕ
  pub year : ℕ

abbrev pub epoch_year : ℕ
epoch_year = 1970

abbrev pub epoch_dow : ℕ
epoch_dow = 4

abbrev pub months : List ℕ
months = 31 ∷ 28 ∷ 31 ∷ 30 ∷ 31 ∷ 30 ∷ 31 ∷ 31 ∷ 30 ∷ 31 ∷ 30 ∷ 31 ∷ []

unfoldable pub is_leap_year : ℕ → Bool
is_leap_year y = (y % 4 == 0) && (not (y % 100 == 0) || (y % 400 == 0))

-- The loop over the years: the days left, and the year.
unfoldable pub year_loop : ℕ → ℕ → ℕ → ℕ × ℕ
year_loop zero days year = (days, year)
year_loop (suc fuel) days year = elim (leb 365 days) [
  | false ↦ (days, year)
  | true ↦ elim (is_leap_year year) [
    | true ↦ elim (days == 365) [
      | true ↦ (days, year)
      | false ↦ year_loop fuel (days - 1 - 365) (year + 1)
    ]
    | false ↦ year_loop fuel (days - 365) (year + 1)
  ]
]

-- The loop over the months, from index `month` on: the month's index, and the days left. `none` is
-- a read beyond the table.
unfoldable pub month_loop : List ℕ → ℕ → Bool → ℕ → Option (ℕ × ℕ)
month_loop [] month leap days = none
month_loop (length ∷ rest) month leap days =
    let monthdays = if month == 2 && leap then length + 1 else length in
    let later = month_loop rest (month + 1) leap (days - monthdays) in
    if ltb days monthdays then some (month, days) else later

-- `uint16_t days`
abbrev pub days_of : ℕ → ℕ
days_of timestamp = (timestamp / 60 / 60 / 24) % 65536

-- The years take at most as many rounds as there are days.
unfoldable pub clock_datetime : ℕ → Option Datetime
unfolding year_loop month_loop
clock_datetime timestamp =
    let days = days_of timestamp in
    let (left, year) = year_loop (days + 1) days epoch_year in
    Option.map
      (λ r. record {
        sec = timestamp % 60;
        minute = (timestamp / 60) % 60;
        hour = (timestamp / 60 / 60) % 24;
        day = add8 (r.1 % 256) 1;
        month = r.0 + 1;
        dow = (days + epoch_dow) % 7;
        year = (year - 1900) % 256;
      })
      (month_loop months 0 (is_leap_year year) left)
