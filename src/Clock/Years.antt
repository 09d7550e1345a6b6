-- ===== src/Clock/Years.antt =====
-- The loop over the years.
use ir.Prelude.{ℕ, zero, suc, ◌+◌, ◌-◌, ◌*◌, ◌<◌, ◌≤◌, ◌≡◌, arith, ap, ◌∙◌}
use native.Mathlib.Nat.{add_assoc}
use ir.Clock.Date.{year_loop, is_leap_year}
use ir.Clock.Gregorian.{leap, year_length, span}

-- The code's rule is the calendar's.
pub is_leap_year-leap : (y : ℕ) → is_leap_year y ≡ leap y
unfolding is_leap_year leap
is_leap_year-leap y = ground arith

pub span-ge : (y k : ℕ) → 365 * k ≤ span y k
unfolding span
span-ge y zero = omega arith
span-ge y (suc k) = ground (arith, span-ge (suc y) k)

year_loop-stop : (fuel days y : ℕ) → days < year_length y → year_loop (suc fuel) days y ≡ (days, y)
unfolding year_loop
year_loop-stop fuel days y h = ground (arith, is_leap_year-leap y)

year_loop-next :
    (fuel days y : ℕ) → year_loop (suc fuel) (year_length y + days) y ≡ year_loop fuel days (suc y)
unfolding year_loop
year_loop-next fuel days y = ground (arith, is_leap_year-leap y)

-- Started at a year's first day with the days of `k` years and `rest`, it stops after `k` years.
pub year_loop-span :
    (k fuel y z rest : ℕ)
    → z ≡ y + k
    → rest < year_length z
    → span y k + rest < fuel
    → year_loop fuel (span y k + rest) y ≡ (rest, z)
unfolding span
year_loop-span k zero y z rest e h f = absurd (omega arith)
year_loop-span zero (suc fuel) y z rest e h f =
    let same : z ≡ y = omega arith in ground (arith, year_loop-stop fuel (0 + rest) y)
year_loop-span (suc k) (suc fuel) y z rest e h f =
    ap (λ d. year_loop (suc fuel) d y) (add_assoc (year_length y) (span (suc y) k) rest)
    ∙ year_loop-next fuel (span (suc y) k + rest) y
    ∙ year_loop-span k fuel (suc y) z rest (omega arith) h (ground arith)

-- Whatever the number of days, it stops within a year.
pub year_loop-lt :
    (fuel days y : ℕ)
    → days < fuel
    → (year_loop fuel days y).0 < year_length (year_loop fuel days y).1
unfolding year_loop
year_loop-lt zero days y h = absurd (omega arith)
year_loop-lt (suc fuel) days y h = ground (
  arith,
  is_leap_year-leap y,
  year_loop-lt fuel (days - 365) (y + 1),
  year_loop-lt fuel (days - 1 - 365) (y + 1),
)
