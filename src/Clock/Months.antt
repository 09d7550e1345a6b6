-- ===== src/Clock/Months.antt =====
-- The loop over the months, checked for every day of a year by evaluation.
use ir.Prelude.{
  ℕ, ◌+◌, ◌<◌, ◌≤◌, ◌≡◌, refl, Bool, true, false, not, ◌&&◌, ◌||◌, Option, none, some, arith,
  if◌then◌else◌, leb, leb→le, ltb, ◌==◌,
}
use ir.Prelude.Tables.{upto, upto_at}
use ir.Clock.Date.{months, month_loop}
use ir.Clock.Gregorian.{month_length, month_start}

abbrev is_at : Option (ℕ × ℕ) → ℕ → ℕ → Bool
is_at none m d = false
is_at (some (a, b)) m d = a == m && b == d

is_at_sound : (o : Option (ℕ × ℕ)) (m d : ℕ) → is_at o m d ≡ true → o ≡ some (m, d)
is_at_sound none m d h = cc
is_at_sound (some (a, b)) m d h = ground arith

-- The days from February 29 to March 31 of a leap year, by month and day from 0.
abbrev pub is_shifted : Bool → ℕ → ℕ → Bool
is_shifted leap m d = leap && (m == 1 && d == 28 || m == 2)

right_at : Bool → ℕ → ℕ → Bool
right_at leap m d =
    not (ltb d (month_length leap (m + 1)))
    || is_shifted leap m d
    || is_at (month_loop months 0 leap (month_start leap m + d)) m d

right_table : (leap : Bool) → upto (λ m. upto (right_at leap m) 31) 12 ≡ true
unfolding upto right_at month_loop month_start
right_table true = refl
right_table false = refl

pub month_length-le : (leap : Bool) (m : ℕ) → month_length leap m ≤ 31
unfolding month_length
month_length-le leap m = ground arith

-- Outside of those days the loop finds the month and the day.
pub month_loop-right :
    (leap : Bool) (m d : ℕ)
    → m < 12
    → d < month_length leap (m + 1)
    → is_shifted leap m d ≡ false
    → month_loop months 0 leap (month_start leap m + d) ≡ some (m, d)
unfolding right_at
month_loop-right leap m d hm hd ok =
    is_at_sound _ m d (ground (arith, row, month_length-le leap (m + 1)))
  where
    row : right_at leap m d ≡ true
    row =
        upto_at (right_at leap m) d 31 (omega (arith, month_length-le leap (m + 1)))
          (upto_at (λ k. upto (right_at leap k) 31) m 12 hm (right_table leap))

shifted_at : ℕ → Bool
shifted_at i = is_at (month_loop months 0 true (59 + i)) 2 i

shifted_table : upto shifted_at 32 ≡ true
unfolding upto shifted_at month_loop
shifted_table = refl

-- In a leap year the 59th day of the year, counted from 0, is the first of a March of 32 days.
pub month_loop-shifted : (i : ℕ) → i < 32 → month_loop months 0 true (59 + i) ≡ some (2, i)
unfolding shifted_at
month_loop-shifted i h = is_at_sound _ 2 i (upto_at shifted_at i 32 h shifted_table)

in_year : Option (ℕ × ℕ) → Bool
in_year none = false
in_year (some (m, d)) = ltb m 12 && ltb d 32

total_table :
    (leap : Bool)
    → upto (λ d. in_year (month_loop months 0 leap d)) (if leap then 366 else 365) ≡ true
unfolding upto in_year month_loop
total_table true = refl
total_table false = refl

in_year_sound :
    (o : Option (ℕ × ℕ)) → in_year o ≡ true → (r : ℕ × ℕ) × (o ≡ some r) × (r.0 < 12) × (r.1 < 32)
unfolding in_year
in_year_sound none h = cc
in_year_sound (some r) h = (r, refl, ground arith, ground arith)

-- Within a year the loop never reads beyond its table.
pub month_loop_total :
    (leap : Bool) (days : ℕ)
    → days < (if leap then 366 else 365)
    → (r : ℕ × ℕ) × (month_loop months 0 leap days ≡ some r) × (r.0 < 12) × (r.1 < 32)
month_loop_total leap days h =
    in_year_sound (month_loop months 0 leap days)
      (upto_at (λ d. in_year (month_loop months 0 leap d)) days _ h (total_table leap))

fits_at : Bool → ℕ → Bool
fits_at leap m = leb (month_start leap m + month_length leap (m + 1)) (if leap then 366 else 365)

fits_table : (leap : Bool) → upto (fits_at leap) 12 ≡ true
unfolding upto fits_at month_start
fits_table true = refl
fits_table false = refl

-- The months lie within the year.
pub month_start_lt :
    (leap : Bool) (m d : ℕ)
    → m < 12
    → d < month_length leap (m + 1)
    → month_start leap m + d < (if leap then 366 else 365)
unfolding fits_at
month_start_lt leap m d hm hd =
    omega (arith, leb→le _ _ (upto_at (fits_at leap) m 12 hm (fits_table leap)))
