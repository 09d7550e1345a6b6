-- ===== src/Dcf77/Seconds.antt =====
-- What a telegram of DCF77 says, and its bits, independently of hardware/clock/dcf77/dcf77.c.
use ir.Prelude.{
  ℕ, ◌<◌, ◌≡◌, refl, Bool, true, false, not, List, [], ◌∷◌, ◌++◌, length, length-append, arith,
}
use ir.Dcf77.Bits.{bits, bcd, parity_of}

-- What a telegram says: the weather and the announcements of seconds 1 to 16, whether a leap second
-- comes, summer time, and the date and time of the minute that follows, the numbers from 0 and 1 as
-- they are shown.
pub record Content : Type 0 where
  pub weather : List Bool
  pub leap_second : Bool
  pub summer : Bool
  pub minute : ℕ
  pub hour : ℕ
  pub day : ℕ
  pub weekday : ℕ
  pub month : ℕ
  pub year : ℕ

pub record IsContent (c : Content) : Type 0 where
  pub weather_size : length c.weather ≡ 16
  pub minute_in : c.minute < 60
  pub hour_in : c.hour < 24
  pub day_in : c.day < 32
  pub month_in : c.month < 13
  pub year_in : c.year < 100

unfoldable pub date_bits : Content → List Bool
date_bits c =
    bits 6 (bcd c.day) ++ (bits 3 c.weekday ++ (bits 5 (bcd c.month) ++ bits 8 (bcd c.year)))

-- A number with the parity of its bits.
unfoldable pub checked : ℕ → ℕ → List Bool
checked width n = bits width (bcd n) ++ (parity_of (bits width (bcd n)) false ∷ [])

-- The seconds 0 to 57. The second 58 has the parity of the date.
unfoldable pub seconds : Content → List Bool
seconds c =
    ((false ∷ c.weather) ++ (c.summer ∷ not c.summer ∷ c.leap_second ∷ true ∷ []))
    ++ (checked 7 c.minute ++ (checked 6 c.hour ++ date_bits c))

unfoldable pub date_parity : Content → Bool
date_parity c = parity_of (date_bits c) false

pub length-seconds : (c : Content) → length c.weather ≡ 16 → length (seconds c) ≡ 58
unfolding seconds checked date_bits bits
length-seconds c size =
    let announced = c.summer ∷ not c.summer ∷ c.leap_second ∷ true ∷ [] in
    let time = checked 7 c.minute ++ (checked 6 c.hour ++ date_bits c) in
    let rest : length time ≡ 37 = refl in
    omega (
      arith,
      size,
      rest,
      length-append (false ∷ c.weather) announced,
      length-append ((false ∷ c.weather) ++ announced) time,
    )
