-- ===== src/Dcf77/Content.antt =====
-- A minute as a telegram of DCF77 says it, and a state of hardware/clock/dcf77/dcf77.c by its bytes.
use ir.Prelude.{
  ℕ, ◌+◌, ◌-◌, ◌≤◌, ◌≡◌, refl, Bool, true, false, List, [], ◌∷◌, length, arith, ◌==◌, if◌then◌else◌,
  get_or,
}
use ir.Clock.Gregorian.{Civil, month_length}
use ir.Dcf77.{Telegram}
use ir.Dcf77.Bits.{bit}
use ir.Dcf77.Fields.{state}
use ir.Dcf77.Seconds.{Content}
use ir.Dcf77.Stages.{bytes}
use ir.Dcf77.Valid.{IsTelegram, parity_bit}

-- What the telegram says of the minute that begins at `c`.
unfoldable pub content_of : List Bool → Bool → Bool → ℕ → Civil → Content
content_of weather leap_second summer weekday c = record {
  weather = weather;
  leap_second = leap_second;
  summer = summer;
  minute = c.minutes;
  hour = c.hours;
  day = c.days + 1;
  weekday = weekday;
  month = c.months + 1;
  year = c.years - 30;
}

pub month_bound : (leap : Bool) (m : ℕ) → month_length leap m ≤ 31
unfolding month_length
month_bound true m = ground arith
month_bound false m = ground arith

bytes_of :
    (xs : List ℕ)
    → length xs ≡ 8
    → xs
      ≡ bytes
          (get_or xs 0 0)
          (get_or xs 1 0)
          (get_or xs 2 0)
          (get_or xs 3 0)
          (get_or xs 4 0)
          (get_or xs 5 0)
          (get_or xs 6 0)
          (get_or xs 7 0)
bytes_of [] e = absurd (omega (arith, e))
bytes_of (a ∷ []) e = absurd (omega (arith, e))
bytes_of (a ∷ b ∷ []) e = absurd (omega (arith, e))
bytes_of (a ∷ b ∷ c ∷ []) e = absurd (omega (arith, e))
bytes_of (a ∷ b ∷ c ∷ d ∷ []) e = absurd (omega (arith, e))
bytes_of (a ∷ b ∷ c ∷ d ∷ f ∷ []) e = absurd (omega (arith, e))
bytes_of (a ∷ b ∷ c ∷ d ∷ f ∷ g ∷ []) e = absurd (omega (arith, e))
bytes_of (a ∷ b ∷ c ∷ d ∷ f ∷ g ∷ h ∷ []) e = absurd (omega (arith, e))
bytes_of (a ∷ b ∷ c ∷ d ∷ f ∷ g ∷ h ∷ i ∷ []) e = refl
bytes_of (a ∷ b ∷ c ∷ d ∷ f ∷ g ∷ h ∷ i ∷ j ∷ xs) e = absurd (omega (arith, e))

pub hours_ahead :
    (summer : Bool)
    → ◌≡◌ {A = ℕ} (if bit summer == 0 then 3600 else 7200) (if summer then 7200 else 3600)
unfolding bit
hours_ahead true = refl
hours_ahead false = refl

pub started :
    (g : Telegram)
    → IsTelegram g
    → g.sync ≡ 1
    → g
      ≡ state g.timezone
          (bytes
            (get_or g.time 0 0)
            (get_or g.time 1 0)
            (get_or g.time 2 0)
            (get_or g.time 3 0)
            (get_or g.time 4 0)
            (get_or g.time 5 0)
            (get_or g.time 6 0)
            (get_or g.time 7 0))
          g.timebyte
          (g.timeparity == 1)
          1
started g v start = λ i. record {
  timezone = g.timezone;
  time = bytes_of g.time v.eight i;
  timebyte = g.timebyte;
  timeparity = parity_bit g.timeparity v.parity i;
  sync = start i;
}
