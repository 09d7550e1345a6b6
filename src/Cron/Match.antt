-- ===== src/Cron/Match.antt =====
-- The times of a job of services/cron/cron.h, independently of the code: which values of the clock
-- a field of an event stands for.
use ir.Prelude.{
  ℕ, zero, suc, ◌*◌, ◌/◌, ◌%◌, ◌≡◌, refl, ap, sym, ◌∙◌, ◌↔◌, Bool, true, ◌&&◌, ==_iff, arith,
}
use native.Mathlib.Nat.{div-add-mod', mul-mod_left}
use ir.Prelude.Int.{ℤ, pos, negsuc}
use ir.Clock.Date.{Datetime}
use ir.Cron.Heap.{CronEvent}
use ir.Cron.Periodic.{matches_field, matches_fields, matches}

-- A number stands for itself, -1 for every value, and -n from -2 on for the multiples of n.
abbrev pub IsMatch : ℤ → ℕ → Type 0
IsMatch (pos n) v = v ≡ n
IsMatch (negsuc zero) v = Unit
IsMatch (negsuc (suc m)) v = (k : ℕ) × (v ≡ k * suc (suc m))

-- The minute, the hour, the day, the month and the day of the week all match.
pub record IsDue (d : Datetime) (e : CronEvent) : Type 0 where
  pub minute_match : IsMatch e.minute d.minute
  pub hour_match : IsMatch e.hour d.hour
  pub day_match : IsMatch e.day d.day
  pub month_match : IsMatch e.month d.month
  pub dayofweek_match : IsMatch e.dayofweek d.dow

matches_field-IsMatch : (f : ℤ) (v : ℕ) → matches_field f v ≡ true ↔ IsMatch f v
unfolding matches_field
matches_field-IsMatch (pos n) v = (λ h. sym ((==_iff n v).0 h), λ h. (==_iff n v).1 (sym h))
matches_field-IsMatch (negsuc zero) v = (λ h. tt, λ h. refl)
matches_field-IsMatch (negsuc (suc m)) v = (
  λ h. (
    v / suc (suc m),
    sym (div-add-mod' v (suc (suc m))) ∙ omega (arith, (==_iff (v % suc (suc m)) 0).0 h),
  ),
  λ (k, h).
      (==_iff (v % suc (suc m)) 0).1 (ap (λ w. w % suc (suc m)) h ∙ mul-mod_left k (suc (suc m))),
)

all_five :
    (a b c d e : Bool)
    → (a && (b && (c && (d && (e && true))))) ≡ true
    → (a ≡ true) × (b ≡ true) × (c ≡ true) × (d ≡ true) × (e ≡ true)
all_five a b c d e h = (ground arith, ground arith, ground arith, ground arith, ground arith)

pub matches-IsDue : (d : Datetime) (e : CronEvent) → matches d e ≡ true ↔ IsDue d e
unfolding matches matches_fields
matches-IsDue d e = (
  λ h.
      let (minute, hour, day, month, dow) = all_five _ _ _ _ _ h in
      record {
        minute_match = (matches_field-IsMatch e.minute d.minute).0 minute;
        hour_match = (matches_field-IsMatch e.hour d.hour).0 hour;
        day_match = (matches_field-IsMatch e.day d.day).0 day;
        month_match = (matches_field-IsMatch e.month d.month).0 month;
        dayofweek_match = (matches_field-IsMatch e.dayofweek d.dow).0 dow;
      },
  λ due.
      rw
        (
          (matches_field-IsMatch e.minute d.minute).1 due.minute_match,
          (matches_field-IsMatch e.hour d.hour).1 due.hour_match,
          (matches_field-IsMatch e.day d.day).1 due.day_match,
          (matches_field-IsMatch e.month d.month).1 due.month_match,
          (matches_field-IsMatch e.dayofweek d.dow).1 due.dayofweek_match,
        )
        refl,
)
