-- ===== src/Dcf77/Decode.antt =====
-- A whole telegram of DCF77 (its 59 seconds from the start of a minute), and what the pulses of
-- hardware/clock/dcf77/dcf77.c leave of it.
use ir.Prelude.{ℕ, ◌/◌, ◌<◌, ◌≡◌, ap, ap₂, sym, ◌∙◌, Bool, true, false, not, [], ◌∷◌, ◌++◌, arith}
use ir.Dcf77.Bits.{
  bit, bits, bcd, parity_of, shifted, shifted-bits_seven, shifted-bits_six, shifted-bits_five,
  shifted-bits_eight,
}
use ir.Dcf77.Fields.{run, state}
use ir.Dcf77.Seconds.{Content, IsContent, date_bits, checked, seconds, date_parity}
use ir.Dcf77.Stages.{
  bytes, run-append, parity_of-append, minutes_lem, hours_lem, days_lem, weekday_lem, month_lem,
  year_lem, minutes_end, hours_end, head_lem,
}

date_run :
    (c : Content) (z t0 t1 t2 t3 t4 t5 t6 t7 : ℕ) (p : Bool)
    → IsContent c
    → t4 < 256
    → t5 < 256
    → t6 < 256
    → t7 < 256
    → run (date_bits c) (state z (bytes t0 t1 t2 t3 t4 t5 t6 t7) 0 p 37)
      ≡ state z
          (bytes t0 t1 t2 t3
            (bcd c.day)
            (shifted (bits 3 c.weekday) t5 / 32)
            (bcd c.month)
            (bcd c.year))
          7
          (date_parity c)
          59
unfolding date_bits date_parity bcd
date_run c z t0 t1 t2 t3 t4 t5 t6 t7 p v b4 b5 b6 b7 =
    let days = bits 6 (bcd c.day) in
    let dow = bits 3 c.weekday in
    let month = bits 5 (bcd c.month) in
    let year = bits 8 (bcd c.year) in
    let d = shifted-bits_six (bcd c.day) t4 b4 (omega (arith, v.day_in)) in
    let m = shifted-bits_five (bcd c.month) t6 b6 (omega (arith, v.month_in)) in
    let y = shifted-bits_eight (bcd c.year) t7 b7 (omega (arith, v.year_in)) in
    let q = parity_of days false in
    let r = parity_of dow q in
    let all : parity_of year (parity_of month r) ≡ date_parity c = sym (
      parity_of-append days (dow ++ (month ++ year)) false
      ∙ parity_of-append dow (month ++ year) q
      ∙ parity_of-append month year r) in
    run-append days (dow ++ (month ++ year)) _
    ∙ ap (run (dow ++ (month ++ year))) (days_lem z t0 t1 t2 t3 t4 t5 t6 t7 (bcd c.day) p b4)
    ∙ run-append dow (month ++ year) _
    ∙ ap (run (month ++ year)) (weekday_lem z t0 t1 t2 t3 (shifted days t4) t5 t6 t7 c.weekday q b5)
    ∙ run-append month year _
    ∙ ap (run year)
        (month_lem z t0 t1 t2 t3 (shifted days t4 / 4) (shifted dow t5) t6 t7 (bcd c.month) r b6)
    ∙ year_lem z t0 t1 t2 t3 (shifted days t4 / 4) (shifted dow t5 / 32) (shifted month t6) t7
        (bcd c.year) (parity_of month r) b7
    ∙ ap
        (λ x.
          state z
            (bytes t0 t1 t2 t3 x (shifted dow t5 / 32) (shifted month t6 / 8) (shifted year t7)) 7
            (parity_of year (parity_of month r)) 59)
        d
    ∙ ap₂
        (λ x w.
          state z (bytes t0 t1 t2 t3 (bcd c.day) (shifted dow t5 / 32) x w) 7
            (parity_of year (parity_of month r)) 59)
        m y
    ∙ ap
        (λ w.
          state z (bytes t0 t1 t2 t3 (bcd c.day) (shifted dow t5 / 32) (bcd c.month) (bcd c.year)) 7
            w 59)
        all

module _ (c : Content) (v : IsContent c) (z t0 t1 t2 t3 t4 t5 t6 t7 : ℕ) where
  minute_run :
      (p : Bool)
      → t2 < 256
      → run (checked 7 c.minute) (state z (bytes t0 t1 t2 t3 t4 t5 t6 t7) 1 p 22)
        ≡ state z (bytes t0 t1 (bcd c.minute) t3 t4 t5 t6 t7) 0 false 30
  unfolding checked bcd
  minute_run p small =
      let minutes = bits 7 (bcd c.minute) in
      run-append minutes _ _
      ∙ ap (run (parity_of minutes false ∷ []))
          (minutes_lem z t0 t1 t2 t3 t4 t5 t6 t7 (bcd c.minute) p small)
      ∙ minutes_end z t0 t1 (shifted minutes t2) t3 t4 t5 t6 t7 (parity_of minutes false)
      ∙ ap (λ x. state z (bytes t0 t1 x t3 t4 t5 t6 t7) 0 false 30)
          (shifted-bits_seven (bcd c.minute) t2 small (omega (arith, v.minute_in)))

  hour_run :
      (p : Bool)
      → t3 < 256
      → run (checked 6 c.hour) (state z (bytes t0 t1 t2 t3 t4 t5 t6 t7) 0 p 30)
        ≡ state z (bytes t0 t1 t2 (bcd c.hour) t4 t5 t6 t7) 0 false 37
  unfolding checked bcd
  hour_run p small =
      let hours = bits 6 (bcd c.hour) in
      run-append hours _ _
      ∙ ap (run (parity_of hours false ∷ []))
          (hours_lem z t0 t1 t2 t3 t4 t5 t6 t7 (bcd c.hour) p small)
      ∙ hours_end z t0 t1 t2 (shifted hours t3) t4 t5 t6 t7 (parity_of hours false)
      ∙ ap (λ x. state z (bytes t0 t1 t2 x t4 t5 t6 t7) 0 false 37)
          (shifted-bits_six (bcd c.hour) t3 small (omega (arith, v.hour_in)))

-- The bytes of the time after the seconds 0 to 57 of a telegram; the flags and the day of the week,
-- which are not used, stand in two others.
pub run-seconds :
    (c : Content) (z t0 t1 t2 t3 t4 t5 t6 t7 byte : ℕ) (p : Bool)
    → IsContent c
    → t1 < 256
    → t2 < 256
    → t3 < 256
    → t4 < 256
    → t5 < 256
    → t6 < 256
    → t7 < 256
    → (flags dow : ℕ) × (run (seconds c) (state z (bytes t0 t1 t2 t3 t4 t5 t6 t7) byte p 1)
        ≡ state
            (bit c.summer)
            (bytes t0 flags (bcd c.minute) (bcd c.hour) (bcd c.day) dow (bcd c.month) (bcd c.year))
            7
            (date_parity c)
            59)
unfolding seconds
run-seconds c z t0 t1 t2 t3 t4 t5 t6 t7 byte p v b1 b2 b3 b4 b5 b6 b7 =
    let s = bit c.summer in
    let (x, q, head) =
      head_lem z t0 t1 t2 t3 t4 t5 t6 t7 c.weather c.summer c.leap_second byte p v.weather_size
        b1 in
    (
      x,
      shifted (bits 3 c.weekday) t5 / 32,
      run-append ((false ∷ c.weather) ++ (c.summer ∷ not c.summer ∷ c.leap_second ∷ true ∷ [])) _ _
          ∙ ap (run (checked 7 c.minute ++ (checked 6 c.hour ++ date_bits c))) head
          ∙ run-append (checked 7 c.minute) (checked 6 c.hour ++ date_bits c) _
          ∙ ap (run (checked 6 c.hour ++ date_bits c))
              (minute_run c v s t0 x t2 t3 t4 t5 t6 t7 q b2)
          ∙ run-append (checked 6 c.hour) (date_bits c) _
          ∙ ap (run (date_bits c)) (hour_run c v s t0 x (bcd c.minute) t3 t4 t5 t6 t7 false b3)
          ∙ date_run c s t0 x (bcd c.minute) (bcd c.hour) t4 t5 t6 t7 false v b4 b5 b6 b7,
    )
