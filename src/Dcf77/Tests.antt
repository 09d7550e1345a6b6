-- ===== src/Dcf77/Tests.antt =====
-- A telegram at the edges of a receiver whose pulses last 20 and 50 units, and whose timer stands at
-- 235 at the end of each pause.
use mathlib.Core.Path.{subst}
use ir.Prelude.{
  ℕ, suc, ◌+◌, ◌-◌, ◌^◌, ◌<◌, ◌≤◌, ◌≡◌, refl, ap, ◌∙◌, Bool, true, false, some, List, [], ◌∷◌,
  length, arith, if◌then◌else◌,
}
use ir.Clock.State.{Clock, clock_get_time}
use ir.Clock.Gregorian.{Civil, IsCivil, unix_time, month_length, month_start, span, leap}
use ir.Dcf77.{Dcf77, Telegram, divtime_of, after_edge, dcf77_vect, rising}
use ir.Dcf77.Bits.{bit}
use ir.Dcf77.Fields.{bit_step, run}
use ir.Dcf77.Seconds.{seconds, length-seconds, date_parity}
use ir.Dcf77.Decode.{run-seconds}
use ir.Dcf77.Edges.{IsWidth, bit_lem, pause_lem, bit_step_sync, run_sync}
use ir.Dcf77.Reception.{Received, received, pause, bit_received}
use ir.Dcf77.Valid.{IsTelegram}
use ir.Dcf77.Reach.{zeros, edge, power_up, Reach-IsTelegram}
use ir.Dcf77.Content.{content_of}
use ir.Dcf77.Minute.{content_of-IsContent, dcf77_vect-clock_set_time}

abbrev clock_at : ℕ → Clock
clock_at n = record {
  timestamp = n;
  ticks = 0;
  sync_timestamp = 0;
  ntp_timer = 0;
  startup_timestamp = 0;
}

abbrev low_until : Bool → ℕ
low_until b = if b then 30 else 0

abbrev waiting : ℕ → Telegram → Dcf77
waiting n g = record { telegram = g; timerover = n; tcnt2_last = 235 }

low_until-IsWidth :
    (n : ℕ) (g : Telegram) (b : Bool)
    → n + 1 < 2 ^ 32
    → IsWidth b (divtime_of (low_until b) (waiting n g) (clock_at (n + 1)))
unfolding divtime_of clock_get_time
low_until-IsWidth n g true small = (omega arith, omega arith)
low_until-IsWidth n g false small = (omega arith, omega arith)

pause_width :
    (n : ℕ) (g : Telegram) (b : Bool)
    → n < 2 ^ 32
    → (184 ≤ divtime_of 235 (after_edge g (low_until b) (clock_at n)) (clock_at n))
      × (divtime_of 235 (after_edge g (low_until b) (clock_at n)) (clock_at n) ≤ 248)
unfolding divtime_of clock_get_time after_edge
pause_width n g true small = (omega arith, omega arith)
pause_width n g false small = (omega arith, omega arith)

-- Any bits, as long as they count on.
run-Received :
    (dow n : ℕ) (bs : List Bool) (g : Telegram)
    → 0 < g.sync
    → (run bs g).sync ≡ g.sync + length bs
    → g.sync + length bs ≤ 59
    → n + length bs < 2 ^ 32
    → Received dow (waiting n g) bs (waiting (n + length bs) (run bs g))
unfolding run after_edge clock_get_time
run-Received dow n [] g some_sync counted room small =
    subst (λ k. Received dow (waiting n g) [] (waiting k g)) {x = n} {y = n + 0} (omega arith)
      (received (waiting n g))
run-Received dow n (b ∷ bs) g some_sync counted room small =
    let h = bit_step b g in
    let exact : h.sync ≡ g.sync + 1 = omega (arith, run_sync bs h, bit_step_sync b g, counted) in
    let width = low_until-IsWidth n g b (omega arith) in
    let (long, short) = pause_width (n + 1) h b (omega arith) in
    let rest =
      run-Received dow (n + 1) bs h (omega (arith, exact)) (omega (arith, exact, counted))
        (omega (arith, exact)) (omega arith) in
    bit_received b (low_until b) (clock_at (n + 1)) (waiting n g)
      (after_edge h (low_until b) (clock_at (n + 1))) _ bs (clock_at (n + 1)) (low_until b) width
      (bit_lem dow (low_until b) (waiting n g) (clock_at (n + 1)) b width some_sync (omega arith))
      (pause 235 (clock_at (n + 1)) (after_edge h (low_until b) (clock_at (n + 1)))
        (waiting (n + 1) h) _ bs (clock_at (n + 1)) 235 long short
        (pause_lem dow 235 (after_edge h (low_until b) (clock_at (n + 1))) (clock_at (n + 1)) long
          short)
        (subst (λ k. Received dow (waiting (n + 1) h) bs (waiting k (run bs h)))
          {x = n + 1 + length bs} {y = n + suc (length bs)} (omega arith) rest))

-- 2023-06-15 12:34:00 in local time
abbrev june : Civil
june = record { years = 53; months = 5; days = 14; hours = 12; minutes = 34; seconds = 0 }

june-IsCivil : IsCivil june
unfolding month_length
june-IsCivil = omega arith

june_time : unix_time june ≡ 1686832440
unfolding span leap month_start
june_time = refl

abbrev weather : List Bool
weather =
    true ∷ false ∷ true ∷ true ∷ false ∷ false ∷ true ∷ false ∷ true ∷ true ∷ true ∷ false ∷ false
    ∷ true ∷ false ∷ false ∷ []

abbrev first : Telegram
first = record power_up.telegram { sync = 1 }

june_seconds : List Bool
june_seconds = seconds (content_of weather false true 4 june)

june_counted : (run june_seconds first).sync ≡ 59
unfolding june_seconds bit
june_counted =
    ap (λ g. g.sync)
      (run-seconds (content_of weather false true 4 june) 0 0 0 0 0 0 0 0 0 0 false
        (content_of-IsContent june june-IsCivil refl (omega arith) (omega arith) weather false true
          4 refl)
        (omega arith) (omega arith) (omega arith) (omega arith) (omega arith) (omega arith)
        (omega arith)).2

-- The long pause of 491 units, from the variables' zeros, and the 58 seconds.
june-Received :
    (dow : ℕ)
    → Received dow
        (waiting 1 first)
        (seconds (content_of weather false true 4 june))
        (waiting 59 (run june_seconds first))
unfolding june_seconds content_of
june-Received dow =
    let count = length-seconds (content_of weather false true 4 june) refl in
    subst
      (λ n.
        Received dow (waiting 1 first) (seconds (content_of weather false true 4 june))
          (waiting n (run june_seconds first)))
      (ap (λ k. 1 + k) count)
      (run-Received dow 1 june_seconds first (omega arith) (june_counted ∙ omega (arith, count))
        (omega (arith, count)) (omega (arith, count)))

abbrev last_low : ℕ
last_low = low_until (date_parity (content_of weather false true 4 june))

long_pause : dcf77_vect 0 true 236 power_up (clock_at 1) ≡ some (waiting 1 first, clock_at 1, 235)
unfolding dcf77_vect divtime_of rising after_edge clock_get_time
long_pause = refl

dcf77_vect-clock_set_time_example :
    (d3 : Dcf77) × (dcf77_vect 0 false last_low (waiting 59 (run june_seconds first)) (clock_at 60)
      ≡ some (
        d3,
        record {
          timestamp = unix_time june - 7200;
          ticks = 0;
          sync_timestamp = unix_time june - 7200;
          ntp_timer = 1800;
          startup_timestamp = unix_time june - 7200;
        },
        last_low,
      ))
unfolding divtime_of clock_get_time span leap month_start
dcf77_vect-clock_set_time_example =
    dcf77_vect-clock_set_time june june-IsCivil refl (omega arith) (omega arith) weather false true
      4 0 power_up (waiting 1 first) (waiting 59 (run june_seconds first)) 236 last_low 235
      (clock_at 1) (clock_at 1) (clock_at 60) refl (omega (arith, june_time)) zeros (omega arith)
      (omega arith) long_pause (june-Received 0)
      (low_until-IsWidth 59 (run june_seconds first)
        (date_parity (content_of weather false true 4 june)) (omega arith))

Reach-IsTelegram_example : IsTelegram (waiting 1 first).telegram
Reach-IsTelegram_example =
    Reach-IsTelegram 0 (waiting 1 first)
      (edge true 236 (clock_at 1) power_up (waiting 1 first) (clock_at 1) 235 zeros long_pause)
