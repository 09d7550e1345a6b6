-- ===== src/Dcf77/Edges.antt =====
-- Single edges at the interrupt of hardware/clock/dcf77/dcf77.c: noise, pauses and bits.
use mathlib.Core.Option
use ir.Prelude.{
  ℕ, ◌+◌, ◌<◌, ◌≤◌, ◌≡◌, refl, ap, sym, ◌∙◌, Bool, true, false, not, Option, some, none, List, [],
  ◌∷◌, length, arith, bit_xor, ltb, ◌==◌, if◌then◌else◌,
}
use ir.Prelude.Words.{add8}
use ir.Clock.State.{Clock}
use ir.Dcf77.{
  Dcf77, Telegram, at_sync, check_parity, long_pulse, short_pulse, shift_byte, pulse,
  end_of_telegram, count_pulse, falling, rising, divtime_of, after_edge, dcf77_vect,
}
use ir.Dcf77.Fields.{width_of, bit_step, run}

-- The length of the pulse of a bit, in 1/256 seconds: the numbers that both tests take for it.
abbrev pub IsWidth : Bool → ℕ → Type 0
IsWidth false d = (11 ≤ d) × (d < 34)
IsWidth true d = (40 < d) × (d ≤ 63)

if_at_most :
    (b : Bool) (x y : Telegram) (n : ℕ) → x.sync ≤ n → y.sync ≤ n → (if b then x else y).sync ≤ n
if_at_most true x y n hx hy = hx
if_at_most false x y n hx hy = hy

at_sync_kept : (d : ℕ) (g : Telegram) → (at_sync d g).sync ≤ g.sync
unfolding at_sync shift_byte
at_sync_kept d g = if_at_most (g.sync == 1) _ _ g.sync (omega arith) (
    if_at_most (g.sync == 18) _ _ g.sync (omega arith) (
      if_at_most (g.sync == 22) _ _ g.sync (omega arith) (
        if_at_most (g.sync == 29) _ _ g.sync (omega arith) (
          if_at_most (g.sync == 30) _ _ g.sync (omega arith) (
            if_at_most (g.sync == 36) _ _ g.sync (omega arith) (
              if_at_most (g.sync == 37) _ _ g.sync (omega arith) (
                if_at_most (g.sync == 43) _ _ g.sync (omega arith) (
                  if_at_most (g.sync == 46) _ _ g.sync (omega arith) (
                    if_at_most (g.sync == 51) _ _ g.sync (omega arith)
                      (if_at_most (g.sync == 59) _ _ g.sync (omega arith) (omega arith)))))))))))

check_kept : (g : Telegram) (n : ℕ) → g.sync ≤ n → (check_parity g).sync ≤ n
unfolding check_parity
check_kept g n h = if_at_most (not (g.timeparity == 0)) _ _ n (omega arith) h

long_kept : (g : Telegram) (n : ℕ) → g.sync ≤ n → (long_pulse g).sync ≤ n
unfolding long_pulse
long_kept g n h =
    if_at_most (not (g.timebyte == 0)) _ _ n h
      (check_kept (record g { timeparity = bit_xor g.timeparity 1 }) n h)

short_kept : (g : Telegram) (n : ℕ) → g.sync ≤ n → (short_pulse g).sync ≤ n
unfolding short_pulse shift_byte
short_kept g n h =
    let s = if g.sync == 21 then record g { sync = 0 } else g in
    let low = if_at_most (g.sync == 21) (record g { sync = 0 }) g n (omega arith) h in
    if_at_most (not (g.timebyte == 0)) _ _ n low (check_kept s n low)

-- A pulse keeps the number of the second or sets it to 0.
pub pulse_kept : (d : ℕ) (g : Telegram) → (pulse d g).sync ≤ g.sync
unfolding pulse
pulse_kept d g =
    let at = at_sync_kept d g in
    let s = at_sync d g in
    if_at_most (ltb 40 d) _ _ g.sync (long_kept s g.sync at) (short_kept s g.sync at)

-- The pulse of a bit does what the pulse of the bit's usual length does.
pulse-width_of : (b : Bool) (d : ℕ) (g : Telegram) → IsWidth b d → pulse d g ≡ pulse (width_of b) g
unfolding pulse at_sync
pulse-width_of true d g w =
    let long : ltb 40 d ≡ true = ground arith in
    let late : ltb d 34 ≡ false = ground arith in rw long (rw late refl)
pulse-width_of false d g w =
    let long : ltb 40 d ≡ false = ground arith in
    let late : ltb d 34 ≡ true = ground arith in rw long (rw late refl)

-- Noise is passed over, and a pause leaves what is known of the telegram.
pub noise_lem :
    (dow : ℕ) (high : Bool) (tcnt2 : ℕ) (d1 : Dcf77) (clock : Clock)
    → divtime_of tcnt2 d1 clock ≤ 5
    → dcf77_vect dow high tcnt2 d1 clock ≡ some (d1, clock, tcnt2)
unfolding dcf77_vect
noise_lem dow high tcnt2 d1 clock short =
    let quiet : ltb 5 (divtime_of tcnt2 d1 clock) ≡ false = ground arith in rw quiet refl

pub pause_lem :
    (dow tcnt2 : ℕ) (d1 : Dcf77) (clock : Clock)
    → 184 ≤ divtime_of tcnt2 d1 clock
    → divtime_of tcnt2 d1 clock ≤ 248
    → dcf77_vect dow true tcnt2 d1 clock ≡ some (after_edge d1.telegram tcnt2 clock, clock, tcnt2)
unfolding dcf77_vect rising
pause_lem dow tcnt2 d1 clock long short =
    let heard : ltb 5 (divtime_of tcnt2 d1 clock) ≡ true = ground arith in
    let high : ltb 248 (divtime_of tcnt2 d1 clock) ≡ false = ground arith in
    let low : ltb (divtime_of tcnt2 d1 clock) 184 ≡ false = ground arith in
    let start : ltb 448 (divtime_of tcnt2 d1 clock) ≡ false = ground arith in
    rw heard (rw high (rw low (rw start refl)))

width_inside : (b : Bool) (d : ℕ) → IsWidth b d → (11 ≤ d) × (d ≤ 63)
width_inside true d w = (omega (arith, w.0), omega (arith, w.1))
width_inside false d w = (omega (arith, w.0), omega (arith, w.1))

falling_lem :
    (dow d : ℕ) (g : Telegram) (clock : Clock) (b : Bool)
    → IsWidth b d
    → 0 < g.sync
    → g.sync < 60
    → falling dow d g clock
      ≡ Option.map (λ c. (bit_step b g, c)) (end_of_telegram dow (pulse (width_of b) g) clock)
unfolding falling count_pulse bit_step
falling_lem dow d g clock b w some_sync room =
    let (low, high) = width_inside b d w in
    let long : ltb 63 d ≡ false = ground arith in
    let short : ltb d 11 ≡ false = ground arith in
    let first : ltb 0 g.sync ≡ true = ground arith in
    let last : ltb g.sync 60 ≡ true = ground arith in
    rw long (
      rw short (
        rw first (
          rw last (
            ap
              (λ s.
                Option.map
                  (λ c. (
                    record {
                      timezone = s.timezone;
                      time = s.time;
                      timebyte = s.timebyte;
                      timeparity = s.timeparity;
                      sync = add8 s.sync 1;
                    },
                    c,
                  ))
                  (end_of_telegram dow s clock))
              (pulse-width_of b d g w)))))

map-map :
    {A B C : Type 0} (f : A → B) (g : B → C) (o : Option A)
    → Option.map g (Option.map f o) ≡ Option.map (λ a. g (f a)) o
unfolding Option.bind
map-map f g none = refl
map-map f g (some a) = refl

pub vect_lem :
    (dow tcnt2 : ℕ) (d1 : Dcf77) (clock : Clock) (b : Bool)
    → IsWidth b (divtime_of tcnt2 d1 clock)
    → 0 < d1.telegram.sync
    → d1.telegram.sync < 60
    → dcf77_vect dow false tcnt2 d1 clock
      ≡ Option.map
          (λ c. (after_edge (bit_step b d1.telegram) tcnt2 c, c, tcnt2))
          (end_of_telegram dow (pulse (width_of b) d1.telegram) clock)
unfolding dcf77_vect
vect_lem dow tcnt2 d1 clock b w some_sync room =
    let (low, high) = width_inside b (divtime_of tcnt2 d1 clock) w in
    let heard : ltb 5 (divtime_of tcnt2 d1 clock) ≡ true = ground arith in
    rw heard (
      ap (Option.map (λ r. (after_edge r.0 tcnt2 r.1, r.1, tcnt2)))
        (falling_lem dow (divtime_of tcnt2 d1 clock) d1.telegram clock b w some_sync room)
      ∙ map-map (λ c. (bit_step b d1.telegram, c)) (λ r. (after_edge r.0 tcnt2 r.1, r.1, tcnt2))
          (end_of_telegram dow (pulse (width_of b) d1.telegram) clock))

-- A pulse before the last one leaves the clock alone.
pub bit_lem :
    (dow tcnt2 : ℕ) (d1 : Dcf77) (clock : Clock) (b : Bool)
    → IsWidth b (divtime_of tcnt2 d1 clock)
    → 0 < d1.telegram.sync
    → d1.telegram.sync < 59
    → dcf77_vect dow false tcnt2 d1 clock
      ≡ some (after_edge (bit_step b d1.telegram) tcnt2 clock, clock, tcnt2)
unfolding end_of_telegram Option.bind
bit_lem dow tcnt2 d1 clock b w some_sync room =
    let kept = pulse_kept (width_of b) d1.telegram in
    let early : ((pulse (width_of b) d1.telegram).sync == 59) ≡ false = ground (arith, kept) in
    vect_lem dow tcnt2 d1 clock b w some_sync (omega arith) ∙ rw early refl

pub bit_step_sync : (b : Bool) (g : Telegram) → (bit_step b g).sync ≤ g.sync + 1
unfolding bit_step
bit_step_sync b g = omega (arith, pulse_kept (width_of b) g)

pub run_sync : (bs : List Bool) (g : Telegram) → (run bs g).sync ≤ g.sync + length bs
unfolding run
run_sync [] g = omega arith
run_sync (b ∷ bs) g = omega (arith, run_sync bs (bit_step b g), bit_step_sync b g)

telegram_of : Option (Dcf77 × Clock × ℕ) → Telegram → Telegram
telegram_of none g = g
telegram_of (some (d, c, t)) g = d.telegram

pub same_telegram :
    (d e : Dcf77) (c x : Clock) (t u : ℕ) (o : Option (Dcf77 × Clock × ℕ))
    → o ≡ some (d, c, t)
    → o ≡ some (e, x, u)
    → d.telegram ≡ e.telegram
unfolding telegram_of
same_telegram d e c x t u o h k = ap (λ o. telegram_of o d.telegram) (sym h ∙ k)
