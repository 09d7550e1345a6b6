-- ===== src/Dcf77/Reach.antt =====
-- The variables of hardware/clock/dcf77/dcf77.c over any edges of the signal.
use mathlib.Core.Option
use mathlib.Core.Path.{subst}
use ir.Prelude.{
  ℕ, zero, suc, ◌%◌, ◌<◌, ◌≡◌, refl, Bool, true, false, not, ◌&&◌, ◌||◌, Option, some, none, List,
  [], ◌∷◌, arith, ltb, ◌==◌, if◌then◌else◌, get_or,
}
use ir.Prelude.Words.{add8}
use ir.Clock.State.{Clock}
use ir.Dcf77.{
  Dcf77, Telegram, pulse, end_of_telegram, count_pulse, falling, rising, divtime_of, after_edge,
  dcf77_vect,
}
use ir.Dcf77.Edges.{pulse_kept}
use ir.Dcf77.Valid.{IsTelegram, if-IsTelegram, sync_set, pulse-IsTelegram}

-- The states that edges lead to, from the variables' initial zeros, at any readings of the clock and
-- the timer.
abbrev pub power_up : Dcf77
power_up = record {
  telegram = record {
    timezone = 0;
    time = 0 ∷ 0 ∷ 0 ∷ 0 ∷ 0 ∷ 0 ∷ 0 ∷ 0 ∷ [];
    timebyte = 0;
    timeparity = 0;
    sync = 0;
  };
  timerover = 0;
  tcnt2_last = 0;
}

pub data Reach (dow : ℕ) : Dcf77 → Type 0 where
  zeros : Reach dow power_up
  edge :
      (high : Bool) (tcnt2 : ℕ) (clock : Clock) (d1 d2 : Dcf77) (after_clock : Clock) (timer : ℕ)
      → Reach dow d1
      → dcf77_vect dow high tcnt2 d1 clock ≡ some (d2, after_clock, timer)
      → Reach dow d2

-- Where the code returns, what it leaves is valid.
abbrev LeavesTelegram : Option (Telegram × Clock) → Type 0
LeavesTelegram none = Unit
LeavesTelegram (some (g, clock)) = IsTelegram g

abbrev EndsTelegram : Option (Dcf77 × Clock × ℕ) → Type 0
EndsTelegram none = Unit
EndsTelegram (some (d, clock, timer)) = IsTelegram d.telegram

counted-LeavesTelegram :
    (g : Telegram) (o : Option Clock) → IsTelegram g → LeavesTelegram (Option.map (λ c. (g, c)) o)
unfolding Option.bind
counted-LeavesTelegram g none h = tt
counted-LeavesTelegram g (some c) h = h

if-LeavesTelegram :
    (b : Bool) (x y : Option (Telegram × Clock))
    → (b ≡ true → LeavesTelegram x)
    → LeavesTelegram y
    → LeavesTelegram (if b then x else y)
if-LeavesTelegram true x y hx hy = hx refl
if-LeavesTelegram false x y hx hy = hy

count_pulse-LeavesTelegram :
    (dow d : ℕ) (g : Telegram) (clock : Clock)
    → IsTelegram g
    → LeavesTelegram (count_pulse dow d g clock)
unfolding count_pulse
count_pulse-LeavesTelegram dow d g clock h =
    if-LeavesTelegram (ltb 0 g.sync && ltb g.sync 60) _ _
      (λ inside.
        let room : g.sync < 60 = ground (arith, inside) in
        let kept = pulse_kept d g in
        counted-LeavesTelegram (record (pulse d g) { sync = add8 (pulse d g).sync 1 })
          (end_of_telegram dow (pulse d g) clock)
          (sync_set (add8 (pulse d g).sync 1) (pulse d g) (pulse-IsTelegram d g h) (omega arith)))
      h

started :
    (b : Bool) (g : Telegram) (t u : ℕ)
    → IsTelegram g
    → IsTelegram (if◌then◌else◌ {A = Telegram × ℕ} b (record g { sync = 1 }, t) (g, u)).0
started true g t u h = sync_set 1 g h (omega arith)
started false g t u h = h

rising-IsTelegram : (d tcnt2 : ℕ) (g : Telegram) → IsTelegram g → IsTelegram (rising d tcnt2 g).0
unfolding rising
rising-IsTelegram d tcnt2 g h =
    let out = ltb 248 d || ltb d 184 in
    let r = record g { sync = 0 } in
    let v = if-IsTelegram out r g (sync_set 0 g h (omega arith)) h in
    started (ltb 448 d && ltb d 496 && ((if out then r else g).sync == 0)) (if out then r else g) _
      _ v

edge_lem :
    (g : Option (Telegram × Clock)) (tcnt2 : ℕ)
    → LeavesTelegram g
    → EndsTelegram (Option.map (λ r. (after_edge r.0 tcnt2 r.1, r.1, tcnt2)) g)
unfolding Option.bind after_edge
edge_lem none tcnt2 h = tt
edge_lem (some (g, clock)) tcnt2 h = h

if-EndsTelegram :
    (b : Bool) (x y : Option (Dcf77 × Clock × ℕ))
    → EndsTelegram x
    → EndsTelegram y
    → EndsTelegram (if b then x else y)
if-EndsTelegram true x y hx hy = hx
if-EndsTelegram false x y hx hy = hy

dcf77_vect-EndsTelegram :
    (dow : ℕ) (high : Bool) (tcnt2 : ℕ) (d : Dcf77) (clock : Clock)
    → IsTelegram d.telegram
    → EndsTelegram (dcf77_vect dow high tcnt2 d clock)
unfolding dcf77_vect falling after_edge
dcf77_vect-EndsTelegram dow high tcnt2 d clock h =
    let t = divtime_of tcnt2 d clock in
    let g = d.telegram in
    if-EndsTelegram (not (ltb 5 t)) _ _ h (
      if-EndsTelegram high _ _ (rising-IsTelegram t tcnt2 g h) (
        edge_lem (falling dow t g clock) tcnt2 (
          count_pulse-LeavesTelegram dow t
            (if ltb 63 t || ltb t 11 then record g { sync = 0 } else g) clock
            (if-IsTelegram (ltb 63 t || ltb t 11) (record g { sync = 0 }) g
              (sync_set 0 g h (omega arith)) h))))

zero_bytes : ℕ → List ℕ
zero_bytes zero = []
zero_bytes (suc n) = 0 ∷ zero_bytes n

zero_small : (n i : ℕ) → get_or (zero_bytes n) i 0 < 256
unfolding zero_bytes
zero_small zero i = omega arith
zero_small (suc n) zero = omega arith
zero_small (suc n) (suc i) = zero_small n i

-- Whatever the edges and their times, the bytes of the telegram are bytes, each access to one of them
-- is inside of it, and the number of the second is at most 60.
pub Reach-IsTelegram : (dow : ℕ) (d : Dcf77) → Reach dow d → IsTelegram d.telegram
unfolding zero_bytes
Reach-IsTelegram dow d zeros = record {
  eight = refl;
  small = zero_small 8;
  parity = omega arith;
  in_time = omega arith;
  in_minute = omega arith;
}
Reach-IsTelegram dow d (edge high tcnt2 clock d1 d2 after_clock timer before run_edge) =
    subst EndsTelegram run_edge
      (dcf77_vect-EndsTelegram dow high tcnt2 d1 clock (Reach-IsTelegram dow d1 before))

-- The long pause begins a telegram.
pub long_pause_lem :
    (dow tcnt2 : ℕ) (d : Dcf77) (clock : Clock)
    → 448 < divtime_of tcnt2 d clock
    → divtime_of tcnt2 d clock < 496
    → dcf77_vect dow true tcnt2 d clock
      ≡ some (
        after_edge (record d.telegram { sync = 1 }) (divtime_of tcnt2 d clock % 256) clock,
        clock,
        divtime_of tcnt2 d clock % 256,
      )
unfolding dcf77_vect rising
long_pause_lem dow tcnt2 d clock long short =
    let heard : ltb 5 (divtime_of tcnt2 d clock) ≡ true = ground arith in
    let out : ltb 248 (divtime_of tcnt2 d clock) ≡ true = ground arith in
    let from : ltb 448 (divtime_of tcnt2 d clock) ≡ true = ground arith in
    let to : ltb (divtime_of tcnt2 d clock) 496 ≡ true = ground arith in
    rw heard (rw out (rw from (rw to refl)))
