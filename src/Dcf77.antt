-- ===== src/Dcf77.antt =====
-- The receiver of the DCF77 time signal, hardware/clock/dcf77/dcf77.c and dcf77.h: the interrupt at an
-- edge of the signal, built with HAVE_DCF1. It takes the level of the pin and the register TCNT2, and
-- gives the register back. `dow` is what the interrupt's uninitialised date holds in that field;
-- `none` is a read beyond the table of months.
pub mod Bits
pub mod Fields
pub mod Seconds
pub mod Stages
pub mod Decode
pub mod Edges
pub mod Valid
pub mod Reach
pub mod Reception
pub mod Content
pub mod Minute
mod Tests
use mathlib.Core.Option
use ir.Prelude.{
  ℕ, ◌+◌, ◌-◌, ◌*◌, ◌/◌, ◌%◌, ◌^◌, Bool, true, false, not, ◌&&◌, ◌||◌, Option, none, some, List,
  ltb, ◌==◌, if◌then◌else◌, get_or, set, bit_or, bit_xor,
}
use ir.Prelude.Words.{add8, sub32}
use ir.Clock.State.{Clock, clock_get_time, clock_set_time}
use ir.Clock.Date.{Datetime}
use ir.Clock.Timestamp.{clock_utc2timestamp}

-- What is known of the telegram, and when the last edge was.
pub record Telegram : Type 0 where
  pub timezone : ℕ
  pub time : List ℕ
  pub timebyte : ℕ
  pub timeparity : ℕ
  pub sync : ℕ

pub record Dcf77 : Type 0 where
  pub telegram : Telegram
  pub timerover : ℕ
  pub tcnt2_last : ℕ

unfoldable pub bcd2bin : ℕ → ℕ
bcd2bin bcd = bcd - bcd / 16 * 6

-- The byte that takes the bits is shifted.
unfoldable pub shift_byte : ℕ → Telegram → Telegram
shift_byte divisor g = record g {
  time = set g.time g.timebyte (get_or g.time g.timebyte 0 / divisor);
}

-- The pulses at which something else happens beside taking a bit.
unfoldable pub at_sync : ℕ → Telegram → Telegram
at_sync divtime g =
    if g.sync == 1
    then record g { timebyte = 1 }
    else if g.sync == 18
    then record g { timezone = if ltb divtime 34 then 0 else 1 }
    else if g.sync == 22
    then record g { timebyte = 2; timeparity = 0 }
    else if g.sync == 29
    then record (shift_byte 2 g) { timebyte = 0 }
    else if g.sync == 30
    then record g { timebyte = 3; timeparity = 0 }
    else if g.sync == 36
    then record (shift_byte 4 g) { timebyte = 0 }
    else if g.sync == 37
    then record g { timebyte = 4; timeparity = 0 }
    else if g.sync == 43
    then record (shift_byte 4 g) { timebyte = 5 }
    else if g.sync == 46
    then record (shift_byte 32 g) { timebyte = 6 }
    else if g.sync == 51
    then record (shift_byte 8 g) { timebyte = 7 }
    else if g.sync == 59
    then record g { timebyte = 0 }
    else g

unfoldable pub check_parity : Telegram → Telegram
check_parity g = if not (g.timeparity == 0) then record g { sync = 0 } else g

unfoldable pub long_pulse : Telegram → Telegram
long_pulse g =
    let p = record g { timeparity = bit_xor g.timeparity 1 } in
    if not (g.timebyte == 0)
    then record p { time = set g.time g.timebyte (bit_or (get_or g.time g.timebyte 0 / 2) 128) }
    else check_parity p

unfoldable pub short_pulse : Telegram → Telegram
short_pulse g =
    let s = if g.sync == 21 then record g { sync = 0 } else g in
    if not (g.timebyte == 0) then shift_byte 2 s else check_parity s

unfoldable pub pulse : ℕ → Telegram → Telegram
pulse divtime g =
    let s = at_sync divtime g in if ltb 40 divtime then long_pulse s else short_pulse s

unfoldable pub dcfdate : ℕ → Telegram → Datetime
dcfdate dow g = record {
  sec = 0;
  minute = bcd2bin (get_or g.time 2 0);
  hour = bcd2bin (get_or g.time 3 0);
  day = bcd2bin (get_or g.time 4 0);
  month = bcd2bin (get_or g.time 6 0);
  dow = dow;
  year = bcd2bin (get_or g.time 7 0);
}

-- The last pulse of a telegram sets the clock.
unfoldable pub end_of_telegram : ℕ → Telegram → Clock → Option Clock
end_of_telegram dow g clock =
    if g.sync == 59
    then Option.map (λ r. clock_set_time r.0 clock) (clock_utc2timestamp (dcfdate dow g) g.timezone)
    else some clock

unfoldable pub count_pulse : ℕ → ℕ → Telegram → Clock → Option (Telegram × Clock)
count_pulse dow divtime g clock =
    if ltb 0 g.sync && ltb g.sync 60
    then (let s = pulse divtime g in
        Option.map (λ c. (record s { sync = add8 s.sync 1 }, c)) (end_of_telegram dow s clock))
    else some (g, clock)

unfoldable pub falling : ℕ → ℕ → Telegram → Clock → Option (Telegram × Clock)
falling dow divtime g clock =
    count_pulse dow divtime (if ltb 63 divtime || ltb divtime 11 then record g { sync = 0 } else g)
      clock

-- The pause between two pulses; the long one begins a telegram. The second component is the timer.
unfoldable pub rising : ℕ → ℕ → Telegram → Telegram × ℕ
rising divtime tcnt2 old =
    let g = if ltb 248 divtime || ltb divtime 184 then record old { sync = 0 } else old in
    if ltb 448 divtime && ltb divtime 496 && (g.sync == 0)
    then (record g { sync = 1 }, divtime % 256)
    else (g, tcnt2)

-- The time since the last edge.
unfoldable pub divtime_of : ℕ → Dcf77 → Clock → ℕ
divtime_of tcnt2 dcf clock =
    (tcnt2 + sub32 (clock_get_time clock) dcf.timerover * 255 + 2 ^ 32 - dcf.tcnt2_last) % 65536

unfoldable pub after_edge : Telegram → ℕ → Clock → Dcf77
after_edge g tcnt2 clock = record {
  telegram = g;
  timerover = clock_get_time clock;
  tcnt2_last = tcnt2;
}

unfoldable pub dcf77_vect : ℕ → Bool → ℕ → Dcf77 → Clock → Option (Dcf77 × Clock × ℕ)
dcf77_vect dow high tcnt2 dcf clock =
    let divtime = divtime_of tcnt2 dcf clock in
    if not (ltb 5 divtime)
    then some (dcf, clock, tcnt2)
    else if high
    then (let r = rising divtime tcnt2 dcf.telegram in some (after_edge r.0 r.1 clock, clock, r.1))
    else Option.map (λ r. (after_edge r.0 tcnt2 r.1, r.1, tcnt2))
        (falling dow divtime dcf.telegram clock)
