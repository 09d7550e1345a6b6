-- ===== src/Dcf77/Minute.antt =====
-- The clock after a whole telegram of hardware/clock/dcf77/dcf77.c.
use mathlib.Core.Option
use mathlib.Core.Path.{subst}
use ir.Prelude.{
  ℕ, ◌+◌, ◌-◌, ◌^◌, ◌<◌, ◌≤◌, ◌≡◌, refl, ap, sym, ◌∙◌, Bool, true, false, some, List, length, arith,
  ◌==◌, ltb, leb, ◌&&◌, ◌||◌, if◌then◌else◌, get_or,
}
use ir.Clock.State.{Clock, clock_set_time}
use ir.Clock.Gregorian.{Civil, IsCivil, leap_of, unix_time}
use ir.Clock.Timestamp.{clock_utc2timestamp, reported, clock_utc2timestamp-unix_time}
use ir.Dcf77.{Dcf77, at_sync, pulse, dcfdate, end_of_telegram, divtime_of, after_edge, dcf77_vect}
use ir.Dcf77.Bits.{bit, bcd, bcd2bin-bcd}
use ir.Dcf77.Fields.{width_of, bit_step, state}
use ir.Dcf77.Seconds.{IsContent, seconds, length-seconds, date_parity}
use ir.Dcf77.Stages.{bytes, pulse-parity}
use ir.Dcf77.Decode.{run-seconds}
use ir.Dcf77.Valid.{IsTelegram, sync_set}
use ir.Dcf77.Reach.{Reach, Reach-IsTelegram, long_pause_lem}
use ir.Dcf77.Edges.{IsWidth, vect_lem, same_telegram}
use ir.Dcf77.Reception.{Received, Received-run}
use ir.Dcf77.Content.{content_of, month_bound, hours_ahead, started}

-- The clock after a synchronisation with the time `t`: it shows `t`, unless it is ahead by at most
-- 300 seconds, when it goes on from what it shows.
abbrev pub synchronised : ℕ → Clock → Clock
synchronised t clock = record {
  timestamp = if leb t clock.timestamp && leb clock.timestamp (t + 300) then clock.timestamp else t;
  ticks = clock.ticks;
  sync_timestamp = t;
  ntp_timer = 1800;
  startup_timestamp = if clock.startup_timestamp == 0 then t else clock.startup_timestamp;
}

kept_time :
    (t now : ℕ)
    → (if ltb now t || ltb 300 (now - t) then t else now)
      ≡ (if leb t now && leb now (t + 300) then now else t)
kept_time t now = ground arith

clock_set_time-synchronised :
    (t : ℕ) (clock : Clock) → clock_set_time t clock ≡ synchronised t clock
unfolding clock_set_time
clock_set_time-synchronised t clock =
    ap (λ now. record (synchronised t clock) { timestamp = now }) (kept_time t clock.timestamp)

-- The Unix time of the minute that a telegram says in local time.
abbrev pub utc_of : Bool → Civil → ℕ
utc_of summer c = unix_time c - (if summer then 7200 else 3600)

module _ (c : Civil) (v : IsCivil c) (zero_seconds : c.seconds ≡ 0) (from_2000 : 30 ≤ c.years)
    (to_2099 : c.years < 130) (weather : List Bool) (leap_second summer : Bool) (weekday : ℕ) where
  pub content_of-IsContent :
      length weather ≡ 16 → IsContent (content_of weather leap_second summer weekday c)
  unfolding content_of
  content_of-IsContent size = record {
    weather_size = size;
    minute_in = v.minute_in;
    hour_in = v.hour_in;
    day_in = omega (arith, v.day_in, month_bound (leap_of c) (c.months + 1));
    month_in = omega (arith, v.month_in);
    year_in = omega arith;
  }

  dcfdate-reported :
      (dow z t0 flags other byte : ℕ) (p : Bool) (sync : ℕ)
      → dcfdate dow (
          state z
            (bytes t0 flags
              (bcd c.minutes)
              (bcd c.hours)
              (bcd (c.days + 1))
              other
              (bcd (c.months + 1))
              (bcd (c.years - 30)))
            byte
            p
            sync)
        ≡ reported dow c
  unfolding dcfdate
  dcfdate-reported dow z t0 flags other byte p sync =
      rw
        (
          bcd2bin-bcd c.minutes (omega (arith, v.minute_in)),
          bcd2bin-bcd c.hours (omega (arith, v.hour_in)),
          bcd2bin-bcd (c.days + 1)
              (omega (arith, v.day_in, month_bound (leap_of c) (c.months + 1))),
          bcd2bin-bcd (c.months + 1) (omega (arith, v.month_in)),
          bcd2bin-bcd (c.years - 30) (omega arith),
        )
        (ap
          (λ s. record {
            sec = s;
            minute = c.minutes;
            hour = c.hours;
            day = c.days + 1;
            month = c.months + 1;
            dow = dow;
            year = c.years - 30;
          })
          (sym zero_seconds))

  -- The last pulse, the parity of the date, sets the clock.
  end_of_telegram-reported :
      (dow t0 flags other byte : ℕ) (p : Bool) (clock : Clock)
      → unix_time c < 2 ^ 32
      → end_of_telegram dow
          (state
            (bit summer)
            (bytes t0 flags
              (bcd c.minutes)
              (bcd c.hours)
              (bcd (c.days + 1))
              other
              (bcd (c.months + 1))
              (bcd (c.years - 30)))
            byte
            p
            59)
          clock
        ≡ some (clock_set_time (unix_time c - (if summer then 7200 else 3600)) clock)
  unfolding end_of_telegram Option.bind
  end_of_telegram-reported dow t0 flags other byte p clock fits =
      let date = dcfdate-reported dow (bit summer) t0 flags other byte p 59 in
      let time = clock_utc2timestamp-unix_time c dow (bit summer) v from_2000 fits in
      ap (λ d. Option.map (λ r. clock_set_time r.0 clock) (clock_utc2timestamp d (bit summer))) date
      ∙ ap (Option.map (λ r. clock_set_time r.0 clock)) time
      ∙ ap (λ offset. some (clock_set_time (unix_time c - offset) clock)) (hours_ahead summer)

  -- The pulse of the parity of the date, behind the other seconds.
  last_pulse :
      (dow t0 flags other : ℕ) (q : Bool) (d2 : Dcf77) (tcnt2 : ℕ) (clock : Clock)
      → unix_time c < 2 ^ 32
      → d2.telegram
        ≡ state
            (bit summer)
            (bytes t0 flags
              (bcd c.minutes)
              (bcd c.hours)
              (bcd (c.days + 1))
              other
              (bcd (c.months + 1))
              (bcd (c.years - 30)))
            7
            q
            59
      → IsWidth q (divtime_of tcnt2 d2 clock)
      → (d3 : Dcf77) × (dcf77_vect dow false tcnt2 d2 clock
          ≡ some (d3, clock_set_time (unix_time c - (if summer then 7200 else 3600)) clock, tcnt2))
  unfolding at_sync Option.bind
  last_pulse dow t0 flags other q d2 tcnt2 clock fits known width =
      let at = ap (λ g. g.sync) known in
      let set_to = clock_set_time (unix_time c - (if summer then 7200 else 3600)) clock in
      let pulsed =
        ap (pulse (width_of q)) known
        ∙ pulse-parity q _ (bit summer)
            (bytes t0 flags (bcd c.minutes) (bcd c.hours) (bcd (c.days + 1)) other
              (bcd (c.months + 1)) (bcd (c.years - 30)))
            59 refl refl in
      (
        after_edge (bit_step q d2.telegram) tcnt2 set_to,
        vect_lem dow tcnt2 d2 clock q width (omega (arith, at)) (omega (arith, at))
            ∙ ap
                (λ s.
                  Option.map {B = Dcf77 × Clock × ℕ}
                    (λ x. (after_edge (bit_step q d2.telegram) tcnt2 x, x, tcnt2))
                    (end_of_telegram dow s clock))
                pulsed
            ∙ ap
                (Option.map {B = Dcf77 × Clock × ℕ}
                  (λ x. (after_edge (bit_step q d2.telegram) tcnt2 x, x, tcnt2)))
                (end_of_telegram-reported dow t0 flags other 0 false clock fits),
      )

  whole_telegram :
      (dow : ℕ) (d1 d2 : Dcf77) (tcnt2 : ℕ) (clock : Clock)
      → length weather ≡ 16
      → unix_time c < 2 ^ 32
      → IsTelegram d1.telegram
      → d1.telegram.sync ≡ 1
      → Received dow d1 (seconds (content_of weather leap_second summer weekday c)) d2
      → IsWidth
          (date_parity (content_of weather leap_second summer weekday c))
          (divtime_of tcnt2 d2 clock)
      → (d3 : Dcf77) × (dcf77_vect dow false tcnt2 d2 clock
          ≡ some (d3, clock_set_time (unix_time c - (if summer then 7200 else 3600)) clock, tcnt2))
  unfolding content_of
  whole_telegram dow d1 d2 tcnt2 clock size fits valid start edges width =
      let content = content_of weather leap_second summer weekday c in
      let t = d1.telegram.time in
      let p = d1.telegram.timeparity == 1 in
      let g =
        state d1.telegram.timezone
          (bytes (get_or t 0 0) (get_or t 1 0) (get_or t 2 0) (get_or t 3 0) (get_or t 4 0)
            (get_or t 5 0) (get_or t 6 0) (get_or t 7 0))
          d1.telegram.timebyte p 1 in
      let (flags, other, said) =
        run-seconds content d1.telegram.timezone (get_or t 0 0) (get_or t 1 0) (get_or t 2 0)
          (get_or t 3 0) (get_or t 4 0) (get_or t 5 0) (get_or t 6 0) (get_or t 7 0)
          d1.telegram.timebyte p (content_of-IsContent size) (valid.small 1) (valid.small 2)
          (valid.small 3) (valid.small 4) (valid.small 5) (valid.small 6) (valid.small 7) in
      let count = length-seconds content size in
      let known : d2.telegram ≡ _ =
        Received-run dow d1 d2 (seconds content) g edges (started d1.telegram valid start)
          (omega arith) (ap (λ g. g.sync) said ∙ omega (arith, count)) (omega (arith, count))
        ∙ said in
      last_pulse dow (get_or t 0 0) flags other (date_parity content) d2 tcnt2 clock fits known
        width

  -- From any state that edges lead to: the long pause before a minute, the edges of a telegram that says
  -- a minute of the years 2000 to 2099, which are those of bits, of pauses and of noise, at any
  -- readings of the clock, and the pulse of its last second. The interrupt then synchronises the
  -- clock with the Unix time of that minute, which is one hour behind the local time, or two in
  -- summer: it is recorded as the time of the synchronisation, and as that of the start if there was
  -- none yet, the next synchronisation is due in 1800 seconds, and the clock shows that time, unless
  -- it shows up to 300 seconds more, when it keeps what it shows. No other part of it changes.
  pub dcf77_vect-clock_set_time :
      (dow : ℕ) (d0 d1 d2 : Dcf77) (tcnt0 tcnt2 timer : ℕ) (clock0 clock1 clock : Clock)
      → length weather ≡ 16
      → unix_time c < 2 ^ 32
      → Reach dow d0
      → 448 < divtime_of tcnt0 d0 clock0
      → divtime_of tcnt0 d0 clock0 < 496
      → dcf77_vect dow true tcnt0 d0 clock0 ≡ some (d1, clock1, timer)
      → Received dow d1 (seconds (content_of weather leap_second summer weekday c)) d2
      → IsWidth
          (date_parity (content_of weather leap_second summer weekday c))
          (divtime_of tcnt2 d2 clock)
      → (d3 : Dcf77) × (dcf77_vect dow false tcnt2 d2 clock
          ≡ some (d3, synchronised (utc_of summer c) clock, tcnt2))
  unfolding after_edge
  dcf77_vect-clock_set_time dow d0 d1 d2 tcnt0 tcnt2 timer clock0 clock1 clock size fits reach long
        short pause edges width =
      let valid = Reach-IsTelegram dow d0 reach in
      let begun : d1.telegram ≡ record d0.telegram { sync = 1 } =
        same_telegram _ _ _ _ _ _ _ pause (long_pause_lem dow tcnt0 d0 clock0 long short) in
      let (d3, known) =
        whole_telegram dow d1 d2 tcnt2 clock size fits
          (subst IsTelegram (sym begun) (sync_set 1 d0.telegram valid (omega arith)))
          (ap (λ g. g.sync) begun) edges width in
      (
        d3,
        known ∙ ap (λ s. some (d3, s, tcnt2)) (clock_set_time-synchronised (utc_of summer c) clock),
      )
