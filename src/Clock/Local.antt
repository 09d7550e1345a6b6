-- ===== src/Clock/Local.antt =====
-- `clock_localtime` of services/clock/clock.c, built with TIMEZONE_CEST.
use ir.Prelude.{
  ℕ, ◌+◌, ◌-◌, ◌%◌, ◌^◌, ◌<◌, ◌≤◌, ◌≡◌, Bool, true, false, ◌&&◌, ◌||◌, Option, some, arith, ltb,
  leb, ◌==◌, if◌then◌else◌, ap,
}
use ir.Prelude.Words.{add32, sub8}
use mathlib.Core.Option
use ir.Clock.Date.{Datetime, clock_datetime}
use ir.Clock.Correct.{clock_datetime_total}

-- The last Sunday of the month lies ahead (-1), is today (0), or is over (1).
pub data Sunday : Type 0 where
  ahead today over : Sunday

unfoldable pub last_sunday_in_month : ℕ → ℕ → Sunday
last_sunday_in_month day dow =
    let last_sunday = if ltb dow day then sub8 day (dow + 1) else day in
    if leb (31 - last_sunday) 7
    then (if dow % 7 == 0 then Sunday.today else Sunday.over)
    else Sunday.ahead

abbrev is_ahead : Sunday → Bool
is_ahead Sunday.ahead = true
is_ahead _ = false

abbrev is_today : Sunday → Bool
is_today Sunday.today = true
is_today _ = false

abbrev is_over : Sunday → Bool
is_over Sunday.over = true
is_over _ = false

-- What is added to the time: an hour in winter, two hours in summer.
unfoldable pub offset : Datetime → ℕ
unfolding last_sunday_in_month
offset d =
    let last = last_sunday_in_month d.day d.dow in
    if ltb d.month 3 || ltb 10 d.month
    then 3600
    else if d.month == 3 && (is_ahead last || is_today last && ltb d.hour 1)
    then 3600
    else if d.month == 10 && (is_over last || is_today last && ltb 1 d.hour)
    then 3600
    else 7200

unfoldable pub clock_localtime : ℕ → Option Datetime
unfolding offset
clock_localtime timestamp =
    Option.bind (clock_datetime timestamp) (λ d. clock_datetime (add32 timestamp (offset d)))

-- The day `n` of the month of `d`, counted from 1, is a Sunday.
abbrev pub IsSunday : ℕ → Datetime → Type 0
IsSunday n d = (n + d.dow + 35 - d.day) % 7 ≡ 0

abbrev side : ℕ → ℕ → Sunday
side day n = if ltb day n then Sunday.ahead else if ltb n day then Sunday.over else Sunday.today

pub last_sunday_lem :
    (n : ℕ) (d : Datetime)
    → 1 ≤ d.day
    → d.day ≤ 31
    → d.dow < 7
    → 25 ≤ n
    → n ≤ 31
    → IsSunday n d
    → last_sunday_in_month d.day d.dow ≡ side d.day n
unfolding last_sunday_in_month
last_sunday_lem n d h1 h2 h3 h4 h5 h6 = ground arith

-- Summer time, where the last Sunday of the month is the day `n`: from 1:00 UTC on the last Sunday
-- of March until 2:00 UTC on the last Sunday of October.
unfoldable pub is_summer : ℕ → Datetime → Bool
is_summer n d =
    ltb 3 d.month && ltb d.month 10
    || d.month == 3 && (ltb n d.day || d.day == n && leb 1 d.hour)
    || d.month == 10 && (ltb d.day n || d.day == n && ltb d.hour 2)

offset_lem :
    (n : ℕ) (d : Datetime)
    → 1 ≤ d.day
    → d.day ≤ 31
    → d.dow < 7
    → 25 ≤ n
    → n ≤ 31
    → IsSunday n d
    → offset d ≡ (if is_summer n d then 7200 else 3600)
unfolding offset is_summer
offset_lem n d h1 h2 h3 h4 h5 h6 = ground (arith, last_sunday_lem n d h1 h2 h3 h4 h5 h6)

-- Where the clock shows a day of at most 31, and `n` is the last Sunday, that is a Sunday from 25 to
-- 31, of the month that it shows, local time is the clock's reading two hours ahead in summer time and one hour ahead in winter,
-- and summer time runs from 1:00 UTC on the last Sunday of March to 2:00 UTC on that of October.
pub clock_localtime-is_summer :
    (t n : ℕ) (d : Datetime)
    → clock_datetime t ≡ some d
    → d.day ≤ 31
    → 25 ≤ n
    → n ≤ 31
    → IsSunday n d
    → clock_localtime t ≡ clock_datetime ((t + (if is_summer n d then 7200 else 3600)) % 2 ^ 32)
unfolding clock_localtime Option.bind
clock_localtime-is_summer t n d e short h1 h2 sunday =
    let (d', e', sec, minute, hour, m1, m2, d1, d2, w) = clock_datetime_total t in
    let same : d ≡ d' = cc in
    rw e (
      ap (λ (o : ℕ). clock_datetime (add32 t o))
        (offset_lem n d (ground arith) short (ground arith) h1 h2 sunday))
