-- ===== src/Clock/State.antt =====
-- services/clock/clock.c, the state and its updates, built with NTP_SUPPORT and WHM_SUPPORT and
-- without CLOCK_CRYSTAL_SUPPORT and CLOCK_NTP_ADJUST_SUPPORT.
use ir.Prelude.{ℕ, ◌-◌, Bool, true, false, not, ◌||◌, ltb, ◌==◌, if◌then◌else◌}
use ir.Prelude.Words.{add8, add32}

abbrev pub ntp_resync_period : ℕ
ntp_resync_period = 1800

-- The static variables: unsigned words of 32, 8, 32, 16 and 32 bits.
pub record Clock : Type 0 where
  pub timestamp : ℕ
  pub ticks : ℕ
  pub sync_timestamp : ℕ
  pub ntp_timer : ℕ
  pub startup_timestamp : ℕ

-- What `clock_tick` does once a second: the time waits while it is ahead of the synchronised one.
unfoldable pub second : Clock → Clock
second c = record c {
  timestamp =
      if c.sync_timestamp == 0 || c.sync_timestamp == c.timestamp
      then add32 c.timestamp 1
      else c.timestamp;
  sync_timestamp = if c.sync_timestamp == 0 then c.sync_timestamp else add32 c.sync_timestamp 1;
  ticks = 0;
}

unfoldable pub clock_tick : Clock → Clock
clock_tick c =
    let t = record c { ticks = add8 c.ticks 1 } in if ltb 50 (add8 c.ticks 1) then second t else t

-- The flag says that `ntp_send_packet` is called.
unfoldable pub clock_periodic : Clock → Clock × Bool
clock_periodic c =
    if not (c.ntp_timer == 0)
    then (record c { ntp_timer = c.ntp_timer - 1 }, false)
    else (record c { ntp_timer = 10 }, true)

unfoldable pub clock_set_time : ℕ → Clock → Clock
clock_set_time new c = record c {
  sync_timestamp = new;
  timestamp = if ltb c.timestamp new || ltb 300 (c.timestamp - new) then new else c.timestamp;
  startup_timestamp = if c.startup_timestamp == 0 then new else c.startup_timestamp;
  ntp_timer = ntp_resync_period;
}

unfoldable pub clock_get_time : Clock → ℕ
clock_get_time c = c.timestamp

unfoldable pub clock_last_sync : Clock → ℕ
clock_last_sync c = c.sync_timestamp

unfoldable pub clock_get_startup : Clock → ℕ
clock_get_startup c = c.startup_timestamp
