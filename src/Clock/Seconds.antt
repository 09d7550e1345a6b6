-- ===== src/Clock/Seconds.antt =====
-- The running clock: how ticks add up to seconds, and how it meets a synchronised time.
use ir.Prelude.{
  ℕ, zero, suc, ◌+◌, ◌-◌, ◌/◌, ◌%◌, ◌^◌, ◌<◌, ◌≤◌, ◌≡◌, ◌≢◌, refl, arith, ltb, if◌then◌else◌, ◌∙◌,
}
use Prim.Native.Nat.{max}
use native.Mathlib.Decide.{dec_lt}
use ir.Clock.State.{Clock, second, clock_tick, clock_set_time, clock_get_time, clock_last_sync}

-- `n` ticks of the timer
unfoldable pub tick_times : ℕ → Clock → Clock
tick_times zero c = c
tick_times (suc n) c = tick_times n (clock_tick c)

-- `k` of the seconds that `clock_tick` counts
unfoldable pub seconds : ℕ → Clock → Clock
seconds zero c = c
seconds (suc k) c = seconds k (second c)

-- The state between two seconds differs in the tick counter only.
abbrev with_ticks : ℕ → Clock → Clock
with_ticks n c = record c { ticks = n }

second-with_ticks : (n : ℕ) (c : Clock) → second (with_ticks n c) ≡ second c
unfolding second
second-with_ticks n c = refl

clock_tick-below : (c : Clock) → c.ticks < 50 → clock_tick c ≡ with_ticks (suc c.ticks) c
unfolding clock_tick
clock_tick-below c h = ground arith

clock_tick-at : (c : Clock) → c.ticks ≡ 50 → clock_tick c ≡ second c
unfolding clock_tick second
clock_tick-at c h = ground arith

seconds-with_ticks :
    (m r k : ℕ) (c : Clock) → with_ticks r (seconds k (with_ticks m c)) ≡ with_ticks r (seconds k c)
unfolding seconds second
seconds-with_ticks m r zero c = refl
seconds-with_ticks m r (suc k) c = refl

after-eq :
    (q q' r r' : ℕ) (c : Clock)
    → q ≡ q'
    → r ≡ r'
    → with_ticks r (seconds q c) ≡ with_ticks r' (seconds q' c)
after-eq q q' r r' c e f = cc

ticks-second : (c : Clock) → (second c).ticks ≡ 0
unfolding second
ticks-second c = refl

-- Ticks add up: from a tick counter of at most 50, `n` ticks advance the clock by one second for
-- each 51 ticks counted, and leave the rest in the counter.
pub tick_times_lem :
    (n : ℕ) (c : Clock)
    → c.ticks ≤ 50
    → tick_times n c ≡ record (seconds ((c.ticks + n) / 51) c) { ticks = (c.ticks + n) % 51 }
unfolding tick_times seconds
tick_times_lem zero c h =
    after-eq 0 ((c.ticks + 0) / 51) c.ticks ((c.ticks + 0) % 51) c (omega arith) (omega arith)
tick_times_lem (suc n) c h = elim (dec_lt c.ticks 50) [
  | yes p ↦ rw (clock_tick-below c p) (
      tick_times_lem n (with_ticks (suc c.ticks) c) p
      ∙ seconds-with_ticks (suc c.ticks) _ ((suc c.ticks + n) / 51) c
      ∙ after-eq ((suc c.ticks + n) / 51) ((c.ticks + suc n) / 51) ((suc c.ticks + n) % 51)
          ((c.ticks + suc n) % 51) c (omega arith) (omega arith))
  | no q ↦ rw (clock_tick-at c (omega arith)) (
      tick_times_lem n (second c) (omega (arith, ticks-second c))
      ∙ after-eq (((second c).ticks + n) / 51) (n / 51) (((second c).ticks + n) % 51) (n % 51)
          (second c) (omega (arith, ticks-second c)) (omega (arith, ticks-second c))
      ∙ after-eq (suc (n / 51)) ((c.ticks + suc n) / 51) (n % 51) ((c.ticks + suc n) % 51) c
          (omega arith) (omega arith))
]

-- While the clock is not behind the synchronised time, it waits for it to catch up.
second-max :
    (k : ℕ) (c : Clock)
    → c.sync_timestamp ≢ 0
    → c.sync_timestamp ≤ c.timestamp
    → c.timestamp + k < 2 ^ 32
    → (clock_get_time (seconds k c) ≡ max c.timestamp (c.sync_timestamp + k))
      × (clock_last_sync (seconds k c) ≡ c.sync_timestamp + k)
unfolding seconds second clock_get_time clock_last_sync
second-max zero c s h b = omega arith
second-max (suc k) c s h b = ground (arith, second-max k (second c))

-- Synchronising to `new > 0`: `k` seconds later, the 32 bits not overflowing, the clock shows
-- `new + k` if it was more than 300 seconds ahead, and else the later of `new + k` and the time it
-- showed when synchronised, so that it does not go back; the last synchronisation reads `new + k`.
pub set_time-seconds :
    (new k : ℕ) (c : Clock)
    → 0 < new
    → new + k < 2 ^ 32
    → c.timestamp + k < 2 ^ 32
    → (clock_get_time (seconds k (clock_set_time new c))
        ≡ (if ltb 300 (c.timestamp - new) then new + k else max c.timestamp (new + k)))
      × (clock_last_sync (seconds k (clock_set_time new c)) ≡ new + k)
unfolding clock_set_time
set_time-seconds new k c pos h b = ground (arith, second-max k (clock_set_time new c))
