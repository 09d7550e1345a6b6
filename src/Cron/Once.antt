-- ===== src/Cron/Once.antt =====
-- `cron_periodic` as a whole.
use ir.Prelude.{
  ℕ, ◌+◌, ◌<◌, ◌≤◌, ◌≡◌, ◌≢◌, refl, Bool, true, false, some, List, [], ◌∷◌, arith, ◌==◌, Bool-cases,
  inl, inr, ap, ◌∙◌, ◌↔◌, length, ltb, ◌^◌,
}
use mathlib.Core.Option
use ir.Prelude.Words.{add32, sub32}
use ir.Clock.Date.{Datetime}
use ir.Clock.Local.{clock_localtime, offset}
use ir.Clock.Correct.{clock_datetime_total}
use ir.Cron.Heap.{Pointer, Command, CronEvent, done}
use ir.Cron.Jobs.{Cron}
use ir.Cron.Chain.{IsCron}
use ir.Cron.Remove.{test_ne}
use ir.Cron.Periodic.{Scheduler, matches, date_of, check_jobs, check_at, cron_periodic}
use ir.Cron.Due.{commands, run_all}
use ir.Cron.Match.{IsDue, matches-IsDue}
use ir.Cron.Sweep.{Chain-pointer_at}
use ir.Cron.Minute.{Swept, check_jobs-Swept}

-- The clock can always be read.
date_of_total :
    (utc : Bool) (timestamp : ℕ) → (d : Datetime) × (date_of utc timestamp ≡ some d) × (d.sec < 60)
unfolding clock_localtime Option.bind
date_of_total true timestamp =
    let (d, e, sec, _, _, _, _, _, _, _) = clock_datetime_total timestamp in (d, e, sec)
date_of_total false timestamp =
    let (c, e, _, _, _, _, _, _, _, _) = clock_datetime_total timestamp in
    let (d, f, sec, _, _, _, _, _, _, _) = clock_datetime_total (add32 timestamp (offset c)) in
    (d, rw e f, sec)

sub32_later :
    (timestamp sec k : ℕ)
    → timestamp < 2 ^ 32
    → sec + k < 60
    → sub32 (add32 timestamp k) (sub32 timestamp sec) < 60
sub32_later timestamp sec k t b = omega arith

module _ {ℓ} {W : Type ℓ} (exec : Command → Cron × W → Cron × W) where
  cron_periodic-check_at :
      (fuel timestamp : ℕ) (s : Scheduler W) (d : Datetime)
      → s.cron.head ≢ 0
      → 60 ≤ sub32 timestamp s.last_check
      → date_of s.cron_use_utc timestamp ≡ some d
      → cron_periodic exec fuel timestamp s ≡ check_at exec fuel timestamp d s
  unfolding cron_periodic
  cron_periodic-check_at fuel timestamp s d ne late e =
      let due : ltb (sub32 timestamp s.last_check) 60 ≡ false = ground arith in
      rw (test_ne s.cron.head 0 ne, due, e)

  cron_periodic_early :
      (fuel timestamp : ℕ) (s : Scheduler W)
      → sub32 timestamp s.last_check < 60
      → cron_periodic exec fuel timestamp s ≡ done s
  unfolding cron_periodic
  cron_periodic_early fuel timestamp s early =
      let idle : ltb (sub32 timestamp s.last_check) 60 ≡ true = ground arith in
      elim (Bool-cases (s.cron.head == 0)) [ inl z ↦ rw z | inr z ↦ rw (z, idle) ]

-- What `cron_periodic` makes of the scheduler `s` with the jobs `xs` at the date `d`.
pub record Ran {ℓ} {W : Type ℓ} (act : Command → W → W) (d : Datetime) (timestamp : ℕ)
    (xs : List Pointer) (s t : Scheduler W) : Type ℓ where
  pub swept : Swept d [] xs s.cron t.cron
  pub world : t.world ≡ run_all act (commands d s.cron.heap xs) s.world
  pub last_check : t.last_check ≡ sub32 timestamp d.sec

module _ {ℓ} {W : Type ℓ} (exec : Command → Cron × W → Cron × W) (act : Command → W → W)
    (keeps : (c : Command) (r : Cron) (w : W) → exec c (r, w) ≡ (r, act c w)) where
  check_at-Ran :
      (fuel timestamp : ℕ) (d : Datetime) (s : Scheduler W) (xs : List Pointer)
      → IsCron s.cron xs
      → length xs < fuel
      → (t : Scheduler W) × (check_at exec fuel timestamp d s ≡ done t) × Ran act d timestamp xs s t
  unfolding check_at
  check_at-Ran fuel timestamp d s xs v f =
      let (t, run, r) = check_jobs-Swept exec act keeps fuel d [] xs s.cron s.world v f in
      let head =
        ap (λ p. check_jobs exec fuel d p (s.cron, s.world))
          (Chain-pointer_at s.cron.heap 0 s.cron.head xs v.chain)
        ∙ run in
      (
        record s {
          cron = t;
          world = run_all act (commands d s.cron.heap xs) s.world;
          last_check = sub32 timestamp d.sec;
        },
        rw head,
        record { swept = r; world = refl; last_check = refl },
      )

  -- Where the commands of jobs leave the list alone, and 60 seconds or more after the last check,
  -- `cron_periodic` on a list that is not empty ends without a fault. It runs the command of each job
  -- whose minute, hour, day, month and day of the week all match the date, in the order of the list
  -- and once each, and no other; a field of -1 matches every value, one from 0 on itself, and one of
  -- -2 or less the multiples of its absolute value. It drops
  -- the jobs that had one run left, keeps the others in their order, and changes their events in
  -- the repeat counter alone, by one for those that ran with a counter. And it does nothing in
  -- the seconds that the minute has left.
  pub cron_periodic-Ran :
      (fuel timestamp : ℕ) (s : Scheduler W) (xs : List Pointer)
      → IsCron s.cron xs
      → 0 < length xs
      → length xs < fuel
      → timestamp < 2 ^ 32
      → 60 ≤ sub32 timestamp s.last_check
      → (d : Datetime) × (t : Scheduler W) × (date_of s.cron_use_utc timestamp ≡ some d)
        × (cron_periodic exec fuel timestamp s ≡ done t)
        × Ran act d timestamp xs s t
        × ((e : CronEvent) → matches d e ≡ true ↔ IsDue d e)
        × ((k : ℕ) → d.sec + k < 60 → cron_periodic exec fuel (add32 timestamp k) t ≡ done t)
  cron_periodic-Ran fuel timestamp s [] v some_job f b late = absurd (omega arith)
  cron_periodic-Ran fuel timestamp s (x ∷ xs) v some_job f b late =
      let (d, e, sec) = date_of_total s.cron_use_utc timestamp in
      let (t, run, r) = check_at-Ran fuel timestamp d s (x ∷ xs) v f in
      (
        d,
        t,
        e,
        cron_periodic-check_at exec fuel timestamp s d (ground arith) late e ∙ run,
        r,
        λ e. matches-IsDue d e,
        λ k early.
            cron_periodic_early exec fuel (add32 timestamp k) t
              (rw r.last_check (sub32_later timestamp d.sec k b early)),
      )
