-- ===== src/Cron/Periodic.antt =====
-- `cron_periodic` of services/cron/cron.c: once a minute, the jobs that are due.
use ir.Prelude.{
  ℕ, zero, suc, ◌-◌, ◌%◌, Bool, true, ◌||◌, ◌&&◌, Option, none, some, List, [], ◌∷◌, ltb, ◌==◌,
  if◌then◌else◌,
}
use ir.Prelude.Int.{ℤ, pos, negsuc}
use ir.Prelude.Words.{sub32}
use ir.Clock.Date.{Datetime, clock_datetime}
use ir.Clock.Local.{clock_localtime}
use ir.Cron.Heap.{
  Pointer, Command, CronEvent, Job, Run, done, fault, out_of_fuel, ◌>>=◌, update, load,
}
use ir.Cron.Jobs.{Cron, cron_jobrm}

-- A wildcard, an absolute value or a step, against a field of the date.
unfoldable pub matches_field : ℤ → ℕ → Bool
matches_field (pos n) v = n == v
matches_field (negsuc zero) v = true
matches_field (negsuc (suc n)) v = v % suc (suc n) == 0

-- The loop over the five conditions.
unfoldable pub matches_fields : List ℤ → List ℕ → Bool
unfolding matches_field
matches_fields [] vs = true
matches_fields (f ∷ fs) [] = true
matches_fields (f ∷ fs) (v ∷ vs) = matches_field f v && matches_fields fs vs

abbrev pub event_fields : CronEvent → List ℤ
event_fields e = e.minute ∷ e.hour ∷ e.day ∷ e.month ∷ e.dayofweek ∷ []

abbrev pub cron_fields : Datetime → List ℕ
cron_fields d = d.minute ∷ d.hour ∷ d.day ∷ d.month ∷ d.dow ∷ []

unfoldable pub matches : Datetime → CronEvent → Bool
matches d e = matches_fields (event_fields e) (cron_fields d)

-- The variables of cron, and what the jobs act on.
pub record Scheduler {ℓ} (W : Type ℓ) : Type ℓ where
  pub cron : Cron
  pub cron_use_utc : Bool
  pub last_check : ℕ
  pub world : W

abbrev pub one_less : Pointer → Job → Cron → Cron
one_less job j c = record c {
  heap =
      update c.heap job
        (some (record j { event = record j.event { repeat = j.event.repeat - 1 } }));
}

abbrev pub date_of : Bool → ℕ → Option Datetime
date_of use_utc timestamp = if use_utc then clock_datetime timestamp else clock_localtime timestamp

-- `exec` calls the handler of a job, or the ECMD parser with its text.
module _ {ℓ} {W : Type ℓ} (exec : Command → Cron × W → Cron × W) where
  -- The repeat counter of a job that has run.
  unfoldable pub count_down : Pointer → Cron × W → Run (Cron × W)
  count_down job s = do
    j ← load s.0.heap job
    if j.event.repeat == 0
        then done s
        else if j.event.repeat == 1
        then (cron_jobrm job (one_less job j s.0) >>= λ r. done (r, s.1))
        else done (one_less job j s.0, s.1)

  unfoldable pub check_job : Datetime → Pointer → CronEvent → Cron × W → Run (Cron × W)
  check_job d job event s =
      if matches d event then count_down job (exec event.command s) else done s

  -- The walk through the list; the next job is read before the job is run.
  unfoldable pub check_jobs : ℕ → Datetime → Pointer → Cron × W → Run (Cron × W)
  check_jobs zero d current s = out_of_fuel
  check_jobs (suc fuel) d current s =
      let rest =
        load s.0.heap current >>= λ j. check_job d current j.event s >>= check_jobs fuel d j.next in
      if current == 0 then done s else rest

  unfoldable pub check_at : ℕ → ℕ → Datetime → Scheduler W → Run (Scheduler W)
  check_at fuel timestamp d s = do
    t ← check_jobs fuel d s.cron.head (s.cron, s.world)
    done (record s { cron = t.0; world = t.1; last_check = sub32 timestamp d.sec })

  -- `timestamp` is what `clock_get_time` returns.
  unfoldable pub cron_periodic : ℕ → ℕ → Scheduler W → Run (Scheduler W)
  cron_periodic fuel timestamp s =
      if s.cron.head == 0 || ltb (sub32 timestamp s.last_check) 60
      then done s
      else elim (date_of s.cron_use_utc timestamp) [
        | none ↦ fault
        | some d ↦ check_at fuel timestamp d s
      ]
