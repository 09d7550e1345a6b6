-- ===== src/Cron/Tests.antt =====
-- The list of jobs at concrete heaps.
use ir.Prelude.{
  ℕ, ◌<◌, ◌≡◌, ◌≢◌, ◌↔◌, refl, none, some, List, [], ◌∷◌, arith, ◌==◌, if◌then◌else◌, true, ◌+◌,
}
use ir.Prelude.Int.{pos, negsuc}
use ir.Prelude.Words.{add32}
use ir.Clock.Date.{Datetime, clock_datetime}
use ir.Cron.Periodic.{Scheduler, matches, cron_periodic}
use ir.Cron.Match.{IsDue}
use ir.Cron.Ecmd.{Reply, cron_rm, cron_rm-remaining}
use ir.Cron.Add.{cron_add, added, cron_add-added}
use ir.Cron.Once.{Ran, cron_periodic-Ran}
use ir.Cron.Heap.{Command, Pointer, cron_ecmd, CronEvent, Job, Heap, done}
use ir.Cron.Jobs.{Cron, cron_insert, cron_jobrm, cron_jobs, cron_getjob}
use ir.Cron.Chain.{IsCron}
use ir.Cron.Walk.{pointer_at}
use ir.Cron.Insert.{IsFresh, Appended, event_at, cron_insert-Appended}
use ir.Cron.Position.{cron_insert-lost}
use ir.Cron.Removed.{cron_jobrm-without}

abbrev hourly : ℕ → CronEvent
hourly n = record {
  minute = pos n;
  hour = negsuc 0;
  day = negsuc 0;
  month = negsuc 0;
  dayofweek = negsuc 0;
  repeat = 0;
  command = cron_ecmd (104 ∷ []);
}

abbrev job : Pointer → Pointer → ℕ → Job
job before behind n = record { next = behind; prev = before; event = hourly n }

-- Three jobs in the list, and one from `malloc` at 4.
abbrev three : Heap
three a =
    if a == 1
    then some (job 0 2 10)
    else if a == 2
    then some (job 1 3 20)
    else if a == 3
    then some (job 2 0 30)
    else if a == 4
    then some (job 9 9 40)
    else none

abbrev cron : Cron
cron = record { heap = three; head = 1; tail = 3 }

abbrev jobs : List Pointer
jobs = 1 ∷ 2 ∷ 3 ∷ []

cron_IsCron : IsCron cron jobs
cron_IsCron = record {
  chain = (
    refl,
    omega arith,
    (
      job 0 2 10,
      refl,
      refl,
      (
        refl,
        omega arith,
        (job 1 3 20, refl, refl, (refl, omega arith, (job 2 0 30, refl, refl, refl))),
      ),
    ),
  );
  last = refl;
  distinct = (refl, (refl, (refl, tt)));
}

four_IsFresh : IsFresh cron jobs 4
four_IsFresh = record { new_ne = omega arith; job = job 9 9 40; allocated = refl; unlisted = refl }

cron_insert-Appended_example :
    (t : Cron) × (cron_insert 9 4 (negsuc 0) cron ≡ done t) × Appended cron jobs 4 t
cron_insert-Appended_example =
    cron_insert-Appended 9 4 (negsuc 0) cron jobs cron_IsCron four_IsFresh tt

cron_insert-lost_example :
    (t : Cron) × (cron_insert 9 4 (pos 1) cron ≡ done t)
    × ((i : ℕ) → i < 256 → cron_getjob 9 i t ≡ cron_getjob 9 i cron)
    × (cron_jobs 9 t ≡ cron_jobs 9 cron)
    × ((i : ℕ) → pointer_at i jobs ≢ 4)
    × (t.tail ≡ 3)
cron_insert-lost_example =
    cron_insert-lost 9 4 0 cron jobs cron_IsCron four_IsFresh (omega arith) (omega arith)
      (omega arith)

cron_jobrm-without_example :
    (t : Cron) × (cron_jobrm 2 cron ≡ done t)
    × IsCron t (1 ∷ 3 ∷ [])
    × (t.heap 2 ≡ none)
    × ((a : Pointer) → a ≢ 0 → a ≢ 2 → event_at t.heap a ≡ event_at three a)
cron_jobrm-without_example = cron_jobrm-without cron jobs 2 cron_IsCron refl

-- The commands that have run are kept, the last one first.
abbrev log : Command → List Command → List Command
log c w = c ∷ w

abbrev logging : Command → Cron × List Command → Cron × List Command
logging c s = (s.0, log c s.1)

-- Ten minutes after 1970-01-01, 00:00 UTC
abbrev scheduler : Scheduler (List Command)
scheduler = record { cron = cron; cron_use_utc = true; last_check = 0; world = [] }

cron_periodic-Ran_example :
    (d : Datetime) × (t : Scheduler (List Command)) × (clock_datetime 600 ≡ some d)
    × (cron_periodic logging 9 600 scheduler ≡ done t)
    × Ran log d 600 jobs scheduler t
    × ((e : CronEvent) → matches d e ≡ true ↔ IsDue d e)
    × ((k : ℕ) → d.sec + k < 60 → cron_periodic logging 9 (add32 600 k) t ≡ done t)
cron_periodic-Ran_example =
    cron_periodic-Ran logging log (λ c r w. refl) 9 600 scheduler jobs cron_IsCron (omega arith)
      (omega arith) (omega arith) (omega arith)

position_bound : (i : ℕ) → some 1 ≡ some i → i < 256
position_bound i e = ground arith

cron_rm-remaining_example :
    (t : Cron) × (reply : Reply) × (cron_rm 9 (some 1) cron ≡ done (t, reply))
    × IsCron t (1 ∷ 3 ∷ [])
cron_rm-remaining_example =
    cron_rm-remaining 9 (some 1) cron jobs cron_IsCron (omega arith) (λ i e. position_bound i e)

cron_add-added_example :
    (t : Cron) × (cron_add 9 5 (hourly 50) (104 ∷ 105 ∷ []) cron ≡ done t)
    × IsCron t (1 ∷ 2 ∷ 3 ∷ 5 ∷ [])
    × (event_at t.heap 5 ≡ some (added (hourly 50) (104 ∷ 105 ∷ [])))
    × ((a : Pointer) → a ≢ 5 → event_at t.heap a ≡ event_at three a)
cron_add-added_example =
    cron_add-added 9 5 (hourly 50) (104 ∷ 105 ∷ []) cron jobs cron_IsCron (omega arith) refl refl
      (omega arith) (omega arith)
