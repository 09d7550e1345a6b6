-- ===== src/Cron/Due.antt =====
-- Which jobs are due at a date, and what is left of the list after them.
use ir.Prelude.{
  ◌-◌, ◌≡◌, refl, Bool, true, false, ◌&&◌, Option, none, some, List, [], ◌∷◌, ◌++◌, arith, ◌==◌,
  if◌then◌else◌,
}
use ir.Clock.Date.{Datetime}
use ir.Cron.Heap.{Pointer, Command, CronEvent, Heap}
use ir.Cron.Chain.{has}
use ir.Cron.Insert.{event_at}
use ir.Cron.Periodic.{matches}

-- The command of a job that is due.
abbrev pub command_of : Datetime → Option CronEvent → List Command
command_of d none = []
command_of d (some e) = if matches d e then e.command ∷ [] else []

-- The commands of the due jobs, in the order of the list.
abbrev pub commands : Datetime → Heap → List Pointer → List Command
commands d h [] = []
commands d h (x ∷ xs) = command_of d (event_at h x) ++ commands d h xs

-- A job that is due for the last time is dropped.
abbrev pub expires : Datetime → Option CronEvent → Bool
expires d none = false
expires d (some e) = matches d e && e.repeat == 1

abbrev pub kept : Datetime → Heap → Pointer → List Pointer
kept d h x = if expires d (event_at h x) then [] else x ∷ []

abbrev pub survivors : Datetime → Heap → List Pointer → List Pointer
survivors d h [] = []
survivors d h (x ∷ xs) = kept d h x ++ survivors d h xs

-- The repeat counter, where it is not 0, which stands for ever, counts the runs.
abbrev pub counted : Datetime → Option CronEvent → Option CronEvent
counted d none = none
counted d (some e) = if matches d e then some (record e { repeat = e.repeat - 1 }) else some e

abbrev pub run_all {ℓ} : {W : Type ℓ} → (Command → W → W) → List Command → W → W
run_all act [] w = w
run_all act (c ∷ cs) w = run_all act cs (act c w)

pub run_all-append {ℓ} :
    {W : Type ℓ} (act : Command → W → W) (cs ds : List Command) (w : W)
    → run_all act (cs ++ ds) w ≡ run_all act ds (run_all act cs w)
run_all-append act [] ds w = refl
run_all-append act (c ∷ cs) ds w = run_all-append act cs ds (act c w)

-- Both depend on the events of the listed jobs only.
pub commands_frame :
    (d : Datetime) (g h : Heap) (xs : List Pointer)
    → ((a : Pointer) → has a xs ≡ true → event_at g a ≡ event_at h a)
    → commands d g xs ≡ commands d h xs
commands_frame d g h [] same = refl
commands_frame d g h (x ∷ xs) same =
    rw (same x (ground arith), commands_frame d g h xs (λ a i. same a (ground arith)))

pub survivors_frame :
    (d : Datetime) (g h : Heap) (xs : List Pointer)
    → ((a : Pointer) → has a xs ≡ true → event_at g a ≡ event_at h a)
    → survivors d g xs ≡ survivors d h xs
survivors_frame d g h [] same = refl
survivors_frame d g h (x ∷ xs) same =
    rw (same x (ground arith), survivors_frame d g h xs (λ a i. same a (ground arith)))
