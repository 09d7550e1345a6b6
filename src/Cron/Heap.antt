-- ===== src/Cron/Heap.antt =====
-- Cron jobs on a heap (services/cron/cron.h). A pointer is a number, and 0 is the null pointer.
use ir.Prelude.{ℕ, Option, none, some, List, ◌==◌, if◌then◌else◌}
use ir.Prelude.Int.{ℤ}

abbrev pub Pointer : Type 0
Pointer = ℕ

-- The command of a job: a function, by its address, with its data, or a text for the ECMD parser.
pub data Command : Type 0 where
  cron_jump : ℕ → List ℕ → Command
  cron_ecmd : List ℕ → Command

pub record CronEvent : Type 0 where
  pub minute : ℤ
  pub hour : ℤ
  pub day : ℤ
  pub month : ℤ
  pub dayofweek : ℤ
  pub repeat : ℕ
  pub command : Command

pub record Job : Type 0 where
  pub next : Pointer
  pub prev : Pointer
  pub event : CronEvent

abbrev pub Heap : Type 0
Heap = Pointer → Option Job

-- `fault` is an access through a pointer that is null or points to no job; a loop whose fuel is
-- used up ends in `out_of_fuel`.
pub data Run {ℓ} (A : Type ℓ) : Type ℓ where
  done : A → Run A
  fault : Run A
  out_of_fuel : Run A

infixl 5 ◌>>=◌
abbrev pub ◌>>=◌ {ℓ κ} : {A : Type ℓ} {B : Type κ} → Run A → (A → Run B) → Run B
done a >>= k = k a
fault >>= k = fault
out_of_fuel >>= k = out_of_fuel

unfoldable pub update : Heap → Pointer → Option Job → Heap
update h p c a = if a == p then c else h a

unfoldable pub load : Heap → Pointer → Run Job
load h p = if p == 0 then fault else elim (h p) [ none ↦ fault | some j ↦ done j ]

-- `p->next = q` and `p->prev = q`
unfoldable pub set_next : Heap → Pointer → Pointer → Run Heap
set_next h p q = load h p >>= λ j. done (update h p (some (record j { next = q })))

unfoldable pub set_prev : Heap → Pointer → Pointer → Run Heap
set_prev h p q = load h p >>= λ j. done (update h p (some (record j { prev = q })))
