-- ===== src/Cron/Jobs.antt =====
-- services/cron/cron.c: the operations on the list of jobs.
use ir.Prelude.{
  ℕ, zero, suc, ◌+◌, ◌%◌, Bool, true, false, ◌||◌, ◌&&◌, Option, none, some, List, [], ◌∷◌, ◌++◌,
  ◌==◌, if◌then◌else◌, length,
}
use ir.Prelude.Int.{ℤ, pos, negsuc}
use ir.Prelude.Words.{add8, sub8}
use ir.Cron.Heap.{
  Pointer, cron_jump, cron_ecmd, CronEvent, Job, Heap, Run, done, fault, out_of_fuel, ◌>>=◌, update,
  load, set_next, set_prev,
}

-- The heap and the global variables.
pub record Cron : Type 0 where
  pub heap : Heap
  pub head : Pointer
  pub tail : Pointer

unfoldable pub cron_init : Cron → Cron
cron_init s = record s { head = 0; tail = 0 }

-- The walk of `cron_insert` to its position; `ss` is the `uint8_t` counter.
unfoldable pub find_position : ℕ → Heap → ℕ → ℕ → Pointer → Run Pointer
find_position zero h position ss job = out_of_fuel
find_position (suc fuel) h position ss job =
    let rest = load h job >>= λ j. find_position fuel h position (add8 ss 1) j.next in
    if job == 0 then done 0 else if ss == position then done job else rest

-- `cron_insert` at a positive position
unfoldable pub insert_at : ℕ → Pointer → ℕ → Cron → Run Cron
unfolding find_position set_next set_prev
insert_at fuel newone position s = do
  job ← find_position fuel s.heap position 0 s.head
  j ← load s.heap job
  h ← set_prev s.heap newone j.prev
  g ← set_prev h job newone
  f ← set_next g newone job
  done (record s { heap = f; head = if job == s.head then newone else s.head })

-- `cron_insert` as the last element
unfoldable pub append : Pointer → Cron → Run Cron
unfolding set_next set_prev
append newone s = do
  h ← set_next s.heap newone 0
  g ← set_prev h newone s.tail
  f ← set_next g s.tail newone
  done (record s { heap = f; tail = newone })

-- `cron_insert` into the empty list
unfoldable pub insert_first : Pointer → Cron → Run Cron
unfolding set_next set_prev
insert_first newone s = do
  h ← set_prev s.heap newone 0
  g ← set_next h newone 0
  done (record s { heap = g; head = newone; tail = newone })

-- `cron_insert` into a list that is not empty
unfoldable pub insert_from : ℕ → Pointer → ℤ → Cron → Run Cron
insert_from fuel newone (pos zero) s = append newone s
insert_from fuel newone (pos (suc n)) s = insert_at fuel newone (suc n) s
insert_from fuel newone (negsuc n) s = append newone s

unfoldable pub cron_insert : ℕ → Pointer → ℤ → Cron → Run Cron
cron_insert fuel newone position s =
    if s.head == 0 then insert_first newone s else insert_from fuel newone position s

-- `strncpy`: at most `n` bytes, filled up with zeros after the first zero byte
unfoldable pub strncpy : ℕ → List ℕ → List ℕ
strncpy zero src = []
strncpy (suc n) [] = 0 ∷ strncpy n []
strncpy (suc n) (c ∷ src) = c ∷ strncpy n (if c == 0 then [] else src)

abbrev is_given : Option (List ℕ) → Bool
is_given none = false
is_given (some src) = true

unfoldable extra_bytes : ℕ → Option (List ℕ) → Run (List ℕ)
extra_bytes n none = if n == 0 then done [] else fault
extra_bytes n (some src) = done (strncpy n src)

-- `newone` is what `malloc` returns, null if there is no memory left; what `malloc` left in the
-- links is overwritten by `cron_insert`.
unfoldable pub cron_jobinsert_callback :
    ℕ → Pointer → CronEvent → ℤ → ℕ → ℕ → Option (List ℕ) → Cron → Run Cron
unfolding extra_bytes
cron_jobinsert_callback fuel newone times position handler extrasize extradata s =
    if handler == 0 || (extrasize == 0 && is_given extradata)
    then done s
    else if newone == 0
    then done s
    else (extra_bytes extrasize extradata >>= insert_bytes)
  where
    job : List ℕ → Job
    job bytes = record {
      next = 0;
      prev = 0;
      event = record times { command = cron_jump handler bytes };
    }

    insert_bytes : List ℕ → Run Cron
    insert_bytes bytes =
        cron_insert fuel newone position
          (record s { heap = update s.heap newone (some (job bytes)) })

-- The text is given without its final zero.
unfoldable pub cron_jobinsert_ecmd : ℕ → Pointer → CronEvent → ℤ → List ℕ → Cron → Run Cron
cron_jobinsert_ecmd fuel newone times position ecmd s =
    if length ecmd % 256 == 0
    then done s
    else if newone == 0
    then done s
    else cron_insert fuel newone position (record s { heap = update s.heap newone (some job) })
  where
    job : Job
    job = record {
      next = 0;
      prev = 0;
      event = record times {
        command = cron_ecmd (strncpy (length ecmd % 256 + 1) (ecmd ++ (0 ∷ [])));
      };
    }

unfoldable pub cron_jobrm : Pointer → Cron → Run Cron
cron_jobrm job s = if job == 0 then done s else do
  j ← load s.heap job
  h ← (if j.prev == 0 then done s.heap else set_next s.heap j.prev j.next)
  k ← load h job
  g ← (if k.next == 0 then done h else set_prev h k.next k.prev)
  done (record s {
    heap = update g job none;
    head = if job == s.head then j.next else s.head;
    tail = if job == s.tail then k.prev else s.tail;
  })

unfoldable pub count_jobs : ℕ → Heap → ℕ → Pointer → Run ℕ
count_jobs zero h ss job = out_of_fuel
count_jobs (suc fuel) h ss job =
    let rest = load h job >>= λ j. count_jobs fuel h (add8 ss 1) j.next in
    if job == 0 then done ss else rest

unfoldable pub cron_jobs : ℕ → Cron → Run ℕ
unfolding count_jobs
cron_jobs fuel s = count_jobs fuel s.heap 0 s.head

-- The loop of `cron_getjob`, with what is returned after it.
unfoldable pub seek_job : ℕ → Heap → ℕ → Pointer → Run Pointer
seek_job zero h jobposition job = out_of_fuel
seek_job (suc fuel) h jobposition job =
    let rest = load h job >>= λ j. seek_job fuel h (sub8 jobposition 1) j.next in
    if job == 0 then done 0 else if jobposition == 0 then done job else rest

unfoldable pub cron_getjob : ℕ → ℕ → Cron → Run Pointer
unfolding seek_job
cron_getjob fuel jobposition s = seek_job fuel s.heap jobposition s.head
