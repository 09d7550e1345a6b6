-- ===== src/Cron/Walk.antt =====
-- The functions that walk the list.
use ir.Prelude.{ℕ, zero, suc, ◌+◌, ◌%◌, ◌<◌, ◌≡◌, ◌≢◌, some, List, [], ◌∷◌, arith, length, ap, ◌∙◌}
use ir.Cron.Heap.{Pointer, Job, Heap, done, load}
use ir.Cron.Jobs.{Cron, find_position, count_jobs, cron_jobs, seek_job, cron_getjob}
use ir.Cron.Chain.{Next, Chain-Next, IsCron}

-- the pointer at an index, null beyond the end
abbrev pub pointer_at : ℕ → List Pointer → Pointer
pointer_at i [] = 0
pointer_at zero (x ∷ xs) = x
pointer_at (suc i) (x ∷ xs) = pointer_at i xs

pub load_at : (h : Heap) (p : Pointer) (j : Job) → p ≢ 0 → h p ≡ some j → load h p ≡ done j
unfolding load
load_at h p j ne at = ground arith

pub count_jobs-length :
    (fuel : ℕ) (h : Heap) (ss : ℕ) (p : Pointer) (xs : List Pointer)
    → Next h p xs
    → length xs < fuel
    → ss < 256
    → count_jobs fuel h ss p ≡ done ((ss + length xs) % 256)
unfolding count_jobs
count_jobs-length zero h ss p xs c f b = absurd (omega arith)
count_jobs-length (suc fuel) h ss p [] c f b = ground arith
count_jobs-length (suc fuel) h ss p (x ∷ xs) (e, ne, (j, at, c)) f b =
    ground (arith, load_at h x j ne at, count_jobs-length fuel h ((ss + 1) % 256) j.next xs c)

pub seek_job-pointer_at :
    (fuel : ℕ) (h : Heap) (i : ℕ) (p : Pointer) (xs : List Pointer)
    → Next h p xs
    → length xs < fuel
    → i < 256
    → seek_job fuel h i p ≡ done (pointer_at i xs)
unfolding seek_job
seek_job-pointer_at zero h i p xs c f b = absurd (omega arith)
seek_job-pointer_at (suc fuel) h i p [] c f b = ground arith
seek_job-pointer_at (suc fuel) h zero p (x ∷ xs) (e, ne, c) f b = ground arith
seek_job-pointer_at (suc fuel) h (suc i) p (x ∷ xs) (e, ne, (j, at, c)) f b =
    ground (arith, load_at h x j ne at, seek_job-pointer_at fuel h i j.next xs c)

-- `ss` has been counted, and `i` jobs are left to the position.
pub find_position-pointer_at :
    (fuel : ℕ) (h : Heap) (position ss i : ℕ) (p : Pointer) (xs : List Pointer)
    → Next h p xs
    → length xs < fuel
    → position ≡ ss + i
    → position < 256
    → find_position fuel h position ss p ≡ done (pointer_at i xs)
unfolding find_position
find_position-pointer_at zero h q ss i p xs c f e b = absurd (omega arith)
find_position-pointer_at (suc fuel) h q ss i p [] c f e b = ground arith
find_position-pointer_at (suc fuel) h q ss zero p (x ∷ xs) (e, ne, c) f eq b = ground arith
find_position-pointer_at (suc fuel) h q ss (suc i) p (x ∷ xs) (e, ne, (j, at, c)) f eq b =
    ground
      (arith, load_at h x j ne at, find_position-pointer_at fuel h q ((ss + 1) % 256) i j.next xs c)

-- On a list of jobs, and with more fuel than jobs, `cron_getjob` returns the job at the position
-- asked for, and null beyond the end, and `cron_jobs` the number of jobs modulo 256.
pub getjob-jobs :
    (fuel i : ℕ) (s : Cron) (xs : List Pointer)
    → IsCron s xs
    → length xs < fuel
    → i < 256
    → (cron_getjob fuel i s ≡ done (pointer_at i xs)) × (cron_jobs fuel s ≡ done (length xs % 256))
unfolding cron_getjob cron_jobs
getjob-jobs fuel i s xs v f b =
    let c = Chain-Next s.heap 0 s.head xs v.chain in
    (
      seek_job-pointer_at fuel s.heap i s.head xs c f b,
      count_jobs-length fuel s.heap 0 s.head xs c f (omega arith) ∙ ap done (omega arith),
    )
