-- ===== src/Cron/Position.antt =====
-- `cron_insert` at a positive position.
use ir.Prelude.{
  ℕ, zero, suc, ◌<◌, ◌≤◌, ◌≡◌, ◌≢◌, refl, true, false, some, List, [], ◌∷◌, arith, ◌==◌, Bool-cases,
  inl, inr, length, ap, ◌∙◌, sym,
}
use ir.Prelude.Int.{pos}
use ir.Cron.Heap.{Pointer, Job, Heap, done, fault, load, update, set_next, set_prev}
use ir.Cron.Jobs.{Cron, find_position, insert_at, insert_from, cron_insert, cron_getjob, cron_jobs}
use ir.Cron.Chain.{has, Next, Chain-Next, IsCron}
use ir.Cron.Walk.{pointer_at, find_position-pointer_at, seek_job-pointer_at, count_jobs-length}
use ir.Cron.Insert.{IsFresh, head-from}

-- What a chain says of the job at an index.
job_at :
    (h : Heap) (p : Pointer) (i : ℕ) (xs : List Pointer)
    → Next h p xs
    → i < length xs
    → (j : Job) × (h (pointer_at i xs) ≡ some j)
      × (pointer_at i xs ≢ 0)
      × (has (pointer_at i xs) xs ≡ true)
job_at h p i [] c b = absurd (omega arith)
job_at h p zero (x ∷ xs) (e, ne, (j, at, c)) b = (j, at, ne, ground arith)
job_at h p (suc i) (x ∷ xs) (e, ne, (j, at, c)) b =
    let (k, found, kne, listed) = job_at h j.next i xs c (omega arith) in
    (k, found, kne, ground arith)

pointer_at-beyond : (i : ℕ) (xs : List Pointer) → length xs ≤ i → pointer_at i xs ≡ 0
pointer_at-beyond i [] b = refl
pointer_at-beyond zero (x ∷ xs) b = absurd (omega arith)
pointer_at-beyond (suc i) (x ∷ xs) b = pointer_at-beyond i xs (omega arith)

-- A change of `prev` pointers only.
Next-frame :
    (g h : Heap) (p : Pointer) (xs : List Pointer)
    → Next h p xs
    → ((a : Pointer) (j : Job)
        → has a xs ≡ true
        → h a ≡ some j
        → (k : Job) × (g a ≡ some k) × (k.next ≡ j.next))
    → Next g p xs
Next-frame g h p [] c same = c
Next-frame g h p (x ∷ xs) (e, ne, (j, at, c)) same =
    let (k, now, eq) = same x j (ground arith) at in
    (e, ne, (k, now, rw eq (Next-frame g h j.next xs c (λ a i m. same a i (ground arith)))))

pointer_at_ne :
    (i : ℕ) (xs : List Pointer) (n : Pointer) → n ≢ 0 → has n xs ≡ false → pointer_at i xs ≢ n
pointer_at_ne i [] n ne out = ground arith
pointer_at_ne zero (x ∷ xs) n ne out = ground arith
pointer_at_ne (suc i) (x ∷ xs) n ne out = pointer_at_ne i xs n ne (ground arith)

has_ne : (a b : Pointer) (xs : List Pointer) → has a xs ≡ true → has b xs ≡ false → (a == b) ≡ false
has_ne a b [] i o = cc
has_ne a b (x ∷ xs) i o = ground (arith, has_ne a b xs)

-- The three writes of `cron_insert` at the job `target` change no `next` pointer of the list.
links-kept :
    (h : Heap) (newone target : Pointer) (one two j : Job) (xs : List Pointer)
    → h target ≡ some j
    → has newone xs ≡ false
    → (a : Pointer) (k : Job) → has a xs ≡ true
    → h a ≡ some k
    → (k' : Job) × (update
          (update (update h newone (some one)) target (some (record j { prev = newone })))
          newone
          (some two)
          a
        ≡ some k')
      × (k'.next ≡ k.next)
unfolding update
links-kept h newone target one two j xs at out a k listed found =
    let apart : (a == newone) ≡ false = has_ne a newone xs listed out in
    elim (Bool-cases (a == target)) [
      | inl hit ↦ (record j { prev = newone }, rw (apart, hit), ground arith)
      | inr miss ↦ (k, rw (apart, miss) found, refl)
    ]

-- What `cron_insert` writes at the job found.
insert_at-run :
    (fuel : ℕ) (newone : Pointer) (n : ℕ) (s : Cron) (target : Pointer) (new j : Job)
    → find_position fuel s.heap n 0 s.head ≡ done target
    → target ≢ 0
    → s.heap target ≡ some j
    → newone ≢ 0
    → s.heap newone ≡ some new
    → target ≢ newone
    → target ≢ s.head
    → insert_at fuel newone n s
      ≡ done (record s {
        heap =
            update
              (update
                (update s.heap newone (some (record new { prev = j.prev })))
                target
                (some (record j { prev = newone })))
              newone
              (some (record new { prev = j.prev; next = target }));
      })
unfolding insert_at load update set_next set_prev
insert_at-run fuel newone n s target new j found tne at ne fresh apart inner = ground arith

-- `cron_insert` of a job from `malloc` at a position from 1 on that is an index of the list, in a
-- list of fewer than 128 jobs, and with more fuel than jobs, ends without a fault and leaves the list as every function sees it that walks it from its head: each index holds the job that it
-- held, the number of jobs is the same, and the new job is not among them. Nor is the tail changed.
pub cron_insert-lost :
    (fuel : ℕ) (newone : Pointer) (n : ℕ) (s : Cron) (xs : List Pointer)
    → IsCron s xs
    → IsFresh s xs newone
    → suc n < length xs
    → length xs < fuel
    → length xs < 128
    → (t : Cron) × (cron_insert fuel newone (pos (suc n)) s ≡ done t)
      × ((i : ℕ) → i < 256 → cron_getjob fuel i t ≡ cron_getjob fuel i s)
      × (cron_jobs fuel t ≡ cron_jobs fuel s)
      × ((i : ℕ) → pointer_at i xs ≢ newone)
      × (t.tail ≡ s.tail)
cron_insert-lost fuel newone n s [] v f inside enough b = absurd (omega arith)
cron_insert-lost fuel newone n s (x ∷ xs) v f inside enough b = (
  t,
  head-from fuel newone (pos (suc n)) s (ground arith) ∙ unfold insert_from in run,
  λ i hi.
      unfold cron_getjob in
      (seek_job-pointer_at fuel t.heap i s.head (x ∷ xs) after enough hi
        ∙ sym (seek_job-pointer_at fuel s.heap i s.head (x ∷ xs) before enough hi)),
  unfold cron_jobs in
      (count_jobs-length fuel t.heap 0 s.head (x ∷ xs) after enough (omega arith)
        ∙ sym (count_jobs-length fuel s.heap 0 s.head (x ∷ xs) before enough (omega arith))),
  λ i. pointer_at_ne i (x ∷ xs) newone f.new_ne f.unlisted,
  refl,
)
  where
    before : Next s.heap s.head (x ∷ xs)
    before = Chain-Next s.heap 0 s.head (x ∷ xs) v.chain

    target : Pointer
    target = pointer_at n xs

    found : (j : Job) × (s.heap target ≡ some j) × (target ≢ 0) × (has target xs ≡ true)
    found = job_at s.heap before.2.0.next n xs before.2.2 (omega arith)

    j : Job
    j = found.0

    t : Cron
    t = record s {
      heap =
          update
            (update (update s.heap newone (some (record f.job { prev = j.prev }))) target
              (some (record j { prev = newone })))
            newone (some (record f.job { prev = j.prev; next = target }));
    }

    run : insert_at fuel newone (suc n) s ≡ done t
    run =
        insert_at-run fuel newone (suc n) s target f.job j
          (find_position-pointer_at fuel s.heap (suc n) 0 (suc n) s.head (x ∷ xs) before enough
            (omega arith) (omega arith))
          found.2 found.1 f.new_ne f.allocated (pointer_at_ne n xs newone f.new_ne (ground arith))
          (ground (arith, found.3))

    after : Next t.heap s.head (x ∷ xs)
    after = Next-frame t.heap s.heap s.head (x ∷ xs) before (
        links-kept s.heap newone target (record f.job { prev = j.prev })
          (record f.job { prev = j.prev; next = target }) j (x ∷ xs) found.1 f.unlisted)

insert_at-null :
    (fuel : ℕ) (newone : Pointer) (n : ℕ) (s : Cron)
    → find_position fuel s.heap n 0 s.head ≡ done 0
    → insert_at fuel newone n s ≡ fault
unfolding insert_at load
insert_at-null fuel newone n s e = ground arith

-- At a position from 1 on that is beyond the end of a list that is not empty, and below 128,
-- `cron_insert` accesses the null pointer.
pub cron_insert-fault :
    (fuel : ℕ) (newone : Pointer) (n : ℕ) (s : Cron) (xs : List Pointer)
    → IsCron s xs
    → 0 < length xs
    → length xs ≤ suc n
    → suc n < 128
    → length xs < fuel
    → cron_insert fuel newone (pos (suc n)) s ≡ fault
unfolding insert_from
cron_insert-fault fuel newone n s [] v nonempty beyond b enough = absurd (omega arith)
cron_insert-fault fuel newone n s (x ∷ xs) v nonempty beyond b enough =
    head-from fuel newone (pos (suc n)) s (ground arith) ∙ insert_at-null fuel newone (suc n) s null
  where
    null : find_position fuel s.heap (suc n) 0 s.head ≡ done 0
    null =
        find_position-pointer_at fuel s.heap (suc n) 0 (suc n) s.head (x ∷ xs)
          (Chain-Next s.heap 0 s.head (x ∷ xs) v.chain) enough (omega arith) (omega arith)
        ∙ ap done (pointer_at-beyond n xs (omega arith))
