-- ===== src/Cron/Add.antt =====
-- `parse_cmd_cron_add` of services/cron/cron_ecmd.c, over `cron_jobinsert_ecmd`. The fields and the
-- text that `sscanf` reads are arguments.
use ir.Prelude.{
  ℕ, ◌+◌, ◌<◌, ◌≡◌, ◌≢◌, refl, false, true, leb, if◌then◌else◌, some, List, [], ◌∷◌, ◌++◌, arith,
  ==_iff, ap, ◌∙◌, length, ◌%◌,
}
use ir.Prelude.Int.{ℤ, negsuc}
use ir.Ecmd.Net.{inputbuf_length}
use ir.Cron.Heap.{Pointer, cron_ecmd, CronEvent, Run, done, fault, update}
use ir.Cron.Jobs.{Cron, cron_insert, cron_jobinsert_ecmd, strncpy}
use ir.Cron.Chain.{has, Chain-frame, IsCron}
use ir.Cron.Remove.{test_ne, apart}
use ir.Cron.Insert.{IsFresh, event_of, event_at, cron_insert-Appended}

-- CRON_APPEND and INFINIT_RUNNING
abbrev cron_append : ℤ
cron_append = negsuc 0

abbrev infinit_running : ℕ
infinit_running = 0

-- `sscanf` stores the text and its final zero in `ecmd`, of ECMD_INPUTBUF_LENGTH bytes, without a
-- width: a longer text is written beyond the array, which is a fault.
unfoldable pub cron_add : ℕ → Pointer → CronEvent → List ℕ → Cron → Run Cron
cron_add fuel newone times ecmd s =
    if leb (length ecmd + 1) inputbuf_length
    then cron_jobinsert_ecmd fuel newone (record times { repeat = infinit_running }) cron_append
        ecmd s
    else fault

strncpy-append :
    (ecmd : List ℕ)
    → has 0 ecmd ≡ false
    → strncpy (length ecmd + 1) (ecmd ++ (0 ∷ [])) ≡ ecmd ++ (0 ∷ [])
unfolding strncpy
strncpy-append [] o = refl
strncpy-append (c ∷ ecmd) o = ground (arith, strncpy-append ecmd)

-- The event of a job that has been added.
abbrev pub added : CronEvent → List ℕ → CronEvent
added times ecmd = record times { repeat = 0; command = cron_ecmd (ecmd ++ (0 ∷ [])) }

abbrev allocate : Pointer → CronEvent → Cron → Cron
allocate newone event s = record s {
  heap = update s.heap newone (some record { next = 0; prev = 0; event = event });
}

cron_add-cron_insert :
    (fuel : ℕ) (newone : Pointer) (times : CronEvent) (ecmd : List ℕ) (s : Cron)
    → newone ≢ 0
    → has 0 ecmd ≡ false
    → 0 < length ecmd
    → length ecmd < 50
    → cron_add fuel newone times ecmd s
      ≡ cron_insert fuel newone cron_append (allocate newone (added times ecmd) s)
unfolding cron_add cron_jobinsert_ecmd
cron_add-cron_insert fuel newone times ecmd s ne text some_text short =
    let size : length ecmd % 256 ≡ length ecmd = omega arith in
    let fits : leb (length ecmd + 1) 50 ≡ true = ground arith in
    rw (
      fits,
      size,
      test_ne (length ecmd) 0 (omega arith),
      test_ne newone 0 ne,
      strncpy-append ecmd text,
    )

allocate_elsewhere :
    (newone : Pointer) (event : CronEvent) (s : Cron) (a : Pointer)
    → a ≢ newone
    → (allocate newone event s).heap a ≡ s.heap a
unfolding update
allocate_elsewhere newone event s a ne = rw (test_ne a newone ne)

allocate_here :
    (newone : Pointer) (event : CronEvent) (s : Cron)
    → (allocate newone event s).heap newone ≡ some record { next = 0; prev = 0; event = event }
unfolding update
allocate_here newone event s = rw ((==_iff newone newone).1 refl)

allocate-IsCron :
    (newone : Pointer) (event : CronEvent) (s : Cron) (xs : List Pointer)
    → has newone xs ≡ false
    → IsCron s xs
    → IsCron (allocate newone event s) xs
allocate-IsCron newone event s xs o v = record {
  chain =
      Chain-frame (allocate newone event s).heap s.heap 0 s.head xs v.chain
        (λ a i. allocate_elsewhere newone event s a (apart a newone xs i o));
  last = v.last;
  distinct = v.distinct;
}

-- The command `cron_add` with a text of 1 to 49 characters, which fit into its buffer of 50 bytes,
-- when `malloc` has memory left, adds at the end of the list a job that runs the text, with its
-- final zero, for ever at the times given. The other jobs keep their order and their events.
pub cron_add-added :
    (fuel : ℕ) (newone : Pointer) (times : CronEvent) (ecmd : List ℕ) (s : Cron) (xs : List Pointer)
    → IsCron s xs
    → newone ≢ 0
    → has newone xs ≡ false
    → has 0 ecmd ≡ false
    → 0 < length ecmd
    → length ecmd < 50
    → (t : Cron) × (cron_add fuel newone times ecmd s ≡ done t)
      × IsCron t (xs ++ (newone ∷ []))
      × (event_at t.heap newone ≡ some (added times ecmd))
      × ((a : Pointer) → a ≢ newone → event_at t.heap a ≡ event_at s.heap a)
cron_add-added fuel newone times ecmd s xs v ne o text some_text short =
    let u = allocate newone (added times ecmd) s in
    let fresh : IsFresh u xs newone = record {
      new_ne = ne;
      job = record { next = 0; prev = 0; event = added times ecmd };
      allocated = allocate_here newone (added times ecmd) s;
      unlisted = o;
    } in
    let (t, run, r) =
      cron_insert-Appended fuel newone cron_append u xs
        (allocate-IsCron newone (added times ecmd) s xs o v) fresh tt in
    (
      t,
      cron_add-cron_insert fuel newone times ecmd s ne text some_text short ∙ run,
      r.jobs,
      r.events newone ∙ ap event_of (allocate_here newone (added times ecmd) s),
      λ a miss. r.events a ∙ ap event_of (allocate_elsewhere newone (added times ecmd) s a miss),
    )
