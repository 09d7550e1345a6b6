-- ===== src/Cron/Ecmd.antt =====
-- services/cron/cron_ecmd.c: the ECMD commands on the list of jobs. What `sscanf` makes of the
-- command's text is an argument.
use ir.Prelude.{
  ℕ, zero, suc, ◌<◌, ◌≡◌, ◌⊎◌, inl, inr, refl, true, false, Option, none, some, List, [], ◌∷◌,
  arith, ◌==◌, ==_iff, ap, ◌∙◌, sym, if◌then◌else◌, length,
}
use mathlib.Core.Path.{subst}
use ir.Cron.Heap.{Pointer, CronEvent, Run, done, out_of_fuel, ◌>>=◌, load}
use ir.Cron.Jobs.{Cron, cron_jobrm, cron_getjob, cron_jobs}
use ir.Cron.Chain.{has, Distinct, IsCron}
use ir.Cron.Walk.{pointer_at, getjob-jobs}
use ir.Cron.Remove.{without, test_ne, apart}
use ir.Cron.Jobrm.{null_unlisted}
use ir.Cron.Removed.{cron_jobrm-without}

-- What the commands answer.
pub data Reply : Type 0 where
  ecmd_final_ok : Reply
  job_details : CronEvent → Reply
  job_count : ℕ → Reply
  rm_cron : ℕ → Reply
  rm_all_cron : Reply

unfoldable pub cron_list : ℕ → Option ℕ → Cron → Run Reply
cron_list fuel none s = do n ← cron_jobs fuel s; done (job_count n)
cron_list fuel (some jobposition) s = do
  p ← cron_getjob fuel jobposition s
  if p == 0 then done ecmd_final_ok else (load s.heap p >>= λ j. done (job_details j.event))

unfoldable pub remove_all : ℕ → Cron → Run Cron
remove_all zero s = out_of_fuel
remove_all (suc fuel) s =
    let rest = cron_jobrm s.head s >>= remove_all fuel in if s.head == 0 then done s else rest

unfoldable pub cron_rm : ℕ → Option ℕ → Cron → Run (Cron × Reply)
cron_rm fuel (some jobposition) s = do
  p ← cron_getjob fuel jobposition s
  t ← cron_jobrm p s
  done (t, rm_cron jobposition)
cron_rm fuel none s = do t ← remove_all fuel s; done (t, rm_all_cron)

-- The list without its job at an index.
abbrev pub remove_at : ℕ → List Pointer → List Pointer
remove_at i [] = []
remove_at zero (x ∷ xs) = xs
remove_at (suc i) (x ∷ xs) = x ∷ remove_at i xs

has-pointer_at :
    (i : ℕ) (xs : List Pointer)
    → (has (pointer_at i xs) xs ≡ true) ⊎ ((pointer_at i xs ≡ 0) × (remove_at i xs ≡ xs))
has-pointer_at i [] = inr (refl, refl)
has-pointer_at zero (x ∷ xs) = inl (ground arith)
has-pointer_at (suc i) (x ∷ xs) = elim (has-pointer_at i xs) [
  | inl m ↦ inl (ground arith)
  | inr r ↦ inr (r.0, ap (λ zs. x ∷ zs) r.1)
]

without-pointer_at :
    (i : ℕ) (xs : List Pointer)
    → Distinct xs
    → has 0 xs ≡ false
    → has (pointer_at i xs) xs ≡ true
    → without (pointer_at i xs) xs ≡ remove_at i xs
without-pointer_at i [] d o m = refl
without-pointer_at zero (x ∷ xs) d o m = rw ((==_iff x x).1 refl)
without-pointer_at (suc i) (x ∷ xs) d o m = elim (has-pointer_at i xs) [
  | inl n ↦
      rw (test_ne x (pointer_at i xs) (λ e. apart (pointer_at i xs) x xs n d.0 (sym e)))
        (ap (λ zs. x ∷ zs) (without-pointer_at i xs d.1 (ground arith) n))
  | inr r ↦ absurd (apart (pointer_at i xs) 0 (x ∷ xs) m o r.0)
]

remove_all-empty :
    (fuel : ℕ) (s : Cron) (xs : List Pointer)
    → IsCron s xs
    → length xs < fuel
    → (t : Cron) × (remove_all fuel s ≡ done t) × IsCron t []
unfolding remove_all
remove_all-empty zero s xs v f = absurd (omega arith)
remove_all-empty (suc fuel) s [] v f = (s, ground (arith, v.chain), v)
remove_all-empty (suc fuel) s (x ∷ xs) v f =
    let hit = (==_iff x x).1 refl in
    let (t, run, r, _, _) = cron_jobrm-without s (x ∷ xs) x v (rw hit) in
    let jobs = subst (IsCron t) (ap (λ b. if b then xs else x ∷ without x xs) hit) r in
    let (u, later, done_all) = remove_all-empty fuel t xs jobs (omega arith) in
    (
      u,
      rw (test_ne s.head 0 (λ z. v.chain.1 (sym v.chain.0 ∙ z))) (
          ap (λ p. cron_jobrm p s >>= remove_all fuel) v.chain.0
          ∙ ap (λ r. r >>= remove_all fuel) run
          ∙ later),
      done_all,
    )

abbrev pub remaining : Option ℕ → List Pointer → List Pointer
remaining none xs = []
remaining (some i) xs = remove_at i xs

-- `cron_jobrm` of the pointer at an index, which is null beyond the end.
jobrm_at :
    (i : ℕ) (s : Cron) (xs : List Pointer)
    → IsCron s xs
    → (t : Cron) × (cron_jobrm (pointer_at i xs) s ≡ done t) × IsCron t (remove_at i xs)
unfolding cron_jobrm
jobrm_at i s xs v = elim (has-pointer_at i xs) [
  | inl m ↦
      let (t, run, r, _, _) = cron_jobrm-without s xs (pointer_at i xs) v m in
      let o = null_unlisted s.heap 0 s.head xs v.chain in
      (t, run, subst (IsCron t) (without-pointer_at i xs v.distinct o m) r)
  | inr r ↦ (s, rw r.0, subst (IsCron s) (sym r.1) v)
]

-- With more fuel than jobs, the command `cron_rm` with a position below 256 ends without a fault
-- and removes the job at that position and no other, and none if the position is beyond the end;
-- without a position it removes all jobs.
pub cron_rm-remaining :
    (fuel : ℕ) (position : Option ℕ) (s : Cron) (xs : List Pointer)
    → IsCron s xs
    → length xs < fuel
    → ((i : ℕ) → position ≡ some i → i < 256)
    → (t : Cron) × (reply : Reply) × (cron_rm fuel position s ≡ done (t, reply))
      × IsCron t (remaining position xs)
unfolding cron_rm
cron_rm-remaining fuel none s xs v f b =
    let (t, run, r) = remove_all-empty fuel s xs v f in (t, rm_all_cron, rw run, r)
cron_rm-remaining fuel (some i) s xs v f b =
    let (t, run, r) = jobrm_at i s xs v in
    (t, rm_cron i, rw ((getjob-jobs fuel i s xs v f (b i refl)).0, run), r)
