-- ===== src/Cron/Minute.antt =====
-- The walk of `cron_periodic` through the list, once a minute.
use ir.Prelude.{
  ℕ, zero, suc, ◌<◌, ◌≡◌, ◌≢◌, refl, true, false, some, List, [], ◌∷◌, ◌++◌, arith, Bool-cases, ◌⊎◌,
  inl, inr, ap, ◌∙◌, sym, if◌then◌else◌, append_assoc, length,
}
use native.Mathlib.Decide.{ℕ_discrete}
use mathlib.Core.Path.{subst}
use ir.Clock.Date.{Datetime}
use ir.Cron.Heap.{Pointer, Command, Job, Heap, done}
use ir.Cron.Jobs.{Cron}
use ir.Cron.Chain.{has, IsCron}
use ir.Cron.Walk.{pointer_at, load_at}
use ir.Cron.Remove.{test_ne, apart}
use ir.Cron.Insert.{event_of, event_at}
use ir.Cron.Jobrm.{null_unlisted}
use ir.Cron.Periodic.{check_job, check_jobs}
use ir.Cron.Due.{
  command_of, commands, expires, kept, survivors, counted, run_all, run_all-append, commands_frame,
  survivors_frame,
}
use ir.Cron.Sweep.{inner_job, Distinct-inner, Checked, check_job-Checked}

-- What the walk through `rest` makes of the list `pre ++ rest`.
pub record Swept (d : Datetime) (pre rest : List Pointer) (s t : Cron) : Type 0 where
  pub jobs : IsCron t (pre ++ survivors d s.heap rest)
  pub elsewhere : (a : Pointer) → a ≢ 0 → has a rest ≡ false → event_at t.heap a ≡ event_at s.heap a
  pub events :
      (a : Pointer)
      → has a (survivors d s.heap rest) ≡ true
      → event_at t.heap a ≡ counted d (event_at s.heap a)

has-suffix :
    (a : Pointer) (pre : List Pointer) (x : Pointer) (rest : List Pointer)
    → has a rest ≡ true
    → has a (pre ++ (x ∷ rest)) ≡ true
has-suffix a [] x rest i = ground arith
has-suffix a (y ∷ pre) x rest i = ground (arith, has-suffix a pre x rest)

has-append_or :
    (a : Pointer) (xs ys : List Pointer)
    → has a (xs ++ ys) ≡ true
    → (has a xs ≡ true) ⊎ (has a ys ≡ true)
has-append_or a [] ys i = inr i
has-append_or a (x ∷ xs) ys i = elim (ℕ_discrete x a) [
  | yes hit ↦ inl (ground arith)
  | no miss ↦ elim (has-append_or a xs ys (ground arith)) [
    | inl l ↦ inl (ground arith)
    | inr r ↦ inr r
  ]
]

-- A job that is kept is the job itself.
kept_lem :
    (d : Datetime) (h : Heap) (x a : Pointer)
    → has a (kept d h x) ≡ true
    → (x ≡ a) × (expires d (event_at h x) ≡ false)
kept_lem d h x a i = elim (Bool-cases (expires d (event_at h x))) [
  | inl out ↦ absurd (lost out)
  | inr stays ↦ (ground (arith, one stays), stays)
]
  where
    lost : expires d (event_at h x) ≡ true → ⊥
    lost out = cc (i, ap (λ b. has a (if b then [] else x ∷ [])) out)

    one : expires d (event_at h x) ≡ false → has a (x ∷ []) ≡ true
    one stays = ap (λ b. has a (if b then [] else x ∷ [])) (sym stays) ∙ i

has-survivors :
    (d : Datetime) (h : Heap) (a : Pointer) (xs : List Pointer)
    → has a (survivors d h xs) ≡ true
    → has a xs ≡ true
has-survivors d h a [] i = i
has-survivors d h a (x ∷ xs) i = elim (has-append_or a (kept d h x) (survivors d h xs) i) [
  | inl k ↦ (let (e, _) = kept_lem d h x a k in ground arith)
  | inr m ↦ (let r = has-survivors d h a xs m in ground arith)
]

Swept-Checked :
    (d : Datetime) (pre : List Pointer) (x : Pointer) (rest : List Pointer) (s u t : Cron)
    → x ≢ 0
    → has x rest ≡ false
    → ((a : Pointer) → has a rest ≡ true → event_at u.heap a ≡ event_at s.heap a)
    → Checked d pre x rest s u
    → Swept d (pre ++ kept d s.heap x) rest u t
    → Swept d pre (x ∷ rest) s t
Swept-Checked d pre x rest s u t ne out same c r = record {
  jobs =
      subst (IsCron t)
        (append_assoc pre (kept d s.heap x) (survivors d u.heap rest)
          ∙ ap (λ zs. pre ++ (kept d s.heap x ++ zs)) (survivors_frame d u.heap s.heap rest same))
        r.jobs;
  elsewhere = λ a z o. r.elsewhere a z (ground arith) ∙ c.elsewhere a z (ground arith);
  events = λ a i. elim (has-append_or a (kept d s.heap x) (survivors d s.heap rest) i) [
    | inl k ↦
        let (e, stays) = kept_lem d s.heap x a k in
        subst (λ b. event_at t.heap b ≡ counted d (event_at s.heap b)) e
          (r.elsewhere x ne out ∙ c.here stays)
    | inr m ↦
        r.events a (ap (has a) (survivors_frame d u.heap s.heap rest same) ∙ m)
        ∙ ap (counted d) (same a (has-survivors d s.heap a rest m))
  ];
}

module _ {ℓ} {W : Type ℓ} (exec : Command → Cron × W → Cron × W) (act : Command → W → W)
    (keeps : (c : Command) (r : Cron) (w : W) → exec c (r, w) ≡ (r, act c w)) where
  check_jobs-step :
      (fuel : ℕ) (d : Datetime) (x : Pointer) (rest : List Pointer) (s u : Cron) (j : Job) (w v : W)
      → s.heap x ≡ some j
      → x ≢ 0
      → j.next ≡ pointer_at 0 rest
      → check_job exec d x j.event (s, w) ≡ done (u, v)
      → check_jobs exec (suc fuel) d x (s, w) ≡ check_jobs exec fuel d (pointer_at 0 rest) (u, v)
  unfolding check_jobs
  check_jobs-step fuel d x rest s u j w v at ne next run =
      rw (test_ne x 0 ne, load_at s.heap x j ne at, run, next)

  pub check_jobs-Swept :
      (fuel : ℕ) (d : Datetime) (pre rest : List Pointer) (s : Cron) (w : W)
      → IsCron s (pre ++ rest)
      → length rest < fuel
      → (t : Cron) × (check_jobs exec fuel d (pointer_at 0 rest) (s, w)
          ≡ done (t, run_all act (commands d s.heap rest) w))
        × Swept d pre rest s t
  unfolding check_jobs
  check_jobs-Swept zero d pre rest s w v f = absurd (omega arith)
  check_jobs-Swept (suc fuel) d pre [] s w v f =
      (s, refl, record { jobs = v; elsewhere = λ a _ _. refl; events = λ a i. cc })
  check_jobs-Swept (suc fuel) d pre (x ∷ rest) s w v f =
      let (j, at, ne, next) = inner_job s.heap 0 s.head pre x rest v.chain in
      let (u, run, c) = check_job-Checked d pre x rest s j at ne v exec act keeps w in
      let (t, later, r) =
        check_jobs-Swept fuel d (pre ++ kept d s.heap x) rest u
          (run_all act (command_of d (some j.event)) w) c.jobs (omega arith) in
      let same = rest_same pre x rest s u v c in
      (
        t,
        check_jobs-step fuel d x rest s u j w (run_all act (command_of d (some j.event)) w) at ne
              next run
            ∙ later
            ∙ ap (λ z. done (t, z))
                (ap (λ cs. run_all act cs (run_all act (command_of d (some j.event)) w))
                    (commands_frame d u.heap s.heap rest same)
                  ∙ sym
                      (run_all-append act (command_of d (some j.event)) (commands d s.heap rest) w)
                  ∙ ap (λ o. run_all act (command_of d (event_of o) ++ commands d s.heap rest) w)
                      (sym at)),
        Swept-Checked d pre x rest s u t ne (Distinct-inner pre x rest v.distinct).1 same c r,
      )
    where
      rest_same :
          (pre : List Pointer) (x : Pointer) (rest : List Pointer) (s u : Cron)
          → IsCron s (pre ++ (x ∷ rest))
          → Checked d pre x rest s u
          → (a : Pointer) → has a rest ≡ true
          → event_at u.heap a ≡ event_at s.heap a
      rest_same pre x rest s u v c a i =
          c.elsewhere a
            (apart a 0 (pre ++ (x ∷ rest)) (has-suffix a pre x rest i)
              (null_unlisted s.heap 0 s.head (pre ++ (x ∷ rest)) v.chain))
            (apart a x rest i (Distinct-inner pre x rest v.distinct).1)
