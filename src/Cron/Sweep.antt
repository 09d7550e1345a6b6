-- ===== src/Cron/Sweep.antt =====
-- One job on the walk of `cron_periodic`.
use ir.Prelude.{
  ◌-◌, ◌≡◌, ◌≢◌, refl, true, false, some, List, [], ◌∷◌, ◌++◌, arith, ==_iff, Bool-cases, inl, inr,
  ap, ◌∙◌, sym, append-nil, append_assoc,
}
use native.Mathlib.Decide.{ℕ_discrete}
use mathlib.Core.Path.{subst}
use ir.Clock.Date.{Datetime}
use ir.Cron.Heap.{Pointer, Command, CronEvent, Job, Heap, done, update}
use ir.Cron.Jobs.{Cron, cron_jobrm}
use ir.Cron.Chain.{has, Distinct, Chain, IsCron}
use ir.Cron.Walk.{pointer_at, load_at}
use ir.Cron.Remove.{without, test_ne, same_job}
use ir.Cron.Insert.{event_of, event_at}
use ir.Cron.Removed.{cron_jobrm-without}
use ir.Cron.Periodic.{matches, one_less, count_down, check_job}
use ir.Cron.Due.{command_of, expires, kept, counted, run_all}

pub Chain-pointer_at :
    (h : Heap) (before p : Pointer) (xs : List Pointer) → Chain h before p xs → p ≡ pointer_at 0 xs
Chain-pointer_at h before p [] c = c
Chain-pointer_at h before p (x ∷ xs) c = c.0

-- The job that an inner pointer of the list leads to.
pub inner_job :
    (h : Heap) (before p : Pointer) (pre : List Pointer) (x : Pointer) (rest : List Pointer)
    → Chain h before p (pre ++ (x ∷ rest))
    → (j : Job) × (h x ≡ some j) × (x ≢ 0) × (j.next ≡ pointer_at 0 rest)
inner_job h before p [] x rest (e, ne, (k, found, back, c)) =
    (k, found, ne, Chain-pointer_at h x k.next rest c)
inner_job h before p (y ∷ pre) x rest (e, ne, (k, found, back, c)) =
    inner_job h y k.next pre x rest c

pub Distinct-inner :
    (pre : List Pointer) (x : Pointer) (rest : List Pointer)
    → Distinct (pre ++ (x ∷ rest))
    → (has x pre ≡ false) × (has x rest ≡ false)
Distinct-inner [] x rest d = (refl, d.0)
Distinct-inner (y ∷ pre) x rest d =
    let (o, r) = Distinct-inner pre x rest d.1 in (ground (arith, has_inner y pre x rest), r)
  where
    has_inner :
        (a : Pointer) (ys : List Pointer) (b : Pointer) (zs : List Pointer)
        → has a (ys ++ (b ∷ zs)) ≡ false
        → b ≢ a
    has_inner a [] b zs e = ground arith
    has_inner a (c ∷ ys) b zs e = has_inner a ys b zs (ground arith)

has-inner :
    (pre : List Pointer) (x : Pointer) (rest : List Pointer) → has x (pre ++ (x ∷ rest)) ≡ true
has-inner [] x rest = ground arith
has-inner (y ∷ pre) x rest = ground (arith, has-inner pre x rest)

without-inner :
    (pre : List Pointer) (x : Pointer) (rest : List Pointer)
    → has x pre ≡ false
    → without x (pre ++ (x ∷ rest)) ≡ pre ++ rest
without-inner [] x rest o = rw ((==_iff x x).1 refl)
without-inner (y ∷ pre) x rest o = ground (arith, without-inner pre x rest)

-- A change of events alone keeps a chain.
Chain-events :
    (g h : Heap) (before p : Pointer) (xs : List Pointer)
    → ((a : Pointer) (k : Job)
        → h a ≡ some k
        → (e : CronEvent) × (g a ≡ some (record k { event = e })))
    → Chain h before p xs
    → Chain g before p xs
Chain-events g h before p [] same c = c
Chain-events g h before p (x ∷ xs) same (e, ne, (k, found, back, c)) =
    let (event, at) = same x k found in
    (e, ne, (record k { event = event }, at, back, Chain-events g h x k.next xs same c))

IsCron-one_less :
    (s : Cron) (x : Pointer) (j : Job) (xs : List Pointer)
    → s.heap x ≡ some j
    → IsCron s xs
    → IsCron (one_less x j s) xs
unfolding update
IsCron-one_less s x j xs at v = record {
  chain = Chain-events (one_less x j s).heap s.heap 0 s.head xs same v.chain;
  last = v.last;
  distinct = v.distinct;
}
  where
    same :
        (a : Pointer) (k : Job)
        → s.heap a ≡ some k
        → (e : CronEvent) × ((one_less x j s).heap a ≡ some (record k { event = e }))
    same a k found = elim (ℕ_discrete a x) [
      | yes hit ↦ (
        record j.event { repeat = j.event.repeat - 1 },
        rw ((==_iff a x).1 hit) (
            ap
              (λ (m : Job).
                some (record m { event = record j.event { repeat = j.event.repeat - 1 } }))
              (sym (same_job s.heap a x k j hit found at))),
      )
      | no miss ↦ (k.event, rw (test_ne a x miss) found)
    ]

one_less_elsewhere :
    (s : Cron) (x : Pointer) (j : Job) (a : Pointer) → a ≢ x → (one_less x j s).heap a ≡ s.heap a
unfolding update
one_less_elsewhere s x j a ne = rw (test_ne a x ne)

one_less_here :
    (s : Cron) (x : Pointer) (j : Job)
    → event_at (one_less x j s).heap x ≡ some (record j.event { repeat = j.event.repeat - 1 })
unfolding update
one_less_here s x j = rw ((==_iff x x).1 refl)

-- What the run of the job `x` makes of the list.
pub record Checked (d : Datetime) (pre : List Pointer) (x : Pointer) (rest : List Pointer)
    (s t : Cron) : Type 0 where
  pub jobs : IsCron t ((pre ++ kept d s.heap x) ++ rest)
  pub elsewhere : (a : Pointer) → a ≢ 0 → a ≢ x → event_at t.heap a ≡ event_at s.heap a
  pub here :
      expires d (event_at s.heap x) ≡ false → event_at t.heap x ≡ counted d (event_at s.heap x)

module _ (d : Datetime) (pre : List Pointer) (x : Pointer) (rest : List Pointer) (s : Cron)
    (j : Job) (at : s.heap x ≡ some j) (ne : x ≢ 0) (v : IsCron s (pre ++ (x ∷ rest))) where
  -- The job stays in the list.
  stays :
      (t : Cron)
      → expires d (some j.event) ≡ false
      → IsCron t (pre ++ (x ∷ rest))
      → ((a : Pointer) → a ≢ x → t.heap a ≡ s.heap a)
      → event_at t.heap x ≡ counted d (some j.event)
      → Checked d pre x rest s t
  stays t out r other own = record {
    jobs = rw (at, out) (subst (IsCron t) (sym (append_assoc pre (x ∷ []) rest)) r);
    elsewhere = λ a _ miss. ap event_of (other a miss);
    here = λ _. rw at own;
  }

  drops :
      expires d (some j.event) ≡ true
      → (t : Cron) × (cron_jobrm x (one_less x j s) ≡ done t) × Checked d pre x rest s t
  drops out =
      let (t, run, r, freed, other) =
        cron_jobrm-without (one_less x j s) (pre ++ (x ∷ rest)) x
          (IsCron-one_less s x j (pre ++ (x ∷ rest)) at v) (has-inner pre x rest) in
      (
        t,
        run,
        record {
          jobs =
              rw (at, out, append-nil pre)
                (subst (IsCron t)
                  (without-inner pre x rest (Distinct-inner pre x rest v.distinct).0) r);
          elsewhere = λ a z miss. other a z miss ∙ ap event_of (one_less_elsewhere s x j a miss);
          here = λ e. absurd (cc (e, ap (λ o. expires d (event_of o)) at, out));
        },
      )

  module _ {ℓ} {W : Type ℓ} (exec : Command → Cron × W → Cron × W) (act : Command → W → W)
      (keeps : (c : Command) (r : Cron) (w : W) → exec c (r, w) ≡ (r, act c w)) where
    counted_down :
        (w : W)
        → matches d j.event ≡ true
        → (t : Cron) × (count_down exec x (s, w) ≡ done (t, w)) × Checked d pre x rest s t
    unfolding count_down
    counted_down w due = elim (ℕ_discrete j.event.repeat 0) [
      | yes ever ↦
          let e0 = (==_iff j.event.repeat 0).1 ever in
          (
            s,
            rw (load_at s.heap x j ne at, e0),
            stays s (rw (due, test_ne j.event.repeat 1 (omega arith))) v (λ a _. refl)
                (rw (at, due) (ap (λ n. some (record j.event { repeat = n })) (omega arith))),
          )
      | no many ↦ elim (ℕ_discrete j.event.repeat 1) [
        | yes last ↦
            let e1 = (==_iff j.event.repeat 1).1 last in
            let (t, run, r) = drops (rw (due, e1)) in
            (t, rw (load_at s.heap x j ne at, test_ne j.event.repeat 0 many, e1, run), r)
        | no more ↦ (
          one_less x j s,
          rw (
            load_at s.heap x j ne at,
            test_ne j.event.repeat 0 many,
            test_ne j.event.repeat 1 more,
          ),
          stays (one_less x j s) (rw (due, test_ne j.event.repeat 1 more))
              (IsCron-one_less s x j (pre ++ (x ∷ rest)) at v) (one_less_elsewhere s x j)
              (one_less_here s x j ∙ rw due),
        )
      ]
    ]

    -- The job's command is run if it is due.
    pub check_job-Checked :
        (w : W)
        → (t : Cron) × (check_job exec d x j.event (s, w)
            ≡ done (t, run_all act (command_of d (some j.event)) w))
          × Checked d pre x rest s t
    unfolding check_job
    check_job-Checked w = elim (Bool-cases (matches d j.event)) [
      | inl due ↦
          let (t, run, r) = counted_down (act j.event.command w) due in
          (t, rw (due, keeps j.event.command s w) run, r)
      | inr idle ↦ (s, rw idle, stays s (rw idle) v (λ a _. refl) (rw (at, idle)))
    ]
