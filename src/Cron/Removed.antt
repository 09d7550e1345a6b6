-- ===== src/Cron/Removed.antt =====
-- What `cron_jobrm` leaves of the list.
use ir.Prelude.{
  ◌≡◌, ◌≢◌, ◌⊎◌, refl, true, false, none, some, List, [], ◌∷◌, arith, ◌==◌, ==_iff, inl, inr, ap,
  ◌∙◌, sym, if◌then◌else◌,
}
use native.Mathlib.Decide.{ℕ_discrete}
use ir.Cron.Heap.{Pointer, Job, Heap, done, update}
use ir.Cron.Jobs.{Cron, cron_jobrm}
use ir.Cron.Chain.{has, Distinct, last_or, Chain, IsCron}
use ir.Cron.Remove.{
  without, Neighbours, neighbours, Chain-unlink, Unlinked, test_ne, apart, same_job,
}
use ir.Cron.Link.{has-last}
use ir.Cron.Insert.{event_of, event_at}
use ir.Cron.Jobrm.{listed_job, null_unlisted, removed, Around, cron_jobrm_run, Around-Unlinked}

has-without : (a y : Pointer) (xs : List Pointer) → has a xs ≡ false → has a (without y xs) ≡ false
has-without a y [] o = refl
has-without a y (x ∷ xs) o = elim (ℕ_discrete x y) [
  | yes hit ↦ rw ((==_iff x y).1 hit) (ground arith)
  | no miss ↦ rw (test_ne x y miss) (ground (arith, has-without a y xs))
]

Distinct-without : (y : Pointer) (xs : List Pointer) → Distinct xs → Distinct (without y xs)
Distinct-without y [] d = d
Distinct-without y (x ∷ xs) d = elim (ℕ_discrete x y) [
  | yes hit ↦ rw ((==_iff x y).1 hit) d.1
  | no miss ↦ rw (test_ne x y miss) (has-without x y xs d.0, Distinct-without y xs d.1)
]

-- The last job after the removal: `y` was the first.
last_behind :
    (y before : Pointer) (xs : List Pointer)
    → has y xs ≡ false
    → last_or before xs ≡ (if y == last_or y xs then before else last_or y xs)
last_behind y before [] o = rw ((==_iff y y).1 refl)
last_behind y before (z ∷ zs) o =
    rw (test_ne y (last_or z zs) (λ e. apart (last_or z zs) y (z ∷ zs) (has-last z zs) o (sym e)))

last_or-without :
    (h : Heap) (y : Pointer) (j : Job) (before p : Pointer) (xs : List Pointer)
    → h y ≡ some j
    → has y xs ≡ true
    → Distinct xs
    → Chain h before p xs
    → last_or before (without y xs) ≡ (if y == last_or before xs then j.prev else last_or before xs)
last_or-without h y j before p [] at i d c = cc
last_or-without h y j before p (x ∷ xs) at i d (e, ne, (k, found, back, c)) =
    elim (ℕ_discrete x y) [
      | yes hit ↦
          let prev : j.prev ≡ before =
            ap (λ (m : Job). m.prev) (sym (same_job h x y k j hit found at)) ∙ back in
          rw ((==_iff x y).1 hit, prev, hit)
            (last_behind y before xs (sym (ap (λ a. has a xs) hit) ∙ d.0))
      | no miss ↦ rw (test_ne x y miss) (last_or-without h y j x k.next xs at (ground arith) d.1 c)
    ]

-- The job a pointer of the list leads to; any job for null.
job_behind :
    (h : Heap) (before p a : Pointer) (xs : List Pointer)
    → Chain h before p xs
    → (a ≡ 0) ⊎ (has a xs ≡ true)
    → Job
    → (k : Job) × (a ≢ 0 → h a ≡ some k)
job_behind h before p a xs c (inl z) dummy = (dummy, λ ne. absurd (ne z))
job_behind h before p a xs c (inr i) dummy =
    let (k, found, ne) = listed_job h before p a xs c i in (k, λ _. found)

before_of :
    (p : Pointer) (xs : List Pointer) (y : Pointer) (j : Job)
    → Neighbours 0 p xs y j
    → (j.prev ≡ 0) ⊎ (has j.prev xs ≡ true)
before_of p xs y j n = elim (ℕ_discrete p y) [ yes e ↦ inl (n.first e) | no e ↦ inr (n.later e) ]

removed-IsCron :
    (s : Cron) (y : Pointer) (j front back : Job) (xs : List Pointer)
    → IsCron s xs
    → has y xs ≡ true
    → Around s y j front back
    → IsCron (removed s y j front back) (without y xs)
removed-IsCron s y j front back xs v i r =
    let o : has 0 xs ≡ false = null_unlisted s.heap 0 s.head xs v.chain in
    let head : (s.head == y) ≡ (y == s.head) = ground arith in
    record {
      chain = rw (sym head) (
          Chain-unlink (removed s y j front back).heap s.heap y j
            (Around-Unlinked s y j front back r) r.at 0 s.head xs o v.distinct i v.chain);
      last = rw v.last (sym (last_or-without s.heap y j 0 s.head xs r.at i v.distinct v.chain));
      distinct = Distinct-without y xs v.distinct;
    }

-- No other job's event has changed.
removed_events :
    (s : Cron) (y : Pointer) (j front back : Job)
    → Around s y j front back
    → (a : Pointer) → a ≢ 0
    → a ≢ y
    → event_of ((removed s y j front back).heap a) ≡ event_of (s.heap a)
removed_events s y j front back r a ne miss = elim (ℕ_discrete a j.prev) [
  | yes e ↦
      let at = ap s.heap e ∙ r.at_front (λ z. ne (e ∙ z)) in
      ap event_of (u.front a front e ne at) ∙ sym (ap event_of at)
  | no p ↦ elim (ℕ_discrete a j.next) [
    | yes e ↦
        let at = ap s.heap e ∙ r.at_back (λ z. ne (e ∙ z)) in
        ap event_of (u.back a back e ne at) ∙ sym (ap event_of at)
    | no q ↦ ap event_of (u.elsewhere a p q miss)
  ]
]
  where
    u : Unlinked (removed s y j front back).heap s.heap y j
    u = Around-Unlinked s y j front back r

-- `cron_jobrm` of a job of the list ends without a fault. It leaves the list of the other jobs in
-- their order, linked in both directions and with the right head and tail, frees the job and changes no other event.
pub cron_jobrm-without :
    (s : Cron) (xs : List Pointer) (y : Pointer)
    → IsCron s xs
    → has y xs ≡ true
    → (t : Cron) × (cron_jobrm y s ≡ done t)
      × IsCron t (without y xs)
      × (t.heap y ≡ none)
      × ((a : Pointer) → a ≢ 0 → a ≢ y → event_at t.heap a ≡ event_at s.heap a)
unfolding update
cron_jobrm-without s xs y v i =
    let o = null_unlisted s.heap 0 s.head xs v.chain in
    let (j, at, ne) = listed_job s.heap 0 s.head y xs v.chain i in
    let n = neighbours s.heap y j 0 s.head xs at i o v.distinct v.chain in
    let (front, at_front) =
      job_behind s.heap 0 s.head j.prev xs v.chain (before_of s.head xs y j n) j in
    let (back, at_back) = job_behind s.heap 0 s.head j.next xs v.chain n.behind j in
    let r : Around s y j front back = record {
      at = at;
      y_ne = ne;
      at_front = at_front;
      at_back = at_back;
      prev_ne = n.prev_ne;
      next_ne = n.next_ne;
      ends = n.ends;
    } in
    (
      removed s y j front back,
      cron_jobrm_run s y j front back r,
      removed-IsCron s y j front back xs v i r,
      rw ((==_iff y y).1 refl),
      removed_events s y j front back r,
    )
