-- ===== src/Cron/Jobrm.antt =====
-- `cron_jobrm` removes a job from the list and frees it.
use ir.Prelude.{
  ◌≡◌, ◌≢◌, ◌⊎◌, refl, true, false, none, some, List, [], ◌∷◌, arith, ◌==◌, ==_iff, Bool-cases, inl,
  inr, ap, ◌∙◌, sym, if◌then◌else◌,
}
use native.Mathlib.Decide.{ℕ_discrete}
use ir.Cron.Heap.{Pointer, Job, Heap, done, update, set_next, set_prev}
use ir.Cron.Jobs.{Cron, cron_jobrm}
use ir.Cron.Chain.{has, Chain}
use ir.Cron.Remove.{Unlinked, test_ne, same_job}
use ir.Cron.Walk.{load_at}

-- A pointer of the list leads to a job.
pub listed_job :
    (h : Heap) (before p a : Pointer) (xs : List Pointer)
    → Chain h before p xs
    → has a xs ≡ true
    → (k : Job) × (h a ≡ some k) × (a ≢ 0)
listed_job h before p a [] c i = cc
listed_job h before p a (x ∷ xs) (e, ne, (k, found, back, c)) i = elim (ℕ_discrete x a) [
  | yes hit ↦ (k, ground arith, ground arith)
  | no miss ↦ listed_job h x k.next a xs c (ground arith)
]

pub null_unlisted :
    (h : Heap) (before p : Pointer) (xs : List Pointer) → Chain h before p xs → has 0 xs ≡ false
null_unlisted h before p [] c = refl
null_unlisted h before p (x ∷ xs) (e, ne, (k, found, back, c)) =
    ground (arith, null_unlisted h x k.next xs c)

module _ (s : Cron) (y : Pointer) (j front back : Job) where
  -- the heap after the link of the job before, and after that of the job behind
  abbrev pub one : Heap
  one = if j.prev == 0 then s.heap else update s.heap j.prev (some (record front { next = j.next }))

  abbrev pub two : Heap
  two = if j.next == 0 then one else update one j.next (some (record back { prev = j.prev }))

  abbrev pub removed : Cron
  removed = record s {
    heap = update two y none;
    head = if y == s.head then j.next else s.head;
    tail = if y == s.tail then j.prev else s.tail;
  }

  -- What the list says of the job `y` and its neighbours.
  pub record Around : Type 0 where
    pub at : s.heap y ≡ some j
    pub y_ne : y ≢ 0
    pub at_front : j.prev ≢ 0 → s.heap j.prev ≡ some front
    pub at_back : j.next ≢ 0 → s.heap j.next ≡ some back
    pub prev_ne : j.prev ≢ y
    pub next_ne : j.next ≢ y
    pub ends : (j.next ≡ 0) ⊎ (j.prev ≢ j.next)

  prev_ne_next : Around → j.prev ≢ 0 → j.prev ≢ j.next
  prev_ne_next r ne e = elim r.ends [ inl z ↦ ne (e ∙ z) | inr q ↦ q e ]

  next_ne_prev : Around → j.next ≢ 0 → j.next ≢ j.prev
  next_ne_prev r ne e = elim r.ends [ inl z ↦ ne z | inr q ↦ q (sym e) ]

  one_at_prev : j.prev ≢ 0 → one j.prev ≡ some (record front { next = j.next })
  unfolding update
  one_at_prev ne = rw (test_ne j.prev 0 ne) (rw ((==_iff j.prev j.prev).1 refl))

  one_elsewhere : (a : Pointer) → a ≢ j.prev → one a ≡ s.heap a
  unfolding update
  one_elsewhere a ne = elim (Bool-cases (j.prev == 0)) [
    | inl z ↦ rw z
    | inr z ↦ rw z (rw (test_ne a j.prev ne))
  ]

  two_at_next : j.next ≢ 0 → two j.next ≡ some (record back { prev = j.prev })
  unfolding update
  two_at_next ne = rw (test_ne j.next 0 ne) (rw ((==_iff j.next j.next).1 refl))

  two_elsewhere : (a : Pointer) → a ≢ j.next → two a ≡ one a
  unfolding update
  two_elsewhere a ne = elim (Bool-cases (j.next == 0)) [
    | inl z ↦ rw z
    | inr z ↦ rw z (rw (test_ne a j.next ne))
  ]

  pub removed_elsewhere : (a : Pointer) → a ≢ y → removed.heap a ≡ two a
  unfolding update
  removed_elsewhere a ne = rw (test_ne a y ne)

  unlink_front :
      Around → (if j.prev == 0 then done s.heap else set_next s.heap j.prev j.next) ≡ done one
  unfolding set_next
  unlink_front r = elim (Bool-cases (j.prev == 0)) [
    | inl z ↦ rw z
    | inr z ↦
        let ne : j.prev ≢ 0 = ground arith in
        rw z (rw (load_at s.heap j.prev front ne (r.at_front ne)))
  ]

  unlink_back : Around → (if j.next == 0 then done one else set_prev one j.next j.prev) ≡ done two
  unfolding set_prev
  unlink_back r = elim (Bool-cases (j.next == 0)) [
    | inl z ↦ rw z
    | inr z ↦
        let ne : j.next ≢ 0 = ground arith in
        rw z (
          rw (load_at one j.next back ne (one_elsewhere j.next (next_ne_prev r ne) ∙ r.at_back ne)))
  ]

  pub cron_jobrm_run : Around → cron_jobrm y s ≡ done removed
  unfolding cron_jobrm
  cron_jobrm_run r =
      rw (test_ne y 0 r.y_ne, load_at s.heap y j r.y_ne r.at, unlink_front r)
        (rw
          (load_at one y j r.y_ne (one_elsewhere y (λ q. r.prev_ne (sym q)) ∙ r.at), unlink_back r))

  pub Around-Unlinked : Around → Unlinked removed.heap s.heap y j
  Around-Unlinked r = record {
    front = λ a k e ne found.
        removed_elsewhere a (λ q. r.prev_ne (sym e ∙ q))
        ∙ two_elsewhere a (λ q. prev_ne_next r (λ z. ne (e ∙ z)) (sym e ∙ q))
        ∙ ap one e
        ∙ one_at_prev (λ z. ne (e ∙ z))
        ∙ ap (λ (m : Job). some (record m { next = j.next }))
            (same_job s.heap j.prev a front k (sym e) (r.at_front (λ z. ne (e ∙ z))) found);
    back = λ a k e ne found.
        removed_elsewhere a (λ q. r.next_ne (sym e ∙ q))
        ∙ ap two e
        ∙ two_at_next (λ z. ne (e ∙ z))
        ∙ ap (λ (m : Job). some (record m { prev = j.prev }))
            (same_job s.heap j.next a back k (sym e) (r.at_back (λ z. ne (e ∙ z))) found);
    elsewhere = λ a p q t. removed_elsewhere a t ∙ two_elsewhere a q ∙ one_elsewhere a p;
  }
