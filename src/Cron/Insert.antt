-- ===== src/Cron/Insert.antt =====
-- `cron_insert` at the end of the list.
use ir.Prelude.{
  ℕ, zero, suc, ◌≡◌, ◌≢◌, refl, false, Option, none, some, List, [], ◌∷◌, ◌++◌, arith, ◌==◌, ==_iff,
  Bool-cases, inl, inr, ap, ◌∙◌, sym,
}
use ir.Prelude.Int.{ℤ, pos, negsuc}
use ir.Cron.Heap.{Pointer, CronEvent, Job, Heap, done, load, update, set_next, set_prev}
use ir.Cron.Jobs.{Cron, insert_first, append, insert_from, cron_insert}
use ir.Cron.Chain.{has, last_or, Chain, IsCron}
use ir.Cron.Link.{has-last, Distinct-append, last-append, Linked, Chain-link}

abbrev pub event_of : Option Job → Option CronEvent
event_of none = none
event_of (some j) = some j.event

-- The event of the job at an address.
abbrev pub event_at : Heap → Pointer → Option CronEvent
event_at h a = event_of (h a)

-- A write that keeps the job's event keeps all events.
event_at-update :
    (h : Heap) (p : Pointer) (j : Job) (a : Pointer)
    → event_of (h p) ≡ some j.event
    → event_at (update h p (some j)) a ≡ event_at h a
unfolding update
event_at-update h p j a same = elim (Bool-cases (a == p)) [
  | inl hit ↦ rw hit (sym same ∙ ap (λ b. event_of (h b)) (sym ((==_iff a p).0 hit)))
  | inr miss ↦ rw miss
]

-- `t` is `s` with the job `newone` at the end; no job's event has changed.
pub record Appended (s : Cron) (xs : List Pointer) (newone : Pointer) (t : Cron) : Type 0 where
  pub jobs : IsCron t (xs ++ (newone ∷ []))
  pub events : (a : Pointer) → event_at t.heap a ≡ event_at s.heap a

-- A job from `malloc`, not in the list yet.
pub record IsFresh (s : Cron) (xs : List Pointer) (newone : Pointer) : Type 0 where
  pub new_ne : newone ≢ 0
  pub job : Job
  pub allocated : s.heap newone ≡ some job
  pub unlisted : has newone xs ≡ false

insert_first-Appended :
    (newone : Pointer) (s : Cron)
    → IsFresh s [] newone
    → (t : Cron) × (insert_first newone s ≡ done t) × Appended s [] newone t
unfolding insert_first set_prev set_next load update
insert_first-Appended newone s f = (
  t,
  ground (arith, f.new_ne, f.allocated),
  record {
    jobs = record {
      chain = (refl, f.new_ne, (record f.job { next = 0; prev = 0 }, ground arith, refl, refl));
      last = refl;
      distinct = (refl, tt);
    };
    events = λ a.
        event_at-update (update s.heap newone (some (record f.job { prev = 0 }))) newone
          (record f.job { next = 0; prev = 0 }) a (ground arith)
        ∙ event_at-update s.heap newone (record f.job { prev = 0 }) a (ap event_of f.allocated);
  },
)
  where
    t : Cron
    t = record s {
      heap =
          update (update s.heap newone (some (record f.job { prev = 0 }))) newone
            (some (record f.job { next = 0; prev = 0 }));
      head = newone;
      tail = newone;
    }

last-job :
    (h : Heap) (before p x : Pointer) (xs : List Pointer)
    → Chain h before p (x ∷ xs)
    → (j : Job) × (h (last_or x xs) ≡ some j) × (last_or x xs ≢ 0)
last-job h before p x [] (e, ne, (j, at, back, c)) = (j, at, ne)
last-job h before p x (y ∷ ys) (e, ne, (j, at, back, c)) = last-job h x j.next y ys c

append-Appended :
    (newone : Pointer) (s : Cron) (x : Pointer) (xs : List Pointer)
    → IsCron s (x ∷ xs)
    → IsFresh s (x ∷ xs) newone
    → (t : Cron) × (append newone s ≡ done t) × Appended s (x ∷ xs) newone t
unfolding append set_prev set_next load update
append-Appended newone s x xs v f = (
  t,
  ground (arith, f.new_ne, f.allocated, l.1, l.2, has-last x xs, v.last, f.unlisted),
  record {
    jobs = record {
      chain =
          Chain-link t.heap s.heap newone s.tail end 0 s.head x xs linked v.chain v.last v.distinct
            f.unlisted;
      last = sym (last-append x xs newone);
      distinct = Distinct-append (x ∷ xs) newone v.distinct f.unlisted;
    };
    events = λ a.
        event_at-update two s.tail (record l.0 { next = newone }) a
          (ap event_of (kept ∙ ap s.heap v.last ∙ l.1))
        ∙ event_at-update one newone end a (ground arith)
        ∙ event_at-update s.heap newone (record f.job { next = 0 }) a (ap event_of f.allocated);
  },
)
  where
    l : (j : Job) × (s.heap (last_or x xs) ≡ some j) × (last_or x xs ≢ 0)
    l = last-job s.heap 0 s.head x xs v.chain

    end : Job
    end = record f.job { next = 0; prev = s.tail }

    one : Heap
    one = update s.heap newone (some (record f.job { next = 0 }))

    two : Heap
    two = update one newone (some end)

    kept : two s.tail ≡ s.heap s.tail
    kept = ground (arith, v.last, has-last x xs, f.unlisted)

    t : Cron
    t = record s { heap = update two s.tail (some (record l.0 { next = newone })); tail = newone }

    linked : Linked t.heap s.heap newone s.tail end
    linked = record {
      at_last = λ j e. ground (arith, l.1, v.last, has-last x xs, f.unlisted);
      at_new = ground (arith, v.last, has-last x xs, f.unlisted);
      end_next = refl;
      end_prev = refl;
      new_ne = f.new_ne;
      elsewhere = λ a p q. ground arith;
    }

-- The positions at which `cron_insert` appends.
abbrev pub AtEnd : ℤ → Type 0
AtEnd (pos zero) = Unit
AtEnd (pos (suc n)) = ⊥
AtEnd (negsuc n) = Unit

head-first :
    (fuel : ℕ) (newone : Pointer) (position : ℤ) (s : Cron)
    → s.head ≡ 0
    → cron_insert fuel newone position s ≡ insert_first newone s
unfolding cron_insert
head-first fuel newone position s e = ground arith

pub head-from :
    (fuel : ℕ) (newone : Pointer) (position : ℤ) (s : Cron)
    → s.head ≢ 0
    → cron_insert fuel newone position s ≡ insert_from fuel newone position s
unfolding cron_insert
head-from fuel newone position s e = ground arith

from-append :
    (fuel : ℕ) (newone : Pointer) (position : ℤ) (s : Cron)
    → AtEnd position
    → insert_from fuel newone position s ≡ append newone s
unfolding insert_from
from-append fuel newone (pos zero) s e = refl
from-append fuel newone (pos (suc n)) s e = absurd e
from-append fuel newone (negsuc n) s e = refl

-- `cron_insert` of a job from `malloc`, with a position that is not positive, 0 and those below -1
-- included, succeeds on every list: the new job is the last, the others keep their order, both
-- link directions and the tail agree with it, and no job's event has changed.
pub cron_insert-Appended :
    (fuel : ℕ) (newone : Pointer) (position : ℤ) (s : Cron) (xs : List Pointer)
    → IsCron s xs
    → IsFresh s xs newone
    → AtEnd position
    → (t : Cron) × (cron_insert fuel newone position s ≡ done t) × Appended s xs newone t
cron_insert-Appended fuel newone position s [] v f e =
    let (t, run, a) = insert_first-Appended newone s f in
    (t, head-first fuel newone position s v.chain ∙ run, a)
cron_insert-Appended fuel newone position s (x ∷ xs) v f e =
    let (t, run, a) = append-Appended newone s x xs v f in
    (
      t,
      head-from fuel newone position s (ground arith) ∙ from-append fuel newone position s e ∙ run,
      a,
    )
