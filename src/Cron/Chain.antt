-- ===== src/Cron/Chain.antt =====
-- The list of jobs as the sequence of its pointers.
use ir.Prelude.{◌≡◌, ◌≢◌, Bool, true, false, ◌||◌, some, List, [], ◌∷◌, arith, ◌==◌}
use ir.Cron.Heap.{Pointer, Job, Heap}
use ir.Cron.Jobs.{Cron}

abbrev pub has : Pointer → List Pointer → Bool
has a [] = false
has a (x ∷ xs) = x == a || has a xs

abbrev pub Distinct : List Pointer → Type 0
Distinct [] = Unit
Distinct (x ∷ xs) = (has x xs ≡ false) × Distinct xs

abbrev pub last_or : Pointer → List Pointer → Pointer
last_or before [] = before
last_or before (x ∷ xs) = last_or x xs

-- From `p` the `next` pointers lead through `xs` to null.
abbrev pub Next : Heap → Pointer → List Pointer → Type 0
Next h p [] = p ≡ 0
Next h p (x ∷ xs) = (p ≡ x) × (x ≢ 0) × ((j : Job) × (h x ≡ some j) × Next h j.next xs)

-- So they do, and each `prev` pointer leads back, that of the first job to `before`.
abbrev pub Chain : Heap → Pointer → Pointer → List Pointer → Type 0
Chain h before p [] = p ≡ 0
Chain h before p (x ∷ xs) =
    (p ≡ x) × (x ≢ 0) × ((j : Job) × (h x ≡ some j) × (j.prev ≡ before) × Chain h x j.next xs)

-- The jobs of `s` are `xs`.
pub record IsCron (s : Cron) (xs : List Pointer) : Type 0 where
  pub chain : Chain s.heap 0 s.head xs
  pub last : s.tail ≡ last_or 0 xs
  pub distinct : Distinct xs

pub Chain-Next :
    (h : Heap) (before p : Pointer) (xs : List Pointer) → Chain h before p xs → Next h p xs
Chain-Next h before p [] c = c
Chain-Next h before p (x ∷ xs) (e, ne, (j, at, back, c)) =
    (e, ne, (j, at, Chain-Next h x j.next xs c))

-- A change elsewhere leaves a chain alone.
pub Chain-frame :
    (g h : Heap) (before p : Pointer) (xs : List Pointer)
    → Chain h before p xs
    → ((a : Pointer) → has a xs ≡ true → g a ≡ h a)
    → Chain g before p xs
Chain-frame g h before p [] c same = c
Chain-frame g h before p (x ∷ xs) (e, ne, (j, at, back, c)) same = (
  e,
  ne,
  (j, ground (arith, same x), back, Chain-frame g h x j.next xs c (λ a i. same a (ground arith))),
)
