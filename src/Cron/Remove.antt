-- ===== src/Cron/Remove.antt =====
-- Unlinking a job from the list, as `cron_jobrm` does.
use ir.Prelude.{
  ◌≡◌, ◌≢◌, ◌⊎◌, true, false, some, List, [], ◌∷◌, arith, ◌==◌, ==_iff, inl, inr, ap, ◌∙◌, sym,
  if◌then◌else◌,
}
use native.Mathlib.Decide.{ℕ_discrete}
use mathlib.Core.Path.{subst₂}
use ir.Cron.Heap.{Pointer, Job, Heap}
use ir.Cron.Chain.{has, Distinct, Chain, Chain-frame}

-- the list without a job
abbrev pub without : Pointer → List Pointer → List Pointer
without a [] = []
without a (x ∷ xs) = if x == a then xs else x ∷ without a xs

-- How the heap `g` differs from `h` after the job `y`, which holds `j`, has been unlinked.
pub record Unlinked (g h : Heap) (y : Pointer) (j : Job) : Type 0 where
  pub front :
      (a : Pointer) (k : Job)
      → a ≡ j.prev
      → a ≢ 0
      → h a ≡ some k
      → g a ≡ some (record k { next = j.next })
  pub back :
      (a : Pointer) (k : Job)
      → a ≡ j.next
      → a ≢ 0
      → h a ≡ some k
      → g a ≡ some (record k { prev = j.prev })
  pub elsewhere : (a : Pointer) → a ≢ j.prev → a ≢ j.next → a ≢ y → g a ≡ h a

pub test_ne : (a b : Pointer) → a ≢ b → (a == b) ≡ false
test_ne a b h = ground arith

pub apart : (a b : Pointer) (xs : List Pointer) → has a xs ≡ true → has b xs ≡ false → a ≢ b
apart a b xs i o e = cc (ap (λ c. has c xs) e)

-- The neighbours of the job `y` lie in the list, but for the ends.
pub record Neighbours (before p : Pointer) (xs : List Pointer) (y : Pointer) (j : Job)
    : Type 0 where
  pub first : p ≡ y → j.prev ≡ before
  pub later : p ≢ y → has j.prev xs ≡ true
  pub behind : (j.next ≡ 0) ⊎ (has j.next xs ≡ true)
  pub prev_ne : j.prev ≢ y
  pub next_ne : j.next ≢ y
  pub ends : (j.next ≡ 0) ⊎ (j.prev ≢ j.next)

Chain-has :
    (h : Heap) (before p : Pointer) (xs : List Pointer)
    → Chain h before p xs
    → (p ≡ 0) ⊎ (has p xs ≡ true)
Chain-has h before p [] c = inl c
Chain-has h before p (x ∷ xs) c = inr (ground arith)

pub same_job : (h : Heap) (x y : Pointer) (k j : Job) → x ≡ y → h x ≡ some k → h y ≡ some j → k ≡ j
same_job h x y k j e f g = cc (ap h e)

has-cons : (a x : Pointer) (xs : List Pointer) → has a xs ≡ true → has a (x ∷ xs) ≡ true
has-cons a x xs i = ground arith

has-head : (a x : Pointer) (xs : List Pointer) → a ≡ x → has a (x ∷ xs) ≡ true
has-head a x xs e = ground arith

-- `y` is the first job
Neighbours-first :
    (h : Heap) (y : Pointer) (j : Job) (before p x : Pointer) (xs : List Pointer)
    → h y ≡ some j
    → x ≡ y
    → has before (x ∷ xs) ≡ false
    → has x xs ≡ false
    → Chain h before p (x ∷ xs)
    → Neighbours before p (x ∷ xs) y j
Neighbours-first h y j before p x xs at hit o out (e, ne, (k, found, back, c)) =
    let same : k ≡ j = same_job h x y k j hit found at in
    let prev : j.prev ≡ before = ap (λ (i : Job). i.prev) (sym same) ∙ back in
    let next : (j.next ≡ 0) ⊎ (has j.next xs ≡ true) = elim (Chain-has h x k.next xs c) [
      | inl z ↦ inl (ap (λ (i : Job). i.next) (sym same) ∙ z)
      | inr m ↦ inr (ap (λ (i : Job). has i.next xs) (sym same) ∙ m)
    ] in
    record {
      first = λ _. prev;
      later = λ q. absurd (q (e ∙ hit));
      behind = elim next [ inl z ↦ inl z | inr m ↦ inr (has-cons j.next x xs m) ];
      prev_ne = λ q. ground arith;
      next_ne = λ q. elim next [
        | inl z ↦ ne (hit ∙ sym q ∙ z)
        | inr m ↦ apart j.next x xs m out (q ∙ sym hit)
      ];
      ends = elim next [
        | inl z ↦ inl z
        | inr m ↦ inr (λ q. apart j.next before xs m (ground arith) (sym q ∙ prev))
      ];
    }

-- `y` comes later
Neighbours-later :
    (before p k x : Pointer) (xs : List Pointer) (y : Pointer) (j : Job)
    → p ≢ y
    → Neighbours x k xs y j
    → Neighbours before p (x ∷ xs) y j
Neighbours-later before p k x xs y j ne n = record {
  first = λ q. absurd (ne q);
  later = λ _. elim (ℕ_discrete k y) [
    | yes q ↦ has-head j.prev x xs (n.first q)
    | no q ↦ has-cons j.prev x xs (n.later q)
  ];
  behind = elim n.behind [ inl z ↦ inl z | inr m ↦ inr (has-cons j.next x xs m) ];
  prev_ne = n.prev_ne;
  next_ne = n.next_ne;
  ends = n.ends;
}

pub neighbours :
    (h : Heap) (y : Pointer) (j : Job) (before p : Pointer) (xs : List Pointer)
    → h y ≡ some j
    → has y xs ≡ true
    → has before xs ≡ false
    → Distinct xs
    → Chain h before p xs
    → Neighbours before p xs y j
neighbours h y j before p [] at i o d c = cc
neighbours h y j before p (x ∷ xs) at i o d (e, ne, (k, found, back, c)) = elim (ℕ_discrete x y) [
  | yes hit ↦ Neighbours-first h y j before p x xs at hit o d.0 (e, ne, (k, found, back, c))
  | no miss ↦
      Neighbours-later before p k.next x xs y j (λ q. miss (sym e ∙ q))
        (neighbours h y j x k.next xs at (ground arith) d.0 d.1 c)
]

module _ (g h : Heap) (y : Pointer) (j : Job) (u : Unlinked g h y j) (at : h y ≡ some j) where
  -- the part of the list behind the job
  Chain-behind :
      (before : Pointer) (xs : List Pointer)
      → j.prev ≡ before
      → has before xs ≡ false
      → has y xs ≡ false
      → Distinct xs
      → Chain h y j.next xs
      → Chain g before j.next xs
  Chain-behind before [] e o1 o2 d c = c
  Chain-behind before (z ∷ zs) e o1 o2 d (ez, zne, (k, found, back, c)) = (
    ez,
    zne,
    (
      record k { prev = j.prev },
      u.back z k (sym ez) zne found,
      e,
      Chain-frame g h z k.next zs c (λ a i.
          u.elsewhere a (λ q. apart a before zs i (ground arith) (q ∙ e))
            (λ q. apart a z zs i d.0 (q ∙ ez)) (apart a y zs i (ground arith))),
    ),
  )

  -- the job before `y` now leads to the one behind it
  relinked :
      (x : Pointer) (k : Job) (xs : List Pointer)
      → h x ≡ some k
      → x ≢ 0
      → x ≢ y
      → has x xs ≡ false
      → Neighbours x k.next xs y j
      → g x ≡ some (record k { next = if k.next == y then j.next else k.next })
  relinked x k xs found ne miss out n = elim (ℕ_discrete k.next y) [
    | yes q ↦ u.front x k (sym (n.first q)) ne found ∙ rw ((==_iff k.next y).1 q)
    | no q ↦
        u.elsewhere x (λ e. apart j.prev x xs (n.later q) out (sym e))
          (λ e. elim n.behind [ inl z ↦ ne (e ∙ z) | inr m ↦ apart j.next x xs m out (sym e) ]) miss
        ∙ found
        ∙ rw (test_ne k.next y q)
  ]

  pub Chain-unlink :
      (before p : Pointer) (xs : List Pointer)
      → has before xs ≡ false
      → Distinct xs
      → has y xs ≡ true
      → Chain h before p xs
      → Chain g before (if p == y then j.next else p) (without y xs)
  Chain-unlink before p [] o d i c = cc
  Chain-unlink before p (x ∷ xs) o d i (e, ne, (k, found, back, c)) = elim (ℕ_discrete x y) [
    | yes hit ↦
        let same : k ≡ j = same_job h x y k j hit found at in
        rw ((==_iff p y).1 (e ∙ hit), (==_iff x y).1 hit)
          (Chain-behind before xs (ap (λ (m : Job). m.prev) (sym same) ∙ back) (ground arith)
            (sym (ap (λ a. has a xs) hit) ∙ d.0) d.1
            (subst₂ (λ a n. Chain h a n xs) hit (ap (λ (m : Job). m.next) same) c))
    | no miss ↦
        rw (test_ne p y (λ q. miss (sym e ∙ q)), test_ne x y miss)
          (
            e,
            ne,
            (
              record k { next = if k.next == y then j.next else k.next },
              relinked x k xs found ne miss d.0
                  (neighbours h y j x k.next xs at (ground arith) d.0 d.1 c),
              back,
              Chain-unlink x k.next xs d.0 d.1 (ground arith) c,
            ),
          )
  ]
