-- ===== src/Cron/Link.antt =====
-- Linking a job behind the last one, as `cron_insert` does.
use ir.Prelude.{◌≡◌, ◌≢◌, refl, true, false, ◌||◌, some, List, [], ◌∷◌, ◌++◌, arith, ◌∙◌}
use ir.Cron.Heap.{Pointer, Job, Heap}
use ir.Cron.Chain.{has, Distinct, last_or, Chain}

pub has-last : (x : Pointer) (xs : List Pointer) → has (last_or x xs) (x ∷ xs) ≡ true
has-last x [] = ground arith
has-last x (y ∷ ys) = ground (arith, has-last y ys)

pub has-append : (a : Pointer) (xs ys : List Pointer) → has a (xs ++ ys) ≡ (has a xs || has a ys)
has-append a [] ys = refl
has-append a (x ∷ xs) ys = ground (arith, has-append a xs ys)

pub Distinct-append :
    (xs : List Pointer) (n : Pointer) → Distinct xs → has n xs ≡ false → Distinct (xs ++ (n ∷ []))
Distinct-append [] n d h = (refl, tt)
Distinct-append (x ∷ xs) n d h =
    (ground (arith, has-append x xs (n ∷ [])), Distinct-append xs n d.1 (ground arith))

pub last-append :
    (before : Pointer) (xs : List Pointer) (n : Pointer) → last_or before (xs ++ (n ∷ [])) ≡ n
last-append before [] n = refl
last-append before (x ∷ xs) n = last-append x xs n

module _ (g h : Heap) (newone last : Pointer) (end : Job) where
  -- `g` is `h` with `newone` linked behind `last`.
  pub record Linked : Type 0 where
    pub at_last : (j : Job) → h last ≡ some j → g last ≡ some (record j { next = newone })
    pub at_new : g newone ≡ some end
    pub end_next : end.next ≡ 0
    pub end_prev : end.prev ≡ last
    pub new_ne : newone ≢ 0
    pub elsewhere : (a : Pointer) → a ≢ last → a ≢ newone → g a ≡ h a

  pub Chain-link :
      (before p x : Pointer) (xs : List Pointer)
      → Linked
      → Chain h before p (x ∷ xs)
      → last ≡ last_or x xs
      → Distinct (x ∷ xs)
      → has newone (x ∷ xs) ≡ false
      → Chain g before p (x ∷ (xs ++ (newone ∷ [])))
  Chain-link before p x [] l (e, ne, (j, at, back, c)) el d out = (
    e,
    ne,
    (
      record j { next = newone },
      ground (arith, l.at_last j),
      back,
      (refl, l.new_ne, (end, l.at_new, l.end_prev ∙ el, l.end_next)),
    ),
  )
  Chain-link before p x (y ∷ ys) l (e, ne, (j, at, back, c)) el d out = (
    e,
    ne,
    (
      j,
      ground (arith, l.elsewhere x, has-last y ys),
      back,
      Chain-link x j.next y ys l c el d.1 (ground arith),
    ),
  )
