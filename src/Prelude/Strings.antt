-- ===== src/Prelude/Strings.antt =====
-- Strings of C in memory: a string constant is the list of its bytes, without the zero behind them;
-- a buffer is the list of the bytes from a pointer to the end of its memory.
use Prim.Native.Nat.{ℕ, zero, suc, ◌+◌, ◌≤◌, ◌<◌}
use mathlib.Core.Path.{◌≡◌, refl, sym, ap, ◌∙◌}
use mathlib.Core.Logic.{◌≢◌, inl, inr}
use mathlib.Core.Bool.{Bool, true, false, ◌&&◌}
use mathlib.Core.List.{List, [], ◌∷◌, ◌++◌}
use mathlib.Core.Option.{Option, none, some}
use native.Mathlib.Omega.{arith}
use ir.Prelude.Tests.{leb, leb→le, Bool-cases, ◌==◌, if◌then◌else◌}
use ir.Prelude.Lists.{length, get_or, take, drop, length-append, length-take, length-drop}

-- `strlen`: the number of bytes before the first zero.
unfoldable pub strlen : List ℕ → ℕ
strlen [] = 0
strlen (c ∷ cs) = if c == 0 then 0 else suc (strlen cs)

-- `memcmp` of a string constant with as many bytes of a buffer
unfoldable pub starts_with : List ℕ → List ℕ → Bool
starts_with [] cs = true
starts_with (n ∷ ns) [] = false
starts_with (n ∷ ns) (c ∷ cs) = (n == c) && starts_with ns cs

-- `memcpy` of bytes into a buffer, which fails outside of its memory
unfoldable pub store : ℕ → List ℕ → List ℕ → Option (List ℕ)
store at bytes mem =
    if leb (at + length bytes) (length mem)
    then some (take at mem ++ bytes ++ drop (at + length bytes) mem)
    else none

-- No byte is the zero.
abbrev pub IsText : List ℕ → Type 0
IsText [] = Unit
IsText (c ∷ cs) = (c ≢ 0) × IsText cs

pub strlen-IsText : (cs mem : List ℕ) → IsText cs → strlen (cs ++ 0 ∷ mem) ≡ length cs
unfolding strlen
strlen-IsText [] mem h = refl
strlen-IsText (c ∷ cs) mem (ne, h) = ground (arith, strlen-IsText cs mem h)

pub IsText-append : (xs ys : List ℕ) → IsText xs → IsText ys → IsText (xs ++ ys)
IsText-append [] ys h k = k
IsText-append (x ∷ xs) ys (ne, h) k = (ne, IsText-append xs ys h k)

pub IsText-drop : (n : ℕ) (xs : List ℕ) → IsText xs → IsText (drop n xs)
IsText-drop zero xs h = h
IsText-drop (suc n) [] h = h
IsText-drop (suc n) (x ∷ xs) h = IsText-drop n xs h.1

length_around :
    (n : ℕ) (xs ys : List ℕ)
    → n + length ys ≤ length xs
    → length (take n xs ++ ys ++ drop (n + length ys) xs) ≡ length xs
length_around n xs ys h =
    let whole = length-append (take n xs ++ ys) (drop (n + length ys) xs) in
    let back = length-append (take n xs) ys in
    omega (arith, whole, back, length-take n xs, length-drop (n + length ys) xs)

unfoldable size : Option (List ℕ) → ℕ
size none = 0
size (some xs) = length xs

pub length-store :
    (at : ℕ) (bytes mem out : List ℕ) → store at bytes mem ≡ some out → length out ≡ length mem
unfolding store size
length-store at bytes mem out h = elim (Bool-cases (leb (at + length bytes) (length mem))) [
  | inl b ↦
      let e : some _ ≡ some out = rw b at h in
      let same = length_around at mem bytes (leb→le (at + length bytes) (length mem) b) in
      sym (ap size e) ∙ same
  | inr b ↦ absurd (ground arith)
]

pub store_inside :
    (at : ℕ) (bytes mem : List ℕ)
    → at + length bytes ≤ length mem
    → store at bytes mem ≡ some (take at mem ++ bytes ++ drop (at + length bytes) mem)
unfolding store
store_inside at bytes mem h = ground arith

pub drop-take_append : (n : ℕ) (xs ys : List ℕ) → n ≤ length xs → drop n (take n xs ++ ys) ≡ ys
drop-take_append zero xs ys h = refl
drop-take_append (suc n) [] ys h = absurd (omega arith)
drop-take_append (suc n) (x ∷ xs) ys h = drop-take_append n xs ys (omega arith)

pub drop-append : (xs ys : List ℕ) → drop (length xs) (xs ++ ys) ≡ ys
drop-append [] ys = refl
drop-append (x ∷ xs) ys = drop-append xs ys

pub take_all : (xs : List ℕ) → take (length xs) xs ≡ xs
take_all [] = refl
take_all (x ∷ xs) = ap (λ r. x ∷ r) (take_all xs)

pub take-append : (xs ys : List ℕ) → take (length xs) (xs ++ ys) ≡ xs
take-append [] ys = refl
take-append (x ∷ xs) ys = ap (λ r. x ∷ r) (take-append xs ys)

-- A constant at the front of a buffer is the buffer's beginning.
pub starts_with-append :
    (ns cs : List ℕ) → starts_with ns cs ≡ true → ns ++ drop (length ns) cs ≡ cs
unfolding starts_with
starts_with-append [] cs h = refl
starts_with-append (n ∷ ns) [] h = absurd (ground arith)
starts_with-append (n ∷ ns) (c ∷ cs) h = ground (arith, starts_with-append ns cs)

-- A constant without zeros lies before the zero that ends a string.
pub starts_with-IsText :
    (ns cs mem : List ℕ)
    → IsText ns
    → starts_with ns (cs ++ 0 ∷ mem) ≡ true
    → starts_with ns cs ≡ true
unfolding starts_with
starts_with-IsText [] cs mem t h = refl
starts_with-IsText (n ∷ ns) [] mem t h = absurd (ground (arith, t.0))
starts_with-IsText (n ∷ ns) (c ∷ cs) mem t h = ground (arith, starts_with-IsText ns cs mem t.1)

pub starts_with-extended :
    (ns cs ys : List ℕ) → starts_with ns cs ≡ true → starts_with ns (cs ++ ys) ≡ true
unfolding starts_with
starts_with-extended [] cs ys h = refl
starts_with-extended (n ∷ ns) [] ys h = absurd (ground arith)
starts_with-extended (n ∷ ns) (c ∷ cs) ys h = ground (arith, starts_with-extended ns cs ys)

-- The string at the front of a buffer, with the zero that ends it.
pub take-IsText : (cs mem : List ℕ) → take (suc (length cs)) (cs ++ 0 ∷ mem) ≡ cs ++ 0 ∷ []
take-IsText [] mem = refl
take-IsText (c ∷ cs) mem = ap (λ r. c ∷ r) (take-IsText cs mem)

pub drop-get_or :
    (xs : List ℕ) (i : ℕ) → i < length xs → drop i xs ≡ get_or xs i 0 ∷ drop (suc i) xs
drop-get_or [] i h = absurd (omega arith)
drop-get_or (x ∷ xs) zero h = refl
drop-get_or (x ∷ xs) (suc i) h = drop-get_or xs i (omega arith)
