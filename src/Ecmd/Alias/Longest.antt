-- ===== src/Ecmd/Alias/Longest.antt =====
-- The alias that the search of protocols/ecmd/aliascmd.c ends with, and the buffer it leaves.
use mathlib.Core.Path.{subst}
use ir.Prelude.{
  ℕ, zero, suc, ◌+◌, ◌%◌, ◌<◌, ◌≤◌, ◌≡◌, refl, sym, ap, ◌∙◌, ◌⊎◌, inl, inr, Bool, true, false, ◌&&◌,
  Option, none, some, List, ◌∷◌, ◌++◌, arith, ltb, length, get_elem?, get_elem?-lt, get_elem?-none,
  Bool-cases, Option-cases,
}
use native.Mathlib.Decide.{ℕ_discrete}
use ir.Prelude.Int.{pos}
use ir.Prelude.Words.{add8}
use ir.Prelude.Strings.{starts_with}
use ir.Ecmd.Alias.{Alias, Best, int8, not_found, better, find_alias}

-- The buffer holds this string.
abbrev pub Holds : List ℕ → List ℕ → Type 0
Holds cs mem = (behind : List ℕ) × (mem ≡ cs ++ 0 ∷ behind)

-- The length of an entry's name.
abbrev name_size : Option Alias → ℕ
name_size none = 0
name_size (some alias) = length alias.name

abbrev name_found : List ℕ → Option Alias → Bool
name_found text none = false
name_found text (some alias) = starts_with alias.name text

module _ (list : List Alias) (text : List ℕ) where
  -- An alias of the table that `text` starts with
  abbrev pub IsMatch : ℕ → Alias → Type 0
  IsMatch i alias = (get_elem? list i ≡ some alias) × (starts_with alias.name text ≡ true)

  -- What has been found after the entries before `i`.
  abbrev pub Found : ℕ → Best → Type 0
  Found i best =
      (((best.idx ≡ not_found) × (best.len ≡ 0))
        ⊎ ((k : ℕ) × (alias : Alias) × IsMatch k alias
            × (k < i)
            × (best.idx ≡ pos k)
            × (best.len ≡ length alias.name)
            × (0 < length alias.name)))
      × ((j : ℕ) (alias : Alias) → j < i → IsMatch j alias → length alias.name ≤ best.len)

  better-Found :
      (i : ℕ) (best : Best) (alias : Alias)
      → i < 128
      → length alias.name < 256
      → get_elem? list i ≡ some alias
      → Found i best
      → Found (i + 1) (better alias text i best)
  unfolding better
  better-Found i best alias small short e (found, most) =
      elim (Bool-cases (starts_with alias.name text && ltb best.len (length alias.name))) [
        | inl b ↦
            let hit : starts_with alias.name text ≡ true = ground arith in
            let long : best.len < length alias.name = ground arith in
            let index : int8 i ≡ pos i = ground arith in
            let same : length alias.name % 256 ≡ length alias.name = omega arith in
            rw b (
              inr (i, alias, (e, hit), omega arith, index, same, omega arith),
              λ j a jlt m. elim (ℕ_discrete j i) [
                | yes q ↦
                    let sizes = ap name_size (sym e ∙ ap (get_elem? list) (sym q) ∙ m.0) in
                    omega (arith, sizes)
                | no n ↦ let below = most j a (omega arith) m in omega arith
              ],
            )
        | inr b ↦ rw b (
          elim found [
            | inl f ↦ inl f
            | inr (k, a, m, lt, idx, len, some_length) ↦
                inr (k, a, m, omega arith, idx, len, some_length)
          ],
          λ j a jlt m. elim (ℕ_discrete j i) [
            | yes q ↦
                let entry = sym e ∙ ap (get_elem? list) (sym q) ∙ m.0 in
                let sizes = ap name_size entry in
                let hit : starts_with alias.name text ≡ true = ap (name_found text) entry ∙ m.1 in
                let low : ltb best.len (length alias.name) ≡ false = ground arith in ground arith
            | no n ↦ most j a (omega arith) m
          ],
        )
      ]

  pub find-Found :
      (fuel i : ℕ) (best : Best)
      → length list < 128
      → ((j : ℕ) (alias : Alias) → get_elem? list j ≡ some alias → length alias.name < 256)
      → length list < i + fuel
      → i < length list + 1
      → Found i best
      → (b : Best) × (find_alias fuel list text i best ≡ some b) × Found (length list) b
  unfolding find_alias
  find-Found zero i best small short enough at found = absurd (omega arith)
  find-Found (suc fuel) i best small short enough at found =
      elim (Option-cases (get_elem? list i)) [
        | inl e ↦
            let last = get_elem?-none list i e in
            let q : i ≡ length list = omega arith in
            rw (e, find_alias) (best, refl, subst (λ n. Found n best) q found)
        | inr (alias, e) ↦
            let lt = get_elem?-lt list i alias e in
            let next : add8 i 1 ≡ i + 1 = omega arith in
            rw (e, find_alias)
              (rw next (
                find-Found fuel (i + 1) (better alias text i best) small short (omega arith)
                  (omega arith)
                  (better-Found i best alias (omega arith) (short i alias e) e found)))
      ]
