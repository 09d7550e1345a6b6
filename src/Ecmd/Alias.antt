-- ===== src/Ecmd/Alias.antt =====
-- Command aliases, protocols/ecmd/aliascmd.c. A buffer is the list of the bytes from the pointer to
-- the end of its memory; a write behind it fails. The table of aliases is generated.
pub mod Longest
pub mod Decode
use ir.Prelude.{
  ℕ, zero, suc, ◌+◌, ◌-◌, ◌%◌, ◌<◌, ◌≤◌, ◌≡◌, ◌≢◌, refl, sym, ap, ◌∙◌, ◌⊎◌, inl, inr, Bool, true,
  false, ◌&&◌, Option, none, some, List, [], ◌∷◌, ◌++◌, arith, ltb, ◌==◌, if◌then◌else◌, length,
  get_elem?, take, drop, Bool-cases, Option-cases,
}
use ir.Prelude.Int.{ℤ, pos, negsuc}
use ir.Prelude.Words.{add8}
use ir.Prelude.Strings.{strlen, starts_with, store}
use mathlib.Core.Option

pub record Alias : Type 0 where
  pub name : List ℕ
  pub cmd : List ℕ

-- `alias_cmp_len` and `alias_cmp_idx`
pub record Best : Type 0 where
  pub len : ℕ
  pub idx : ℤ

-- The value of an `int8_t` that a `uint8_t` is stored in.
abbrev pub int8 : ℕ → ℤ
int8 i = if ltb i 128 then pos i else negsuc (255 - i)

abbrev pub not_found : ℤ
not_found = negsuc 0

unfoldable pub better : Alias → List ℕ → ℕ → Best → Best
better alias text i best =
    if starts_with alias.name text && ltb best.len (length alias.name)
    then record { len = length alias.name % 256; idx = int8 i }
    else best

-- The loop over the table, which the null entry behind the last one ends; `text` is behind the `$`.
unfoldable pub find_alias : ℕ → List Alias → List ℕ → ℕ → Best → Option Best
find_alias zero list text i best = none
find_alias (suc fuel) list text i best = elim (get_elem? list i) [
  | none ↦ some best
  | some alias ↦ find_alias fuel list text (add8 i 1) (better alias text i best)
]

-- The copy of the alias' command into the buffer, before what stands behind its name.
unfoldable pub replace_alias : Alias → ℕ → List ℕ → Option (List ℕ)
replace_alias alias cmp_len cmd =
    let newlen = length alias.cmd % 256 in
    let rest = drop (cmp_len + 1) cmd in
    Option.bind (store newlen (take (strlen rest + 1) rest) cmd) (store 0 (take newlen alias.cmd))

unfoldable pub decode_entry : Option Alias → ℕ → List ℕ → Option (Bool × List ℕ)
decode_entry none cmp_len cmd = none
decode_entry (some alias) cmp_len cmd =
    Option.map (λ new. (true, new)) (replace_alias alias cmp_len cmd)

unfoldable pub decode_index : List Alias → ℕ → ℤ → List ℕ → Option (Bool × List ℕ)
decode_index list cmp_len (pos i) cmd = decode_entry (get_elem? list i) cmp_len cmd
decode_index list cmp_len (negsuc zero) cmd = some (false, cmd)
decode_index list cmp_len (negsuc (suc n)) cmd = none

-- Whether an alias is found, and the buffer.
unfoldable pub aliascmd_decode : List Alias → List ℕ → Option (Bool × List ℕ)
aliascmd_decode list cmd =
    Option.bind (find_alias 257 list (drop 1 cmd) 0 (record { len = 0; idx = not_found }))
      (λ best. decode_index list best.len best.idx cmd)
