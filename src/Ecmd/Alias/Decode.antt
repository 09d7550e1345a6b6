-- ===== src/Ecmd/Alias/Decode.antt =====
-- What protocols/ecmd/aliascmd.c leaves in the buffer of a command.
use mathlib.Core.Option
use ir.Prelude.{
  ℕ, suc, ◌+◌, ◌%◌, ◌<◌, ◌≤◌, ◌≡◌, refl, sym, ap, ap₂, ◌∙◌, ◌⊎◌, inl, inr, true, false, some, List,
  [], ◌∷◌, ◌++◌, append_assoc, arith, length, get_elem?, take, drop, length-append, length-drop,
  get_elem?-lt,
}
use mathlib.Core.Path.{subst}
use ir.Prelude.Int.{pos}
use ir.Prelude.Strings.{
  store, IsText, IsText-drop, strlen-IsText, store_inside, drop-take_append, drop-append,
  starts_with-append, starts_with-IsText, starts_with-extended, take-IsText, take_all, length-store,
}
use ir.Ecmd.Alias.{
  Alias, Best, not_found, find_alias, replace_alias, decode_entry, decode_index, aliascmd_decode,
}
use ir.Ecmd.Alias.Longest.{Holds, IsMatch, find-Found}

-- One string put in front of another, which is written first.
store-store :
    (xs ys mem : List ℕ)
    → length xs + length ys ≤ length mem
    → Option.bind (store (length xs) ys mem) (store 0 xs)
      ≡ some (xs ++ ys ++ drop (length xs + length ys) mem)
unfolding Option.bind
store-store xs ys mem h =
    let first = store_inside (length xs) ys mem h in
    let after = take (length xs) mem ++ ys ++ drop (length xs + length ys) mem in
    let same = length-store (length xs) ys mem after first in
    let second = store_inside 0 xs after (omega arith) in
    let zeroth : 0 + length xs ≡ length xs = omega arith in
    let behind : drop (length xs) after ≡ ys ++ drop (length xs + length ys) mem =
      ap (drop (length xs))
        (append_assoc (take (length xs) mem) ys (drop (length xs + length ys) mem))
      ∙ drop-take_append (length xs) mem (ys ++ drop (length xs + length ys) mem) (omega arith) in
    rw first (
      second
      ∙ ap (λ n. some (xs ++ drop n after)) zeroth
      ∙ ap (λ r. some (xs ++ r)) behind
      ∙ ap some (sym (append_assoc xs ys (drop (length xs + length ys) mem))))

-- The buffer begins with the alias' command and what stood behind its name.
abbrev Replaced : Alias → List ℕ → List ℕ → Type 0
Replaced alias rest buffer =
    (new : List ℕ) × (replace_alias alias (length alias.name) buffer ≡ some new)
    × Holds (alias.cmd ++ rest) new
    × (length new ≡ length buffer)

replace_alias_lem :
    (alias : Alias) (rest mem : List ℕ) (c : ℕ)
    → IsText rest
    → length alias.cmd < 256
    → length alias.cmd + length rest + 1 ≤ length (c ∷ (alias.name ++ rest) ++ 0 ∷ mem)
    → Replaced alias rest (c ∷ (alias.name ++ rest) ++ 0 ∷ mem)
unfolding replace_alias Option.bind
replace_alias_lem alias rest mem c t short room =
    let buffer = c ∷ (alias.name ++ rest) ++ 0 ∷ mem in
    let one : length alias.name + 1 ≡ suc (length alias.name) = omega arith in
    let behind : drop (length alias.name) ((alias.name ++ rest) ++ 0 ∷ mem) ≡ rest ++ 0 ∷ mem =
      ap (drop (length alias.name)) (append_assoc alias.name rest (0 ∷ mem))
      ∙ drop-append alias.name (rest ++ 0 ∷ mem) in
    let newlen : length alias.cmd % 256 ≡ length alias.cmd = omega arith in
    let two : length rest + 1 ≡ suc (length rest) = omega arith in
    let added = length-append rest (0 ∷ []) in
    let n = length alias.cmd + length (rest ++ 0 ∷ []) in
    let whole = length-append (alias.cmd ++ (rest ++ 0 ∷ [])) (drop n buffer) in
    let front = length-append alias.cmd (rest ++ 0 ∷ []) in
    rw one (
      rw behind (
        rw newlen (
          rw (strlen-IsText rest mem t) (
            rw two (
              rw (take-IsText rest mem) (
                rw (take_all alias.cmd) (
                  rw (store-store alias.cmd (rest ++ 0 ∷ []) buffer (omega (arith, added))) (
                    alias.cmd ++ (rest ++ 0 ∷ []) ++ drop n buffer,
                    refl,
                    (
                      drop n buffer,
                      ap (λ r. r ++ drop n buffer) (sym (append_assoc alias.cmd rest (0 ∷ [])))
                          ∙ append_assoc (alias.cmd ++ rest) (0 ∷ []) (drop n buffer),
                    ),
                    omega (arith, whole, front, added, length-drop n buffer),
                  ))))))))

decode_found :
    (list : List Alias) (cmd : List ℕ) (best : Best)
    → find_alias 257 list (drop 1 cmd) 0 (record { len = 0; idx = not_found }) ≡ some best
    → aliascmd_decode list cmd ≡ decode_index list best.len best.idx cmd
unfolding aliascmd_decode Option.bind
decode_found list cmd best run = rw run refl

decode_alias_found :
    (list : List Alias) (cmd new : List ℕ) (k : ℕ) (alias : Alias)
    → get_elem? list k ≡ some alias
    → replace_alias alias (length alias.name) cmd ≡ some new
    → decode_index list (length alias.name) (pos k) cmd ≡ some (true, new)
unfolding decode_index decode_entry Option.map
decode_alias_found list cmd new k alias e made = rw (e, decode_entry) (rw made refl)

-- What the generated table keeps to, for a line that is typed into a buffer of `room` bytes.
pub record IsTable (list : List Alias) (line : List ℕ) (room : ℕ) : Type 0 where
  pub few : length list < 128
  pub names :
      (i : ℕ) (alias : Alias)
      → get_elem? list i ≡ some alias
      → (length alias.name < 256) × IsText alias.name
  pub cmds :
      (i : ℕ) (alias : Alias)
      → get_elem? list i ≡ some alias
      → (length alias.cmd < 256) × (length alias.cmd + length line + 1 ≤ room)

-- For a table of fewer than 128 aliases whose names and commands are shorter than 256 bytes, and a
-- `$` and a line without zeros in a buffer with room for every command before the line: either no
-- alias with a name that is not empty begins the line, and `aliascmd_decode` returns NULL and keeps
-- the buffer; or it returns the buffer, as long as before, with the command of an alias whose name
-- begins the line, and no longer name does, in place of the `$` and the name.
pub aliascmd_decode-longest :
    (list : List Alias) (line mem : List ℕ)
    → IsText line
    → IsTable list line (length (36 ∷ line ++ 0 ∷ mem))
    → (((i : ℕ) (alias : Alias) → IsMatch list line i alias → length alias.name ≡ 0)
        × (aliascmd_decode list (36 ∷ line ++ 0 ∷ mem) ≡ some (false, 36 ∷ line ++ 0 ∷ mem)))
      ⊎ ((i : ℕ) × (alias : Alias) × (new : List ℕ) × (aliascmd_decode list (36 ∷ line ++ 0 ∷ mem)
            ≡ some (true, new))
          × IsMatch list line i alias
          × ((j : ℕ) (b : Alias) → IsMatch list line j b → length b.name ≤ length alias.name)
          × Holds (alias.cmd ++ drop (length alias.name) line) new
          × (length new ≡ length (36 ∷ line ++ 0 ∷ mem)))
unfolding decode_index
aliascmd_decode-longest list line mem t table =
    let text = line ++ 0 ∷ mem in
    let (b, run, all) =
      find-Found list text 257 0 (record { len = 0; idx = not_found }) table.few
        (λ j a e. (table.names j a e).0) (omega (arith, table.few)) (omega arith)
        (inl (refl, refl), λ j a lt m. absurd (omega arith)) in
    let inside = λ (j : ℕ) (a : Alias) (m : IsMatch list line j a).
      all.1 j a (get_elem?-lt list j a m.0) (m.0, starts_with-extended a.name line (0 ∷ mem) m.1) in
    let decoded = decode_found list (36 ∷ text) b run in
    elim all.0 [
      | inl (idx, len) ↦ inl (
        λ j a m. let le = inside j a m in omega arith,
        decoded ∙ ap (λ i. decode_index list b.len i (36 ∷ text)) idx,
      )
      | inr (k, a, m, lt, idx, len, some_length) ↦
          let hit = starts_with-IsText a.name line mem (table.names k a m.0).1 m.1 in
          let split = starts_with-append a.name line hit in
          let rest = drop (length a.name) line in
          let whole = length-append a.name rest in
          let all_length = ap length split in
          let bounds = table.cmds k a m.0 in
          let again = length-append (a.name ++ rest) (0 ∷ mem) in
          let sizes = length-append line (0 ∷ mem) in
          let (new, made, holds, same) =
            subst (λ l. Replaced a rest (36 ∷ l ++ 0 ∷ mem)) split
              (replace_alias_lem a rest mem 36 (IsText-drop (length a.name) line t) bounds.0
                (omega (arith, bounds.1, whole, all_length, sizes, again))) in
          inr (
            k,
            a,
            new,
            decoded
                ∙ ap₂ (λ n i. decode_index list n i (36 ∷ text)) len idx
                ∙ decode_alias_found list (36 ∷ text) new k a m.0 made,
            (m.0, hit),
            λ j c n. (let le = inside j c n in omega arith),
            holds,
            same,
          )
    ]
