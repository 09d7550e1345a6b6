-- ===== src/Ecmd/Parser/Dispatch.antt =====
-- Which command of the table protocols/ecmd/parser.c calls, and what the caller gets.
use mathlib.Core.Option
use ir.Prelude.{
  ℕ, zero, suc, ◌+◌, ◌<◌, ◌≤◌, ◌≡◌, ◌≢◌, refl, sym, ap, ◌∙◌, Bool, true, false, Option, none, some,
  List, ◌++◌, ltb, ltb→lt, length, get_elem?, get_elem?-lt, get_elem?-none, take, drop, arith,
  Bool-cases, Option-cases, inl, inr, ◌⊎◌,
}
use native.Mathlib.Decide.{ℕ_discrete}
use ir.Prelude.Int.{ℤ, pos, negsuc}
use ir.Prelude.Words.{add8}
use ir.Prelude.Strings.{strlen, starts_with, store_inside}
use ir.Ecmd.Alias.{Alias}
use ir.Ecmd.Parser.{
  Reply, Command, parse_error, ok, write_reply, finish, find_command, put_back, call, parse_line,
  decode_alias, ecmd_parse_command,
}

module _ {W : Type 0} (cmds : List (Command W)) (line : List ℕ) where
  -- The command is the first one of the table whose name begins the line.
  abbrev pub IsFirst : ℕ → Command W → Type 0
  IsFirst i c =
      (get_elem? cmds i ≡ some c)
      × (starts_with c.name line ≡ true)
      × ((j : ℕ) (d : Command W)
          → j < i
          → get_elem? cmds j ≡ some d
          → starts_with d.name line ≡ false)

  abbrev pub IsUnknown : Type 0
  IsUnknown = (j : ℕ) (d : Command W) → get_elem? cmds j ≡ some d → starts_with d.name line ≡ false

  abbrev begins : Option (Command W) → Bool
  begins none = false
  begins (some c) = starts_with c.name line

  find-IsFirst :
      (fuel i : ℕ)
      → length cmds < 256
      → length cmds < i + fuel
      → i ≤ length cmds
      → ((j : ℕ) (d : Command W)
          → j < i
          → get_elem? cmds j ≡ some d
          → starts_with d.name line ≡ false)
      → ((find_command fuel cmds line i ≡ some none) × IsUnknown)
        ⊎ ((k : ℕ) × (c : Command W) × (find_command fuel cmds line i ≡ some (some c))
            × IsFirst k c)
  unfolding find_command
  find-IsFirst zero i few enough at before = absurd (omega arith)
  find-IsFirst (suc fuel) i few enough at before = elim (Option-cases (get_elem? cmds i)) [
    | inl e ↦
        let last = get_elem?-none cmds i e in
        rw (e, find_command)
          (inl (refl, λ j d m. before j d (omega (arith, get_elem?-lt cmds j d m)) m))
    | inr (c, e) ↦
        let lt = get_elem?-lt cmds i c e in
        elim (Bool-cases (starts_with c.name line)) [
          | inl b ↦ rw (e, find_command) (rw (b, find_command) (inr (i, c, refl, (e, b, before))))
          | inr b ↦
              let next : add8 i 1 ≡ i + 1 = omega arith in
              rw (e, find_command)
                (rw (b, find_command)
                  (rw next (
                    find-IsFirst fuel (i + 1) few (omega arith) (omega arith) (λ j d m g.
                      elim (ℕ_discrete j i) [
                        | yes q ↦ ap begins (sym g ∙ ap (get_elem? cmds) q ∙ e) ∙ b
                        | no n ↦ before j d (omega arith) g
                      ]))))
        ]
  ]

-- What the caller gets for a line, by what the command returns.
pub data Answer {W : Type 0} (cmds : List (Command W)) (line output : List ℕ) (len : ℕ) (w : W)
    : Reply W → Type 0 where
  short :
      (ret : strlen line < 2)
      → Answer cmds line output len w
          (record { ret = pos 0; cmd = line; output = output; world = w })
  unknown :
      IsUnknown cmds line
      → Answer cmds line output len w
          (record { ret = pos 11; cmd = line; output = parse_error ++ drop 11 output; world = w })
  told_error :
      (k : ℕ) (c : Command W) (r : Reply W)
      → IsFirst cmds line k c
      → c.func (drop (length c.name) line) output len w ≡ some r
      → r.ret ≡ negsuc 0
      → Answer cmds line output len w (record {
        ret = pos 11;
        cmd = take (length c.name) line ++ r.cmd;
        output = parse_error ++ drop 11 r.output;
        world = r.world;
      })
  told_ok :
      (k : ℕ) (c : Command W) (r : Reply W)
      → IsFirst cmds line k c
      → c.func (drop (length c.name) line) output len w ≡ some r
      → r.ret ≡ pos 0
      → Answer cmds line output len w (record {
        ret = pos 2;
        cmd = take (length c.name) line ++ r.cmd;
        output = ok ++ drop 2 r.output;
        world = r.world;
      })
  passed_on :
      (k : ℕ) (c : Command W) (r : Reply W)
      → IsFirst cmds line k c
      → c.func (drop (length c.name) line) output len w ≡ some r
      → r.ret ≢ negsuc 0
      → r.ret ≢ pos 0
      → Answer cmds line output len w (record r { cmd = take (length c.name) line ++ r.cmd })

module _ {W : Type 0} where
  -- The function returns for this length, and keeps that of the output buffer.
  abbrev pub IsTotal : ℕ → Command W → Type 0
  IsTotal len c =
      (cmd output : List ℕ) (w : W)
      → (r : Reply W) × (c.func cmd output len w ≡ some r) × (length r.output ≡ length output)

  write_reply_lem :
      (text : List ℕ) (r : Reply W)
      → length text ≤ length r.output
      → write_reply text r
        ≡ some (record r { ret = pos (length text); output = text ++ drop (length text) r.output })
  unfolding write_reply Option.map
  write_reply_lem text r h =
      let zeroth : 0 + length text ≡ length text = omega arith in
      let done = store_inside 0 text r.output (omega arith) in rw done (rw zeroth refl)

  finish-Answer :
      (cmds : List (Command W)) (line output : List ℕ) (len : ℕ) (w : W) (k : ℕ) (c : Command W)
      → (r : Reply W) → IsFirst cmds line k c
      → c.func (drop (length c.name) line) output len w ≡ some r
      → 11 ≤ length r.output
      → (ret : ℤ) → r.ret ≡ ret
      → (s : Reply W) × (finish (put_back (take (length c.name) line) r) ≡ some s)
        × Answer cmds line output len w s
  unfolding finish put_back
  finish-Answer cmds line output len w k c r first run room (pos zero) e =
      rw (e, finish)
        (
          _,
          write_reply_lem ok (put_back (take (length c.name) line) r) (omega arith),
          told_ok k c r first run e,
        )
  finish-Answer cmds line output len w k c r first run room (negsuc zero) e =
      rw (e, finish)
        (
          _,
          write_reply_lem parse_error (put_back (take (length c.name) line) r) room,
          told_error k c r first run e,
        )
  finish-Answer cmds line output len w k c r first run room (pos (suc n)) e =
      rw (e, finish) (_, refl, passed_on k c r first run (λ z. ground arith) (λ z. ground arith))
  finish-Answer cmds line output len w k c r first run room (negsuc (suc n)) e =
      rw (e, finish) (_, refl, passed_on k c r first run (λ z. ground arith) (λ z. ground arith))

  -- For a table of fewer than 256 commands that all return and keep the output's length, and an
  -- output of at least eleven bytes, `ecmd_parse_command` returns for every line, after the alias
  -- is replaced: 0 for one of fewer than two characters; otherwise the reply of the first command
  -- of the table whose name begins the line, called with the rest of it, where 0 becomes "OK" and
  -- -1 "parse error", with their lengths; and "parse error" if no name begins the line.
  pub ecmd_parse_command-Answer :
      (aliases : List Alias) (cmds : List (Command W)) (cmd line output : List ℕ) (len : ℕ) (w : W)
      → length cmds < 256
      → ((i : ℕ) (c : Command W) → get_elem? cmds i ≡ some c → IsTotal len c)
      → 11 ≤ length output
      → decode_alias aliases cmd ≡ some line
      → (r : Reply W) × (ecmd_parse_command aliases cmds cmd output len w ≡ some r)
        × Answer cmds line output len w r
  unfolding ecmd_parse_command parse_line Option.bind Option.map call finish
  ecmd_parse_command-Answer aliases cmds cmd line output len w few total room decoded =
      elim (Bool-cases (ltb (strlen line) 2)) [
        | inl b ↦
            rw (decoded, ecmd_parse_command) (rw (b, parse_line) (_, refl, short (ltb→lt _ _ b)))
        | inr b ↦
            rw (decoded, ecmd_parse_command)
              (rw (b, parse_line)
                (elim (find-IsFirst cmds line 257 0 few (omega arith) (omega arith)
                  (λ j d m g. absurd (omega arith))) [
                    | inl (run, none_fits) ↦ rw run (
                      _,
                      write_reply_lem parse_error
                          (record { ret = negsuc 0; cmd = line; output = output; world = w }) room,
                      unknown none_fits,
                    )
                    | inr (k, c, run, first) ↦
                        let (r, called, same) =
                          total k c first.0 (drop (length c.name) line) output w in
                        rw run (
                          rw (called, call)
                            (finish-Answer cmds line output len w k c r first called (omega arith)
                              r.ret refl))
                  ]))
      ]
