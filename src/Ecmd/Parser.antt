-- ===== src/Ecmd/Parser.antt =====
-- The command parser, protocols/ecmd/parser.c. The table of commands is generated; a command is a
-- function of the rest of the line, the output buffer, its length and the state `W` of the rest of
-- the program, and `none` stands for a fault in it. The output is not NULL, as in every call.
pub mod Dispatch
pub mod Help
use mathlib.Core.Option
use ir.Prelude.{
  ℕ, zero, suc, ◌+◌, ◌<◌, ◌≡◌, Bool, true, false, Option, none, some, List, [], ◌∷◌, ◌++◌, ltb,
  ◌==◌, if◌then◌else◌, length, get_elem?, get_or, set, take, drop,
}
use ir.Prelude.Int.{ℤ, pos, negsuc}
use ir.Prelude.Words.{add8}
use ir.Prelude.Strings.{strlen, starts_with, store}
use ir.Ecmd.Result.{ecmd_again}
use ir.Ecmd.Alias.{Alias, aliascmd_decode}

-- What a command returns, and the memory it leaves.
pub record Reply (W : Type 0) : Type 0 where
  pub ret : ℤ
  pub cmd : List ℕ
  pub output : List ℕ
  pub world : W

pub record Command (W : Type 0) : Type 0 where
  pub name : List ℕ
  pub func : List ℕ → List ℕ → ℕ → W → Option (Reply W)

-- "parse error"
abbrev pub parse_error : List ℕ
parse_error = 112 ∷ 97 ∷ 114 ∷ 115 ∷ 101 ∷ 32 ∷ 101 ∷ 114 ∷ 114 ∷ 111 ∷ 114 ∷ []

-- "OK"
abbrev pub ok : List ℕ
ok = 79 ∷ 75 ∷ []

unfoldable pub decode_alias : List Alias → List ℕ → Option (List ℕ)
decode_alias aliases cmd =
    if get_or cmd 0 0 == 36 then Option.map (λ d. d.1) (aliascmd_decode aliases cmd) else some cmd

-- A line that begins with the byte 23 is that of a continuing call, whose count is in the next.
abbrev pub count_from : List ℕ → List ℕ
count_from cmd = if get_or cmd 0 0 == 23 then cmd else set (set cmd 0 23) 1 0

-- Whether there is another text decides if the command wants to be called again.
abbrev pub help_ret : Option (List ℕ) → ℕ → ℤ
help_ret none len = pos len
help_ret (some text) len = ecmd_again (pos len)

module _ {W : Type 0} where
  unfoldable pub write_reply : List ℕ → Reply W → Option (Reply W)
  write_reply text r =
      Option.map (λ out. record r { ret = pos (length text); output = out }) (store 0 text r.output)

  -- The texts for a command without one.
  unfoldable pub finish : Reply W → Option (Reply W)
  finish r = elim r.ret [
    | pos zero ↦ write_reply ok r
    | pos (suc n) ↦ some r
    | negsuc zero ↦ write_reply parse_error r
    | negsuc (suc n) ↦ some r
  ]

  -- The loop over the table, which the null entry behind the last one ends.
  unfoldable pub find_command : ℕ → List (Command W) → List ℕ → ℕ → Option (Option (Command W))
  find_command zero cmds cmd place = none
  find_command (suc fuel) cmds cmd place = elim (get_elem? cmds place) [
    | none ↦ some none
    | some c ↦ elim (starts_with c.name cmd) [
      | true ↦ some (some c)
      | false ↦ find_command fuel cmds cmd (add8 place 1)
    ]
  ]

  unfoldable pub put_back : List ℕ → Reply W → Reply W
  put_back front r = record r { cmd = front ++ r.cmd }

  -- The function gets the rest of the line, and may write to it.
  unfoldable pub call : Option (Command W) → List ℕ → List ℕ → ℕ → W → Option (Reply W)
  call none cmd output len w =
      some (record { ret = negsuc 0; cmd = cmd; output = output; world = w })
  call (some c) cmd output len w =
      Option.map (put_back (take (length c.name) cmd))
        (c.func (drop (length c.name) cmd) output len w)

  unfoldable pub parse_line : List (Command W) → List ℕ → List ℕ → ℕ → W → Option (Reply W)
  parse_line cmds cmd output len w =
      if ltb (strlen cmd) 2
      then some (record { ret = pos 0; cmd = cmd; output = output; world = w })
      else Option.bind (find_command 257 cmds cmd 0)
          (λ found. Option.bind (call found cmd output len w) finish)

  unfoldable pub ecmd_parse_command :
      List Alias → List (Command W) → List ℕ → List ℕ → ℕ → W → Option (Reply W)
  ecmd_parse_command aliases cmds cmd output len w =
      Option.bind (decode_alias aliases cmd) (λ line. parse_line cmds line output len w)

  unfoldable pub help_text :
      Option (List ℕ) → Option (List ℕ) → List ℕ → List ℕ → W → Option (Reply W)
  help_text none next cmd output w = none
  help_text (some text) next cmd output w =
      Option.map
        (λ out. record { ret = help_ret next (length text); cmd = cmd; output = out; world = w })
        (store 0 text output)

  unfoldable pub parse_cmd_help : List (List ℕ) → List ℕ → List ℕ → ℕ → W → Option (Reply W)
  parse_cmd_help names cmd output len w =
      let line = count_from cmd in
      let count = get_or line 1 0 in
      let next = set line 1 (add8 count 1) in
      help_text (get_elem? names count) (get_elem? names (get_or next 1 0)) next output w
