-- ===== src/Ecmd/Net/Shell.antt =====
-- The parser of protocols/ecmd/parser.c as the one that protocols/ecmd/via_tcp/ecmd_net.c relies on.
use mathlib.Core.Option
use mathlib.Core.Path.{subst}
use ir.Prelude.{
  ℕ, ◌<◌, ◌≤◌, ◌≡◌, refl, sym, ap, ◌∙◌, ◌⊎◌, inl, inr, Option, none, some, List, [], ◌++◌, ◌==◌,
  length, get_elem?, get_or, take, drop, arith, Bool-cases, length-append, length-take, length-drop,
}
use ir.Prelude.Int.{pos}
use ir.Ecmd.Result.{ecmd_again}
use ir.Ecmd.Alias.{find_alias, decode_index, aliascmd_decode}
use ir.Ecmd.Parser.{Reply, Command, parse_error, ok, decode_alias, ecmd_parse_command}
use ir.Ecmd.Parser.Dispatch.{
  Answer, short, unknown, told_error, told_ok, passed_on, ecmd_parse_command-Answer,
}
use ir.Ecmd.Net.{IsParser}

pub decode_alias-nil : (cmd : List ℕ) → decode_alias [] cmd ≡ some cmd
unfolding decode_alias aliascmd_decode find_alias decode_index Option.map Option.bind
decode_alias-nil cmd = elim (Bool-cases (get_or cmd 0 0 == 36)) [
  | inl b ↦ rw b refl
  | inr b ↦ rw b refl
]

length_back :
    (n : ℕ) (cmd rest : List ℕ)
    → length rest ≡ length (drop n cmd)
    → length (take n cmd ++ rest) ≡ length cmd
length_back n cmd rest h =
    omega (arith, h, length-append (take n cmd) rest, length-take n cmd, length-drop n cmd)

length_over :
    (text out : List ℕ)
    → length text ≤ length out
    → length (text ++ drop (length text) out) ≡ length out
length_over text out h =
    omega (arith, h, length-append text (drop (length text) out), length-drop (length text) out)

pub text_le : (m n : ℕ) → m ≤ 49 → (pos m ≡ pos n) ⊎ (pos m ≡ ecmd_again (pos n)) → n ≤ 49
unfolding ecmd_again
text_le m n le (inl e) = ground arith
text_le m n le (inr e) = absurd (ground arith)

module _ {W : Type 0} where
  -- A command returns, keeps the lengths of the buffers, and makes texts of at most `len` bytes.
  abbrev pub IsSized : ℕ → (cmd output : List ℕ) → Reply W → Type 0
  IsSized len cmd output r =
      (length r.cmd ≡ length cmd)
      × (length r.output ≡ length output)
      × ((n : ℕ) → (r.ret ≡ pos n) ⊎ (r.ret ≡ ecmd_again (pos n)) → n ≤ len)

  abbrev pub IsCommand : Command W → Type 0
  IsCommand c =
      (cmd output : List ℕ) (w : W)
      → (r : Reply W) × (c.func cmd output 49 w ≡ some r) × IsSized 49 cmd output r

  abbrev reply_or : Reply W → Option (Reply W) → Reply W
  reply_or d none = d
  reply_or d (some r) = r

  returned-IsSized :
      (c : Command W) (cmd output : List ℕ) (w : W) (r : Reply W)
      → IsCommand c
      → c.func cmd output 49 w ≡ some r
      → IsSized 49 cmd output r
  returned-IsSized c cmd output w r sized run =
      let (s, same, sizes) = sized cmd output w in
      subst (IsSized 49 cmd output) (ap (reply_or s) (sym same ∙ run)) sizes

  Answer-IsSized :
      (cmds : List (Command W)) (line output : List ℕ) (w : W) (r : Reply W)
      → ((i : ℕ) (c : Command W) → get_elem? cmds i ≡ some c → IsCommand c)
      → 11 ≤ length output
      → Answer cmds line output 49 w r
      → IsSized 49 line output r
  Answer-IsSized cmds line output w r sized room (short h) =
      (refl, refl, λ n. text_le 0 n (omega arith))
  Answer-IsSized cmds line output w r sized room (unknown h) =
      (refl, length_over parse_error output room, λ n. text_le 11 n (omega arith))
  Answer-IsSized cmds line output w r sized room (told_error k c s first run e) =
      let (a, b, d) =
        returned-IsSized c (drop (length c.name) line) output w s (sized k c first.0) run in
      (
        length_back (length c.name) line s.cmd a,
        length_over parse_error s.output (omega arith) ∙ b,
        λ n. text_le 11 n (omega arith),
      )
  Answer-IsSized cmds line output w r sized room (told_ok k c s first run e) =
      let (a, b, d) =
        returned-IsSized c (drop (length c.name) line) output w s (sized k c first.0) run in
      (
        length_back (length c.name) line s.cmd a,
        length_over ok s.output (omega arith) ∙ b,
        λ n. text_le 2 n (omega arith),
      )
  Answer-IsSized cmds line output w r sized room (passed_on k c s first run n z) =
      let (a, b, d) =
        returned-IsSized c (drop (length c.name) line) output w s (sized k c first.0) run in
      (length_back (length c.name) line s.cmd a, b, d)

  -- `ecmd_parse_command`, for a table of fewer than 256 commands that return, keep the lengths of
  -- the buffers and make texts of at most 49 bytes, and without aliases, is a parser that a
  -- connection can rely on.
  pub ecmd_parse_command-IsParser :
      (cmds : List (Command W))
      → length cmds < 256
      → ((i : ℕ) (c : Command W) → get_elem? cmds i ≡ some c → IsCommand c)
      → IsParser (ecmd_parse_command [] cmds)
  ecmd_parse_command-IsParser cmds few sized = record {
    returns = λ cmd output w size.
        let (r, run, answer) =
          ecmd_parse_command-Answer [] cmds cmd cmd output 49 w few
            (λ i c e line out u.
              let (r, run, sizes) = sized i c e line out u in let (a, b, d) = sizes in (r, run, b))
            (omega arith) (decode_alias-nil cmd) in
        let (a, b, d) = Answer-IsSized cmds cmd output w r sized (omega arith) answer in
        (r, run, a, b, d);
  }
