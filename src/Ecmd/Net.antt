-- ===== src/Ecmd/Net.antt =====
-- Commands over TCP, protocols/ecmd/via_tcp/ecmd_net.c. The network stack calls `ecmd_net_main` with
-- the flags and the data of an event; what it sends is the result. The parser is the function that
-- a section takes, and the record `IsParser` is what the connection relies on.
pub mod Bounds
pub mod Valid
pub mod Shell
pub mod Line
use mathlib.Core.Option
use ir.Prelude.{
  ℕ, zero, suc, ◌+◌, ◌-◌, ◌%◌, ◌≤◌, ◌≡◌, ◌⊎◌, Bool, true, false, not, ◌||◌, Option, none, some,
  List, [], ◌∷◌, ◌++◌, map, ltb, leb, ◌==◌, if◌then◌else◌, length, get_or, set, take, drop,
  replicate,
}
use ir.Prelude.Int.{ℤ, pos, negsuc}
use ir.Prelude.Words.{add8}
use ir.Prelude.Strings.{store}
use ir.Ecmd.Result.{ecmd_again, is_ecmd_again}
use ir.Ecmd.Parser.{Reply}

-- `ECMD_INPUTBUF_LENGTH` and `ECMD_OUTPUTBUF_LENGTH`
abbrev pub inputbuf_length : ℕ
inputbuf_length = 50

abbrev pub outputbuf_length : ℕ
outputbuf_length = 50

pub record Connection : Type 0 where
  pub inbuf : List ℕ
  pub in_len : ℕ
  pub outbuf : List ℕ
  pub out_len : ℕ
  pub parse_again : Bool
  pub close_requested : Bool

-- The flags of the stack, and the data received.
pub record Event : Type 0 where
  pub connected : Bool
  pub acked : Bool
  pub newdata : Bool
  pub rexmit : Bool
  pub poll : Bool
  pub appdata : List ℕ

pub data Action : Type 0 where
  nothing : Action
  send : List ℕ → Action
  close : Action

abbrev pub newline : ℕ
newline = 10

abbrev pub carriage_return : ℕ
carriage_return = 13

-- `memchr`: the index of the first such byte.
unfoldable pub memchr : ℕ → List ℕ → Option ℕ
memchr ch [] = none
memchr ch (c ∷ cs) = elim (c == ch) [ true ↦ some 0 | false ↦ Option.map suc (memchr ch cs) ]

-- The copy of the data behind what has been received before.
unfoldable pub receive : List ℕ → Connection → Option Connection
receive appdata c =
    let diff = (inputbuf_length + 65536 - c.in_len) % 65536 in
    let cplen = if leb (length appdata) diff then length appdata else diff in
    if ltb 0 diff
    then Option.map (λ buf. record c { inbuf = buf; in_len = add8 c.in_len cplen })
        (store c.in_len (take cplen appdata) c.inbuf)
    else some c

unfoldable pub end_line : Option ℕ → List ℕ → List ℕ
end_line (some lf) buf = set buf lf 0
end_line none buf = set buf (inputbuf_length - 1) 0

unfoldable pub kill_cr : List ℕ → List ℕ
kill_cr buf = map (λ c. if c == carriage_return then 0 else c) buf

-- The newline behind an output of a length that is positive.
unfoldable pub put_newline : ℤ → Connection → Option Connection
put_newline (pos (suc n)) c =
    Option.map (λ out. record c { outbuf = out; out_len = (n + 2) % 256 })
      (store (suc n) (newline ∷ []) c.outbuf)
put_newline (pos zero) c = some c
put_newline (negsuc n) c = some c

unfoldable pub clear_line : Connection → Connection
clear_line c =
    if c.parse_again then c else record c { inbuf = replicate inputbuf_length 0; in_len = 0 }

unfoldable pub connected : Connection → Connection
connected c = record c {
  in_len = 0;
  out_len = 0;
  parse_again = false;
  close_requested = false;
  inbuf = replicate inputbuf_length 0;
}

unfoldable pub answer : Event → Connection → Action
answer e c =
    if e.rexmit || e.newdata || e.acked || e.connected || e.poll
    then (if ltb 0 c.out_len
        then send (take c.out_len c.outbuf)
        else if c.close_requested
        then close
        else nothing)
    else nothing

module _ {W : Type 0} (parse : List ℕ → List ℕ → ℕ → W → Option (Reply W)) where
  -- The call of the parser, behind a `!`: its result, the connection and the state of the commands.
  unfoldable pub run_parser : Connection → W → Option (ℤ × Connection × W)
  run_parser c w =
      let bang = get_or c.inbuf 0 0 == 33 in
      let skip = if bang then 1 else 0 in
      Option.map
        (λ r. (
          r.ret,
          record c {
            inbuf = take skip c.inbuf ++ r.cmd;
            outbuf = r.output;
            close_requested = c.close_requested || bang;
          },
          r.world,
        ))
        (parse (drop skip c.inbuf) c.outbuf (outputbuf_length - 1) w)

  -- What `newdata` does with the parser's result.
  unfoldable pub newdata_reply : ℤ × Connection × W → Option (Connection × W)
  newdata_reply (l, c, w) =
      let again = is_ecmd_again l in
      Option.map (λ d. (clear_line d, w))
        (put_newline (if again then ecmd_again l else l)
          (record c { parse_again = c.parse_again || again }))

  unfoldable pub newdata_line : Option ℕ → Connection → W → Option (Connection × W)
  newdata_line lf c w =
      Option.bind (run_parser (record c { inbuf = kill_cr (end_line lf c.inbuf) }) w) newdata_reply

  unfoldable pub newdata_parse : List ℕ → Connection → W → Option (Connection × W)
  newdata_parse appdata c w = elim (memchr newline (take c.in_len c.inbuf)) [
    | some lf ↦ newdata_line (some lf) c w
    | none ↦ elim (memchr newline appdata) [ some i ↦ newdata_line none c w | none ↦ some (c, w) ]
  ]

  unfoldable pub newdata : List ℕ → Connection → W → Option (Connection × W)
  newdata appdata c w = Option.bind (receive appdata c) (λ d. newdata_parse appdata d w)

  -- What the main function does with the parser's result, when the output before has arrived.
  unfoldable pub acked_reply : ℤ × Connection × W → Option (Connection × W)
  acked_reply (l, c, w) =
      let again = is_ecmd_again l in
      Option.map (λ d. (d, w))
        (put_newline (if again then ecmd_again l else l)
          (record c { parse_again = again; in_len = if again then c.in_len else 0 }))

  unfoldable pub acked : Connection → W → Option (Connection × W)
  acked c w =
      if c.parse_again
      then Option.bind (run_parser (record c { out_len = 0 }) w) acked_reply
      else some (record c { out_len = 0 }, w)

  unfoldable pub ecmd_net_main : Event → Connection → W → Option (Action × Connection × W)
  ecmd_net_main e c w =
      let c0 = if e.connected then connected c else c in
      Option.bind (if e.acked then acked c0 w else some (c0, w)) (λ s.
        Option.map (λ t. (answer e t.0, t.0, t.1))
          (if e.newdata then newdata e.appdata s.0 s.1 else some s))

-- The parser returns, keeps the lengths of the buffers, and its texts fit the length it is given.
pub record IsParser {W : Type 0} (parse : List ℕ → List ℕ → ℕ → W → Option (Reply W)) : Type 0 where
  pub returns :
      (cmd output : List ℕ) (w : W)
      → length output ≡ outputbuf_length
      → (r : Reply W) × (parse cmd output (outputbuf_length - 1) w ≡ some r)
        × (length r.cmd ≡ length cmd)
        × (length r.output ≡ length output)
        × ((n : ℕ) → (r.ret ≡ pos n) ⊎ (r.ret ≡ ecmd_again (pos n)) → n ≤ outputbuf_length - 1)
