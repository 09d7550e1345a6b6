-- ===== src/Ecmd/Tests.antt =====
-- The command interface at concrete lines, tables and events.
use mathlib.Core.Path.{subst}
use mathlib.Core.Option
use ir.Prelude.{
  ℕ, zero, suc, ◌+◌, ◌<◌, ◌≤◌, ◌≡◌, refl, ap, ◌⊎◌, inl, true, false, Option, none, some, List, [],
  ◌∷◌, ◌++◌, if◌then◌else◌, length, get_elem?, set, drop, replicate, arith, length-set,
}
use ir.Prelude.Int.{pos, negsuc}
use ir.Ecmd.Result.{is_ecmd_again, is_ecmd_err}
use ir.Ecmd.Alias.{Alias, aliascmd_decode}
use ir.Ecmd.Alias.Longest.{Holds, IsMatch}
use ir.Ecmd.Alias.Decode.{IsTable, aliascmd_decode-longest}
use ir.Prelude.Strings.{strlen, starts_with, IsText}
use ir.Ecmd.Parser.{
  Reply, Command, ecmd_parse_command, decode_alias, parse_line, find_command, call, finish,
  put_back,
}
use ir.Ecmd.Parser.Dispatch.{Answer, IsTotal, ecmd_parse_command-Answer}
use ir.Ecmd.Parser.Help.{listing, listing-names}
use ir.Ecmd.Net.{Action, Connection, send, newline, ecmd_net_main}
use ir.Ecmd.Net.Bounds.{IsValid, IsSmall}
use ir.Ecmd.Net.Valid.{ecmd_net_main-IsValid}
use ir.Ecmd.Net.Shell.{IsCommand, decode_alias-nil, text_le, ecmd_parse_command-IsParser}
use ir.Ecmd.Net.Line.{waiting, answered, arrives, ecmd_net_main-line}
use ir.Ecmd.Usart.{Serial, ecmd_serial_usart_periodic}
use ir.Ecmd.Usart.Output.{replied, tx_times, ecmd_serial_usart_periodic-replied}
use ir.Ecmd.Usart.Stuck.{Run, ecmd_serial_usart_periodic-IsStuck}

-- A command `count`, which writes one digit and counts its calls.
abbrev count : Command ℕ
count = record {
  name = 99 ∷ 111 ∷ [];
  func = λ cmd output len w.
      some (record { ret = pos 1; cmd = cmd; output = set output 0 55; world = suc w });
}

abbrev commands : List (Command ℕ)
commands = count ∷ []

abbrev command_or : Command ℕ → Option (Command ℕ) → Command ℕ
command_or d none = d
command_or d (some c) = c

count-IsCommand : IsCommand count
count-IsCommand cmd output w =
    (_, refl, (refl, length-set output 0 55, λ n. text_le 1 n (omega arith)))

commands-IsCommand : (i : ℕ) (c : Command ℕ) → get_elem? commands i ≡ some c → IsCommand c
commands-IsCommand zero c e = subst IsCommand (ap (command_or count) e) count-IsCommand
commands-IsCommand (suc i) c e = absurd (ground arith)

count-IsTotal : (i : ℕ) (c : Command ℕ) → get_elem? commands i ≡ some c → IsTotal 49 c
count-IsTotal zero c e =
    subst (IsTotal 49) (ap (command_or count) e) (λ cmd output w. (_, refl, length-set output 0 55))
count-IsTotal (suc i) c e = absurd (ground arith)

-- "coX" in a buffer of 50 bytes
abbrev typed : List ℕ
typed = 99 ∷ 111 ∷ 88 ∷ replicate 47 0

ecmd_parse_command-Answer_example :
    (r : Reply ℕ) × (ecmd_parse_command [] commands typed (replicate 50 0) 49 3 ≡ some r)
    × Answer commands typed (replicate 50 0) 49 3 r
ecmd_parse_command-Answer_example =
    ecmd_parse_command-Answer [] commands typed typed (replicate 50 0) 49 3 (omega arith)
      count-IsTotal (omega arith) (decode_alias-nil typed)

abbrev names : List (List ℕ)
names = (97 ∷ []) ∷ (98 ∷ 99 ∷ []) ∷ []

abbrev text_size : Option (List ℕ) → ℕ
text_size none = 0
text_size (some text) = length text

names_fit : (i : ℕ) (name : List ℕ) → get_elem? names i ≡ some name → length name ≤ 50
names_fit zero name e = let size = ap text_size e in omega (arith, size)
names_fit (suc zero) name e = let size = ap text_size e in omega (arith, size)
names_fit (suc (suc i)) name e = absurd (ground arith)

listing-names_example : listing names 2 (0 ∷ 0 ∷ []) (replicate 50 0) 49 tt ≡ some names
listing-names_example =
    listing-names names 0 0 [] (replicate 50 0) 49 tt (ground arith) (omega arith) (omega arith)
      names_fit

waiting-IsValid : IsValid (waiting (replicate 50 0))
waiting-IsValid = record {
  inbuf_size = refl;
  outbuf_size = refl;
  in_len_le = omega arith;
  out_len_le = omega arith;
}

ecmd_net_main-IsValid_example :
    (a : Action) × (d : Connection) × (v : ℕ) × (ecmd_net_main
        (ecmd_parse_command [] commands)
        (arrives (99 ∷ 111 ∷ 10 ∷ []))
        (waiting (replicate 50 0))
        3
      ≡ some (a, d, v))
    × IsValid d
    × IsSmall a
ecmd_net_main-IsValid_example =
    ecmd_net_main-IsValid (ecmd_parse_command [] commands)
      (ecmd_parse_command-IsParser commands (omega arith) commands-IsCommand)
      (arrives (99 ∷ 111 ∷ 10 ∷ [])) (waiting (replicate 50 0)) 3 waiting-IsValid

-- The parser's reply to "co" in the buffer of a connection.
abbrev counted : List ℕ → Reply ℕ
counted cmd = record { ret = pos 1; cmd = cmd; output = 55 ∷ replicate 49 0; world = 4 }

counted_run :
    ecmd_parse_command [] commands (99 ∷ 111 ∷ replicate 48 0) (replicate 50 0) 49 3
    ≡ some (counted (99 ∷ 111 ∷ replicate 48 0))
unfolding ecmd_parse_command Option.bind Option.map decode_alias parse_line strlen find_command
    starts_with call finish put_back
counted_run = refl

ecmd_net_main-line_example :
    ecmd_net_main
      (ecmd_parse_command [] commands)
      (arrives (99 ∷ 111 ∷ newline ∷ []))
      (waiting (replicate 50 0))
      3
    ≡ some (send (55 ∷ newline ∷ []), answered 1 (55 ∷ replicate 49 0), 4)
ecmd_net_main-line_example =
    ecmd_net_main-line (ecmd_parse_command [] commands) 99 (111 ∷ []) (replicate 50 0) 3
      (counted (99 ∷ 111 ∷ replicate 48 0)) 0 (ground arith) (ground arith) (omega arith)
      counted_run refl (omega arith) refl

-- A serial line on which "co" has been typed.
abbrev serial : Serial
serial = record {
  recv_buffer = 99 ∷ 111 ∷ replicate 48 0;
  write_buffer = replicate 52 0;
  recv_len = 2;
  sent = 0;
  write_len = pos 0;
  must_parse = true;
  txcie = false;
  wire = [];
}

serial_run :
    ecmd_parse_command [] commands (99 ∷ 111 ∷ replicate 48 0) (replicate 52 0) 52 3
    ≡ some (record {
      ret = pos 1;
      cmd = 99 ∷ 111 ∷ replicate 48 0;
      output = 55 ∷ replicate 51 0;
      world = 4;
    })
unfolding ecmd_parse_command Option.bind Option.map decode_alias parse_line strlen find_command
    starts_with call finish put_back
serial_run = refl

ecmd_serial_usart_periodic-replied_example :
    (t : Serial) × (buf : List ℕ) × (ecmd_serial_usart_periodic 50
        (ecmd_parse_command [] commands)
        serial
        3
      ≡ some (t, 4))
    × (tx_times 3 t
        ≡ replied
            (record serial {
              must_parse = is_ecmd_again (pos 1);
              recv_len = if is_ecmd_again (pos 1) then 2 else 0;
            })
            buf
            1
            (55 ∷ []))
ecmd_serial_usart_periodic-replied_example =
    ecmd_serial_usart_periodic-replied 50 (ecmd_parse_command [] commands) serial 3
      (record {
        ret = pos 1;
        cmd = 99 ∷ 111 ∷ replicate 48 0;
        output = 55 ∷ replicate 51 0;
        world = 4;
      })
      1 refl refl (omega arith) serial_run (inl refl) (omega arith) (omega arith) (omega arith)

-- A command `co` that fails to read.
abbrev broken : Command ℕ
broken = record {
  name = 99 ∷ 111 ∷ [];
  func = λ cmd output len w.
      some (record { ret = negsuc 1; cmd = cmd; output = output; world = suc w });
}

abbrev read_error : Reply ℕ
read_error = record {
  ret = negsuc 1;
  cmd = 99 ∷ 111 ∷ replicate 48 0;
  output = replicate 52 0;
  world = 4;
}

broken_run :
    ecmd_parse_command [] (broken ∷ []) (99 ∷ 111 ∷ replicate 48 0) (replicate 52 0) 52 3
    ≡ some read_error
unfolding ecmd_parse_command Option.bind Option.map decode_alias parse_line strlen find_command
    starts_with call finish put_back
broken_run = refl

error_test : is_ecmd_err (negsuc 1) ≡ true
unfolding is_ecmd_err
error_test = refl

ecmd_serial_usart_periodic-IsStuck_example :
    (t : Serial) × (ecmd_serial_usart_periodic 50 (ecmd_parse_command [] (broken ∷ [])) serial 3
      ≡ some (t, 4))
    × ((u : Serial) (v : ℕ)
        → Run 50 (ecmd_parse_command [] (broken ∷ [])) (t, 4) (u, v)
        → (u.write_len ≡ negsuc 1) × (u.txcie ≡ false) × (v ≡ 4))
ecmd_serial_usart_periodic-IsStuck_example =
    ecmd_serial_usart_periodic-IsStuck 50 (ecmd_parse_command [] (broken ∷ [])) serial 3 read_error
      refl refl refl (omega arith) broken_run error_test

-- The aliases `b` and `bc`.
abbrev alias_b : Alias
alias_b = record { name = 98 ∷ []; cmd = 120 ∷ [] }

abbrev alias_bc : Alias
alias_bc = record { name = 98 ∷ 99 ∷ []; cmd = 121 ∷ 121 ∷ [] }

abbrev aliases : List Alias
aliases = alias_b ∷ alias_bc ∷ []

abbrev alias_or : Option Alias → Alias
alias_or none = alias_b
alias_or (some a) = a

each :
    (P : Alias → Type 0)
    → P alias_b
    → P alias_bc
    → (i : ℕ) (a : Alias) → get_elem? aliases i ≡ some a
    → P a
each P p q zero a e = subst P (ap alias_or e) p
each P p q (suc zero) a e = subst P (ap alias_or e) q
each P p q (suc (suc i)) a e = absurd (ground arith)

aliases-IsTable : IsTable aliases (98 ∷ 99 ∷ 100 ∷ []) 50
aliases-IsTable = record {
  few = omega arith;
  names =
      each (λ a. (length a.name < 256) × IsText a.name) (omega arith, ground arith)
        (omega arith, ground arith);
  cmds =
      each (λ a. (length a.cmd < 256) × (length a.cmd + 3 + 1 ≤ 50)) (omega arith, omega arith)
        (omega arith, omega arith);
}

-- "$bcd"
aliascmd_decode-longest_example :
    (((i : ℕ) (alias : Alias)
        → IsMatch aliases (98 ∷ 99 ∷ 100 ∷ []) i alias
        → length alias.name ≡ 0)
      × (aliascmd_decode aliases (36 ∷ 98 ∷ 99 ∷ 100 ∷ replicate 46 0)
          ≡ some (false, 36 ∷ 98 ∷ 99 ∷ 100 ∷ replicate 46 0)))
    ⊎ ((i : ℕ) × (alias : Alias) × (new : List ℕ) × (aliascmd_decode aliases
            (36 ∷ 98 ∷ 99 ∷ 100 ∷ replicate 46 0)
          ≡ some (true, new))
        × IsMatch aliases (98 ∷ 99 ∷ 100 ∷ []) i alias
        × ((j : ℕ) (b : Alias)
            → IsMatch aliases (98 ∷ 99 ∷ 100 ∷ []) j b
            → length b.name ≤ length alias.name)
        × Holds (alias.cmd ++ drop (length alias.name) (98 ∷ 99 ∷ 100 ∷ [])) new
        × (length new ≡ 50))
aliascmd_decode-longest_example =
    aliascmd_decode-longest aliases (98 ∷ 99 ∷ 100 ∷ []) (replicate 45 0) (ground arith)
      aliases-IsTable
