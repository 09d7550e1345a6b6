-- ===== src/Ecmd/Net/Line.antt =====
-- One line that arrives at protocols/ecmd/via_tcp/ecmd_net.c, and the text that is sent for it.
use mathlib.Core.Option
use ir.Prelude.{
  ℕ, zero, suc, ◌+◌, ◌-◌, ◌%◌, ◌<◌, ◌≤◌, ◌≡◌, ◌≢◌, refl, sym, ap, ap₂, ◌∙◌, true, false, Option,
  some, List, [], ◌∷◌, ◌++◌, append_assoc, ltb, leb, ◌==◌, length, set, take, drop, replicate,
  arith, length-append, length-take, length-replicate,
}
use ir.Prelude.Int.{pos}
use ir.Prelude.Strings.{store_inside, take_all, take-append}
use ir.Ecmd.Result.{is_ecmd_again}
use ir.Ecmd.Parser.{Reply}
use ir.Ecmd.Net.{
  Connection, Event, send, newline, memchr, receive, end_line, kill_cr, put_newline, run_parser,
  clear_line, newdata_reply, newdata_line, newdata_parse, newdata, answer, ecmd_net_main,
}

-- No byte ends a line.
abbrev pub IsLine : List ℕ → Type 0
IsLine [] = Unit
IsLine (c ∷ cs) = (c ≢ 10) × (c ≢ 13) × IsLine cs

memchr-IsLine :
    (line rest : List ℕ) → IsLine line → memchr newline (line ++ 10 ∷ rest) ≡ some (length line)
unfolding memchr Option.map
memchr-IsLine [] rest h = refl
memchr-IsLine (c ∷ cs) rest (ne, cr, h) =
    let other : (c == 10) ≡ false = ground arith in
    rw (other, memchr) (rw (memchr-IsLine cs rest h) refl)

set-append : (xs rest : List ℕ) (v w : ℕ) → set (xs ++ v ∷ rest) (length xs) w ≡ xs ++ w ∷ rest
set-append [] rest v w = refl
set-append (x ∷ xs) rest v w = ap (λ r. x ∷ r) (set-append xs rest v w)

kill_cr-IsLine :
    (line : List ℕ) (n : ℕ)
    → IsLine line
    → kill_cr (line ++ 0 ∷ replicate n 0) ≡ line ++ 0 ∷ replicate n 0
unfolding kill_cr
kill_cr-IsLine [] zero h = refl
kill_cr-IsLine [] (suc n) h = ap (λ r. 0 ∷ r) (kill_cr-IsLine [] n h)
kill_cr-IsLine (c ∷ cs) n (ne, cr, h) =
    let other : (c == 13) ≡ false = ground arith in
    rw other (ap (λ r. c ∷ r) (kill_cr-IsLine cs n h))

drop-replicate : (n m : ℕ) → n ≤ m → drop n (replicate {A = ℕ} m 0) ≡ replicate (m - n) 0
drop-replicate zero m h = ap (λ k. replicate {A = ℕ} k 0) (omega arith)
drop-replicate (suc n) zero h = absurd (omega arith)
drop-replicate (suc n) (suc m) h =
    drop-replicate n m (omega arith) ∙ ap (λ k. replicate {A = ℕ} k 0) (omega arith)

take_line :
    (line rest : List ℕ) → take (length line + 1) (line ++ newline ∷ rest) ≡ line ++ newline ∷ []
take_line line rest =
    let size = length-append line (newline ∷ []) in
    ap (λ n. take n (line ++ newline ∷ rest)) (sym size)
    ∙ ap (take (length (line ++ newline ∷ []))) (sym (append_assoc line (newline ∷ []) rest))
    ∙ take-append (line ++ newline ∷ []) rest

-- A connection that waits for a line, with nothing to send.
abbrev pub waiting : List ℕ → Connection
waiting outbuf = record {
  inbuf = replicate 50 0;
  in_len = 0;
  outbuf = outbuf;
  out_len = 0;
  parse_again = false;
  close_requested = false;
}

receive_line :
    (line outbuf : List ℕ)
    → length line ≤ 49
    → receive (line ++ newline ∷ []) (waiting outbuf)
      ≡ some (record (waiting outbuf) {
        inbuf = line ++ newline ∷ replicate (49 - length line) 0;
        in_len = length line + 1;
      })
unfolding receive Option.map
receive_line line outbuf short =
    let data_size : length (line ++ newline ∷ []) ≡ length line + 1 =
      length-append line (newline ∷ []) in
    let fits : leb (length (line ++ newline ∷ [])) 50 ≡ true = ground (arith, data_size, short) in
    let stored =
      store_inside 0 (line ++ newline ∷ []) (replicate 50 0)
        (omega (arith, data_size, length-replicate {A = ℕ} 50 0)) in
    let count : 0 + length (line ++ newline ∷ []) ≡ length line + 1 = omega (arith, data_size) in
    let zeros : drop (length line + 1) (replicate {A = ℕ} 50 0) ≡ replicate (49 - length line) 0 =
      drop-replicate (length line + 1) 50 (omega arith)
      ∙ ap (λ k. replicate {A = ℕ} k 0) (omega arith) in
    let buffer =
      ap (λ n. (line ++ newline ∷ []) ++ drop n (replicate 50 0)) count
      ∙ ap (λ r. (line ++ newline ∷ []) ++ r) zeros
      ∙ append_assoc line (newline ∷ []) (replicate (49 - length line) 0) in
    let len : (0 + length (line ++ newline ∷ [])) % 256 ≡ length line + 1 =
      omega (arith, data_size, short) in
    rw fits (
      rw (take_all (line ++ newline ∷ [])) (
        rw (stored, Option.map)
          (ap₂ (λ b n. some (record (waiting outbuf) { inbuf = b; in_len = n })) buffer len)))

-- The buffer that the parser gets.
abbrev pub padded : List ℕ → List ℕ
padded line = line ++ 0 ∷ replicate (49 - length line) 0

-- The connection with the text of `n` bytes and the newline in the output buffer.
abbrev pub answered : ℕ → List ℕ → Connection
answered n output = record (waiting (take n output ++ newline ∷ [] ++ drop (n + 1) output)) {
  out_len = n + 1;
}

take_answered :
    (n : ℕ) (output : List ℕ)
    → n < 50
    → length output ≡ 50
    → take (n + 1) (take n output ++ newline ∷ [] ++ drop (n + 1) output)
      ≡ take n output ++ newline ∷ []
take_answered n output small size =
    let front = length-append (take n output) (newline ∷ []) in
    let same : n + 1 ≡ length (take n output ++ newline ∷ []) =
      omega (arith, front, size, length-take n output) in
    ap (λ k. take k (take n output ++ newline ∷ [] ++ drop (n + 1) output)) same
    ∙ take-append (take n output ++ newline ∷ []) (drop (n + 1) output)

abbrev pub arrives : List ℕ → Event
arrives data_in = record {
  connected = false;
  acked = false;
  newdata = true;
  rexmit = false;
  poll = false;
  appdata = data_in;
}

answer_text :
    (n : ℕ) (output : List ℕ) (e : Event)
    → e ≡ arrives e.appdata
    → n < 50
    → length output ≡ 50
    → answer e (answered n output) ≡ send (take n output ++ newline ∷ [])
unfolding answer
answer_text n output e arrived small size =
    let some_text : ltb 0 (n + 1) ≡ true = ground arith in
    rw arrived (rw some_text (ap send (take_answered n output small size)))

module _ {W : Type 0} (parse : List ℕ → List ℕ → ℕ → W → Option (Reply W)) where
  run_parser_line :
      (c : ℕ) (line outbuf : List ℕ) (in_len : ℕ) (w : W) (r : Reply W)
      → c ≢ 33
      → parse (c ∷ line) outbuf 49 w ≡ some r
      → run_parser parse (record (waiting outbuf) { inbuf = c ∷ line; in_len = in_len }) w
        ≡ some (
          r.ret,
          record (waiting outbuf) { inbuf = r.cmd; in_len = in_len; outbuf = r.output },
          r.world,
        )
  unfolding run_parser Option.map
  run_parser_line c line outbuf in_len w r ne run =
      let other : (c == 33) ≡ false = ground arith in rw other (rw (run, Option.map) refl)

  newdata_reply_text :
      (n in_len : ℕ) (inbuf output : List ℕ) (w : W)
      → n < 49
      → length output ≡ 50
      → newdata_reply parse
          (pos (suc n), record (waiting output) { inbuf = inbuf; in_len = in_len }, w)
        ≡ some (answered (suc n) output, w)
  unfolding newdata_reply clear_line put_newline is_ecmd_again Option.map
  newdata_reply_text n in_len inbuf output w small size =
      let stored = store_inside (suc n) (newline ∷ []) output (omega (arith, size)) in
      let len : (n + 2) % 256 ≡ suc n + 1 = omega arith in
      rw (stored, Option.map)
        (ap (λ l. some (record (answered (suc n) output) { out_len = l }, w)) len)

  newdata_parse_line :
      (c : ℕ) (line outbuf : List ℕ) (w : W) (r : Reply W) (n : ℕ)
      → IsLine (c ∷ line)
      → c ≢ 33
      → length (c ∷ line) ≤ 49
      → parse (padded (c ∷ line)) outbuf 49 w ≡ some r
      → r.ret ≡ pos (suc n)
      → n < 49
      → length r.output ≡ 50
      → newdata_line parse
          (some (length (c ∷ line)))
          (record (waiting outbuf) {
            inbuf = (c ∷ line) ++ newline ∷ replicate (49 - length (c ∷ line)) 0;
            in_len = length (c ∷ line) + 1;
          })
          w
        ≡ some (answered (suc n) r.output, r.world)
  unfolding newdata_line end_line Option.bind
  newdata_parse_line c line outbuf w r n h ne short run e small size =
      let zeros = replicate (49 - length (c ∷ line)) 0 in
      let ended = set-append (c ∷ line) zeros newline 0 in
      let parsed =
        run_parser_line c (line ++ 0 ∷ zeros) outbuf (length (c ∷ line) + 1) w r ne run in
      ap
        (λ b.
          Option.bind
            (run_parser parse
              (record (waiting outbuf) { inbuf = b; in_len = length (c ∷ line) + 1 }) w)
            (newdata_reply parse))
        (ap kill_cr ended ∙ kill_cr-IsLine (c ∷ line) (49 - length (c ∷ line)) h)
      ∙ ap (λ o. Option.bind o (newdata_reply parse)) parsed
      ∙ ap
          (λ l. newdata_reply parse (
            l,
            record (waiting r.output) { inbuf = r.cmd; in_len = length (c ∷ line) + 1 },
            r.world,
          ))
          e
      ∙ newdata_reply_text n (length (c ∷ line) + 1) r.cmd r.output r.world small size

  -- A line of one to 49 bytes, without ends of lines and not behind a `!`, that arrives with its
  -- newline at a connection that waits: if the parser gives a text of one to 49 bytes for the line,
  -- with zeros behind it in the buffer, the text and a newline are sent, and the input buffer is
  -- empty again.
  pub ecmd_net_main-line :
      (c : ℕ) (line outbuf : List ℕ) (w : W) (r : Reply W) (n : ℕ)
      → IsLine (c ∷ line)
      → c ≢ 33
      → length (c ∷ line) ≤ 49
      → parse (padded (c ∷ line)) outbuf 49 w ≡ some r
      → r.ret ≡ pos (suc n)
      → n < 49
      → length r.output ≡ 50
      → ecmd_net_main parse (arrives ((c ∷ line) ++ newline ∷ [])) (waiting outbuf) w
        ≡ some (send (take (suc n) r.output ++ newline ∷ []), answered (suc n) r.output, r.world)
  unfolding ecmd_net_main newdata newdata_parse answer Option.bind Option.map
  ecmd_net_main-line c line outbuf w r n h ne short run e small size =
      let zeros = replicate (49 - length (c ∷ line)) 0 in
      let found : memchr newline (take (length (c ∷ line) + 1) ((c ∷ line) ++ newline ∷ zeros))
          ≡ some (length (c ∷ line)) =
        ap (memchr newline) (take_line (c ∷ line) zeros) ∙ memchr-IsLine (c ∷ line) [] h in
      rw (receive_line (c ∷ line) outbuf short, Option.bind)
        (rw (found, newdata_parse)
          (rw (newdata_parse_line c line outbuf w r n h ne short run e small size, Option.map)
            (ap (λ a. some (a, answered (suc n) r.output, r.world))
              (answer_text (suc n) r.output (arrives ((c ∷ line) ++ newline ∷ [])) refl
                (omega arith) size))))
