-- ===== src/Ecmd/Usart/Output.antt =====
-- The reply of a command on the serial line of protocols/ecmd/via_usart/ecmd_usart.c.
use mathlib.Core.Option
use ir.Prelude.{
  ℕ, zero, suc, ◌+◌, ◌<◌, ◌≤◌, ◌≡◌, refl, sym, ap, ap₂, ◌∙◌, ◌⊎◌, inl, inr, Bool, true, false, ◌&&◌,
  Option, some, List, [], ◌∷◌, ◌++◌, append_assoc, append-nil, leb, if◌then◌else◌, length, get_or,
  take, drop, arith, length-append, length-take,
}
use ir.Prelude.Int.{ℤ, pos}
use ir.Prelude.Words.{add8}
use ir.Prelude.Strings.{drop-get_or, store_inside, take-append, length-store}
use ir.Ecmd.Result.{
  ecmd_again, is_ecmd_again, is_ecmd_err, ecmd_again_cases, is_ecmd_again-ecmd_again,
}
use ir.Ecmd.Parser.{Reply}
use ir.Ecmd.Usart.{
  Serial, is_zero, less, start_reply, parsed, tx_vect, parse_request, ecmd_serial_usart_periodic,
}

-- The interrupt of a sent byte, a number of times.
abbrev pub tx_times : ℕ → Serial → Serial
tx_times zero s = s
tx_times (suc n) s = tx_times n (tx_vect s)

abbrev sending : Serial → ℕ → List ℕ → Serial
sending s i sent_bytes = record s { sent = i; wire = sent_bytes }

tx_vect_next :
    (s : Serial) (m i : ℕ) (out : List ℕ)
    → s.write_len ≡ pos m
    → i < m
    → i < 255
    → tx_vect (sending s i out) ≡ sending s (i + 1) (out ++ get_or s.write_buffer i 0 ∷ [])
unfolding tx_vect
tx_vect_next s m i out e lt small =
    let more : less i s.write_len ≡ true = ap (less i) e ∙ (ground arith) in
    let next : add8 i 1 ≡ i + 1 = omega arith in rw more (rw next refl)

tx_vect_end :
    (s : Serial) (m : ℕ) (out : List ℕ)
    → s.write_len ≡ pos m
    → tx_vect (sending s m out) ≡ record (sending s m out) { txcie = false; write_len = pos 0 }
unfolding tx_vect
tx_vect_end s m out e =
    let done : less m s.write_len ≡ false = ap (less m) e ∙ (ground arith) in rw done refl

tx_times-wire :
    (m i : ℕ) (s : Serial) (out : List ℕ)
    → s.write_len ≡ pos (i + m)
    → i + m < 256
    → i + m ≤ length s.write_buffer
    → tx_times m (sending s i out) ≡ sending s (i + m) (out ++ take m (drop i s.write_buffer))
tx_times-wire zero i s out len small fits = ap₂ (sending s) (omega arith) (sym (append-nil out))
tx_times-wire (suc m) i s out len small fits =
    let byte = get_or s.write_buffer i 0 in
    let one : i + 1 ≡ suc i = omega arith in
    ap (tx_times m) (tx_vect_next s (i + suc m) i out len (omega arith) (omega arith))
    ∙ tx_times-wire m (i + 1) s (out ++ byte ∷ []) (len ∙ ap pos (omega arith)) (omega arith)
        (omega arith)
    ∙ ap₂ (sending s) (omega arith) (
        append_assoc out (byte ∷ []) (take m (drop (i + 1) s.write_buffer))
        ∙ ap (λ k. out ++ byte ∷ take m (drop k s.write_buffer)) one
        ∙ ap (λ r. out ++ take (suc m) r) (sym (drop-get_or s.write_buffer i (omega arith))))

tx_times-suc : (m : ℕ) (s : Serial) → tx_times (suc m) s ≡ tx_vect (tx_times m s)
tx_times-suc zero s = refl
tx_times-suc (suc m) s = tx_times-suc m (tx_vect s)

-- The state of a serial line that has sent a reply.
abbrev pub replied : Serial → List ℕ → ℕ → List ℕ → Serial
replied s buf n text = record s {
  write_buffer = buf;
  write_len = pos 0;
  sent = n + 2;
  txcie = false;
  wire = s.wire ++ text ++ 13 ∷ 10 ∷ [];
}

start_reply_sent :
    (n : ℕ) (s : Serial)
    → 0 < n
    → n + 2 < 256
    → n + 2 ≤ length s.write_buffer
    → (t : Serial) × (buf : List ℕ) × (start_reply (pos n) s ≡ some t)
      × (tx_times (n + 2) t ≡ replied s buf n (take n s.write_buffer))
unfolding start_reply Option.map
start_reply_sent n s some_text small fits =
    let stored = store_inside n (13 ∷ 10 ∷ []) s.write_buffer fits in
    let buf = take n s.write_buffer ++ 13 ∷ 10 ∷ [] ++ drop (n + 2) s.write_buffer in
    let same = length-store n (13 ∷ 10 ∷ []) s.write_buffer buf stored in
    let t = record s {
      write_buffer = buf;
      write_len = pos (n + 2);
      sent = 1;
      wire = s.wire ++ get_or buf 0 0 ∷ [];
      txcie = true;
    } in
    let count : n + 2 ≡ suc (n + 1) = omega arith in
    let first = s.wire ++ get_or buf 0 0 ∷ [] in
    let rest = tx_times-wire (n + 1) 1 t first (ap pos (omega arith)) (omega arith) (omega arith) in
    let front = length-append (take n s.write_buffer) (13 ∷ 10 ∷ []) in
    let sized : suc (n + 1) ≡ length (take n s.write_buffer ++ 13 ∷ 10 ∷ []) =
      omega (arith, front, length-take n s.write_buffer) in
    let whole = drop-get_or buf 0 (omega (arith, same, fits)) in
    let text =
      append_assoc s.wire (get_or buf 0 0 ∷ []) (take (n + 1) (drop 1 buf))
      ∙ ap (λ r. s.wire ++ take (suc (n + 1)) r) (sym whole)
      ∙ ap (λ k. s.wire ++ take k buf) sized
      ∙ ap (λ r. s.wire ++ r)
          (take-append (take n s.write_buffer ++ 13 ∷ 10 ∷ []) (drop (n + 2) s.write_buffer))
      ∙ sym (append_assoc s.wire (take n s.write_buffer) (13 ∷ 10 ∷ [])) in
    rw (stored, Option.map)
      (
        t,
        buf,
        refl,
        ap (λ k. tx_times k t) count
            ∙ tx_times-suc (n + 1) t
            ∙ ap tx_vect rest
            ∙ tx_vect_end t _ _ (ap pos (omega arith))
            ∙ ap₂
                (λ k o. record s {
                  write_buffer = buf;
                  write_len = pos 0;
                  sent = k;
                  txcie = false;
                  wire = o;
                })
                (omega arith) text,
      )

test_of_bool : (b : Bool) → (if b then true else false) ≡ b
test_of_bool true = refl
test_of_bool false = refl

is_ecmd_again_pos : (n : ℕ) → is_ecmd_again (pos n) ≡ false
unfolding is_ecmd_again
is_ecmd_again_pos n = refl

parsed_pos :
    (n : ℕ) (s : Serial) → parsed (pos n) s ≡ start_reply (pos n) (record s { recv_len = 0 })
unfolding parsed is_ecmd_again is_ecmd_err
parsed_pos n s = refl

parsed_lem :
    (l : ℤ) (n : ℕ) (s : Serial)
    → (l ≡ pos n) ⊎ (l ≡ ecmd_again (pos n))
    → (again : Bool) × (is_ecmd_again l ≡ again)
      × (parsed l s
          ≡ start_reply (pos n) (record s {
            must_parse = if again then true else s.must_parse;
            recv_len = if again then s.recv_len else 0;
          }))
unfolding parsed
parsed_lem l n s (inl e) =
    (false, ap is_ecmd_again e ∙ is_ecmd_again_pos n, ap (λ k. parsed k s) e ∙ parsed_pos n s)
parsed_lem l n s (inr e) = (
  true,
  ap is_ecmd_again e ∙ is_ecmd_again-ecmd_again n,
  ap (λ k. parsed k s) e
      ∙ rw (is_ecmd_again-ecmd_again n)
          (ap (λ k. start_reply k (record s { must_parse = true })) (ecmd_again_cases (pos n)).0),
)

module _ {W : Type 0} (buffer_len : ℕ) (parse : List ℕ → List ℕ → ℕ → W → Option (Reply W)) where
  -- For a line that waits to be parsed while nothing is being sent: if the parser gives a text of
  -- one to 253 bytes, or one with more to come, and there is room for two bytes behind it, then
  -- after `ecmd_serial_usart_periodic` and as many interrupts as there are bytes, the text and the
  -- end of a line have been sent; nothing is being sent, and the line waits to be parsed again if
  -- there is more to come, and is empty otherwise.
  pub ecmd_serial_usart_periodic-replied :
      (s : Serial) (w : W) (r : Reply W) (n : ℕ)
      → s.must_parse ≡ true
      → s.write_len ≡ pos 0
      → 1 < s.recv_len
      → parse s.recv_buffer s.write_buffer (buffer_len + 2) w ≡ some r
      → (r.ret ≡ pos n) ⊎ (r.ret ≡ ecmd_again (pos n))
      → 0 < n
      → n + 2 < 256
      → n + 2 ≤ length r.output
      → (t : Serial) × (buf : List ℕ) × (ecmd_serial_usart_periodic buffer_len parse s w
          ≡ some (t, r.world))
        × (tx_times (n + 2) t
            ≡ replied
                (record s {
                  recv_buffer = r.cmd;
                  must_parse = is_ecmd_again r.ret;
                  recv_len = if is_ecmd_again r.ret then s.recv_len else 0;
                })
                buf
                n
                (take n r.output))
  unfolding ecmd_serial_usart_periodic parse_request Option.bind Option.map
  ecmd_serial_usart_periodic-replied s w r n must zero_len long run form some_text small fits =
      let go : (s.must_parse && is_zero s.write_len) ≡ true =
        ap₂ (λ b l. b && is_zero l) must zero_len in
      let two : leb s.recv_len 1 ≡ false = ground arith in
      let s1 = record s { must_parse = false; recv_buffer = r.cmd; write_buffer = r.output } in
      let (again, is_again, started) = parsed_lem r.ret n s1 form in
      let s2 = record s1 {
        must_parse = if again then true else false;
        recv_len = if again then s.recv_len else 0;
      } in
      let (t, buf, starts, sent) = start_reply_sent n s2 some_text small fits in
      (
        t,
        buf,
        rw go (rw two (rw (run, Option.bind) (rw (started ∙ starts, Option.map) refl))),
        sent
            ∙ ap₂
                (λ x y.
                  replied
                    (record s {
                      recv_buffer = r.cmd;
                      must_parse = x;
                      recv_len = if y then s.recv_len else 0;
                    })
                    buf n (take n r.output))
                (test_of_bool again ∙ sym is_again) (sym is_again),
      )
