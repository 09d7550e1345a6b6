-- ===== src/Ecmd/Usart/Stuck.antt =====
-- The serial line of protocols/ecmd/via_usart/ecmd_usart.c after a command has failed to read or write.
use mathlib.Core.Option
use mathlib.Core.Path.{subst}
use ir.Prelude.Words.{add8}
use ir.Prelude.{
  ℕ, ◌+◌, ◌<◌, ◌≡◌, refl, sym, ap, ap₂, ◌∙◌, inl, inr, Bool, true, false, ◌&&◌, ◌||◌, Option, none,
  some, List, [], ◌∷◌, ◌++◌, leb, ◌==◌, if◌then◌else◌, arith, Bool-cases,
}
use ir.Prelude.Int.{ℤ, pos, negsuc}
use ir.Prelude.Strings.{store}
use ir.Ecmd.Result.{is_ecmd_again, is_ecmd_err}
use ir.Ecmd.Parser.{Reply}
use ir.Ecmd.Usart.{
  Serial, is_zero, parsed, rx_byte, rx_vect, tx_vect, parse_request, ecmd_serial_usart_periodic,
}

pub data Event : Type 0 where
  receives : Bool → ℕ → Event
  has_sent : Event
  timer : Event

-- A received byte does not change what is sent.
abbrev Unchanged : Serial → Option Serial → Type 0
Unchanged s none = Unit
Unchanged s (some t) = (t.write_len ≡ s.write_len) × (t.txcie ≡ s.txcie)

rx_byte-Unchanged : (n data_in : ℕ) (s : Serial) → Unchanged s (rx_byte n data_in s)
unfolding rx_byte Option.map
rx_byte-Unchanged n data_in s =
    elim (Bool-cases (data_in == 10 || data_in == 13 || s.recv_len == n)) [
      | inl b ↦
          rw b
            (elim (store s.recv_len (0 ∷ []) s.recv_buffer)
              as (λ o. Unchanged s (
                Option.map
                  (λ buf. record s {
                    recv_buffer = buf;
                    must_parse = true;
                    wire = s.wire ++ 13 ∷ 10 ∷ [];
                  })
                  o)) [ none ↦ tt | some buf ↦ (refl, refl) ])
      | inr b ↦
          rw b
            (elim (store s.recv_len (data_in ∷ []) s.recv_buffer)
              as (λ o. Unchanged s (
                Option.map
                  (λ buf. record s {
                    recv_buffer = buf;
                    recv_len = add8 s.recv_len 1;
                    wire = s.wire ++ data_in ∷ [];
                  })
                  o)) [ none ↦ tt | some buf ↦ (refl, refl) ])
    ]

rx_vect-Unchanged :
    (n : ℕ) (error : Bool) (data_in : ℕ) (s : Serial) → Unchanged s (rx_vect n error data_in s)
unfolding rx_vect
rx_vect-Unchanged n true data_in s = (refl, refl)
rx_vect-Unchanged n false data_in s =
    elim s.must_parse as (λ b. Unchanged s (if b then some s else rx_byte n data_in s)) [
      | true ↦ (refl, refl)
      | false ↦ rx_byte-Unchanged n data_in s
    ]

module _ {W : Type 0} (buffer_len : ℕ) (parse : List ℕ → List ℕ → ℕ → W → Option (Reply W)) where
  -- The step for each event; the interrupt of a sent byte occurs only if it is enabled.
  pub data Step : Event → Serial × W → Serial × W → Type 0 where
    received :
        (error : Bool) (data_in : ℕ) (s t : Serial) (w : W)
        → rx_vect buffer_len error data_in s ≡ some t
        → Step (receives error data_in) (s, w) (t, w)
    sent_byte : (s : Serial) (w : W) → s.txcie ≡ true → Step has_sent (s, w) (tx_vect s, w)
    ticked :
        (s t : Serial) (w v : W)
        → ecmd_serial_usart_periodic buffer_len parse s w ≡ some (t, v)
        → Step timer (s, w) (t, v)

  pub data Run : Serial × W → Serial × W → Type 0 where
    stop : (s : Serial × W) → Run s s
    step : (e : Event) (s t u : Serial × W) → Step e s t → Run t u → Run s u

  abbrev pub IsStuck : ℤ → Serial × W → Type 0
  IsStuck l s = (s.0.write_len ≡ l) × (s.0.txcie ≡ false)

  abbrev state_or : Serial × W → Option (Serial × W) → Serial × W
  state_or d none = d
  state_or d (some s) = s

  idle :
      (s : Serial) (w : W) (n : ℕ)
      → s.write_len ≡ negsuc n
      → ecmd_serial_usart_periodic buffer_len parse s w ≡ some (s, w)
  unfolding ecmd_serial_usart_periodic
  idle s w n neg =
      let off : (s.must_parse && is_zero s.write_len) ≡ false =
        ap (λ l. s.must_parse && is_zero l) neg
        ∙ elim s.must_parse as (λ b. (b && false) ≡ false) [ true ↦ refl | false ↦ refl ] in
      rw off refl

  step-IsStuck :
      (n : ℕ) (e : Event) (s t : Serial × W)
      → Step e s t
      → IsStuck (negsuc n) s
      → IsStuck (negsuc n) t × (s.1 ≡ t.1)
  step-IsStuck n e s t (received error data_in a b w run) (neg, off) =
      let (same, same_off) =
        subst (Unchanged a) run (rx_vect-Unchanged buffer_len error data_in a) in
      ((same ∙ neg, same_off ∙ off), refl)
  step-IsStuck n e s t (sent_byte a w on) (neg, off) = absurd (ground arith)
  step-IsStuck n e s t (ticked a b w v run) (neg, off) =
      let kept = sym (idle a w n neg) ∙ run in
      (
        (
          sym (ap (λ o. (state_or (a, w) o).0.write_len) kept) ∙ neg,
          sym (ap (λ o. (state_or (a, w) o).0.txcie) kept) ∙ off,
        ),
        ap (λ o. (state_or (a, w) o).1) kept,
      )

  run-IsStuck :
      (n : ℕ) (s t : Serial × W)
      → Run s t
      → IsStuck (negsuc n) s
      → IsStuck (negsuc n) t × (s.1 ≡ t.1)
  run-IsStuck n s t (stop s') stuck = (stuck, refl)
  run-IsStuck n s t (step e s' u t' one rest) stuck =
      let (next, same) = step-IsStuck n e s u one stuck in
      let (last, again) = run-IsStuck n u t rest next in (last, same ∙ again)

  negative : (l : ℤ) → is_ecmd_err l ≡ true → (n : ℕ) × (l ≡ negsuc n)
  unfolding is_ecmd_err
  negative (pos n) err = absurd (ground arith)
  negative (negsuc n) err = (n, refl)

  parsed-IsStuck :
      (l : ℤ) (s : Serial) → is_ecmd_err l ≡ true → parsed l s ≡ some (record s { write_len = l })
  unfolding parsed is_ecmd_err is_ecmd_again
  parsed-IsStuck (pos n) s err = absurd (ground arith)
  parsed-IsStuck (negsuc n) s err = rw err refl

  -- If the parser gives an error for a line that waits to be parsed, while nothing is being sent,
  -- the call of `ecmd_serial_usart_periodic` ends with the error as the length of the reply, and
  -- so it stays over every further sequence of received bytes, sent bytes and calls: no command is
  -- called again, and the state of the commands does not change.
  pub ecmd_serial_usart_periodic-IsStuck :
      (s : Serial) (w : W) (r : Reply W)
      → s.must_parse ≡ true
      → s.write_len ≡ pos 0
      → s.txcie ≡ false
      → 1 < s.recv_len
      → parse s.recv_buffer s.write_buffer (buffer_len + 2) w ≡ some r
      → is_ecmd_err r.ret ≡ true
      → (t : Serial) × (ecmd_serial_usart_periodic buffer_len parse s w ≡ some (t, r.world))
        × ((u : Serial) (v : W)
            → Run (t, r.world) (u, v)
            → (u.write_len ≡ r.ret) × (u.txcie ≡ false) × (v ≡ r.world))
  unfolding ecmd_serial_usart_periodic parse_request Option.bind Option.map
  ecmd_serial_usart_periodic-IsStuck s w r must zero_len off long run err =
      let go : (s.must_parse && is_zero s.write_len) ≡ true =
        ap₂ (λ b l. b && is_zero l) must zero_len in
      let two : leb s.recv_len 1 ≡ false = ground arith in
      let t = record s {
        must_parse = false;
        recv_buffer = r.cmd;
        write_buffer = r.output;
        write_len = r.ret;
      } in
      let (n, e) = negative r.ret err in
      (
        t,
        rw go (rw two (rw (run, Option.bind) (rw (parsed-IsStuck r.ret _ err, Option.map) refl))),
        λ u v steps.
            let (stuck, same) = run-IsStuck n (t, r.world) (u, v) steps (e, off) in
            (stuck.0 ∙ sym e, stuck.1, sym same),
      )
