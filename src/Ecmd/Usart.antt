-- ===== src/Ecmd/Usart.antt =====
-- Commands over a serial line, protocols/ecmd/via_usart/ecmd_usart.c, without the option of RS485.
-- The bytes written to the data register are a list; `buffer_len` is the configured
-- `ECMD_SERIAL_USART_BUFFER_LEN`. An access behind a buffer fails.
pub mod Output
pub mod Stuck
use mathlib.Core.Option
use ir.Prelude.{
  ℕ, zero, suc, ◌+◌, ◌-◌, ◌%◌, Bool, true, false, ◌&&◌, ◌||◌, Option, none, some, List, [], ◌∷◌,
  ◌++◌, ltb, leb, ◌==◌, if◌then◌else◌, length, get_or, replicate,
}
use ir.Prelude.Int.{ℤ, pos, negsuc}
use ir.Prelude.Words.{add8}
use ir.Prelude.Strings.{store}
use ir.Ecmd.Result.{ecmd_again, is_ecmd_again, is_ecmd_err}
use ir.Ecmd.Parser.{Reply}

-- The variables of the file, whether the interrupt of a sent byte is enabled (`TXCIE`), and the
-- bytes that have been sent.
pub record Serial : Type 0 where
  pub recv_buffer : List ℕ
  pub write_buffer : List ℕ
  pub recv_len : ℕ
  pub sent : ℕ
  pub write_len : ℤ
  pub must_parse : Bool
  pub txcie : Bool
  pub wire : List ℕ

abbrev pub is_zero : ℤ → Bool
is_zero (pos zero) = true
is_zero (pos (suc n)) = false
is_zero (negsuc n) = false

abbrev pub less : ℕ → ℤ → Bool
less m (pos n) = ltb m n
less m (negsuc n) = false

unfoldable pub ecmd_serial_usart_init : Serial → Serial
ecmd_serial_usart_init s = record s { recv_len = 0; must_parse = false; write_len = pos 0 }

-- The end of a reply of `n` bytes, and the byte that is sent first.
unfoldable pub start_reply : ℤ → Serial → Option Serial
start_reply (pos n) s =
    Option.map
      (λ buf. record s {
        write_buffer = buf;
        write_len = pos (n + 2);
        sent = 1;
        wire = s.wire ++ get_or buf 0 0 ∷ [];
        txcie = true;
      })
      (store n (13 ∷ 10 ∷ []) s.write_buffer)
start_reply (negsuc n) s = none

-- What is done with the parser's result.
unfoldable pub parsed : ℤ → Serial → Option Serial
parsed l s =
    if is_ecmd_again l
    then start_reply (ecmd_again l) (record s { must_parse = true })
    else if is_ecmd_err l
    then some (record s { write_len = l })
    else start_reply l (record s { recv_len = 0 })

unfoldable pub rx_byte : ℕ → ℕ → Serial → Option Serial
rx_byte buffer_len data_in s =
    if data_in == 10 || data_in == 13 || s.recv_len == buffer_len
    then Option.map
        (λ buf. record s { recv_buffer = buf; must_parse = true; wire = s.wire ++ 13 ∷ 10 ∷ [] })
        (store s.recv_len (0 ∷ []) s.recv_buffer)
    else Option.map
        (λ buf. record s {
          recv_buffer = buf;
          recv_len = add8 s.recv_len 1;
          wire = s.wire ++ data_in ∷ [];
        })
        (store s.recv_len (data_in ∷ []) s.recv_buffer)

-- The interrupt of a received byte, with the flags of an error in the line.
unfoldable pub rx_vect : ℕ → Bool → ℕ → Serial → Option Serial
rx_vect buffer_len error data_in s =
    if error then some s else if s.must_parse then some s else rx_byte buffer_len data_in s

-- The interrupt of a sent byte.
unfoldable pub tx_vect : Serial → Serial
tx_vect s =
    if less s.sent s.write_len
    then record s { wire = s.wire ++ get_or s.write_buffer s.sent 0 ∷ []; sent = add8 s.sent 1 }
    else record s { txcie = false; write_len = pos 0 }

module _ {W : Type 0} (buffer_len : ℕ) (parse : List ℕ → List ℕ → ℕ → W → Option (Reply W)) where
  unfoldable pub parse_request : Serial → W → Option (Serial × W)
  parse_request s w =
      if leb s.recv_len 1
      then some (record s { recv_len = 0 }, w)
      else Option.bind (parse s.recv_buffer s.write_buffer (buffer_len + 2) w) (λ r.
        Option.map (λ t. (t, r.world))
          (parsed r.ret (record s { recv_buffer = r.cmd; write_buffer = r.output })))

  unfoldable pub ecmd_serial_usart_periodic : Serial → W → Option (Serial × W)
  ecmd_serial_usart_periodic s w =
      if s.must_parse && is_zero s.write_len
      then parse_request (record s { must_parse = false }) w
      else some (s, w)
