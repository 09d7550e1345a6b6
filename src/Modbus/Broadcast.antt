-- ===== src/Modbus/Broadcast.antt =====
-- Which requests the client leaves without an answer.
use ir.Prelude.{
  ℕ, ◌+◌, ◌*◌, ◌%◌, ◌≡◌, refl, Bool, true, false, Option, some, not, ◌||◌, ◌&&◌, List, [], ◌∷◌,
  arith, ltb, leb, ◌==◌, Bool-cases, inl, inr, if◌then◌else◌, length, get_or, set, bit_or, ap, ◌∙◌,
}
use ir.Prelude.Int.{ℤ, pos, negsuc}
use ir.Modbus.Access.{
  read_registers_out, read_registers-send_message, write_register_out, write_register-send_message,
  write_registers_out, write_registers-send_message,
}
use ir.Modbus.Bounds.{IsSized}
use ir.Modbus.Client.{
  modbus_address, modbus_broadcast, modbus_buffer_len, hold_registers, input_registers, Client,
  ntohs, memcpy, send_message, send_error, read_registers, write_register, write_registers,
  modbus_client_process,
}

abbrev pub is_answer : ℤ → Bool
is_answer (pos n) = true
is_answer (negsuc n) = false

-- The write of one register, in range, to all clients.
abbrev pub is_silent : List ℕ → Bool
is_silent raw =
    get_or raw 0 0 == modbus_broadcast && get_or raw 1 0 == 6 && ltb (ntohs raw 2) hold_registers

get_or-memcpy :
    (x : ℕ) (xs raw : List ℕ)
    → length raw ≡ modbus_buffer_len
    → get_or (memcpy (x ∷ xs) raw) 0 0 ≡ x
unfolding memcpy
get_or-memcpy x xs [] l = absurd (omega arith)
get_or-memcpy x xs (y ∷ ys) l = refl

error_head :
    (code value : ℕ) (raw : List ℕ)
    → length raw ≡ modbus_buffer_len
    → get_or (set (set (set raw 2 code) 0 modbus_address) 1 value) 0 0 ≡ modbus_address
error_head code value [] l = absurd (omega arith)
error_head code value (y ∷ ys) l = refl

leb-ltb : (m n : ℕ) → leb m n ≡ not (ltb n m)
leb-ltb m n = ground arith

module _ (crc16_update : ℕ → ℕ → ℕ) where
  send_message-is_answer :
      (c : Client) (n : ℕ)
      → is_answer (send_message crc16_update c n).1 ≡ not (get_or c.raw 0 0 == modbus_broadcast)
  unfolding send_message
  send_message-is_answer c n = elim (Bool-cases (get_or c.raw 0 0 == modbus_broadcast)) [
    | inl e ↦ rw e
    | inr e ↦ rw e
  ]

  addressed :
      (c : Client) (n : ℕ)
      → get_or c.raw 0 0 ≡ modbus_address
      → is_answer (send_message crc16_update c n).1 ≡ true
  addressed c n e = send_message-is_answer c n ∙ ap (λ a. not (a == modbus_broadcast)) e

  send_error-is_answer :
      (code : ℕ) (c : Client)
      → length c.raw ≡ modbus_buffer_len
      → is_answer (send_error crc16_update code c).1 ≡ true
  unfolding send_error
  send_error-is_answer code c l =
      addressed (record c { raw = set marked 1 value }) 3 (error_head code value c.raw l)
    where
      marked : List ℕ
      marked = set (set c.raw 2 code) 0 modbus_address

      value : ℕ
      value = bit_or (get_or marked 1 0) 128

  -- It runs, and answers exactly if `b` holds.
  abbrev Answers : Option (Client × ℤ) → Bool → Type 0
  Answers o b = (r : Client × ℤ) × (o ≡ some r) × (is_answer r.1 ≡ b)

  read_registers-is_answer : (c : Client) → IsSized c → Answers (read_registers crc16_update c) true
  read_registers-is_answer c v = elim (Bool-cases (ltb bound (ptr + len))) [
    | inl out ↦ (_, read_registers_out crc16_update c out, send_error-is_answer 2 c v.raw)
    | inr inside ↦ (
      _,
      read_registers-send_message crc16_update c v.holding inside,
      addressed _ (len * 2 % 256 + 3) (get_or-memcpy modbus_address _ c.raw v.raw),
    )
  ]
    where
      ptr : ℕ
      ptr = ntohs c.raw 2 % 256

      len : ℕ
      len = ntohs c.raw 4 % 256

      bound : ℕ
      bound = if get_or c.raw 1 0 == 3 then hold_registers else input_registers

  write_registers-is_answer :
      (c : Client) → IsSized c → Answers (write_registers crc16_update c) true
  write_registers-is_answer c v =
      elim (Bool-cases (leb hold_registers (ntohs c.raw 2 % 256 + ntohs c.raw 4 % 256))) [
        | inl out ↦ (_, write_registers_out crc16_update c out, send_error-is_answer 2 c v.raw)
        | inr inside ↦
            let (written, same, run) =
              write_registers-send_message crc16_update c v.holding inside in
            (_, run, addressed _ 6 (get_or-memcpy modbus_address _ c.raw v.raw))
      ]

  write_register-is_answer :
      (size : ℕ) (c : Client)
      → IsSized c
      → Answers
          (write_register crc16_update size c)
          (not (get_or c.raw 0 0 == modbus_broadcast && ltb (ntohs c.raw 2) hold_registers))
  write_register-is_answer size c v = elim (Bool-cases (ltb (ntohs c.raw 2) hold_registers)) [
    | inl inside ↦ (
      _,
      write_register-send_message crc16_update c size v.holding
          (leb-ltb hold_registers (ntohs c.raw 2) ∙ ap not inside),
      send_message-is_answer _ size ∙ ground arith,
    )
    | inr out ↦ (
      _,
      write_register_out crc16_update c size (leb-ltb hold_registers (ntohs c.raw 2) ∙ ap not out),
      send_error-is_answer 2 c v.raw ∙ ground arith,
    )
  ]

  Answers-same : (o : Option (Client × ℤ)) (a b : Bool) → a ≡ b → Answers o a → Answers o b
  Answers-same o a b same (r, run, e) = (r, run, e ∙ same)

  -- With a buffer and a table of registers of their full sizes, the client ends without an access
  -- beyond its registers, and answers every request but one: the write of one register, in range,
  -- that is sent to all clients. So it also answers other requests to all clients.
  pub modbus_client_process-is_answer :
      (size : ℕ) (c : Client)
      → IsSized c
      → (r : Client × ℤ) × (modbus_client_process crc16_update size c ≡ some r)
        × (is_answer r.1 ≡ not (is_silent c.raw))
  unfolding modbus_client_process
  modbus_client_process-is_answer size c v =
      elim (Bool-cases (get_or c.raw 1 0 == 3 || get_or c.raw 1 0 == 4)) [
        | inl read ↦ rw read (Answers-same _ _ _ (ground arith) (read_registers-is_answer c v))
        | inr other ↦ elim (Bool-cases (get_or c.raw 1 0 == 6)) [
          | inl one ↦
              rw (other, one)
                (Answers-same _ _ _ (ground arith) (write_register-is_answer size c v))
          | inr more ↦ elim (Bool-cases (get_or c.raw 1 0 == 16)) [
            | inl many ↦
                rw (other, more, many)
                  (Answers-same _ _ _ (ground arith) (write_registers-is_answer c v))
            | inr unknown ↦
                rw (other, more, unknown) (_, refl, send_error-is_answer 1 c v.raw ∙ ground arith)
          ]
        ]
      ]
