-- ===== src/Modbus/Bounds.antt =====
-- Lengths of the reply, and the requests that are not answered.
use ir.Prelude.{
  ℕ, suc, ◌+◌, ◌*◌, ◌/◌, ◌%◌, ◌≤◌, ◌≡◌, refl, Bool, true, false, Option, some, ◌||◌, List, [], ◌∷◌,
  arith, ltb, leb, ◌==◌, Bool-cases, inl, inr, if◌then◌else◌, length, get_or, set, bit_or,
  length-set, ap, ◌∙◌,
}
use ir.Prelude.Int.{ℤ, pos, negsuc}
use ir.Modbus.Access.{
  read_registers_out, read_registers-send_message, write_register_out, write_register-send_message,
  write_registers_out, write_registers-send_message,
}
use ir.Modbus.Client.{
  modbus_address, modbus_broadcast, modbus_buffer_len, hold_registers, input_registers, Client,
  ntohs, memcpy, modbus_crc_calc, send_message, send_error, read_registers, write_register,
  write_registers, modbus_client_process,
}

-- The sizes of the buffer and of the table of registers.
pub record IsSized (c : Client) : Type 0 where
  pub raw : length c.raw ≡ modbus_buffer_len
  pub holding : length c.holding ≡ hold_registers

-- No answer, or one within the buffer.
abbrev pub Fits : ℤ → Type 0
Fits (pos n) = n ≤ modbus_buffer_len
Fits (negsuc n) = n ≡ 0

length-memcpy : (xs raw : List ℕ) → length (memcpy xs raw) ≡ length raw
unfolding memcpy
length-memcpy [] raw = refl
length-memcpy (x ∷ xs) [] = refl
length-memcpy (x ∷ xs) (y ∷ ys) = ap suc (length-memcpy xs ys)

-- What a handler leaves and answers.
abbrev pub Sound : Client × ℤ → Type 0
Sound r = IsSized r.0 × Fits r.1

module _ (crc16_update : ℕ → ℕ → ℕ) where
  send_message-Sound :
      (c : Client) (n : ℕ)
      → IsSized c
      → n + 2 ≤ modbus_buffer_len
      → Sound (send_message crc16_update c n)
  unfolding send_message
  send_message-Sound c n v b = elim (Bool-cases (get_or c.raw 0 0 == modbus_broadcast)) [
    | inl silent ↦ rw silent (v, refl)
    | inr heard ↦ rw heard (
      record {
        raw =
            length-set (set c.raw n (crc % 256)) (n + 1) (crc / 256 % 256)
            ∙ length-set c.raw n (crc % 256)
            ∙ v.raw;
        holding = v.holding;
      },
      b,
    )
  ]
    where
      crc : ℕ
      crc = modbus_crc_calc crc16_update c.raw n

  send_error-Sound : (code : ℕ) (c : Client) → IsSized c → Sound (send_error crc16_update code c)
  unfolding send_error
  send_error-Sound code c v =
      send_message-Sound (record c { raw = set marked 1 (bit_or (get_or marked 1 0) 128) }) 3
        record {
          raw =
              length-set marked 1 (bit_or (get_or marked 1 0) 128)
              ∙ length-set (set c.raw 2 code) 0 modbus_address
              ∙ length-set c.raw 2 code
              ∙ v.raw;
          holding = v.holding;
        }
        (omega arith)
    where
      marked : List ℕ
      marked = set (set c.raw 2 code) 0 modbus_address

  -- A handler accesses no register beyond the tables, and is sound.
  abbrev Runs : Option (Client × ℤ) → Type 0
  Runs o = (r : Client × ℤ) × (o ≡ some r) × Sound r

  reply_lem :
      (b : Bool) (ptr len : ℕ)
      → ltb (if b then hold_registers else input_registers) (ptr + len) ≡ false
      → len * 2 % 256 + 3 + 2 ≤ modbus_buffer_len
  reply_lem true ptr len inside = let fits : ptr + len ≤ 11 = ground arith in omega arith
  reply_lem false ptr len inside = let fits : ptr + len ≤ 7 = ground arith in omega arith

  read_registers-Sound : (c : Client) → IsSized c → Runs (read_registers crc16_update c)
  read_registers-Sound c v = elim (Bool-cases (ltb bound (ptr + len))) [
    | inl out ↦ (_, read_registers_out crc16_update c out, send_error-Sound 2 c v)
    | inr inside ↦ (
      _,
      read_registers-send_message crc16_update c v.holding inside,
      send_message-Sound _ (len * 2 % 256 + 3)
          record { raw = length-memcpy _ c.raw ∙ v.raw; holding = v.holding }
          (reply_lem (get_or c.raw 1 0 == 3) ptr len inside),
    )
  ]
    where
      ptr : ℕ
      ptr = ntohs c.raw 2 % 256

      len : ℕ
      len = ntohs c.raw 4 % 256

      bound : ℕ
      bound = if get_or c.raw 1 0 == 3 then hold_registers else input_registers

  write_register-Sound :
      (size : ℕ) (c : Client)
      → IsSized c
      → size + 2 ≤ modbus_buffer_len
      → Runs (write_register crc16_update size c)
  write_register-Sound size c v b = elim (Bool-cases (leb hold_registers (ntohs c.raw 2))) [
    | inl out ↦ (_, write_register_out crc16_update c size out, send_error-Sound 2 c v)
    | inr inside ↦ (
      _,
      write_register-send_message crc16_update c size v.holding inside,
      send_message-Sound _ size
          record { raw = v.raw; holding = length-set c.holding _ (ntohs c.raw 4) ∙ v.holding } b,
    )
  ]

  write_registers-Sound : (c : Client) → IsSized c → Runs (write_registers crc16_update c)
  write_registers-Sound c v =
      elim (Bool-cases (leb hold_registers (ntohs c.raw 2 % 256 + ntohs c.raw 4 % 256))) [
        | inl out ↦ (_, write_registers_out crc16_update c out, send_error-Sound 2 c v)
        | inr inside ↦
            let (written, same, run) =
              write_registers-send_message crc16_update c v.holding inside in
            (
              _,
              run,
              send_message-Sound _ 6
                  record { raw = length-memcpy _ c.raw ∙ v.raw; holding = same ∙ v.holding }
                  (omega arith),
            )
      ]

  -- Whatever the request of at most 98 bytes, the client reads and writes no register beyond its
  -- tables: it ends, where an access beyond them has no result. The sizes of its buffer and of its
  -- registers do not change, and the answer with its check sum has at most 100 bytes, or there is
  -- none.
  pub modbus_client_process-Sound :
      (size : ℕ) (c : Client)
      → IsSized c
      → size + 2 ≤ modbus_buffer_len
      → (r : Client × ℤ) × (modbus_client_process crc16_update size c ≡ some r) × Sound r
  unfolding modbus_client_process
  modbus_client_process-Sound size c v b =
      let cmd = get_or c.raw 1 0 in
      elim (Bool-cases (cmd == 3 || cmd == 4)) [
        | inl read ↦ rw read (read_registers-Sound c v)
        | inr other ↦ elim (Bool-cases (cmd == 6)) [
          | inl one ↦ rw (other, one) (write_register-Sound size c v b)
          | inr more ↦ elim (Bool-cases (cmd == 16)) [
            | inl many ↦ rw (other, more, many) (write_registers-Sound c v)
            | inr unknown ↦ rw (other, more, unknown) (_, refl, send_error-Sound 1 c v)
          ]
        ]
      ]
