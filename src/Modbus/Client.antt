-- ===== src/Modbus/Client.antt =====
-- protocols/modbus/modbus_client.c over the registers of modbus_client_cb.c, with
-- `modbus_crc_calc` of modbus.c. `crc16_update` is a function of the C library for AVR.
use mathlib.Core.Option
use ir.Prelude.{
  Bool, Option, none, some, length, get_elem?, ℕ, zero, suc, ◌+◌, ◌*◌, ◌/◌, ◌%◌, ◌||◌, List, [],
  ◌∷◌, ltb, leb, ◌==◌, if◌then◌else◌, take, get_or, set, bit_or,
}
use ir.Prelude.Int.{ℤ, pos, negsuc}

abbrev pub modbus_address : ℕ
modbus_address = 240

abbrev pub modbus_broadcast : ℕ
modbus_broadcast = 255

abbrev pub modbus_buffer_len : ℕ
modbus_buffer_len = 100

abbrev pub hold_registers : ℕ
hold_registers = 11

abbrev pub input_registers : ℕ
input_registers = 7

-- The message buffer and the holding registers.
pub record Client : Type 0 where
  pub raw : List ℕ
  pub holding : List ℕ

-- An access beyond the registers is `none`.
unfoldable pub modbus_read_holding : List ℕ → ℕ → Option ℕ
modbus_read_holding holding address = get_elem? holding address

unfoldable pub modbus_write_holding : ℕ → ℕ → List ℕ → Option (List ℕ)
modbus_write_holding address value holding =
    if ltb address (length holding) then some (set holding address value) else none

unfoldable pub modbus_read_input : ℕ → ℕ
modbus_read_input address = 61680

-- The two bytes from an offset on, in network order.
abbrev pub ntohs : List ℕ → ℕ → ℕ
ntohs raw i = get_or raw i 0 * 256 + get_or raw (i + 1) 0

-- `memcpy` to the buffer's start
unfoldable pub memcpy : List ℕ → List ℕ → List ℕ
memcpy [] raw = raw
memcpy (x ∷ xs) [] = []
memcpy (x ∷ xs) (y ∷ ys) = x ∷ memcpy xs ys

-- The register that the loop of a read asks for.
unfoldable pub read_register : Bool → List ℕ → ℕ → Option ℕ
unfolding modbus_read_holding
read_register is_holding holding address =
    if is_holding then modbus_read_holding holding address else some (modbus_read_input address)

-- The loop over the registers read.
unfoldable pub read_words : (ℕ → Option ℕ) → ℕ → ℕ → Option (List ℕ)
read_words read ptr zero = some []
read_words read ptr (suc n) = Option.bind (read ptr) (λ tmp.
    Option.map (λ rest. (tmp / 256 % 256) ∷ (tmp % 256) ∷ rest) (read_words read (ptr + 1) n))

-- The loop over the registers written: `n` are left, `i` have been written.
unfoldable pub write_words : ℕ → ℕ → ℕ → List ℕ → List ℕ → Option (List ℕ)
write_words zero ptr i raw holding = some holding
write_words (suc n) ptr i raw holding =
    Option.bind (modbus_write_holding (ptr + i) (ntohs raw (7 + 2 * i)) holding)
      (λ written. write_words n ptr (i + 1) raw written)

module _ (crc16_update : ℕ → ℕ → ℕ) where
  unfoldable pub crc_from : ℕ → List ℕ → ℕ
  crc_from crc [] = crc
  crc_from crc (x ∷ xs) = crc_from (crc16_update crc x) xs

  unfoldable pub modbus_crc_calc : List ℕ → ℕ → ℕ
  modbus_crc_calc raw len = crc_from 65535 (take len raw)

  -- From the label `send_message` on.
  unfoldable pub send_message : Client → ℕ → Client × ℤ
  send_message c n =
      let crc = modbus_crc_calc c.raw n in
      let reply = record c { raw = set (set c.raw n (crc % 256)) (n + 1) (crc / 256 % 256) } in
      if get_or c.raw 0 0 == modbus_broadcast then (c, negsuc 0) else (reply, pos (n + 2))

  -- From the label `send_error` on.
  unfoldable pub send_error : ℕ → Client → Client × ℤ
  send_error code c =
      let raw = set (set c.raw 2 code) 0 modbus_address in
      send_message (record c { raw = set raw 1 (bit_or (get_or raw 1 0) 128) }) 3

  unfoldable pub read_registers : Client → Option (Client × ℤ)
  read_registers c =
      let ptr = ntohs c.raw 2 % 256 in
      let len = ntohs c.raw 4 % 256 in
      let is_holding = get_or c.raw 1 0 == 3 in
      if ltb (if is_holding then hold_registers else input_registers) (ptr + len)
      then some (send_error 2 c)
      else Option.map
          (λ words.
            let answer = modbus_address ∷ get_or c.raw 1 0 ∷ (len * 2 % 256) ∷ words in
            send_message (record c { raw = memcpy answer c.raw }) (len * 2 % 256 + 3))
          (read_words (read_register is_holding c.holding) ptr len)

  unfoldable pub write_register : ℕ → Client → Option (Client × ℤ)
  write_register size c =
      let ptr = ntohs c.raw 2 in
      if leb hold_registers ptr
      then some (send_error 2 c)
      else Option.map (λ written. send_message (record c { holding = written }) size)
          (modbus_write_holding (ptr % 256) (ntohs c.raw 4) c.holding)

  unfoldable pub write_registers : Client → Option (Client × ℤ)
  write_registers c =
      let ptr = ntohs c.raw 2 % 256 in
      let len = ntohs c.raw 4 % 256 in
      if leb hold_registers (ptr + len)
      then some (send_error 2 c)
      else Option.map
          (λ written.
            send_message
              (record c {
                holding = written;
                raw = memcpy (modbus_address ∷ 6 ∷ 0 ∷ ptr ∷ 0 ∷ len ∷ []) c.raw;
              })
              6)
          (write_words len ptr 0 c.raw c.holding)

  -- `size` is the length of the request; the result is what `recv_len` points to, and `none` an
  -- access beyond the registers.
  unfoldable pub modbus_client_process : ℕ → Client → Option (Client × ℤ)
  modbus_client_process size c =
      let cmd = get_or c.raw 1 0 in
      if cmd == 3 || cmd == 4
      then read_registers c
      else if cmd == 6
      then write_register size c
      else if cmd == 16
      then write_registers c
      else some (send_error 1 c)
