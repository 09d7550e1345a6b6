-- ===== src/Modbus/Access.antt =====
-- The registers that protocols/modbus/modbus_client.c reads and writes are those of its tables.
use mathlib.Core.Option
use ir.Prelude.{
  ℕ, zero, suc, ◌+◌, ◌*◌, ◌/◌, ◌%◌, ◌<◌, ◌≤◌, ◌≡◌, refl, ◌∙◌, Bool, true, false, some, List, [],
  ◌∷◌, arith, ltb, leb, ◌==◌, if◌then◌else◌, length, get_elem?, get_or, set, length-set,
}
use ir.Modbus.Client.{
  modbus_address, hold_registers, input_registers, Client, modbus_read_holding,
  modbus_write_holding, modbus_read_input, ntohs, memcpy, read_register, read_words, write_words,
  send_message, send_error, read_registers, write_register, write_registers,
}

abbrev value : Bool → List ℕ → ℕ → ℕ
value is_holding h i = if is_holding then get_or h i 0 else 61680

-- The bytes of `n` registers from `ptr` on.
unfoldable pub bytes_at : Bool → List ℕ → ℕ → ℕ → List ℕ
bytes_at b h ptr zero = []
bytes_at b h ptr (suc n) =
    (value b h ptr / 256 % 256) ∷ (value b h ptr % 256) ∷ bytes_at b h (ptr + 1) n

get_elem?_inside : (h : List ℕ) (i : ℕ) → i < length h → get_elem? h i ≡ some (get_or h i 0)
get_elem?_inside [] i b = absurd (omega arith)
get_elem?_inside (x ∷ xs) zero b = refl
get_elem?_inside (x ∷ xs) (suc i) b = get_elem?_inside xs i (omega arith)

read_register_inside :
    (b : Bool) (h : List ℕ) (i : ℕ) → i < length h → read_register b h i ≡ some (value b h i)
unfolding read_register modbus_read_holding modbus_read_input
read_register_inside true h i inside = get_elem?_inside h i inside
read_register_inside false h i inside = refl

pub read_words-bytes_at :
    (b : Bool) (h : List ℕ) (ptr n : ℕ)
    → ptr + n ≤ length h
    → read_words (read_register b h) ptr n ≡ some (bytes_at b h ptr n)
unfolding read_words bytes_at Option.bind
read_words-bytes_at b h ptr zero inside = refl
read_words-bytes_at b h ptr (suc n) inside =
    rw (read_register_inside b h ptr (omega arith))
      (rw (read_words-bytes_at b h (ptr + 1) n (omega arith)) refl)

write_inside : (h : List ℕ) (i v : ℕ) → i < length h → modbus_write_holding i v h ≡ some (set h i v)
unfolding modbus_write_holding
write_inside h i v inside = let test : ltb i (length h) ≡ true = ground arith in rw test refl

write_words_inside :
    (n ptr i : ℕ) (raw h : List ℕ)
    → ptr + i + n ≤ length h
    → (written : List ℕ) × (write_words n ptr i raw h ≡ some written) × (length written ≡ length h)
unfolding write_words Option.bind
write_words_inside zero ptr i raw h inside = (h, refl, refl)
write_words_inside (suc n) ptr i raw h inside =
    let v = ntohs raw (7 + 2 * i) in
    let same = length-set h (ptr + i) v in
    let (written, run, size) =
      write_words_inside n ptr (i + 1) raw (set h (ptr + i) v) (omega arith) in
    (written, rw (write_inside h (ptr + i) v (omega arith)) run, size ∙ same)

bound_lem :
    (b : Bool) (ptr len : ℕ)
    → ltb (if b then hold_registers else input_registers) (ptr + len) ≡ false
    → ptr + len ≤ 11
bound_lem true ptr len inside = ground arith
bound_lem false ptr len inside = let fits : ptr + len ≤ 7 = ground arith in omega arith

module _ (crc16_update : ℕ → ℕ → ℕ) (c : Client) where
  abbrev ptr_of : ℕ
  ptr_of = ntohs c.raw 2 % 256

  abbrev len_of : ℕ
  len_of = ntohs c.raw 4 % 256

  abbrev bound_of : ℕ
  bound_of = if get_or c.raw 1 0 == 3 then hold_registers else input_registers

  pub read_registers_out :
      ltb bound_of (ptr_of + len_of) ≡ true
      → read_registers crc16_update c ≡ some (send_error crc16_update 2 c)
  unfolding read_registers
  read_registers_out out = rw out refl

  pub read_registers-send_message :
      length c.holding ≡ hold_registers
      → ltb bound_of (ptr_of + len_of) ≡ false
      → read_registers crc16_update c
        ≡ some (
            send_message crc16_update
              (record c {
                raw =
                    memcpy
                      (modbus_address
                        ∷ get_or c.raw 1 0
                        ∷ (len_of * 2 % 256)
                        ∷ bytes_at (get_or c.raw 1 0 == 3) c.holding ptr_of len_of)
                      c.raw;
              })
              (len_of * 2 % 256 + 3))
  unfolding read_registers
  read_registers-send_message size inside =
      let fits = bound_lem (get_or c.raw 1 0 == 3) ptr_of len_of inside in
      rw inside (
        rw (read_words-bytes_at (get_or c.raw 1 0 == 3) c.holding ptr_of len_of (omega arith)) refl)

  pub write_register_out :
      (size : ℕ)
      → leb hold_registers (ntohs c.raw 2) ≡ true
      → write_register crc16_update size c ≡ some (send_error crc16_update 2 c)
  unfolding write_register
  write_register_out size out = rw out refl

  pub write_register-send_message :
      (size : ℕ)
      → length c.holding ≡ hold_registers
      → leb hold_registers (ntohs c.raw 2) ≡ false
      → write_register crc16_update size c
        ≡ some (
            send_message crc16_update
              (record c { holding = set c.holding ptr_of (ntohs c.raw 4) })
              size)
  unfolding write_register
  write_register-send_message size sized inside =
      let fits : ntohs c.raw 2 < 11 = ground arith in
      rw inside (rw (write_inside c.holding ptr_of (ntohs c.raw 4) (omega arith)) refl)

  pub write_registers_out :
      leb hold_registers (ptr_of + len_of) ≡ true
      → write_registers crc16_update c ≡ some (send_error crc16_update 2 c)
  unfolding write_registers
  write_registers_out out = rw out refl

  pub write_registers-send_message :
      length c.holding ≡ hold_registers
      → leb hold_registers (ptr_of + len_of) ≡ false
      → (written : List ℕ) × (length written ≡ length c.holding)
        × (write_registers crc16_update c
            ≡ some (
                send_message crc16_update
                  (record c {
                    holding = written;
                    raw = memcpy (modbus_address ∷ 6 ∷ 0 ∷ ptr_of ∷ 0 ∷ len_of ∷ []) c.raw;
                  })
                  6))
  unfolding write_registers
  write_registers-send_message sized inside =
      let fits : ptr_of + len_of < 11 = ground arith in
      let (written, run, size) = write_words_inside len_of ptr_of 0 c.raw c.holding (omega arith) in
      (written, size, rw inside (rw run refl))
