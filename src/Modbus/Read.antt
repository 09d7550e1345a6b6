-- ===== src/Modbus/Read.antt =====
-- The answer to a read of holding registers.
use ir.Prelude.{
  ℕ, zero, suc, ◌+◌, ◌*◌, ◌/◌, ◌%◌, ◌<◌, ◌≤◌, ◌≡◌, refl, true, false, some, List, [], ◌∷◌, ◌++◌,
  arith, ltb, ◌==◌, length, take, drop, get_or, set, ap, ap₂, ◌∙◌, sym,
}
use native.Mathlib.Numerals.{unary_clauses}
use ir.Prelude.Int.{ℤ, pos}
use ir.Modbus.Access.{bytes_at, read_words-bytes_at}
use ir.Modbus.Client.{
  modbus_address, modbus_broadcast, hold_registers, Client, ntohs, memcpy, crc_from,
  modbus_crc_calc, send_message, read_registers, modbus_client_process,
}
use ir.Modbus.Bounds.{IsSized}

-- Words in network order.
abbrev pub words : List ℕ → List ℕ
words [] = []
words (a ∷ []) = []
words (a ∷ b ∷ rest) = (a * 256 + b) ∷ words rest

abbrev pub AreWords : List ℕ → Type 0
AreWords [] = Unit
AreWords (x ∷ xs) = (x < 65536) × AreWords xs

take-drop-suc :
    (n ptr : ℕ) (h : List ℕ)
    → ptr < length h
    → take (suc n) (drop ptr h) ≡ get_or h ptr 0 ∷ take n (drop (ptr + 1) h)
take-drop-suc n ptr [] b = absurd (omega arith)
take-drop-suc n zero (x ∷ xs) b = refl
take-drop-suc n (suc ptr) (x ∷ xs) b =
    simp unary_clauses (simp unary_clauses at (take-drop-suc n ptr xs (omega arith)))

get_or_word : (h : List ℕ) (i : ℕ) → AreWords h → get_or h i 0 < 65536
get_or_word [] i w = omega arith
get_or_word (x ∷ xs) zero w = w.0
get_or_word (x ∷ xs) (suc i) w = get_or_word xs i w.1

words-bytes_at :
    (n ptr : ℕ) (h : List ℕ)
    → AreWords h
    → ptr + n ≤ length h
    → words (bytes_at true h ptr n) ≡ take n (drop ptr h)
unfolding bytes_at
words-bytes_at zero ptr h w b = refl
words-bytes_at (suc n) ptr h w b =
    let bound = get_or_word h ptr w in
    ap₂ (λ v vs. v ∷ vs) (omega arith) (words-bytes_at n (ptr + 1) h w (omega arith))
    ∙ sym (take-drop-suc n ptr h (omega arith))

length-bytes_at : (h : List ℕ) (ptr n : ℕ) → length (bytes_at true h ptr n) ≡ n + n
unfolding bytes_at
length-bytes_at h ptr zero = refl
length-bytes_at h ptr (suc n) = omega (arith, length-bytes_at h (ptr + 1) n)

take-memcpy : (xs raw : List ℕ) → length xs ≤ length raw → take (length xs) (memcpy xs raw) ≡ xs
unfolding memcpy
take-memcpy [] raw b = refl
take-memcpy (x ∷ xs) [] b = absurd (omega arith)
take-memcpy (x ∷ xs) (y ∷ ys) b = ap (λ zs. x ∷ zs) (take-memcpy xs ys (omega arith))

length-memcpy_same : (xs raw : List ℕ) → length (memcpy xs raw) ≡ length raw
unfolding memcpy
length-memcpy_same [] raw = refl
length-memcpy_same (x ∷ xs) [] = refl
length-memcpy_same (x ∷ xs) (y ∷ ys) = ap suc (length-memcpy_same xs ys)

take-set :
    (n a b : ℕ) (raw : List ℕ)
    → n + 2 ≤ length raw
    → take (n + 2) (set (set raw n a) (n + 1) b) ≡ take n raw ++ (a ∷ b ∷ [])
take-set n a b [] l = absurd (omega arith)
take-set zero a b (x ∷ []) l = absurd (omega arith)
take-set zero a b (x ∷ y ∷ raw) l = refl
take-set (suc n) a b (x ∷ raw) l =
    simp unary_clauses
      (ap (λ zs. x ∷ zs) (simp unary_clauses at (take-set n a b raw (omega arith))))

other_head :
    (x : ℕ) (xs raw : List ℕ)
    → 0 < length raw
    → x < modbus_broadcast
    → (get_or (memcpy (x ∷ xs) raw) 0 0 == modbus_broadcast) ≡ false
unfolding memcpy
other_head x xs [] l small = absurd (omega arith)
other_head x xs (y ∷ ys) l small = ground arith

module _ (crc16_update : ℕ → ℕ → ℕ) where
  -- A message with its check sum, the low byte first.
  abbrev pub framed : List ℕ → List ℕ
  framed body =
      let crc = crc_from crc16_update 65535 body in body ++ (crc % 256 ∷ crc / 256 % 256 ∷ [])

  send_message-framed :
      (c : Client) (x : ℕ) (xs : List ℕ) (n : ℕ)
      → length (x ∷ xs) ≡ n
      → n + 2 ≤ length c.raw
      → x < modbus_broadcast
      → let r = send_message crc16_update (record c { raw = memcpy (x ∷ xs) c.raw }) n in
        (take (n + 2) r.0.raw ≡ framed (x ∷ xs)) × (r.1 ≡ pos (n + 2)) × (r.0.holding ≡ c.holding)
  unfolding send_message modbus_crc_calc
  send_message-framed c x xs n e b ne = rw (other_head x xs c.raw (omega arith) ne) (
    take-set n (crc % 256) (crc / 256 % 256) t (omega (arith, length-memcpy_same (x ∷ xs) c.raw))
        ∙ ap framed first,
    refl,
    refl,
  )
    where
      t : List ℕ
      t = memcpy (x ∷ xs) c.raw

      crc : ℕ
      crc = crc_from crc16_update 65535 (take n t)

      first : take n t ≡ x ∷ xs
      first = ap (λ m. take m t) (sym e) ∙ take-memcpy (x ∷ xs) c.raw (omega arith)

  read_holding-send_message :
      (size : ℕ) (c : Client) (ptr len : ℕ)
      → length c.holding ≡ hold_registers
      → get_or c.raw 1 0 ≡ 3
      → ntohs c.raw 2 % 256 ≡ ptr
      → ntohs c.raw 4 % 256 ≡ len
      → ptr + len ≤ hold_registers
      → modbus_client_process crc16_update size c
        ≡ some (
            send_message crc16_update
              (record c {
                raw = memcpy (modbus_address ∷ 3 ∷ len * 2 ∷ bytes_at true c.holding ptr len) c.raw;
              })
              (len * 2 + 3))
  unfolding modbus_client_process read_registers
  read_holding-send_message size c ptr len sized cmd ep el b =
      let hb : len * 2 % 256 ≡ len * 2 = omega arith in
      let inside : ltb hold_registers (ptr + len) ≡ false = ground arith in
      let read = read_words-bytes_at true c.holding ptr len (omega arith) in
      rw (ep, el, cmd) (rw (hb, inside) (rw read refl))

  -- A read of holding registers, address and number taken modulo 256, that exist ends without an
  -- access beyond them, and is answered by a frame: the client's address, the command, the number of
  -- bytes, the registers in network order, and the check sum of these bytes. No register is changed.
  pub modbus_client_process-framed :
      (size ptr len : ℕ) (c : Client)
      → IsSized c
      → AreWords c.holding
      → get_or c.raw 1 0 ≡ 3
      → ntohs c.raw 2 % 256 ≡ ptr
      → ntohs c.raw 4 % 256 ≡ len
      → ptr + len ≤ hold_registers
      → (r : Client × ℤ) × (bytes : List ℕ) × (modbus_client_process crc16_update size c ≡ some r)
        × (words bytes ≡ take len (drop ptr c.holding))
        × (take (len * 2 + 5) r.0.raw ≡ framed (modbus_address ∷ 3 ∷ len * 2 ∷ bytes))
        × (r.1 ≡ pos (len * 2 + 5))
        × (r.0.holding ≡ c.holding)
  modbus_client_process-framed size ptr len c v w cmd ep el b =
      let bytes = bytes_at true c.holding ptr len in
      let (frame, answered, kept) =
        send_message-framed c modbus_address (3 ∷ len * 2 ∷ bytes) (len * 2 + 3)
          (omega (arith, length-bytes_at c.holding ptr len)) (omega (arith, v.raw)) (omega arith) in
      let size_ok : len * 2 + 3 + 2 ≡ len * 2 + 5 = omega arith in
      (
        _,
        bytes,
        read_holding-send_message size c ptr len v.holding cmd ep el b,
        words-bytes_at len ptr c.holding w (omega (arith, v.holding)),
        rw (sym size_ok) frame,
        answered ∙ ap pos size_ok,
        kept,
      )
