-- ===== src/Modbus/Transport/Request.antt =====
-- A request that protocols/modbus/modbus.c sends to another node.
use ir.Prelude.{
  ℕ, zero, suc, ◌+◌, ◌-◌, ◌*◌, ◌/◌, ◌%◌, ◌^◌, ◌<◌, ◌≤◌, ◌≡◌, ◌≢◌, refl, sym, ap, ap₂, ◌∙◌, true,
  false, some, not, ◌||◌, List, [], ◌∷◌, ◌++◌, append_assoc, append-nil, arith, ltb, ◌==◌,
  if◌then◌else◌, length, get_or, take, drop,
}
use ir.Prelude.Strings.{drop-get_or}
use ir.Prelude.Words.{add8}
use ir.Modbus.Client.{modbus_address, modbus_broadcast, modbus_crc_calc}
use ir.Modbus.Transport.{Bus, data_of, tx_vect, start_request, modbus_rxstart}

-- The interrupt of a sent byte, a number of times.
abbrev pub tx_times : ℕ → Bus → Bus
tx_times zero s = s
tx_times (suc n) s = tx_times n (tx_vect s)

abbrev pub at_byte : Bus → ℕ → List ℕ → Bus
at_byte s i out = record s { sent = i; wire = out }

tx_vect_next :
    (s : Bus) (i : ℕ) (out : List ℕ)
    → i < s.len
    → i < 255
    → tx_vect (at_byte s i out) ≡ at_byte s (i + 1) (out ++ get_or (data_of s) i 0 ∷ [])
unfolding tx_vect
tx_vect_next s i out lt small =
    let more : ltb i s.len ≡ true = ground arith in
    let next : add8 i 1 ≡ i + 1 = omega arith in rw more (rw next refl)

pub tx_times-wire :
    (m k i : ℕ) (s : Bus) (out : List ℕ)
    → i + m ≤ s.len
    → i + m < 256
    → i + m ≤ length (data_of s)
    → tx_times (m + k) (at_byte s i out)
      ≡ tx_times k (at_byte s (i + m) (out ++ take m (drop i (data_of s))))
tx_times-wire zero k i s out len small fits =
    let none_more : zero + k ≡ k = omega arith in
    ap (λ c. tx_times c (at_byte s i out)) none_more
    ∙ ap (tx_times k) (ap₂ (at_byte s) (omega arith) (sym (append-nil out)))
tx_times-wire (suc m) k i s out len small fits =
    let byte = get_or (data_of s) i 0 in
    let one : i + 1 ≡ suc i = omega arith in
    let count : suc m + k ≡ suc (m + k) = omega arith in
    ap (λ c. tx_times c (at_byte s i out)) count
    ∙ ap (tx_times (m + k)) (tx_vect_next s i out (omega arith) (omega arith))
    ∙ tx_times-wire m k (i + 1) s (out ++ byte ∷ []) (omega arith) (omega arith) (omega arith)
    ∙ ap (tx_times k) (
        ap₂ (at_byte s) (omega arith) (
          append_assoc out (byte ∷ []) (take m (drop (i + 1) (data_of s)))
          ∙ ap (λ c. out ++ byte ∷ take m (drop c (data_of s))) one
          ∙ ap (λ r. out ++ take (suc m) r) (sym (drop-get_or (data_of s) i (omega arith)))))

tx_crc :
    (s : Bus)
    → ltb s.sent s.len ≡ false
    → not (s.crc_len == 0) ≡ true
    → tx_vect s ≡ record s {
      wire = s.wire ++ (s.crc / 2 ^ ((2 - s.crc_len) * 8) % 256) ∷ [];
      crc_len = s.crc_len - 1;
    }
unfolding tx_vect
tx_crc s done more = rw done (rw more refl)

pub tx_off :
    (s : Bus)
    → ltb s.sent s.len ≡ false
    → not (s.crc_len == 0) ≡ false
    → tx_vect s ≡ record s {
      txcie = false;
      modbus_tx = false;
      len = if s.waiting then 0 else s.len;
      timer = if s.waiting then 4 else s.timer;
    }
unfolding tx_vect
tx_off s done last = rw done (rw last refl)

module _ (crc16_update : ℕ → ℕ → ℕ) where
  -- The bus while the request is sent, and after the last interrupt.
  abbrev asked : List ℕ → ℕ → Bus → Bus
  asked data_out n s = record s {
    caller = data_out;
    from_own = false;
    modbus_tx = true;
    waiting = true;
    crc = modbus_crc_calc crc16_update data_out n;
    crc_len = 2;
    len = n;
    sent = 1;
    txcie = true;
    wire = s.wire ++ get_or data_out 0 0 ∷ [];
  }

  abbrev pub awaiting : List ℕ → ℕ → Bus → Bus
  awaiting data_out n s =
      let crc = modbus_crc_calc crc16_update data_out n in
      record s {
        caller = data_out;
        from_own = false;
        modbus_tx = false;
        waiting = true;
        crc = crc;
        crc_len = 0;
        len = 0;
        sent = n;
        timer = 4;
        txcie = false;
        wire = s.wire ++ take n data_out ++ (crc % 256) ∷ (crc / 256 % 256) ∷ [];
      }

  end_lem :
      (data_out : List ℕ) (n : ℕ) (s : Bus) (out : List ℕ)
      → tx_times 3 (at_byte (asked data_out n s) n out) ≡ record (awaiting data_out n s) {
        wire =
            out
            ++ (modbus_crc_calc crc16_update data_out n / 1 % 256) ∷ []
            ++ (modbus_crc_calc crc16_update data_out n / 256 % 256) ∷ [];
      }
  end_lem data_out n s out =
      let done : ltb n n ≡ false = ground arith in
      let a = at_byte (asked data_out n s) n out in
      let crc = modbus_crc_calc crc16_update data_out n in
      let b = record a { wire = out ++ (crc / 1 % 256) ∷ []; crc_len = 1 } in
      let c = record b {
        wire = out ++ (crc / 1 % 256) ∷ [] ++ (crc / 256 % 256) ∷ [];
        crc_len = 0;
      } in
      ap (λ t. tx_vect (tx_vect t)) (tx_crc a done refl)
      ∙ ap tx_vect (tx_crc b done refl)
      ∙ tx_off c done refl

  -- A request to another node, in a buffer of its length of one to 252 bytes, while no check sum is
  -- being sent: `modbus_rxstart` returns 1, and after as many interrupts as the request has bytes
  -- and two more, the request and its check sum, the low byte first, have been sent, the
  -- transmitter is off, and an answer is awaited, with four units of time on the timer.
  pub modbus_rxstart-awaiting :
      (c : ℕ) (rest : List ℕ) (s : Bus)
      → c ≢ modbus_address
      → c ≢ modbus_broadcast
      → length (c ∷ rest) < 253
      → s.crc_len ≡ 0
      → (t : Bus) × (modbus_rxstart crc16_update (c ∷ rest) (length (c ∷ rest)) s ≡ some (1, t))
        × (tx_times (length rest + 3) t ≡ awaiting (c ∷ rest) (length (c ∷ rest)) s)
  unfolding modbus_rxstart start_request
  modbus_rxstart-awaiting c rest s other not_all short idle =
      let n = length (c ∷ rest) in
      let crc = modbus_crc_calc crc16_update (c ∷ rest) n in
      let foreign : (c == modbus_address || c == modbus_broadcast) ≡ false = ground arith in
      let free : not (s.crc_len == 0) ≡ false = ground arith in
      let count : 1 + length rest ≡ n = omega arith in
      let low : crc / 1 % 256 ≡ crc % 256 = omega arith in
      let text = take (length rest) rest in
      let asked_bus = asked (c ∷ rest) n s in
      let sent =
        tx_times-wire (length rest) 3 1 asked_bus (s.wire ++ c ∷ []) (omega arith) (omega arith)
          (omega arith) in
      rw foreign (
        rw free (
          _,
          refl,
          sent
              ∙ ap (λ k. tx_times 3 (at_byte asked_bus k (s.wire ++ c ∷ [] ++ text))) count
              ∙ end_lem (c ∷ rest) n s (s.wire ++ c ∷ [] ++ text)
              ∙ ap (λ o. record (awaiting (c ∷ rest) n s) { wire = o })
                  (append_assoc (s.wire ++ c ∷ [] ++ text) ((crc / 1 % 256) ∷ [])
                      ((crc / 256 % 256) ∷ [])
                    ∙ ap₂ (λ o b. o ++ b ∷ (crc / 256 % 256) ∷ [])
                        (append_assoc s.wire (c ∷ []) text) low),
        ))
