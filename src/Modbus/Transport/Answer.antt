-- ===== src/Modbus/Transport/Answer.antt =====
-- What protocols/modbus/modbus.c sends for a request to this node.
use mathlib.Core.Option
use ir.Prelude.{
  ℕ, suc, ◌+◌, ◌-◌, ◌*◌, ◌<◌, ◌≤◌, ◌≡◌, sym, ap, ap₂, ◌∙◌, true, false, not, ◌||◌, some, [], ◌∷◌,
  ◌++◌, append_assoc, arith, ltb, ◌==◌, length, get_or, take, drop,
}
use ir.Prelude.Int.{pos}
use ir.Prelude.Strings.{drop-get_or}
use ir.Modbus.Client.{
  Client, modbus_address, modbus_broadcast, modbus_crc_calc, modbus_client_process,
}
use ir.Modbus.Transport.{Bus, start_answer, end_request}
use ir.Modbus.Transport.Request.{tx_times, at_byte, tx_times-wire, tx_off}

module _ (crc16_update : ℕ → ℕ → ℕ) where
  -- The bus after `start_answer`.
  abbrev answering : ℕ → Client → Bus → Bus
  answering n c s = record s {
    own = c;
    own_len = 0;
    modbus_tx = true;
    from_own = true;
    len = n;
    sent = 1;
    txcie = true;
    wire = s.wire ++ get_or c.raw 0 0 ∷ [];
  }

  answering_sent :
      (k : ℕ) (c : Client) (s : Bus)
      → suc k < 256
      → suc k ≤ length c.raw
      → s.crc_len ≡ 0
      → (tx_times (k + 1) (answering (suc k) c s)).wire ≡ s.wire ++ take (suc k) c.raw
  answering_sent k c s small fits idle =
      let t = answering (suc k) c s in
      let first = s.wire ++ get_or c.raw 0 0 ∷ [] in
      let sent = tx_times-wire k 1 1 t first (omega arith) (omega arith) (omega arith) in
      let count : 1 + k ≡ suc k = omega arith in
      let done : ltb (1 + k) (suc k) ≡ false = ground arith in
      let last : not (s.crc_len == 0) ≡ false = ground arith in
      ap (λ b. b.wire) sent
      ∙ ap (λ b. b.wire) (tx_off (at_byte t (1 + k) (first ++ take k (drop 1 c.raw))) done last)
      ∙ append_assoc s.wire (get_or c.raw 0 0 ∷ []) (take k (drop 1 c.raw))
      ∙ ap (λ r. s.wire ++ take (suc k) r) (sym (drop-get_or c.raw 0 (omega arith)))

  -- For a request to this node of `suc k` bytes and a right check sum, while no check sum is being
  -- sent, which the client answers with a frame of any length but 0: the end of a request in
  -- `modbus_periodic` starts to send, and after `suc k` interrupts the line has got just as many
  -- bytes of the client's frame as the request had, however long the frame is.
  pub end_request-cut :
      (k : ℕ) (s : Bus) (c : Client) (m : ℕ)
      → s.own_len ≡ suc k + 2
      → suc k < 256
      → modbus_crc_calc crc16_update s.own.raw (suc k)
        ≡ get_or s.own.raw (suc (suc k)) 0 * 256 + get_or s.own.raw (suc k) 0
      → get_or s.own.raw 0 0 ≡ modbus_address
      → modbus_client_process crc16_update (suc k) s.own ≡ some (c, pos (suc m))
      → suc k ≤ length c.raw
      → s.crc_len ≡ 0
      → (t : Bus) × (end_request crc16_update s ≡ some t)
        × ((tx_times (k + 1) t).wire ≡ s.wire ++ take (suc k) c.raw)
  unfolding end_request start_answer
  end_request-cut k s c m size small right own made fits idle =
      let n : s.own_len - 2 ≡ suc k = omega arith in
      let high : s.own_len - 1 ≡ suc (suc k) = omega arith in
      let raw = s.own.raw in
      let long : ltb s.own_len 2 ≡ false = ground arith in
      let same : not (
            modbus_crc_calc crc16_update raw (suc k)
            == get_or raw (suc (suc k)) 0 * 256 + get_or raw (suc k) 0)
          ≡ false =
        ground arith in
      let valid =
        ap₂
          (λ a b. not (modbus_crc_calc crc16_update raw a == get_or raw b 0 * 256 + get_or raw a 0))
          n high
        ∙ same in
      let mine : not (get_or raw 0 0 == modbus_address || get_or raw 0 0 == modbus_broadcast)
          ≡ false =
        ground arith in
      (
        answering (suc k) c s,
        rw long (
            rw valid (
              rw mine (
                ap
                  (λ a.
                    Option.map (λ r. start_answer a r s)
                      (modbus_client_process crc16_update a s.own))
                  n
                ∙ ap (Option.map (λ p. start_answer (suc k) p s)) made))),
        answering_sent k c s small fits idle,
      )
