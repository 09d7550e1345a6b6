-- ===== src/Modbus/Transport.antt =====
-- The Modbus line, protocols/modbus/modbus.c: the answers that others send to a request, and the
-- requests that the line brings for the client of this node. Bytes written to the USART's data
-- register are a list. An access out of a buffer fails.
pub mod Request
pub mod Answer
use mathlib.Core.Option
use ir.Prelude.{
  ℕ, zero, suc, ◌+◌, ◌-◌, ◌*◌, ◌/◌, ◌%◌, ◌^◌, Bool, true, false, not, ◌||◌, Option, none, some,
  List, [], ◌∷◌, ◌++◌, ltb, leb, ◌==◌, if◌then◌else◌, length, get_or, set,
}
use ir.Prelude.Int.{ℤ, pos, negsuc}
use ir.Prelude.Words.{add8, sub8}
use ir.Modbus.Client.{
  Client, modbus_address, modbus_broadcast, modbus_buffer_len, modbus_crc_calc,
  modbus_client_process,
}

-- `modbus_data`, whose data is the caller's buffer or that of the client, `modbus_client_state`,
-- the timer, whether an answer is awaited, and the length that the caller then finds; the
-- interrupt's and the transmitter's switches, and the bytes sent.
pub record Bus : Type 0 where
  pub caller : List ℕ
  pub own : Client
  pub own_len : ℕ
  pub from_own : Bool
  pub len : ℕ
  pub sent : ℕ
  pub crc : ℕ
  pub crc_len : ℕ
  pub timer : ℕ
  pub waiting : Bool
  pub recv_len : ℤ
  pub txcie : Bool
  pub modbus_tx : Bool
  pub wire : List ℕ

abbrev pub data_of : Bus → List ℕ
data_of s = if s.from_own then s.own.raw else s.caller

unfoldable pub modbus_init : Bus → Bus
modbus_init s = record s { modbus_tx = false; len = 0; sent = 0; crc_len = 0; own_len = 0 }

-- The interrupt of a sent byte.
unfoldable pub tx_vect : Bus → Bus
tx_vect s =
    if ltb s.sent s.len
    then record s { wire = s.wire ++ get_or (data_of s) s.sent 0 ∷ []; sent = add8 s.sent 1 }
    else if not (s.crc_len == 0)
    then record s {
      wire = s.wire ++ (s.crc / 2 ^ ((2 - s.crc_len) * 8) % 256) ∷ [];
      crc_len = s.crc_len - 1;
    }
    else record s {
      txcie = false;
      modbus_tx = false;
      len = if s.waiting then 0 else s.len;
      timer = if s.waiting then 4 else s.timer;
    }

-- A byte of an answer to the caller's request.
unfoldable pub rx_answer : ℕ → Bus → Option Bus
rx_answer data_in s =
    if leb modbus_buffer_len s.len
    then some s
    else if leb (length (data_of s)) s.len
    then none
    else some (record s {
      caller = if s.from_own then s.caller else set s.caller s.len data_in;
      own = if s.from_own then record s.own { raw = set s.own.raw s.len data_in } else s.own;
      len = add8 s.len 1;
      timer = 2;
    })

-- A byte of a request to this node, or to others.
unfoldable pub rx_request : ℕ → Bus → Option Bus
rx_request data_in s =
    if leb (length s.own.raw) s.own_len
    then none
    else some (record s {
      own = record s.own { raw = set s.own.raw s.own_len data_in };
      own_len = add8 s.own_len 1;
      timer = 2;
    })

unfoldable pub rx_vect : Bool → ℕ → Bus → Option Bus
rx_vect error data_in s =
    if error then some s else if s.waiting then rx_answer data_in s else rx_request data_in s

abbrev pub is_nonzero : ℤ → Bool
is_nonzero (pos zero) = false
is_nonzero (pos (suc n)) = true
is_nonzero (negsuc n) = true

-- The transmission of what the client has made of the request of `n` bytes.
unfoldable pub start_answer : ℕ → Client × ℤ → Bus → Bus
start_answer n (c, recv_len) s =
    if is_nonzero recv_len
    then record s {
      own = c;
      own_len = 0;
      modbus_tx = true;
      from_own = true;
      len = n;
      sent = 1;
      txcie = true;
      wire = s.wire ++ get_or c.raw 0 0 ∷ [];
    }
    else record s { own = c; own_len = 0 }

module _ (crc16_update : ℕ → ℕ → ℕ) where
  -- The end of a request on the line.
  unfoldable pub end_request : Bus → Option Bus
  end_request s =
      let raw = s.own.raw in
      let received = get_or raw (s.own_len - 1) 0 * 256 + get_or raw (s.own_len - 2) 0 in
      let n = s.own_len - 2 in
      let to = get_or raw 0 0 in
      if ltb s.own_len 2
      then none
      else if not (modbus_crc_calc crc16_update raw n == received)
      then some (record s { own_len = 0 })
      else if not (to == modbus_address || to == modbus_broadcast)
      then some s
      else Option.map (λ r. start_answer n r s) (modbus_client_process crc16_update n s.own)

  -- What the timer does when it has run out while an answer is awaited.
  unfoldable pub end_answer : Bus → Bus
  end_answer s = record s {
    recv_len = if ltb s.len 2 then negsuc 0 else pos s.len;
    waiting = false;
  }

  unfoldable pub modbus_periodic : Bus → Option Bus
  modbus_periodic s =
      let t = record s { timer = s.timer - 1 } in
      if s.timer == 0
      then some s
      else if not (t.timer == 0)
      then some t
      else if s.waiting
      then some (end_answer t)
      else end_request t

  -- The transmission of a request to others.
  unfoldable pub start_request : List ℕ → ℕ → Bus → ℕ × Bus
  start_request data_out n s = if not (s.crc_len == 0) then (0, s) else (
    1,
    record s {
      caller = data_out;
      from_own = false;
      modbus_tx = true;
      waiting = true;
      crc = modbus_crc_calc crc16_update data_out n;
      crc_len = 2;
      len = n;
      sent = 1;
      txcie = true;
      wire = s.wire ++ get_or data_out 0 0 ∷ [];
    },
  )

  -- After the client of this node: its result, and what it left in the caller's buffer.
  unfoldable pub after_client : ℕ → Bus → Client × ℤ → ℕ × Bus
  after_client n s (own, recv_len) =
      let t = record s {
        own = record s.own { holding = own.holding };
        recv_len = recv_len;
        caller = own.raw;
      } in
      if get_or own.raw 0 0 == modbus_address then (1, t) else start_request own.raw n t

  -- The return value; the bus has the caller's buffer after a request to the client of this node.
  unfoldable pub modbus_rxstart : List ℕ → ℕ → Bus → Option (ℕ × Bus)
  modbus_rxstart data_out n s =
      let to = get_or data_out 0 0 in
      if to == modbus_address || to == modbus_broadcast
      then Option.map (after_client n s)
          (modbus_client_process crc16_update n (record s.own { raw = data_out }))
      else some (start_request data_out n s)
