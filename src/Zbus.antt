-- ===== src/Zbus.antt =====
-- protocols/zbus/zbus.c: a half-duplex bus on a USART, with frames `\0 payload \1` in which a
-- backslash of the payload is doubled, and the lock of the packet buffer (protocols/uip/uip.h).
-- A handler returns the new state and the byte that it writes into the USART's data register.
pub mod Inv
pub mod Framing
pub mod Transmit
pub mod Receive
pub mod RoundTrip
mod Tests
use ir.Prelude.{
  ℕ, zero, suc, ◌+◌, ◌-◌, ◌%◌, Bool, true, false, not, ◌&&◌, ◌||◌, Option, none, some, List, [],
  ◌∷◌, ltb, ◌==◌, if◌then◌else◌, get_or, set,
}
use ir.Prelude.Words.{add16}

-- `enum ZBusEscapes`, and the escape character
abbrev pub zbus_start : ℕ
zbus_start = 48

abbrev pub zbus_stop : ℕ
zbus_stop = 49

abbrev pub backslash : ℕ
backslash = 92

-- What the control register enables: nothing, the transmitter or the receiver, each with its
-- interrupt.
pub data Mode : Type 0 where
  off transmitter receiver : Mode

pub record Zbus : Type 0 where
  pub send_escape_data : ℕ
  pub recv_escape_data : ℕ
  pub bus_blocked : ℕ
  pub zbus_index : ℕ
  pub zbus_txlen : ℕ
  pub zbus_rxlen : ℕ
  pub zbus_buf : List ℕ
  pub mode : Mode
  -- `_uip_buf_lock`
  pub buf_lock : ℕ
  -- `rfm12_tx_active () || usb_net_tx_active ()`, the other users of the buffer
  pub others_active : Bool

abbrev pub Action : Type 0
Action = Zbus × Option ℕ

abbrev pub set? : ℕ → Bool
set? n = not (n == 0)

-- `uip_buf_lock`: the flag is true where the buffer was locked already
unfoldable pub buf_acquire : Zbus → Zbus × Bool
buf_acquire s = if set? s.buf_lock then (s, true) else (record s { buf_lock = 8 }, false)

-- `uip_buf_unlock`
unfoldable pub buf_release : Zbus → Zbus
buf_release s = if s.others_active || ltb 0 s.zbus_txlen then s else record s { buf_lock = 0 }

-- `__zbus_txstart`
unfoldable pub begin_transmission : Zbus → Action
begin_transmission s = (
  record s { bus_blocked = 3; mode = Mode.transmitter; send_escape_data = zbus_start },
  some backslash,
)

unfoldable pub zbus_txstart : ℕ → Zbus → Action
unfolding begin_transmission
zbus_txstart size s =
    if set? s.zbus_txlen || set? s.zbus_rxlen || set? s.bus_blocked
    then (s, none)
    else begin_transmission (record s { zbus_index = 0; zbus_txlen = size % 65536 })

unfoldable pub zbus_rxstart : Zbus → Zbus
zbus_rxstart s = if ltb 0 s.zbus_txlen then s else record s { zbus_rxlen = 0; mode = Mode.receiver }

unfoldable pub zbus_rxstop : Zbus → Zbus
zbus_rxstop s = record s { mode = Mode.off }

unfoldable pub zbus_rxfinish : Zbus → ℕ
zbus_rxfinish s = s.zbus_rxlen

unfoldable pub zbus_core_init : Zbus → Zbus
unfolding zbus_rxstart
zbus_core_init s = zbus_rxstart (record s { zbus_txlen = 0; zbus_rxlen = 0; zbus_index = 0 })

-- `--bus_blocked == 0` and what follows it
count_down : Zbus → Action
unfolding begin_transmission
count_down s =
    let t = record s { bus_blocked = s.bus_blocked - 1 } in
    if t.bus_blocked == 0 && ltb 0 t.zbus_txlen then begin_transmission t else (t, none)

unfoldable pub zbus_core_periodic : Zbus → Action
unfolding count_down
zbus_core_periodic s = if set? s.bus_blocked then count_down s else (s, none)

-- The transmit interrupt on a byte of the packet: a backslash is announced by another one.
unfoldable pub send_data : Zbus → Action
send_data s =
    let c = get_or s.zbus_buf s.zbus_index 0 in
    let t = record s { zbus_index = add16 s.zbus_index 1; bus_blocked = 3 } in
    if c == backslash then (record t { send_escape_data = c }, some backslash) else (t, some c)

-- The transmit interrupt, which comes when the last byte has left the USART.
unfoldable pub tx_vect : Zbus → Action
unfolding send_data buf_release zbus_rxstart
tx_vect s =
    if set? s.send_escape_data
    then (record s { send_escape_data = 0 }, some s.send_escape_data)
    else if set? s.zbus_txlen && ltb s.zbus_index s.zbus_txlen
    then send_data s
    else if set? s.zbus_txlen
    then (
      record (buf_release (record s { zbus_txlen = 0 })) { send_escape_data = zbus_stop },
      some backslash,
    )
    else (zbus_rxstart (record s { bus_blocked = 0; zbus_txlen = 0 }), none)

-- The receive interrupt at its label `append_data`; `room` is ZBUS_BUFFER_LEN.
unfoldable pub append_data : ℕ → ℕ → Zbus → Zbus
append_data room byte s =
    if not (ltb s.zbus_index room) then s else if s.bus_blocked == 0 then s else record s {
      bus_blocked = 3;
      zbus_buf = set s.zbus_buf s.zbus_index byte;
      zbus_index = add16 s.zbus_index 1;
    }

-- The receive interrupt on `\0`.
unfoldable pub receive_start : Zbus → Zbus
unfolding buf_acquire
receive_start s =
    let (t, taken) = buf_acquire s in
    if taken then t else record t { zbus_index = 0; bus_blocked = 3 }

-- The receive interrupt on `\1`.
unfoldable pub receive_stop : Zbus → Action
unfolding zbus_rxstop begin_transmission
receive_stop s =
    let t =
      if set? s.bus_blocked then record (zbus_rxstop s) { zbus_rxlen = s.zbus_index } else s in
    let u = record t { bus_blocked = 0 } in
    if ltb 0 u.zbus_txlen then begin_transmission u else (u, none)

-- The receive interrupt on the byte after a backslash.
unfoldable pub receive_escaped : ℕ → ℕ → Zbus → Action
receive_escaped room byte s =
    let t = record s { recv_escape_data = 0 } in
    if byte == zbus_start
    then (receive_start t, none)
    else if byte == zbus_stop
    then receive_stop t
    else if byte == backslash
    then (append_data room byte t, none)
    else (t, none)

-- The receive interrupt; `error` is a data overrun or a framing error.
unfoldable pub rx_vect : ℕ → Bool → ℕ → Zbus → Action
rx_vect room error byte s =
    if error
    then (s, none)
    else if set? s.zbus_rxlen
    then (s, none)
    else if set? s.zbus_txlen
    then (s, none)
    else if set? s.recv_escape_data
    then receive_escaped room byte s
    else if byte == backslash
    then (record s { recv_escape_data = 1 }, none)
    else (append_data room byte s, none)
