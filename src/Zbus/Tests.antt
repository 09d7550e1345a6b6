-- ===== src/Zbus/Tests.antt =====
-- The bus at concrete packets.
use ir.Prelude.{◌≡◌, refl, false, some, [], ◌∷◌, arith}
use ir.Zbus.{
  Zbus, Mode, backslash, zbus_start, zbus_core_init, zbus_txstart, tx_vect, rx_vect,
  receive_escaped, append_data, receive_start, receive_stop,
}
use ir.Zbus.Inv.{IsValid, here, next, Step, Reach-IsValid}
use ir.Zbus.Framing.{escape, frame}
use ir.Zbus.Transmit.{broadcast, broadcast-frame, finished}
use ir.Zbus.Receive.{Received, feed, feed-frame-Received, lost_stop-merges}
use ir.Zbus.RoundTrip.{transfer, transfer-Received}

-- A node with a buffer of four bytes, a backslash among them.
abbrev node : Zbus
node = record {
  send_escape_data = 0;
  recv_escape_data = 0;
  bus_blocked = 0;
  zbus_index = 0;
  zbus_txlen = 0;
  zbus_rxlen = 0;
  zbus_buf = 7 ∷ 92 ∷ 8 ∷ 9 ∷ [];
  mode = Mode.receiver;
  buf_lock = 0;
  others_active = false;
}

broadcast_three :
    broadcast 20 3 node
    ≡ some (finished (record node { zbus_txlen = 3 }), 92 ∷ 48 ∷ 7 ∷ 92 ∷ 92 ∷ 8 ∷ 92 ∷ 49 ∷ [])
unfolding broadcast zbus_txstart tx_vect
broadcast_three = refl

feed_two : (feed 4 (92 ∷ 48 ∷ 5 ∷ 92 ∷ 92 ∷ 92 ∷ 49 ∷ []) node).zbus_buf ≡ 5 ∷ 92 ∷ 8 ∷ 9 ∷ []
unfolding feed rx_vect receive_escaped append_data receive_start receive_stop
feed_two = refl

Reach-IsValid_example : IsValid 4 (tx_vect (zbus_txstart 3 (zbus_core_init node)).0).0
Reach-IsValid_example = Reach-IsValid node (omega arith) refl (
    next (next here (Step.txstart (zbus_core_init node) 3 (omega arith)))
      (Step.transmitted (zbus_txstart 3 (zbus_core_init node)).0))

broadcast-frame_example :
    broadcast 10 3 node ≡ some (finished (record node { zbus_txlen = 3 }), frame (7 ∷ 92 ∷ 8 ∷ []))
broadcast-frame_example =
    broadcast-frame 10 3 node (omega arith) (omega arith) (omega arith) (omega arith) (omega arith)

-- The fifth byte finds the buffer full.
feed-frame-Received_example :
    Received 4 (1 ∷ 92 ∷ 3 ∷ 4 ∷ []) (feed 4 (frame (1 ∷ 92 ∷ 3 ∷ 4 ∷ 5 ∷ [])) node)
feed-frame-Received_example =
    feed-frame-Received 4 (1 ∷ 92 ∷ 3 ∷ 4 ∷ 5 ∷ []) node (omega arith) (record {
      nothing_to_send = refl;
      nothing_received = refl;
      no_escape = refl;
      unlocked = refl;
      size = refl;
    })

lost_stop-merges_example :
    Received 4
      (1 ∷ 2 ∷ 3 ∷ [])
      (feed 4 (frame (2 ∷ 3 ∷ [])) (feed 4 (backslash ∷ zbus_start ∷ escape (1 ∷ [])) node))
lost_stop-merges_example = lost_stop-merges 4 (1 ∷ []) (2 ∷ 3 ∷ []) node (omega arith) (omega arith)

transfer-Received_example :
    (b : Zbus) × (transfer 4 8 2 node node ≡ some (finished (record node { zbus_txlen = 2 }), b))
    × Received 4 (7 ∷ 92 ∷ []) b
transfer-Received_example =
    transfer-Received 4 8 2 node node (omega arith) (omega arith) (omega arith) (omega arith)
      (omega arith) (omega arith) (omega arith)
