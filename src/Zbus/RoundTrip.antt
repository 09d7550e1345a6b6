-- ===== src/Zbus/RoundTrip.antt =====
-- Two nodes: what one transmits the other receives.
use ir.Prelude.{ℕ, ◌+◌, ◌*◌, ◌<◌, ◌≤◌, ◌≡◌, Option, some, arith, length, take}
use mathlib.Core.Option
use ir.Zbus.{Zbus}
use ir.Zbus.Framing.{frame}
use ir.Zbus.Transmit.{IsIdle, finished, broadcast, broadcast-frame, length-take}
use ir.Zbus.Receive.{IsListening, Received, feed, feed-frame-Received, take_self}

-- Node `a` sends `n` bytes of its buffer, and node `b` takes in every byte of the bus.
unfoldable pub transfer : ℕ → ℕ → ℕ → Zbus → Zbus → Option (Zbus × Zbus)
transfer room f n a b = Option.map (λ r. (r.0, feed room r.1 b)) (broadcast f n a)

-- An idle node sends `n > 0` bytes of its buffer to a listening node whose free buffer has room for
-- them, with nothing else happening on either: the transfer ends within `2 * n + 4` interrupts of
-- the sender, which listens again with its buffer as it was, and the receiver holds exactly those
-- bytes, whatever they are, and reports their number.
pub transfer-Received :
    (room f n : ℕ) (a b : Zbus)
    → room < 65536
    → IsIdle a
    → 0 < n
    → n ≤ length a.zbus_buf
    → n ≤ room
    → 2 * n + 4 ≤ f
    → IsListening room b
    → (b' : Zbus) × (transfer room f n a b ≡ some (finished (record a { zbus_txlen = n }), b'))
      × Received room (take n a.zbus_buf) b'
unfolding transfer
transfer-Received room f n a b small idle pos inside fits fuel listening = (
  feed room (frame (take n a.zbus_buf)) b,
  rw (broadcast-frame f n a idle pos (omega arith) inside fuel),
  rw whole at (feed-frame-Received room (take n a.zbus_buf) b small listening),
)
  where
    whole : take room (take n a.zbus_buf) ≡ take n a.zbus_buf
    whole = take_self (take n a.zbus_buf) room (omega (arith, length-take n a.zbus_buf inside))
