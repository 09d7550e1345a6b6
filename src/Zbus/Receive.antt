-- ===== src/Zbus/Receive.antt =====
-- The receive interrupt takes frames off the bus.
use ir.Prelude.{
  ℕ, zero, suc, ◌<◌, ◌≤◌, ◌≡◌, refl, ◌≢◌, inl, inr, Bool, false, none, List, [], ◌∷◌, ◌++◌, arith,
  ltb, if◌then◌else◌, Bool-cases, ltb→lt, length, set, length-set, take, ap, append_assoc,
  append-nil, sym, ◌∙◌, length-append,
}
use ir.Zbus.{
  Zbus, Mode, backslash, zbus_start, rx_vect, receive_escaped, append_data, receive_start,
  receive_stop,
}
use ir.Zbus.Framing.{stuff, escape, trailer, frame}

-- The bytes `bytes` come in without a USART error and with no other call in between.
unfoldable pub feed : ℕ → List ℕ → Zbus → Zbus
feed room [] s = s
feed room (b ∷ bytes) s = feed room bytes (rx_vect room false b s).0

feed-append :
    (room : ℕ) (xs ys : List ℕ) (s : Zbus) → feed room (xs ++ ys) s ≡ feed room ys (feed room xs s)
unfolding feed
feed-append room [] ys s = refl
feed-append room (x ∷ xs) ys s = feed-append room xs ys (rx_vect room false x s).0

-- The receive interrupt never transmits.
rx_vect-silent :
    (room : ℕ) (error : Bool) (byte : ℕ) (s : Zbus) → (rx_vect room error byte s).1 ≡ none
unfolding rx_vect receive_escaped append_data receive_start receive_stop
rx_vect-silent room error byte s = ground arith

-- In the middle of a packet of which `r` is stored.
pub record Receiving (room : ℕ) (r : List ℕ) (s : Zbus) : Type 0 where
  pub nothing_to_send : s.zbus_txlen ≡ 0
  pub nothing_received : s.zbus_rxlen ≡ 0
  pub no_escape : s.recv_escape_data ≡ 0
  pub line_busy : s.bus_blocked ≢ 0
  pub locked : s.buf_lock ≢ 0
  pub size : length s.zbus_buf ≡ room
  pub index : s.zbus_index ≡ length r
  pub stored : take (length r) s.zbus_buf ≡ r
  pub fits : length r ≤ room

-- one more byte, dropped when the buffer is full
push_byte : ℕ → List ℕ → ℕ → List ℕ
push_byte room r c = if ltb (length r) room then r ++ (c ∷ []) else r

push_bytes : ℕ → List ℕ → List ℕ → List ℕ
push_bytes room r [] = r
push_bytes room r (c ∷ p) = push_bytes room (push_byte room r c) p

take-set :
    (buf r : List ℕ) (c : ℕ)
    → take (length r) buf ≡ r
    → length r < length buf
    → take (suc (length r)) (set buf (length r) c) ≡ r ++ (c ∷ [])
take-set [] r c e h = absurd (omega arith)
take-set (x ∷ buf) [] c e h = refl
take-set (x ∷ buf) (y ∷ r) c e h = ground (arith, take-set buf r c)

pub take_self : (r : List ℕ) (n : ℕ) → length r ≤ n → take n r ≡ r
take_self [] zero h = refl
take_self [] (suc n) h = refl
take_self (x ∷ r) zero h = absurd (omega arith)
take_self (x ∷ r) (suc n) h = ap (λ t. x ∷ t) (take_self r n (omega arith))

take-append : (r p : List ℕ) (n : ℕ) → n ≡ length r → take n (r ++ p) ≡ r
take-append [] p zero h = refl
take-append [] p (suc n) h = absurd (omega arith)
take-append (x ∷ r) p zero h = absurd (omega arith)
take-append (x ∷ r) p (suc n) h = ap (λ t. x ∷ t) (take-append r p n (omega arith))

push_bytes-append :
    (room : ℕ) (r p q : List ℕ)
    → push_bytes room r (p ++ q) ≡ push_bytes room (push_bytes room r p) q
unfolding push_bytes
push_bytes-append room r [] q = refl
push_bytes-append room r (c ∷ p) q = push_bytes-append room (push_byte room r c) p q

push_bytes-eq-take :
    (room : ℕ) (r p : List ℕ) → length r ≤ room → push_bytes room r p ≡ take room (r ++ p)
unfolding push_bytes push_byte
push_bytes-eq-take room r [] h = rw append-nil (sym (take_self r room h))
push_bytes-eq-take room r (c ∷ p) h = elim (Bool-cases (ltb (length r) room)) [
  | inl more ↦ rw more (
      push_bytes-eq-take room (r ++ (c ∷ [])) p
        (omega (arith, ltb→lt _ _ more, length-append r (c ∷ [])))
      ∙ ap (take room) (append_assoc r (c ∷ []) p))
  | inr full ↦ rw full (
      push_bytes-eq-take room r p h
      ∙ take-append r p room (ground arith)
      ∙ sym (take-append r (c ∷ p) room (ground arith)))
]

Receiving-stuff :
    (room : ℕ) (r : List ℕ) (c : ℕ) (s : Zbus)
    → room < 65536
    → Receiving room r s
    → Receiving room (push_byte room r c) (feed room (stuff c) s)
unfolding feed rx_vect receive_escaped append_data receive_start receive_stop stuff push_byte
Receiving-stuff room r c s small h = ground (
  arith,
  take-set s.zbus_buf r c h.stored,
  length-set s.zbus_buf (length r) c,
  length-append r (c ∷ []),
)

Receiving-escape :
    (room : ℕ) (r p : List ℕ) (s : Zbus)
    → room < 65536
    → Receiving room r s
    → Receiving room (push_bytes room r p) (feed room (escape p) s)
unfolding escape feed push_bytes
Receiving-escape room r [] s small h = h
Receiving-escape room r (c ∷ p) s small h = rw (feed-append room (stuff c) (escape p) s) (
    Receiving-escape room (push_byte room r c) p (feed room (stuff c) s) small
      (Receiving-stuff room r c s small h))

-- A packet `r` lies in the buffer, complete; the receiver is off until the packet is read.
pub record Received (room : ℕ) (r : List ℕ) (s : Zbus) : Type 0 where
  pub count : s.zbus_rxlen ≡ length r
  pub stored : take (length r) s.zbus_buf ≡ r
  pub line_free : s.bus_blocked ≡ 0
  pub mode_off : s.mode ≡ Mode.off
  pub locked : s.buf_lock ≢ 0

Received-trailer :
    (room : ℕ) (r : List ℕ) (s : Zbus) → Receiving room r s → Received room r (feed room trailer s)
unfolding feed rx_vect receive_escaped append_data receive_start receive_stop
Received-trailer room r s h = ground arith

-- Listening, with the buffer free.
pub record IsListening (room : ℕ) (s : Zbus) : Type 0 where
  pub nothing_to_send : s.zbus_txlen ≡ 0
  pub nothing_received : s.zbus_rxlen ≡ 0
  pub no_escape : s.recv_escape_data ≡ 0
  pub unlocked : s.buf_lock ≡ 0
  pub size : length s.zbus_buf ≡ room

abbrev header : List ℕ
header = backslash ∷ zbus_start ∷ []

Receiving-header :
    (room : ℕ) (s : Zbus) → IsListening room s → Receiving room [] (feed room header s)
unfolding feed rx_vect receive_escaped append_data receive_start receive_stop
Receiving-header room s h = ground arith

-- `\0` in the middle of a packet changes nothing: the lock is taken, and the handler returns.
header-Receiving :
    (room : ℕ) (r : List ℕ) (s : Zbus) → Receiving room r s → Receiving room r (feed room header s)
unfolding feed rx_vect receive_escaped append_data receive_start receive_stop
header-Receiving room r s h = ground arith

feed-frame :
    (room : ℕ) (p : List ℕ) (s : Zbus)
    → feed room (frame p) s ≡ feed room trailer (feed room (escape p) (feed room header s))
unfolding frame feed
feed-frame room p s = feed-append room (escape p) trailer (feed room header s)

-- A listening node with a free buffer of `room` bytes that takes in the frame of any payload, and
-- no other call in between, holds exactly the first `room` bytes of the payload, with the length
-- that it reports, the line free, the receiver off and the buffer locked.
pub feed-frame-Received :
    (room : ℕ) (p : List ℕ) (s : Zbus)
    → room < 65536
    → IsListening room s
    → Received room (take room p) (feed room (frame p) s)
feed-frame-Received room p s small h = rw feed-frame (
    rw (push_bytes-eq-take room [] p (omega arith)) at (
      Received-trailer room (push_bytes room [] p) _
        (Receiving-escape room [] p _ small (Receiving-header room s h))))

-- If a listening node takes in the start and the payload of one frame without its end, and then a
-- whole second frame, with no other call in between, it holds the first `room` bytes of the two
-- payloads joined, as one packet.
pub lost_stop-merges :
    (room : ℕ) (p q : List ℕ) (s : Zbus)
    → room < 65536
    → IsListening room s
    → Received room
        (take room (p ++ q))
        (feed room (frame q) (feed room (backslash ∷ zbus_start ∷ escape p) s))
unfolding feed
lost_stop-merges room p q s small h = rw feed-frame (
    rw (← push_bytes-append room [] p q, push_bytes-eq-take room [] (p ++ q) (omega arith)) at
      (Received-trailer room (push_bytes room (push_bytes room [] p) q) _ (
        Receiving-escape room _ q _ small (
          header-Receiving room _ _
            (Receiving-escape room [] p _ small (Receiving-header room s h))))))
