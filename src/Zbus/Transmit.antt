-- ===== src/Zbus/Transmit.antt =====
-- The transmit interrupt puts the frame of the packet on the bus.
use ir.Prelude.{
  ℕ, zero, suc, ◌+◌, ◌*◌, ◌<◌, ◌≤◌, ◌≡◌, refl, ◌≢◌, inl, inr, none, some, List, [], ◌∷◌, ◌++◌,
  arith, ◌==◌, Bool-cases, if◌then◌else◌, length, get_or, take, append_assoc,
}
use mathlib.Core.Option
use mathlib.Core.Option.{Option}
use ir.Zbus.{Zbus, Mode, backslash, zbus_start, zbus_stop, zbus_txstart, tx_vect}
use ir.Zbus.Framing.{stuff, escape, trailer, frame, length-frame}

-- The interrupts that follow one another until no byte is left to send: the hardware raises one
-- when the byte written last has left the USART. `none` means that the fuel ran out.
unfoldable pub drain : ℕ → Zbus → Option (Zbus × List ℕ)
drain zero s = none
drain (suc f) s = elim (tx_vect s).1 [
  | none ↦ some ((tx_vect s).0, [])
  | some b ↦ Option.map (λ r. (r.0, b ∷ r.1)) (drain f (tx_vect s).0)
]

-- `zbus_txstart` and the interrupts after it, with all the bytes put on the bus.
unfoldable pub broadcast : ℕ → ℕ → Zbus → Option (Zbus × List ℕ)
unfolding drain
broadcast f size s = elim (zbus_txstart size s).1 [
  | none ↦ some ((zbus_txstart size s).0, [])
  | some b ↦ Option.map (λ r. (r.0, b ∷ r.1)) (drain f (zbus_txstart size s).0)
]

-- From `s` the interrupts send the bytes `out` and end in `t`.
data Emits : Zbus → List ℕ → Zbus → Type 0 where
  done : {s t : Zbus} → tx_vect s ≡ (t, none) → Emits s [] t
  more :
      {s t u : Zbus} {b : ℕ} {out : List ℕ}
      → tx_vect s ≡ (t, some b)
      → Emits t out u
      → Emits s (b ∷ out) u

Emits-drain :
    {s t : Zbus} {out : List ℕ} (f : ℕ) → Emits s out t → length out < f → drain f s ≡ some (t, out)
unfolding drain
Emits-drain zero e h = absurd (omega arith)
Emits-drain (suc f) (done e) h = ground arith
Emits-drain (suc f) (more e r) h = ground (arith, Emits-drain f r (omega arith))

-- the bytes of `buf` from index `i` on begin with `d`
abbrev At : List ℕ → ℕ → List ℕ → Type 0
At buf i [] = Unit
At buf i (c ∷ d) = (get_or buf i 0 ≡ c) × At buf (suc i) d

At-cons : (x : ℕ) (buf : List ℕ) (i : ℕ) (d : List ℕ) → At buf i d → At (x ∷ buf) (suc i) d
At-cons x buf i [] h = tt
At-cons x buf i (c ∷ d) h = (h.0, At-cons x buf (suc i) d h.1)

At-take : (buf : List ℕ) (n : ℕ) → At buf 0 (take n buf)
At-take buf zero = tt
At-take [] (suc n) = tt
At-take (x ∷ buf) (suc n) = (refl, At-cons x buf 0 (take n buf) (At-take buf n))

-- The packet is under way and the bytes `d` of it are left.
record Sending (s : Zbus) (d : List ℕ) : Type 0 where
  no_escape : s.send_escape_data ≡ 0
  pending : s.zbus_txlen ≢ 0
  small : s.zbus_txlen < 65536
  left : s.zbus_index + length d ≡ s.zbus_txlen
  bytes : At s.zbus_buf s.zbus_index d

-- The node after the packet: it listens, the buffer is as it was, and it is released unless
-- somebody else is using it.
abbrev pub finished : Zbus → Zbus
finished s = record s {
  send_escape_data = 0;
  bus_blocked = 0;
  zbus_index = s.zbus_txlen;
  zbus_txlen = 0;
  zbus_rxlen = 0;
  mode = Mode.receiver;
  buf_lock = if s.others_active then s.buf_lock else 0;
}

Emits-trailer : (s : Zbus) → Sending s [] → Emits s trailer (finished s)
unfolding tx_vect
Emits-trailer s h =
    more {t = stopping} (ground arith) (more {t = stopped} (ground arith) (done (ground arith)))
  where
    stopped : Zbus
    stopped = record s {
      zbus_txlen = 0;
      send_escape_data = 0;
      buf_lock = if s.others_active then s.buf_lock else 0;
    }

    stopping : Zbus
    stopping = record stopped { send_escape_data = zbus_stop }

-- After one byte of the packet.
abbrev advanced : Zbus → Zbus
advanced s = record s { zbus_index = suc s.zbus_index; bus_blocked = 3 }

Emits-stuff :
    (s : Zbus) (c : ℕ) (d out : List ℕ) {t : Zbus}
    → Sending s (c ∷ d)
    → Emits (advanced s) out t
    → Emits s (stuff c ++ out) t
unfolding tx_vect stuff
Emits-stuff s c d out h e = elim (Bool-cases (c == backslash)) [
  | inl special ↦ rw special (
      more {t = record (advanced s) { send_escape_data = backslash }} (ground arith)
        (more {t = advanced s} (ground arith) e))
  | inr plain ↦ rw plain (more {t = advanced s} (ground arith) e)
]

Emits-packet : (d : List ℕ) (s : Zbus) → Sending s d → Emits s (escape d ++ trailer) (finished s)
unfolding escape
Emits-packet [] s h = Emits-trailer s h
Emits-packet (c ∷ d) s h =
    rw append_assoc (Emits-stuff s c d (escape d ++ trailer) h (Emits-packet d (advanced s) rest))
  where
    rest : Sending (advanced s) d
    rest = record {
      no_escape = h.no_escape;
      pending = h.pending;
      small = h.small;
      left = omega arith;
      bytes = h.bytes.1;
    }

-- Nothing is sent, nothing received and left unread, and nobody talks on the line.
pub record IsIdle (s : Zbus) : Type 0 where
  pub nothing_to_send : s.zbus_txlen ≡ 0
  pub nothing_received : s.zbus_rxlen ≡ 0
  pub line_free : s.bus_blocked ≡ 0

-- The state in which `zbus_txstart` leaves an idle node, once its `0` is out.
abbrev opened : ℕ → Zbus → Zbus
opened n s = record s {
  send_escape_data = 0;
  bus_blocked = 3;
  zbus_index = 0;
  zbus_txlen = n;
  mode = Mode.transmitter;
}

pub length-take : (n : ℕ) (buf : List ℕ) → n ≤ length buf → length (take n buf) ≡ n
length-take zero buf h = refl
length-take (suc n) [] h = omega arith
length-take (suc n) (x ∷ buf) h = omega (arith, length-take n buf)

txstart-opened :
    (n : ℕ) (s : Zbus)
    → IsIdle s
    → n < 65536
    → zbus_txstart n s ≡ (record (opened n s) { send_escape_data = zbus_start }, some backslash)
unfolding zbus_txstart
txstart-opened n s idle small = ground arith

tx_vect-opened :
    (n : ℕ) (s : Zbus)
    → tx_vect (record (opened n s) { send_escape_data = zbus_start })
      ≡ (opened n s, some zbus_start)
unfolding tx_vect
tx_vect-opened n s = ground arith

Sending-opened :
    (n : ℕ) (s : Zbus)
    → 0 < n
    → n < 65536
    → n ≤ length s.zbus_buf
    → Sending (opened n s) (take n s.zbus_buf)
Sending-opened n s pos small inside = record {
  no_escape = refl;
  pending = omega arith;
  small = small;
  left = omega (arith, length-take n s.zbus_buf inside);
  bytes = At-take s.zbus_buf n;
}

-- On an idle node, and with no other call in between, `zbus_txstart` with a positive size within the buffer, puts on the bus exactly
-- the frame of the first `size` bytes of the buffer, takes at most `2 * size + 4` interrupts for
-- it, and leaves the node listening, the buffer as it was, and released unless another part of the
-- firmware is using it.
pub broadcast-frame :
    (f n : ℕ) (s : Zbus)
    → IsIdle s
    → 0 < n
    → n < 65536
    → n ≤ length s.zbus_buf
    → 2 * n + 4 ≤ f
    → broadcast f n s ≡ some (finished (record s { zbus_txlen = n }), frame (take n s.zbus_buf))
unfolding broadcast frame
broadcast-frame f n s idle pos small inside fuel =
    ground (arith, txstart-opened n s idle small, Emits-drain f sent (omega (arith, short)))
  where
    sent :
        Emits
          (record (opened n s) { send_escape_data = zbus_start })
          (zbus_start ∷ (escape (take n s.zbus_buf) ++ trailer))
          (finished (opened n s))
    sent =
        more (tx_vect-opened n s)
          (Emits-packet (take n s.zbus_buf) (opened n s) (Sending-opened n s pos small inside))

    short : length (frame (take n s.zbus_buf)) ≤ 2 * n + 4
    short = omega (arith, length-frame (take n s.zbus_buf), length-take n s.zbus_buf inside)
