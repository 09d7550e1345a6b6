-- ===== src/Zbus/Inv.antt =====
-- What every sequence of calls and interrupts keeps.
use ir.Prelude.{ℕ, ◌<◌, ◌≤◌, ◌≡◌, ◌⊎◌, Bool, arith, length, set, length-set}
use ir.Zbus.{
  Zbus, zbus_txstart, zbus_rxstart, zbus_core_init, zbus_core_periodic, tx_vect, rx_vect,
  append_data, receive_start, receive_stop, receive_escaped,
}

-- The buffer has `room` bytes, the three positions lie in it, and a packet is never both sent and
-- received.
pub record IsValid (room : ℕ) (s : Zbus) : Type 0 where
  pub size : length s.zbus_buf ≡ room
  pub index_in : s.zbus_index ≤ room
  pub tx_in : s.zbus_txlen ≤ room
  pub rx_in : s.zbus_rxlen ≤ room
  pub one_way : (s.zbus_txlen ≡ 0) ⊎ (s.zbus_rxlen ≡ 0)

module _ {room : ℕ} {s : Zbus} (small : room < 65536) (v : IsValid room s) where
  pub txstart-IsValid : (size : ℕ) → size ≤ room → IsValid room (zbus_txstart size s).0
  unfolding zbus_txstart
  txstart-IsValid size h = ground arith

  pub rxstart-IsValid : IsValid room (zbus_rxstart s)
  unfolding zbus_rxstart
  rxstart-IsValid = ground arith

  pub periodic-IsValid : IsValid room (zbus_core_periodic s).0
  unfolding zbus_core_periodic
  periodic-IsValid = ground arith

  pub tx_vect-IsValid : IsValid room (tx_vect s).0
  unfolding tx_vect
  tx_vect-IsValid = ground arith

  append_data-IsValid : (byte : ℕ) → IsValid room (append_data room byte s)
  unfolding append_data
  append_data-IsValid byte = ground (arith, length-set s.zbus_buf s.zbus_index byte)

  receive_start-IsValid : IsValid room (receive_start s)
  unfolding receive_start
  receive_start-IsValid = ground arith

  -- The receiver stops only where nothing is being sent.
  receive_stop-IsValid : s.zbus_txlen ≡ 0 → IsValid room (receive_stop s).0
  unfolding receive_stop
  receive_stop-IsValid h = ground arith

  pub store-IsValid : (i byte : ℕ) → IsValid room (record s { zbus_buf = set s.zbus_buf i byte })
  store-IsValid i byte = ground (arith, length-set s.zbus_buf i byte)

module _ {room : ℕ} {s : Zbus} (small : room < 65536) (v : IsValid room s) where
  receive_escaped-IsValid :
      (byte : ℕ) → s.zbus_txlen ≡ 0 → IsValid room (receive_escaped room byte s).0
  unfolding receive_escaped
  receive_escaped-IsValid byte h =
      let t : Zbus = record s { recv_escape_data = 0 } in
      let w : IsValid room t = record {
        size = v.size;
        index_in = v.index_in;
        tx_in = v.tx_in;
        rx_in = v.rx_in;
        one_way = v.one_way;
      } in
      ground (
        arith,
        append_data-IsValid small w byte,
        receive_start-IsValid small w,
        receive_stop-IsValid small w h,
      )

  pub rx_vect-IsValid : (error : Bool) (byte : ℕ) → IsValid room (rx_vect room error byte s).0
  unfolding rx_vect
  rx_vect-IsValid error byte =
      ground (arith, append_data-IsValid small v byte, receive_escaped-IsValid byte)

-- One call or interrupt, at any time and in any order; `store` is a write of the code that prepares
-- a packet. `zbus_txstart` does not check its argument, so its callers must.
pub data Step (room : ℕ) : Zbus → Zbus → Type 0 where
  txstart : (s : Zbus) (size : ℕ) → size ≤ room → Step room s (zbus_txstart size s).0
  rxstart : (s : Zbus) → Step room s (zbus_rxstart s)
  periodic : (s : Zbus) → Step room s (zbus_core_periodic s).0
  transmitted : (s : Zbus) → Step room s (tx_vect s).0
  received : (s : Zbus) (error : Bool) (byte : ℕ) → Step room s (rx_vect room error byte s).0
  store : (s : Zbus) (i byte : ℕ) → Step room s (record s { zbus_buf = set s.zbus_buf i byte })

pub data Reach (room : ℕ) (s : Zbus) : Zbus → Type 0 where
  here : Reach room s s
  next : {t u : Zbus} → Reach room s t → Step room t u → Reach room s u

Step-IsValid :
    {room : ℕ} {s t : Zbus} → room < 65536 → Step room s t → IsValid room s → IsValid room t
Step-IsValid small (txstart s size h) v = txstart-IsValid small v size h
Step-IsValid small (rxstart s) v = rxstart-IsValid small v
Step-IsValid small (periodic s) v = periodic-IsValid small v
Step-IsValid small (transmitted s) v = tx_vect-IsValid small v
Step-IsValid small (received s error byte) v = rx_vect-IsValid small v error byte
Step-IsValid small (store s i byte) v = store-IsValid small v i byte

Reach-keeps :
    {room : ℕ} {s t : Zbus} → room < 65536 → IsValid room s → Reach room s t → IsValid room t
Reach-keeps small v here = v
Reach-keeps small v (next r st) = Step-IsValid small st (Reach-keeps small v r)

init-IsValid : {room : ℕ} (s : Zbus) → length s.zbus_buf ≡ room → IsValid room (zbus_core_init s)
unfolding zbus_core_init
init-IsValid s h = ground arith

-- After `zbus_core_init` on a buffer of `room` bytes, `room` below 2 ^ 16, every sequence of calls
-- and interrupts, the sizes given to `zbus_txstart` at most `room`, keeps the buffer's size, keeps
-- the index and both lengths within it, and never has a packet to send beside one received.
pub Reach-IsValid :
    {room : ℕ} (s : Zbus) {t : Zbus}
    → room < 65536
    → length s.zbus_buf ≡ room
    → Reach room (zbus_core_init s) t
    → IsValid room t
Reach-IsValid s small h r = Reach-keeps small (init-IsValid s h) r
