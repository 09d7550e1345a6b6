-- ===== src/Tftp.antt =====
-- The TFTP server, services/tftp/tftp-vfs.c, over the table of file modules: the state of its
-- connection (tftp_state.h) and the handler of a packet, whose steps between the labels that it jumps to
-- are functions of their own. A packet is the memory from the pointer to it up to the end of the
-- buffer, and the length that was received; the buffer has room for the largest reply. `none` is a
-- read beyond the buffer or a call of a file operation on NULL.
pub mod Files
pub mod Download
pub mod Upload
pub mod RoundTrip
pub mod Faults
pub mod Returns
mod Tests
use mathlib.Core.Option
use ir.Prelude.{
  ℕ, ◌+◌, ◌*◌, ◌/◌, ◌%◌, Bool, true, false, not, ◌||◌, Option, none, some, List, [], ◌∷◌, ◌++◌, ltb,
  leb, ◌==◌, if◌then◌else◌, length, take, drop,
}
use ir.Prelude.Words.{add16}
use ir.Vfs.Dispatch.{FileHandle, VfsFunc, vfs_open, vfs_create, vfs_read, vfs_write, vfs_close}

-- The connection: the peer, and the transfer.
pub record Connection (X : Type 0) : Type 0 where
  pub ripaddr : ℕ
  pub rport : ℕ
  pub fh : Option (FileHandle X)
  pub download : Bool
  pub finished : Bool
  pub transfered : ℕ

-- A packet that came in, and one that is sent.
pub record Packet : Type 0 where
  pub srcipaddr : ℕ
  pub srcport : ℕ
  pub datalen : ℕ
  pub appdata : List ℕ

pub record Datagram : Type 0 where
  pub destipaddr : ℕ
  pub destport : ℕ
  pub payload : List ℕ

-- What a packet leaves: the connection, what is sent, and the state of the file modules.
pub record Turn (X W : Type 0) : Type 0 where
  pub conn : Connection X
  pub sent : List Datagram
  pub files : W

abbrev pub all_ones_addr : ℕ
all_ones_addr = 4294967295

-- A word of 16 bits in network order, in a packet and on its way into one.
unfoldable pub word_at : List ℕ → Option ℕ
word_at [] = none
word_at (high ∷ []) = none
word_at (high ∷ low ∷ rest) = some (high * 256 + low)

unfoldable pub htons : ℕ → List ℕ
htons n = n / 256 % 256 ∷ n % 256 ∷ []

unfoldable pub udp_send : {X : Type 0} → Connection X → List ℕ → Datagram
udp_send c bytes = record { destipaddr = c.ripaddr; destport = c.rport; payload = bytes }

unfoldable pub data_sent : {X W : Type 0} → Connection X → List ℕ → W → Turn X W
data_sent c bytes w = record {
  conn = record c {
    finished = if ltb (length bytes) 512 then true else c.finished;
    transfered = add16 c.transfered 1;
  };
  sent = udp_send c (htons 3 ++ htons (add16 c.transfered 1) ++ bytes) ∷ [];
  files = w;
}

unfoldable pub sent_before : {X W : Type 0} → List Datagram → Turn X W → Turn X W
sent_before sent t = record t { sent = sent ++ t.sent }

module _ {X W : Type 0} (vfs_funcs : List (VfsFunc X W)) where
  -- What is left to send goes out before the peer is forgotten.
  unfoldable pub close_connection : Connection X → List Datagram → W → Option (Turn X W)
  close_connection c sent w =
      let reset = record c { ripaddr = all_ones_addr; rport = 0; fh = none } in
      elim c.fh [
        | none ↦ some (record { conn = reset; sent = sent; files = w })
        | some fh ↦
            Option.map (λ v. record { conn = reset; sent = sent; files = v })
              (vfs_close vfs_funcs fh w)
      ]

  unfoldable pub error_out : Connection X → W → Option (Turn X W)
  error_out c w = close_connection c (udp_send c (htons 5 ++ htons 0 ++ 0 ∷ []) ∷ []) w

  unfoldable pub send_data : Connection X → W → Option (Turn X W)
  send_data c w = if c.finished then close_connection c [] w else elim c.fh [
    | none ↦ none
    | some fh ↦ Option.map (λ r. data_sent c r.0 r.1) (vfs_read vfs_funcs fh 512 w)
  ]

  -- The connection at the start of a transfer.
  unfoldable pub start_download : Connection X → Option (FileHandle X) × W → Option (Turn X W)
  start_download c (none, w) =
      error_out (record c { download = true; transfered = 0; finished = false; fh = none }) w
  start_download c (some fh, w) =
      send_data (record c { download = true; transfered = 0; finished = false; fh = some fh }) w

  unfoldable pub read_request : Connection X → List ℕ → W → Option (Turn X W)
  read_request c raw w = start_download c (vfs_open vfs_funcs raw w)

  unfoldable pub acknowledgement : Connection X → ℕ → W → Option (Turn X W)
  acknowledgement c block w =
      if not c.download
      then error_out c w
      else if ltb block c.transfered || ltb (add16 c.transfered 1) block
      then error_out c w
      else send_data (record c { transfered = block }) w

  unfoldable pub send_ack : Connection X → ℕ → W → Option (Turn X W)
  send_ack c block w =
      let ack = udp_send c (htons 4 ++ htons block) ∷ [] in
      if c.finished
      then close_connection c ack w
      else some (record { conn = c; sent = ack; files = w })

  unfoldable pub start_upload : Connection X → Option (FileHandle X) × W → Option (Turn X W)
  start_upload c (none, w) =
      error_out (record c { download = false; transfered = 0; finished = false; fh = none }) w
  start_upload c (some fh, w) =
      send_ack (record c { download = false; transfered = 0; finished = false; fh = some fh }) 0 w

  unfoldable pub write_request : Connection X → List ℕ → W → Option (Turn X W)
  write_request c raw w = start_upload c (vfs_create vfs_funcs raw w)

  unfoldable pub data_stored : Connection X → ℕ → ℕ → ℕ × W → Option (Turn X W)
  data_stored c datalen block (n, w) =
      if n == 0
      then error_out c w
      else send_ack
          (record c { finished = if ltb datalen 516 then true else c.finished; transfered = block })
          block w

  -- The length of a packet shorter than its header wraps around.
  unfoldable pub store_data : Connection X → ℕ → ℕ → List ℕ → W → Option (Turn X W)
  store_data c datalen block raw w =
      let bytes = (datalen + 65532) % 65536 in
      elim c.fh [
        | none ↦ none
        | some fh ↦
            if leb (bytes + 2) (length raw)
            then Option.bind (vfs_write vfs_funcs fh (take bytes (drop 2 raw)) w)
                (data_stored c datalen block)
            else none
      ]

  unfoldable pub data_packet : Connection X → ℕ → ℕ → List ℕ → W → Option (Turn X W)
  data_packet c datalen block raw w =
      if c.download
      then error_out c w
      else if ltb block c.transfered
      then error_out c w
      else if block == c.transfered
      then send_ack c block w
      else if ltb (add16 c.transfered 1) block
      then error_out c w
      else store_data c datalen block raw w

  -- The connection takes its peer from the packet.
  unfoldable pub tftp_handle_packet : Packet → Connection X → W → Option (Turn X W)
  tftp_handle_packet p old w =
      let c = record old { ripaddr = p.srcipaddr; rport = p.srcport } in
      let raw = drop 2 p.appdata in
      Option.bind (word_at p.appdata) (λ type.
        if type == 1
        then read_request c raw w
        else if type == 4
        then Option.bind (word_at raw) (λ block. acknowledgement c block w)
        else if type == 2
        then write_request c raw w
        else if type == 3
        then Option.bind (word_at raw) (λ block. data_packet c p.datalen block raw w)
        else error_out c w)

  -- One packet after the other.
  unfoldable pub serve : List Packet → Connection X → W → Option (Turn X W)
  serve [] c w = some (record { conn = c; sent = []; files = w })
  serve (p ∷ packets) c w =
      Option.bind (tftp_handle_packet p c w)
        (λ t. Option.map (sent_before t.sent) (serve packets t.conn t.files))
