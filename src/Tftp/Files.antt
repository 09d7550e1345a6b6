-- ===== src/Tftp/Files.antt =====
-- The packets of a transfer on the wire (RFC 1350), and what services/tftp/tftp-vfs.c needs of the
-- file modules.
use mathlib.Core.Option
use ir.Prelude.{
  ℕ, zero, suc, ◌+◌, ◌*◌, ◌/◌, ◌%◌, ◌<◌, ◌≡◌, refl, ap, ap₂, some, none, List, [], ◌∷◌, ◌++◌,
  length, take, drop, arith,
}
use ir.Vfs.Dispatch.{FileHandle, VfsFunc, vfs_read, vfs_write, vfs_close}
use ir.Tftp.{
  Connection, Packet, Datagram, Turn, all_ones_addr, word_at, tftp_handle_packet, sent_before,
  serve, acknowledgement, data_packet, read_request, write_request,
}

unfoldable pub request : ℕ → List ℕ → List ℕ
request type name = 0 ∷ type ∷ name

unfoldable pub data_block : ℕ → List ℕ → List ℕ
data_block n bytes = 0 ∷ 3 ∷ n / 256 ∷ n % 256 ∷ bytes

unfoldable pub ack_of : ℕ → List ℕ
ack_of n = 0 ∷ 4 ∷ n / 256 ∷ n % 256 ∷ []

unfoldable pub error_packet : List ℕ
error_packet = 0 ∷ 5 ∷ 0 ∷ 0 ∷ 0 ∷ []

-- The data packets of a file, numbered from the first: all but the last have 512 bytes of it, and the
-- last has less.
pub data DataPackets : ℕ → List ℕ → List (List ℕ) → Type 0 where
  last_block :
      (n : ℕ) (bytes : List ℕ) → length bytes < 512 → DataPackets n bytes (data_block n bytes ∷ [])
  full_block :
      (n : ℕ) (block rest : List ℕ) (packets : List (List ℕ))
      → length block ≡ 512
      → DataPackets (suc n) rest packets
      → DataPackets n (block ++ rest) (data_block n block ∷ packets)

-- A module that reads a file in order: `left` is the rest to read.
pub record IsReader {X W : Type 0} (vfs_funcs : List (VfsFunc X W)) (s : FileHandle X)
    (left : W → List ℕ) : Type 0 where
  pub reads :
      (n : ℕ) (w : W)
      → (v : W) × (vfs_read vfs_funcs s n w ≡ some (take n (left w), v))
        × (left v ≡ drop n (left w))
  pub closes : (w : W) → (v : W) × (vfs_close vfs_funcs s w ≡ some v)

-- A module that writes a file in order: `stored` is what has been written.
pub record IsWriter {X W : Type 0} (vfs_funcs : List (VfsFunc X W)) (d : FileHandle X)
    (stored : W → List ℕ) : Type 0 where
  pub writes :
      (bytes : List ℕ) (w : W)
      → (v : W) × (vfs_write vfs_funcs d bytes w ≡ some (length bytes, v))
        × (stored v ≡ stored w ++ bytes)
  pub finishes : (w : W) → (v : W) × (vfs_close vfs_funcs d w ≡ some v) × (stored v ≡ stored w)

-- The connection waits for any peer, and has no file.
pub record IsReset {X : Type 0} (c : Connection X) : Type 0 where
  pub no_peer : c.ripaddr ≡ all_ones_addr
  pub no_port : c.rport ≡ 0
  pub no_file : c.fh ≡ none

-- A packet from a peer, in front of what the buffer holds behind it, and packets to this peer.
unfoldable pub arrived : ℕ → ℕ → List ℕ → List ℕ → Packet
arrived ip port behind bytes = record {
  srcipaddr = ip;
  srcport = port;
  datalen = length bytes;
  appdata = bytes ++ behind;
}

unfoldable pub from_peer : {X : Type 0} → ℕ → ℕ → Connection X → Connection X
from_peer ip port c = record c { ripaddr = ip; rport = port }

unfoldable pub replies : ℕ → ℕ → List (List ℕ) → List Datagram
replies ip port [] = []
replies ip port (bytes ∷ rest) =
    record { destipaddr = ip; destport = port; payload = bytes } ∷ replies ip port rest

unfoldable pub copies : ℕ → List ℕ → List (List ℕ)
copies zero p = []
copies (suc k) p = p ∷ copies k p

-- Each packet is sent again as often as `times` says for it.
unfoldable pub retransmit : (ℕ → ℕ) → List (List ℕ) → List (List ℕ)
retransmit times [] = []
retransmit times (p ∷ packets) = p ∷ (copies (times 0) p ++ retransmit (λ i. times (suc i)) packets)

-- The acknowledgement that carries the number of a data packet.
unfoldable pub ack_for : List ℕ → List ℕ
ack_for p = 0 ∷ 4 ∷ take 2 (drop 2 p)

unfoldable pub answers : List (List ℕ) → List (List ℕ)
answers [] = []
answers (p ∷ packets) = ack_for p ∷ answers packets

unfoldable pub arrive : ℕ → ℕ → List ℕ → List (List ℕ) → List Packet
arrive ip port behind [] = []
arrive ip port behind (p ∷ packets) = arrived ip port behind p ∷ arrive ip port behind packets

word : (n : ℕ) → n / 256 * 256 + n % 256 ≡ n
word n = omega arith

module _ {X W : Type 0} (vfs_funcs : List (VfsFunc X W)) (ip port : ℕ) (behind : List ℕ)
    (c : Connection X) (w : W) where
  pub tftp_handle_packet_ack :
      (n : ℕ)
      → tftp_handle_packet vfs_funcs (arrived ip port behind (ack_of n)) c w
        ≡ acknowledgement vfs_funcs (from_peer ip port c) n w
  unfolding tftp_handle_packet word_at Option.bind arrived from_peer ack_of
  tftp_handle_packet_ack n =
      ap (λ k. acknowledgement vfs_funcs (record c { ripaddr = ip; rport = port }) k w) (word n)

  pub tftp_handle_packet_data :
      (n : ℕ) (bytes : List ℕ)
      → tftp_handle_packet vfs_funcs (arrived ip port behind (data_block n bytes)) c w
        ≡ data_packet vfs_funcs
            (from_peer ip port c)
            (4 + length bytes)
            n
            (n / 256 ∷ n % 256 ∷ bytes ++ behind)
            w
  unfolding tftp_handle_packet word_at Option.bind arrived from_peer data_block
  tftp_handle_packet_data n bytes =
      ap₂
        (λ size k.
          data_packet vfs_funcs (record c { ripaddr = ip; rport = port }) size k
            (n / 256 ∷ n % 256 ∷ bytes ++ behind) w)
        {x = length (data_block n bytes)} (omega arith) (word n)

  pub tftp_handle_packet_read :
      (name : List ℕ)
      → tftp_handle_packet vfs_funcs (arrived ip port behind (request 1 name)) c w
        ≡ read_request vfs_funcs (from_peer ip port c) (name ++ behind) w
  unfolding tftp_handle_packet word_at Option.bind arrived from_peer request
  tftp_handle_packet_read name = refl

  pub tftp_handle_packet_write :
      (name : List ℕ)
      → tftp_handle_packet vfs_funcs (arrived ip port behind (request 2 name)) c w
        ≡ write_request vfs_funcs (from_peer ip port c) (name ++ behind) w
  unfolding tftp_handle_packet word_at Option.bind arrived from_peer request
  tftp_handle_packet_write name = refl

  pub serve_next :
      (p : Packet) (packets : List Packet) (t u : Turn X W)
      → tftp_handle_packet vfs_funcs p c w ≡ some t
      → serve vfs_funcs packets t.conn t.files ≡ some u
      → serve vfs_funcs (p ∷ packets) c w ≡ some (sent_before t.sent u)
  unfolding serve Option.bind
  serve_next p packets t u handled served = rw (handled, Option.bind) (rw (served, Option.map) refl)
