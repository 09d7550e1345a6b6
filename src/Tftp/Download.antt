-- ===== src/Tftp/Download.antt =====
-- A download from services/tftp/tftp-vfs.c: a read request, and an acknowledgement of each block.
use mathlib.Core.Option
use mathlib.Core.Path.{subst}
use ir.Prelude.{
  ℕ, zero, suc, ◌+◌, ◌-◌, ◌*◌, ◌/◌, ◌%◌, ◌<◌, ◌≤◌, ◌≡◌, refl, ap, ◌∙◌, inl, inr, Bool, true, false,
  some, none, List, [], ◌∷◌, ◌++◌, ltb, ◌||◌, if◌then◌else◌, length, take, drop, arith, Bool-cases,
  length-take, length-drop, take-append-drop, take_over, drop_over,
}
use ir.Prelude.Words.{add16}
use ir.Vfs.Dispatch.{FileHandle, VfsFunc, vfs_open, vfs_read, vfs_close}
use ir.Tftp.{
  Connection, Packet, Turn, all_ones_addr, htons, close_connection, data_sent, send_data,
  read_request, start_download, acknowledgement, tftp_handle_packet, sent_before, serve, udp_send,
}
use ir.Tftp.Files.{
  request, data_block, ack_of, DataPackets, last_block, full_block, IsReader, IsReset, arrived,
  replies, from_peer, tftp_handle_packet_ack, tftp_handle_packet_read, serve_next,
}

-- The acknowledgements of `count` blocks in order.
unfoldable pub acks : ℕ → ℕ → ℕ → ℕ → List ℕ → List Packet
acks zero n ip port behind = []
acks (suc count) n ip port behind =
    arrived ip port behind (ack_of n) ∷ acks count (suc n) ip port behind

module _ {X W : Type 0} (vfs_funcs : List (VfsFunc X W)) (s : FileHandle X) (ip port : ℕ)
    (behind : List ℕ) where
  -- The connection in a download, with the last block sent as the flag tells.
  abbrev sending : ℕ → Bool → Connection X
  sending n finished = record {
    ripaddr = ip;
    rport = port;
    fh = some s;
    download = true;
    finished = finished;
    transfered = n;
  }

  kept_flag : (b : Bool) → (if b then true else false) ≡ b
  kept_flag true = refl
  kept_flag false = refl

  in_order : (n : ℕ) → suc n < 65536 → (ltb n n || ltb (add16 n 1) n) ≡ false
  in_order n small = ground arith

  abbrev block_turn : ℕ → List ℕ → Bool → W → Turn X W
  block_turn n bytes finished v = record {
    conn = sending (suc n) finished;
    sent = replies ip port (data_block (suc n) bytes ∷ []);
    files = v;
  }

  abbrev closed_turn : ℕ → W → Turn X W
  closed_turn n v = record {
    conn = record (sending n true) { ripaddr = all_ones_addr; rport = 0; fh = none };
    sent = [];
    files = v;
  }

  -- A block is sent.
  send_data_lem :
      (n : ℕ) (w v : W) (bytes : List ℕ)
      → suc n < 65536
      → vfs_read vfs_funcs s 512 w ≡ some (bytes, v)
      → send_data vfs_funcs (sending n false) w
        ≡ some (block_turn n bytes (ltb (length bytes) 512) v)
  unfolding send_data data_sent udp_send htons replies data_block Option.bind
  send_data_lem n w v bytes small run =
      let next : add16 n 1 ≡ suc n = omega arith in
      let high : suc n / 256 % 256 ≡ suc n / 256 = omega arith in
      rw (run, Option.bind) (rw next (rw high (rw (kept_flag (ltb (length bytes) 512)) refl)))

  -- The acknowledgement of a full block asks for the next.
  ack_next :
      (n : ℕ) (w : W)
      → suc n < 65536
      → tftp_handle_packet vfs_funcs (arrived ip port behind (ack_of n)) (sending n false) w
        ≡ send_data vfs_funcs (sending n false) w
  unfolding acknowledgement from_peer
  ack_next n w small =
      tftp_handle_packet_ack vfs_funcs ip port behind (sending n false) w n
      ∙ rw (in_order n small) refl

  -- The acknowledgement of the last block closes the file.
  ack_last :
      (n : ℕ) (w v : W)
      → suc n < 65536
      → vfs_close vfs_funcs s w ≡ some v
      → tftp_handle_packet vfs_funcs (arrived ip port behind (ack_of n)) (sending n true) w
        ≡ some (closed_turn n v)
  unfolding acknowledgement from_peer send_data close_connection Option.bind
  ack_last n w v small closed =
      tftp_handle_packet_ack vfs_funcs ip port behind (sending n true) w n
      ∙ rw (in_order n small) (rw (closed, Option.bind) refl)

  read_request_opened :
      (old : Connection X) (raw : List ℕ) (w v : W)
      → vfs_open vfs_funcs raw w ≡ (some s, v)
      → read_request vfs_funcs (from_peer ip port old) raw w
        ≡ send_data vfs_funcs (sending 0 false) v
  unfolding read_request start_download from_peer
  read_request_opened old raw w v opened =
      ap (start_download vfs_funcs (from_peer ip port old)) opened

  module _ (left : W → List ℕ) (io : IsReader vfs_funcs s left) where
    -- The block behind `n` is sent, and acknowledged, and so on to the end.
    abbrev Sends : ℕ → W → Type 0
    Sends n w =
        (t : Turn X W) × (u : Turn X W) × (packets : List (List ℕ)) × (send_data vfs_funcs
            (sending n false) w
          ≡ some t)
        × (serve vfs_funcs (acks (length (left w) / 512 + 1) (suc n) ip port behind) t.conn t.files
            ≡ some u)
        × IsReset u.conn
        × DataPackets (suc n) (left w) packets
        × (t.sent ++ u.sent ≡ replies ip port packets)
        × ((z : W) × (left z ≡ []) × (vfs_close vfs_funcs s z ≡ some u.files))

    send_last : (n : ℕ) (w : W) → suc (suc n) < 65536 → length (left w) < 512 → Sends n w
    unfolding acks serve Option.bind sent_before replies
    send_last n w small last =
        let (v, run, rest) = io.reads 512 w in
        let (u, closed) = io.closes v in
        let whole = take_over 512 (left w) (omega arith) in
        let size : length (take 512 (left w)) < 512 = omega (arith, ap length whole) in
        let one : length (left w) / 512 + 1 ≡ 1 = omega arith in
        let flag : ltb (length (take 512 (left w))) 512 ≡ true = ground (arith, size) in
        let t = block_turn n (take 512 (left w)) true v in
        let served : serve vfs_funcs (acks 1 (suc n) ip port behind) t.conn t.files
            ≡ some (closed_turn (suc n) u) =
          serve_next vfs_funcs ip port behind t.conn v (arrived ip port behind (ack_of (suc n))) []
            (closed_turn (suc n) u) (closed_turn (suc n) u) (ack_last (suc n) v u small closed)
            refl in
        (
          t,
          closed_turn (suc n) u,
          data_block (suc n) (take 512 (left w)) ∷ [],
          send_data_lem n w v (take 512 (left w)) (omega arith) run
              ∙ ap (λ b. some (block_turn n (take 512 (left w)) b v)) flag,
          ap (λ k. serve vfs_funcs (acks k (suc n) ip port behind) t.conn v) one ∙ served,
          record { no_peer = refl; no_port = refl; no_file = refl },
          subst (λ b. DataPackets (suc n) b (data_block (suc n) (take 512 (left w)) ∷ [])) whole
              (last_block (suc n) (take 512 (left w)) size),
          refl,
          (v, rest ∙ drop_over 512 (left w) (omega arith), closed),
        )

    send_full :
        (n : ℕ) (w v : W)
        → suc (suc n) < 65536
        → 512 ≤ length (left w)
        → vfs_read vfs_funcs s 512 w ≡ some (take 512 (left w), v)
        → left v ≡ drop 512 (left w)
        → Sends (suc n) v
        → Sends n w
    unfolding acks replies sent_before
    send_full n w v small full run rest
          (t, u, packets, sent, served, reset, data_packets, replied, last) =
        let size : length (take 512 (left w)) ≡ 512 = omega (arith, length-take 512 (left w)) in
        let count : length (left w) / 512 + 1 ≡ suc (length (left v) / 512 + 1) =
          omega (arith, ap length rest, length-drop 512 (left w)) in
        let flag : ltb (length (take 512 (left w))) 512 ≡ false = ground (arith, size) in
        let first = block_turn n (take 512 (left w)) false v in
        (
          first,
          sent_before t.sent u,
          data_block (suc n) (take 512 (left w)) ∷ packets,
          send_data_lem n w v (take 512 (left w)) (omega arith) run
              ∙ ap (λ b. some (block_turn n (take 512 (left w)) b v)) flag,
          ap (λ k. serve vfs_funcs (acks k (suc n) ip port behind) first.conn v) count
              ∙ serve_next vfs_funcs ip port behind first.conn v
                  (arrived ip port behind (ack_of (suc n)))
                  (acks (length (left v) / 512 + 1) (suc (suc n)) ip port behind) t u
                  (ack_next (suc n) v small ∙ sent) served,
          record { no_peer = reset.no_peer; no_port = reset.no_port; no_file = reset.no_file },
          subst (λ b. DataPackets (suc n) b (data_block (suc n) (take 512 (left w)) ∷ packets))
              (ap (λ r. take 512 (left w) ++ r) rest ∙ take-append-drop 512 (left w))
              (full_block (suc n) (take 512 (left w)) (left v) packets size data_packets),
          ap
              (λ r.
                record {
                  destipaddr = ip;
                  destport = port;
                  payload = data_block (suc n) (take 512 (left w));
                }
                ∷ r)
              replied,
          last,
        )

    send_all :
        (fuel n : ℕ) (w : W)
        → length (left w) / 512 < fuel
        → n + length (left w) / 512 + 2 < 65536
        → Sends n w
    send_all zero n w enough small = absurd (omega arith)
    send_all (suc fuel) n w enough small = elim (Bool-cases (ltb (length (left w)) 512)) [
      | inl last ↦ send_last n w (omega arith) (ground arith)
      | inr full ↦
          let (v, run, rest) = io.reads 512 w in
          let le : 512 ≤ length (left w) = ground arith in
          let shorter : length (left v) ≡ length (left w) - 512 =
            omega (arith, ap length rest, length-drop 512 (left w)) in
          send_full n w v (omega arith) le run rest
            (send_all fuel (suc n) v (omega arith) (omega arith))
    ]

    -- A read request for a file, which a module gives and reads in order, of a size for which the
    -- block numbers suffice, and the acknowledgement of each block: the replies are the data packets
    -- of the whole file, to the client. What is left
    -- of the files is what closing this file makes of them once all of it has been read, and the
    -- connection waits for any peer.
    pub serve-DataPackets :
        (name : List ℕ) (old : Connection X) (w v : W)
        → vfs_open vfs_funcs (name ++ behind) w ≡ (some s, v)
        → length (left v) < 65534 * 512
        → (t : Turn X W) × (packets : List (List ℕ)) × (serve vfs_funcs
              (arrived ip port behind (request 1 name)
                ∷ acks (length (left v) / 512 + 1) 1 ip port behind)
              old
              w
            ≡ some t)
          × (t.sent ≡ replies ip port packets)
          × DataPackets 1 (left v) packets
          × IsReset t.conn
          × ((z : W) × (left z ≡ []) × (vfs_close vfs_funcs s z ≡ some t.files))
    unfolding sent_before
    serve-DataPackets name old w v opened size =
        let (t, u, packets, sent, served, reset, data_packets, replied, last) =
          send_all (length (left v) / 512 + 1) 0 v (omega arith) (omega arith) in
        (
          sent_before t.sent u,
          packets,
          serve_next vfs_funcs ip port behind old w (arrived ip port behind (request 1 name))
              (acks (length (left v) / 512 + 1) 1 ip port behind) t u
              (tftp_handle_packet_read vfs_funcs ip port behind old w name
                ∙ read_request_opened old (name ++ behind) w v opened
                ∙ sent)
              served,
          replied,
          data_packets,
          record { no_peer = reset.no_peer; no_port = reset.no_port; no_file = reset.no_file },
          last,
        )
