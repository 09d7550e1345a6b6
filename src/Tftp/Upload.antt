-- ===== src/Tftp/Upload.antt =====
-- An upload to services/tftp/tftp-vfs.c: a write request and data packets, with retransmissions.
use mathlib.Core.Option
use mathlib.Core.Path.{subst}
use ir.Prelude.{
  ℕ, zero, suc, ◌+◌, ◌/◌, ◌%◌, ◌<◌, ◌≤◌, ◌≡◌, refl, ap, ◌∙◌, ◌≢◌, true, false, some, none, List, [],
  ◌∷◌, ◌++◌, ltb, leb, ◌==◌, length, arith, length-append, append_assoc,
}
use ir.Prelude.Words.{add16}
use ir.Prelude.Strings.{take-append}
use ir.Vfs.Dispatch.{FileHandle, VfsFunc, vfs_create, vfs_write, vfs_close}
use ir.Tftp.{
  Connection, Turn, all_ones_addr, htons, close_connection, send_ack, error_out, start_upload,
  write_request, data_packet, store_data, data_stored, tftp_handle_packet, sent_before, serve,
  udp_send,
}
use ir.Tftp.Files.{
  request, data_block, ack_of, error_packet, DataPackets, last_block, full_block, IsWriter, IsReset,
  arrived, replies, from_peer, copies, retransmit, ack_for, answers, arrive,
  tftp_handle_packet_data, tftp_handle_packet_write, serve_next,
}

module _ {X W : Type 0} (vfs_funcs : List (VfsFunc X W)) (d : FileHandle X) (ip port : ℕ)
    (behind : List ℕ) where
  abbrev receiving : ℕ → Connection X
  receiving n = record {
    ripaddr = ip;
    rport = port;
    fh = some d;
    download = false;
    finished = false;
    transfered = n;
  }

  abbrev stored_all : ℕ → Connection X
  stored_all n = record {
    ripaddr = all_ones_addr;
    rport = 0;
    fh = none;
    download = false;
    finished = true;
    transfered = n;
  }

  abbrev acked_turn : ℕ → Connection X → W → Turn X W
  acked_turn n c w = record { conn = c; sent = replies ip port (ack_of n ∷ []); files = w }

  next_block :
      (n : ℕ)
      → suc n < 65536
      → (ltb (suc n) n ≡ false) × ((suc n == n) ≡ false) × (ltb (add16 n 1) (suc n) ≡ false)
  next_block n small = (ground arith, ground arith, ground arith)

  this_block : (n : ℕ) → (ltb n n ≡ false) × ((n == n) ≡ true)
  this_block n = (ground arith, ground arith)

  high_byte : (n : ℕ) → n < 65536 → n / 256 % 256 ≡ n / 256
  high_byte n small = omega arith

  -- A block that follows the last one is stored.
  data_packet_next :
      (n : ℕ) (bytes : List ℕ) (w v : W)
      → suc n < 65536
      → length bytes ≤ 512
      → vfs_write vfs_funcs d bytes w ≡ some (length bytes, v)
      → tftp_handle_packet vfs_funcs
          (arrived ip port behind (data_block (suc n) bytes))
          (receiving n)
          w
        ≡ data_stored vfs_funcs (receiving n) (4 + length bytes) (suc n) (length bytes, v)
  unfolding data_packet store_data from_peer Option.bind
  data_packet_next n bytes w v small size written =
      let (late, same, early) = next_block n small in
      let count : (4 + length bytes + 65532) % 65536 ≡ length bytes = omega arith in
      let inside : leb (length bytes + 2) (suc (suc (length (bytes ++ behind)))) ≡ true =
        ground (arith, length-append bytes behind) in
      tftp_handle_packet_data vfs_funcs ip port behind (receiving n) w (suc n) bytes
      ∙ rw late (
          rw same (
            rw early (
              rw count
                (rw inside (rw (take-append bytes behind) (rw (written, Option.bind) refl))))))

  -- What is sent again is acknowledged again.
  data_packet_again :
      (n : ℕ) (bytes : List ℕ) (w : W)
      → n < 65536
      → tftp_handle_packet vfs_funcs (arrived ip port behind (data_block n bytes)) (receiving n) w
        ≡ some (acked_turn n (receiving n) w)
  unfolding data_packet from_peer send_ack udp_send htons replies ack_of
  data_packet_again n bytes w small =
      tftp_handle_packet_data vfs_funcs ip port behind (receiving n) w n bytes
      ∙ rw (this_block n).0 (rw (this_block n).1 (rw (high_byte n small) refl))

  data_packet_after :
      (n : ℕ) (bytes : List ℕ) (w : W)
      → n < 65536
      → tftp_handle_packet vfs_funcs (arrived ip port behind (data_block n bytes)) (stored_all n) w
        ≡ some (acked_turn n (stored_all n) w)
  unfolding data_packet from_peer send_ack close_connection udp_send htons replies ack_of
  data_packet_after n bytes w small =
      tftp_handle_packet_data vfs_funcs ip port behind (stored_all n) w n bytes
      ∙ rw (this_block n).0 (rw (this_block n).1 (rw (high_byte n small) refl))

  data_stored_full :
      (n : ℕ) (v : W)
      → suc n < 65536
      → data_stored vfs_funcs (receiving n) 516 (suc n) (512, v)
        ≡ some (acked_turn (suc n) (receiving (suc n)) v)
  unfolding data_stored send_ack udp_send htons replies ack_of
  data_stored_full n v small = rw (high_byte (suc n) small) refl

  data_stored_last :
      (n size : ℕ) (v u : W)
      → suc n < 65536
      → 0 < size
      → size < 512
      → vfs_close vfs_funcs d v ≡ some u
      → data_stored vfs_funcs (receiving n) (4 + size) (suc n) (size, v)
        ≡ some (acked_turn (suc n) (stored_all (suc n)) u)
  unfolding data_stored send_ack close_connection udp_send htons replies ack_of Option.bind
  data_stored_last n size v u small some_bytes last closed =
      let some_stored : (size == 0) ≡ false = ground arith in
      let short : ltb (4 + size) 516 ≡ true = ground arith in
      rw some_stored (rw short (rw (closed, Option.bind) (rw (high_byte (suc n) small) refl)))

  module _ (stored : W → List ℕ) (io : IsWriter vfs_funcs d stored) where
    -- The packets bring what is stored to `content`, each is acknowledged, and the connection is reset.
    -- What is left of the files is what closing this one makes of them.
    abbrev Stores : List ℕ → Connection X → W → List (List ℕ) → Type 0
    Stores content c w packets =
        (t : Turn X W) × (serve vfs_funcs (arrive ip port behind packets) c w ≡ some t)
        × (stored t.files ≡ content)
        × (t.sent ≡ replies ip port (answers packets))
        × IsReset t.conn
        × ((z : W) × (stored z ≡ content) × (vfs_close vfs_funcs d z ≡ some t.files))

    next-Stores :
        (n : ℕ) (bytes content : List ℕ) (c after : Connection X) (w v : W)
        (packets : List (List ℕ))
        → tftp_handle_packet vfs_funcs (arrived ip port behind (data_block n bytes)) c w
          ≡ some (acked_turn n after v)
        → Stores content after v packets
        → Stores content c w (data_block n bytes ∷ packets)
    unfolding arrive sent_before replies answers ack_for data_block ack_of
    next-Stores n bytes content c after w v packets handled (t, served, same, sent, reset, last) = (
      sent_before (replies ip port (ack_of n ∷ [])) t,
      serve_next vfs_funcs ip port behind c w (arrived ip port behind (data_block n bytes))
          (arrive ip port behind packets) (acked_turn n after v) t handled served,
      same,
      ap (λ r. record { destipaddr = ip; destport = port; payload = ack_of n } ∷ r) sent,
      record { no_peer = reset.no_peer; no_port = reset.no_port; no_file = reset.no_file },
      last,
    )

    copies-Stores :
        (k n : ℕ) (bytes content : List ℕ) (c : Connection X) (w : W) (packets : List (List ℕ))
        → tftp_handle_packet vfs_funcs (arrived ip port behind (data_block n bytes)) c w
          ≡ some (acked_turn n c w)
        → Stores content c w packets
        → Stores content c w (copies k (data_block n bytes) ++ packets)
    unfolding copies
    copies-Stores zero n bytes content c w packets handled stores = stores
    copies-Stores (suc k) n bytes content c w packets handled stores =
        next-Stores n bytes content c c w w (copies k (data_block n bytes) ++ packets) handled
          (copies-Stores k n bytes content c w packets handled stores)

    -- Data packets with the last one not empty, each sent once or more often.
    retransmit-Stores :
        (n : ℕ) (content : List ℕ) (packets : List (List ℕ)) (times : ℕ → ℕ) (w : W)
        → DataPackets (suc n) content packets
        → length content % 512 ≢ 0
        → n + length packets < 65536
        → Stores (stored w ++ content) (receiving n) w (retransmit times packets)
    unfolding retransmit arrive serve answers replies
    retransmit-Stores n content packets times w (last_block m bytes last) some_bytes small =
        let (v, written, appended) = io.writes bytes w in
        let (u, closed, same) = io.finishes v in
        next-Stores (suc n) bytes (stored w ++ bytes) (receiving n) (stored_all (suc n)) w u
          (copies (times 0) (data_block (suc n) bytes) ++ [])
          (data_packet_next n bytes w v (omega arith) (omega arith) written
            ∙ data_stored_last n (length bytes) v u (omega arith) (omega arith) last closed)
          (copies-Stores (times 0) (suc n) bytes (stored w ++ bytes) (stored_all (suc n)) u []
            (data_packet_after (suc n) bytes u (omega arith))
            (
              record { conn = stored_all (suc n); sent = []; files = u },
              refl,
              same ∙ appended,
              refl,
              record { no_peer = refl; no_port = refl; no_file = refl },
              (v, appended, closed),
            ))
    retransmit-Stores n content packets times w (full_block m block rest others full next)
          some_bytes small =
        let (v, written, appended) = io.writes block w in
        let others_bytes : length rest % 512 ≢ 0 =
          (λ none_left. some_bytes (omega (arith, none_left, full, length-append block rest))) in
        let stores =
          retransmit-Stores (suc n) rest others (λ i. times (suc i)) v next others_bytes
            (omega arith) in
        let whole = ap (λ r. r ++ rest) appended ∙ append_assoc (stored w) block rest in
        let after =
          copies (times 0) (data_block (suc n) block) ++ retransmit (λ i. times (suc i)) others in
        subst (λ all. Stores all (receiving n) w (data_block (suc n) block ∷ after)) whole
          (next-Stores (suc n) block (stored v ++ rest) (receiving n) (receiving (suc n)) w v after
            (data_packet_next n block w v (omega arith) (omega arith) written
              ∙ ap (λ size. data_stored vfs_funcs (receiving n) (4 + size) (suc n) (size, v)) full
              ∙ data_stored_full n v (omega arith))
            (copies-Stores (times 0) (suc n) block (stored v ++ rest) (receiving (suc n)) v
              (retransmit (λ i. times (suc i)) others)
              (data_packet_again (suc n) block v (omega arith)) stores))

    write_request_created :
        (name : List ℕ) (old : Connection X) (w v : W)
        → vfs_create vfs_funcs (name ++ behind) w ≡ (some d, v)
        → tftp_handle_packet vfs_funcs (arrived ip port behind (request 2 name)) old w
          ≡ some (acked_turn 0 (receiving 0) v)
    unfolding write_request start_upload from_peer send_ack udp_send htons replies ack_of
    write_request_created name old w v created =
        tftp_handle_packet_write vfs_funcs ip port behind old w name
        ∙ ap (start_upload vfs_funcs (from_peer ip port old)) created

    -- A write request for a file, which a module creates and writes in order, and its data packets,
    -- each sent once or more often, with the last one not empty and fewer than 65536 of them: the
    -- content is stored behind what the module held, once. Each packet gets the acknowledgement of its
    -- own number. What is left of the files is what closing this file makes of them once the whole
    -- content has been stored, and the connection waits for any peer.
    pub serve-Stores :
        (name content : List ℕ) (packets : List (List ℕ)) (times : ℕ → ℕ) (old : Connection X)
        (w v : W)
        → vfs_create vfs_funcs (name ++ behind) w ≡ (some d, v)
        → DataPackets 1 content packets
        → length content % 512 ≢ 0
        → length packets < 65536
        → (t : Turn X W) × (serve vfs_funcs
              (arrived ip port behind (request 2 name)
                ∷ arrive ip port behind (retransmit times packets))
              old
              w
            ≡ some t)
          × (stored t.files ≡ stored v ++ content)
          × (t.sent ≡ replies ip port (ack_of 0 ∷ answers (retransmit times packets)))
          × IsReset t.conn
          × ((z : W) × (stored z ≡ stored v ++ content) × (vfs_close vfs_funcs d z ≡ some t.files))
    unfolding sent_before replies
    serve-Stores name content packets times old w v created data_packets some_bytes small =
        let (t, served, same, sent, reset, last) =
          retransmit-Stores 0 content packets times v data_packets some_bytes (omega arith) in
        (
          sent_before (replies ip port (ack_of 0 ∷ [])) t,
          serve_next vfs_funcs ip port behind old w (arrived ip port behind (request 2 name))
              (arrive ip port behind (retransmit times packets)) (acked_turn 0 (receiving 0) v) t
              (write_request_created name old w v created) served,
          same,
          ap (λ r. record { destipaddr = ip; destport = port; payload = ack_of 0 } ∷ r) sent,
          record { no_peer = reset.no_peer; no_port = reset.no_port; no_file = reset.no_file },
          last,
        )

  -- The data packet without bytes that ends an upload whose size is a multiple of 512: nothing is
  -- wrong with it, and the reply is an error.
  pub tftp_handle_packet_empty :
      (n : ℕ) (w v u : W)
      → suc n < 65536
      → vfs_write vfs_funcs d [] w ≡ some (0, v)
      → vfs_close vfs_funcs d v ≡ some u
      → tftp_handle_packet vfs_funcs
          (arrived ip port behind (data_block (suc n) []))
          (receiving n)
          w
        ≡ some (record {
          conn = record (receiving n) { ripaddr = all_ones_addr; rport = 0; fh = none };
          sent = replies ip port (error_packet ∷ []);
          files = u;
        })
  unfolding data_stored error_out close_connection udp_send htons replies error_packet Option.bind
  tftp_handle_packet_empty n w v u small written closed =
      data_packet_next n [] w v small (omega arith) written ∙ rw (closed, Option.bind) refl
