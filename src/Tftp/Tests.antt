-- ===== src/Tftp/Tests.antt =====
-- Transfers at concrete files.
use mathlib.Core.Option
use ir.Prelude.{
  ℕ, suc, ◌+◌, ◌/◌, ◌≡◌, refl, false, none, some, List, [], ◌∷◌, ◌++◌, length, take, drop, arith,
  if◌then◌else◌,
}
use ir.Vfs.Dispatch.{
  FileHandle, VfsFunc, vfs_open, vfs_create, create_in, vfs_read, vfs_write, vfs_close,
}
use ir.Tftp.{
  Connection, Packet, Turn, tftp_handle_packet, serve, error_out, close_connection, udp_send, htons,
}
use ir.Tftp.Files.{
  DataPackets, last_block, data_block, ack_of, IsReader, IsWriter, IsReset, request, arrived,
  replies, retransmit, answers, arrive,
}
use ir.Tftp.Download.{acks, serve-DataPackets}
use ir.Tftp.Upload.{serve-Stores}
use ir.Tftp.RoundTrip.{serve_round_trip}
use ir.Tftp.Faults.{tftp_handle_packet-without_file}

abbrev file : FileHandle ℕ
file = record { fh_type = 0; u = 0 }

-- The state is the rest of the one file to read, what was written to it, and how often it was closed.
abbrev ram : VfsFunc ℕ (List ℕ × List ℕ × ℕ)
ram = record {
  open_file = λ name w. (some file, w);
  close = some (λ fh w. (w.0, w.1, w.2 + 1));
  read = some (λ fh n w. (take n w.0, (drop n w.0, w.1, w.2)));
  write = some (λ fh bytes w. (length bytes, (w.0, w.1 ++ bytes, w.2)));
  fseek = none;
  truncate = none;
  create = some (λ name w. (some file, w));
  size = none;
}

abbrev modules : List (VfsFunc ℕ (List ℕ × List ℕ × ℕ))
modules = ram ∷ []

ram-IsReader : IsReader modules file (λ w. w.0)
unfolding vfs_read vfs_close
ram-IsReader = record { reads = λ n w. (_, refl, refl); closes = λ w. (_, refl) }

ram-IsWriter : IsWriter modules file (λ w. w.1)
unfolding vfs_write vfs_close
ram-IsWriter = record { writes = λ bytes w. (_, refl, refl); finishes = λ w. (_, refl, refl) }

abbrev content : List ℕ
content = 7 ∷ 8 ∷ 9 ∷ []

abbrev idle : Connection ℕ
idle = record {
  ripaddr = 0;
  rport = 0;
  fh = none;
  download = false;
  finished = false;
  transfered = 0;
}

abbrev uploading : Connection ℕ
uploading = record {
  ripaddr = 1;
  rport = 2;
  fh = some file;
  download = false;
  finished = false;
  transfered = 4;
}

opened : vfs_open modules (102 ∷ 0 ∷ [] ++ []) (content, [], 0) ≡ (some file, (content, [], 0))
unfolding vfs_open
opened = refl

created : vfs_create modules (103 ∷ 0 ∷ [] ++ []) ([], 5 ∷ [], 0) ≡ (some file, ([], 5 ∷ [], 0))
unfolding vfs_create create_in
created = refl

serve-DataPackets_example :
    (t : Turn ℕ (List ℕ × List ℕ × ℕ)) × (packets : List (List ℕ)) × (serve modules
        (arrived 1 2 [] (request 1 (102 ∷ 0 ∷ [])) ∷ acks (3 / 512 + 1) 1 1 2 [])
        idle
        (content, [], 0)
      ≡ some t)
    × (t.sent ≡ replies 1 2 packets)
    × DataPackets 1 content packets
    × IsReset t.conn
    × ((z : List ℕ × List ℕ × ℕ) × (z.0 ≡ []) × (vfs_close modules file z ≡ some t.files))
serve-DataPackets_example =
    serve-DataPackets modules file 1 2 [] (λ w. w.0) ram-IsReader (102 ∷ 0 ∷ []) idle
      (content, [], 0) (content, [], 0) opened (omega arith)

-- The one block is sent three times.
serve-Stores_example :
    (t : Turn ℕ (List ℕ × List ℕ × ℕ)) × (serve modules
        (arrived 1 2 [] (request 2 (103 ∷ 0 ∷ []))
          ∷ arrive 1 2 [] (retransmit (λ i. 2) (data_block 1 content ∷ [])))
        idle
        ([], 5 ∷ [], 0)
      ≡ some t)
    × (t.files.1 ≡ 5 ∷ content)
    × (t.sent ≡ replies 1 2 (ack_of 0 ∷ answers (retransmit (λ i. 2) (data_block 1 content ∷ []))))
    × IsReset t.conn
    × ((z : List ℕ × List ℕ × ℕ) × (z.1 ≡ 5 ∷ content) × (vfs_close modules file z ≡ some t.files))
serve-Stores_example =
    serve-Stores modules file 1 2 [] (λ w. w.1) ram-IsWriter (103 ∷ 0 ∷ []) content
      (data_block 1 content ∷ []) (λ i. 2) idle ([], 5 ∷ [], 0) ([], 5 ∷ [], 0) created
      (last_block 1 content (omega arith)) (λ e. absurd (ground (arith, e))) (omega arith)

serve_round_trip_example :
    (t : Turn ℕ (List ℕ × List ℕ × ℕ)) × (packets : List (List ℕ)) × (u : Turn ℕ
      (List ℕ × List ℕ × ℕ))
    × (serve modules
          (arrived 1 2 [] (request 1 (102 ∷ 0 ∷ [])) ∷ acks (3 / 512 + 1) 1 1 2 [])
          idle
          (content, [], 0)
        ≡ some t)
    × (t.sent ≡ replies 1 2 packets)
    × (serve modules
          (arrived 1 2 [] (request 2 (103 ∷ 0 ∷ [])) ∷ arrive 1 2 [] (retransmit (λ i. 1) packets))
          idle
          ([], 5 ∷ [], 0)
        ≡ some u)
    × (u.files.1 ≡ 5 ∷ content)
serve_round_trip_example =
    serve_round_trip modules modules file file (λ w. w.0) (λ w. w.1) ram-IsReader ram-IsWriter 1 2
      [] (102 ∷ 0 ∷ []) (103 ∷ 0 ∷ []) idle idle (λ i. 1) (content, [], 0) (content, [], 0)
      ([], 5 ∷ [], 0) ([], 5 ∷ [], 0) opened created (omega arith) (λ e. absurd (ground (arith, e)))

abbrev block_five : Packet
block_five = record { srcipaddr = 1; srcport = 2; datalen = 5; appdata = 0 ∷ 3 ∷ 0 ∷ 5 ∷ 9 ∷ [] }

abbrev refused : Turn ℕ (List ℕ × List ℕ × ℕ)
refused = record {
  conn = record {
    ripaddr = 4294967295;
    rport = 0;
    fh = none;
    download = false;
    finished = false;
    transfered = 4;
  };
  sent = record { destipaddr = 1; destport = 2; payload = 0 ∷ 5 ∷ 0 ∷ 0 ∷ 0 ∷ [] } ∷ [];
  files = ([], [], 1);
}

refused_upload : error_out modules uploading ([], [], 0) ≡ some refused
unfolding error_out close_connection vfs_close Option.bind udp_send htons
refused_upload = refl

tftp_handle_packet-without_file_example :
    tftp_handle_packet modules
      (arrived 1 2 [] (
        if uploading.download
        then ack_of uploading.transfered
        else data_block (suc uploading.transfered) content))
      refused.conn
      refused.files
    ≡ none
tftp_handle_packet-without_file_example =
    tftp_handle_packet-without_file modules 1 2 [] uploading ([], [], 0) refused content refl
      (omega arith) refused_upload
