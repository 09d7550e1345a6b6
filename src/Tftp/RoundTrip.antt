-- ===== src/Tftp/RoundTrip.antt =====
-- The packets of a download from services/tftp/tftp-vfs.c as an upload to it.
use ir.Prelude.{
  ℕ, suc, ◌+◌, ◌*◌, ◌/◌, ◌%◌, ◌<◌, ◌≡◌, ◌≢◌, some, List, ◌∷◌, ◌++◌, length, arith, length-append,
}
use ir.Vfs.Dispatch.{FileHandle, VfsFunc, vfs_open, vfs_create}
use ir.Tftp.{Connection, Turn, serve}
use ir.Tftp.Files.{
  request, DataPackets, last_block, full_block, IsReader, IsWriter, arrived, arrive, replies,
  retransmit,
}
use ir.Tftp.Download.{acks, serve-DataPackets}
use ir.Tftp.Upload.{serve-Stores}

length-DataPackets :
    (n : ℕ) (content : List ℕ) (packets : List (List ℕ))
    → DataPackets n content packets
    → length packets ≡ length content / 512 + 1
length-DataPackets n content packets (last_block m bytes small) = omega arith
length-DataPackets n content packets (full_block m block rest others full next) =
    omega (arith, full, length-append block rest, length-DataPackets (suc m) rest others next)

module _ {X W Y V : Type 0} (from_funcs : List (VfsFunc X W)) (to_funcs : List (VfsFunc Y V))
    (s : FileHandle X) (d : FileHandle Y) (left : W → List ℕ) (stored : V → List ℕ)
    (reader : IsReader from_funcs s left) (writer : IsWriter to_funcs d stored) (ip port : ℕ)
    (behind : List ℕ) where
  -- A file of a size that is no multiple of 512, and for which the block numbers suffice, is read from
  -- one server, each block acknowledged. What that server sends is written to another one, with any
  -- number of retransmissions: the other server then stores the content of the file behind what its
  -- module held.
  pub serve_round_trip :
      (name new_name : List ℕ) (from : Connection X) (to : Connection Y) (times : ℕ → ℕ) (w v : W)
      (a b : V)
      → vfs_open from_funcs (name ++ behind) w ≡ (some s, v)
      → vfs_create to_funcs (new_name ++ behind) a ≡ (some d, b)
      → length (left v) < 65534 * 512
      → length (left v) % 512 ≢ 0
      → (t : Turn X W) × (packets : List (List ℕ)) × (u : Turn Y V) × (serve from_funcs
            (arrived ip port behind (request 1 name)
              ∷ acks (length (left v) / 512 + 1) 1 ip port behind)
            from
            w
          ≡ some t)
        × (t.sent ≡ replies ip port packets)
        × (serve to_funcs
              (arrived ip port behind (request 2 new_name)
                ∷ arrive ip port behind (retransmit times packets))
              to
              a
            ≡ some u)
        × (stored u.files ≡ stored b ++ left v)
  serve_round_trip name new_name from to times w v a b opened created size some_bytes =
      let (t, packets, served, sent, data_packets, reset, closed) =
        serve-DataPackets from_funcs s ip port behind left reader name from w v opened size in
      let count = length-DataPackets 1 (left v) packets data_packets in
      let (u, taken, same, answered, free, finished) =
        serve-Stores to_funcs d ip port behind stored writer new_name (left v) packets times to a b
          created data_packets some_bytes (omega arith) in
      (t, packets, u, served, sent, taken, same)
