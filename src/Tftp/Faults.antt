-- ===== src/Tftp/Faults.antt =====
-- Where the handler of services/tftp/tftp-vfs.c uses NULL as a file.
use mathlib.Core.Option
use mathlib.Core.Path.{subst}
use ir.Prelude.{
  ℕ, suc, ◌<◌, ◌≡◌, refl, sym, ap, ◌∙◌, Bool, true, false, Option, some, none, List, ltb, ◌==◌,
  ◌||◌, if◌then◌else◌, arith,
}
use ir.Prelude.Words.{add16}
use ir.Vfs.Dispatch.{FileHandle, VfsFunc, vfs_close}
use ir.Tftp.{
  Connection, Datagram, Turn, all_ones_addr, close_connection, error_out, send_data,
  acknowledgement, store_data, data_packet, tftp_handle_packet,
}
use ir.Tftp.Files.{
  data_block, ack_of, arrived, from_peer, tftp_handle_packet_ack, tftp_handle_packet_data,
}

-- A connection without a file, as the error replies leave it.
unfoldable pub without_file : {X : Type 0} → Bool → ℕ → Connection X
without_file download n = record {
  ripaddr = all_ones_addr;
  rport = 0;
  fh = none;
  download = download;
  finished = false;
  transfered = n;
}

mapped-conn :
    {X W : Type 0} (o : Option W) (c : Connection X) (sent : List Datagram) (t : Turn X W)
    → Option.map (λ v. record { conn = c; sent = sent; files = v }) o ≡ some t
    → t.conn ≡ c
unfolding Option.bind
mapped-conn none c sent t e = absurd cc
mapped-conn {X} (some v) c sent t e =
    sym (ap (λ o. elim o as (λ x. Connection X) [ none ↦ c | some t ↦ t.conn ]) e)

module _ {X W : Type 0} (vfs_funcs : List (VfsFunc X W)) (ip port : ℕ) (behind : List ℕ) where
  next_without_file :
      (n : ℕ) (download : Bool) (bytes : List ℕ) (w : W)
      → suc n < 65536
      → tftp_handle_packet vfs_funcs
          (arrived ip port behind (if download then ack_of n else data_block (suc n) bytes))
          (without_file download n)
          w
        ≡ none
  unfolding acknowledgement send_data data_packet store_data from_peer without_file
  next_without_file n true bytes w small =
      let in_order : (ltb n n || ltb (add16 n 1) n) ≡ false = ground arith in
      tftp_handle_packet_ack vfs_funcs ip port behind (without_file true n) w n ∙ rw in_order refl
  next_without_file n false bytes w small =
      let late : ltb (suc n) n ≡ false = ground arith in
      let same : (suc n == n) ≡ false = ground arith in
      let early : ltb (add16 n 1) (suc n) ≡ false = ground arith in
      tftp_handle_packet_data vfs_funcs ip port behind (without_file false n) w (suc n) bytes
      ∙ rw late (rw same (rw early refl))

  closed-conn :
      (o : Option (FileHandle X)) (c : Connection X) (sent : List Datagram) (w : W) (t : Turn X W)
      → (elim o as (λ x. Option (Turn X W)) [
        | none ↦ some (record { conn = c; sent = sent; files = w })
        | some fh ↦
            Option.map (λ v. record { conn = c; sent = sent; files = v }) (vfs_close vfs_funcs fh w)
      ])
        ≡ some t
      → t.conn ≡ c
  unfolding Option.bind
  closed-conn none c sent w t e = mapped-conn (some w) c sent t e
  closed-conn (some fh) c sent w t e = mapped-conn (vfs_close vfs_funcs fh w) c sent t e

  -- An error reply ends the transfer that goes on, and leaves a connection without a file, which
  -- uses NULL as a file for the packet that comes next: a repeated acknowledgement if it was a
  -- download, and the next block if it was an upload.
  pub tftp_handle_packet-without_file :
      (c : Connection X) (w : W) (t : Turn X W) (bytes : List ℕ)
      → c.finished ≡ false
      → suc c.transfered < 65536
      → error_out vfs_funcs c w ≡ some t
      → tftp_handle_packet vfs_funcs
          (arrived ip port behind
            (if c.download then ack_of c.transfered else data_block (suc c.transfered) bytes))
          t.conn
          t.files
        ≡ none
  unfolding error_out close_connection without_file
  tftp_handle_packet-without_file c w t bytes going small ended =
      let reset =
        closed-conn c.fh (record c { ripaddr = all_ones_addr; rport = 0; fh = none }) _ w t ended in
      let left : t.conn ≡ without_file c.download c.transfered =
        reset
        ∙ ap
            (λ b. record {
              ripaddr = all_ones_addr;
              rport = 0;
              fh = none;
              download = c.download;
              finished = b;
              transfered = c.transfered;
            })
            going in
      subst
        (λ conn.
          tftp_handle_packet vfs_funcs
            (arrived ip port behind
              (if c.download then ack_of c.transfered else data_block (suc c.transfered) bytes))
            conn t.files
          ≡ none)
        (sym left) (next_without_file c.transfered c.download bytes t.files small)
