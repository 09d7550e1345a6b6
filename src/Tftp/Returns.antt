-- ===== src/Tftp/Returns.antt =====
-- Where the handler of services/tftp/tftp-vfs.c returns.
use mathlib.Core.Option
use ir.Prelude.{ℕ, ◌<◌, ◌≤◌, ◌≡◌, Option, some, none, List, length}
use ir.Vfs.Dispatch.{FileHandle, VfsFunc, vfs_open, vfs_create}
use ir.Tftp.{Packet, Turn}

-- A handle of a module of the table.
abbrev pub IsKnown : {X W : Type 0} → List (VfsFunc X W) → Option (FileHandle X) → Type 0
IsKnown vfs_funcs none = Unit
IsKnown vfs_funcs (some fh) = fh.fh_type < length vfs_funcs

-- The modules give handles of the table.
pub record GivesKnown {X W : Type 0} (vfs_funcs : List (VfsFunc X W)) : Type 0 where
  pub opened_known : (name : List ℕ) (w : W) → IsKnown vfs_funcs (vfs_open vfs_funcs name w).0
  pub created_known : (name : List ℕ) (w : W) → IsKnown vfs_funcs (vfs_create vfs_funcs name w).0

-- A packet with a whole header, in a buffer that holds it.
pub record IsWhole (p : Packet) : Type 0 where
  pub has_header : 4 ≤ p.datalen
  pub word_sized : p.datalen < 65536
  pub in_buffer : p.datalen ≤ length p.appdata

abbrev pub Returns : {X W : Type 0} → Option (Turn X W) → Type 0
Returns {X} {W} o = (t : Turn X W) × (o ≡ some t)
