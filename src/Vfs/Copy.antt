-- ===== src/Vfs/Copy.antt =====
-- The copy of a file, core/vfs/vfs-util.c. `buf_size` is the size of the network buffer, which the
-- copy goes through; `i` and `j` of the loop have 16 bits.
pub mod Content
use mathlib.Core.Option
use ir.Prelude.{
  ℕ, zero, suc, true, false, Option, none, some, List, ltb, ◌==◌, ◌%◌, take, if◌then◌else◌, length,
}
use ir.Vfs.Dispatch.{FileHandle, VfsFunc, vfs_open, vfs_create, vfs_read, vfs_write, vfs_close}

module _ {X W : Type 0} (vfs_funcs : List (VfsFunc X W)) (buf_size : ℕ) where
  -- Both files are closed, and this is returned.
  unfoldable pub close_both : ℕ → FileHandle X → FileHandle X → W → Option (ℕ × W)
  close_both ret s d w =
      Option.bind (vfs_close vfs_funcs s w)
        (λ v. Option.map (λ u. (ret, u)) (vfs_close vfs_funcs d v))

  -- The loop that copies; 1 stands for a short write.
  unfoldable pub copy_blocks : ℕ → FileHandle X → FileHandle X → W → Option (ℕ × W)
  copy_blocks zero s d w = none
  copy_blocks (suc fuel) s d w = Option.bind (vfs_read vfs_funcs s buf_size w) (λ block.
      let i = length block.0 % 65536 in
      elim (i == 0) [
        | true ↦ some (0, block.1)
        | false ↦ Option.bind (vfs_write vfs_funcs d (take i block.0) block.1) (λ written.
            elim (i == written.0 % 65536) [
              | true ↦ elim (ltb i buf_size) [
                | true ↦ some (0, written.1)
                | false ↦ copy_blocks fuel s d written.1
              ]
              | false ↦ some (1, written.1)
            ])
      ])

  unfoldable pub copy_opened : ℕ → FileHandle X → Option (FileHandle X) × W → Option (ℕ × W)
  copy_opened fuel d (none, w) = Option.map (λ u. (1, u)) (vfs_close vfs_funcs d w)
  copy_opened fuel d (some s, w) =
      Option.bind (copy_blocks fuel s d w) (λ r. close_both r.0 s d r.1)

  unfoldable pub copy_created : ℕ → List ℕ → Option (FileHandle X) × W → Option (ℕ × W)
  copy_created fuel src (none, w) = some (1, w)
  copy_created fuel src (some d, w) = copy_opened fuel d (vfs_open vfs_funcs src w)

  unfoldable pub vfs_copy_file : ℕ → List ℕ → List ℕ → W → Option (ℕ × W)
  vfs_copy_file fuel dest src w = copy_created fuel src (vfs_create vfs_funcs dest w)
