-- ===== src/Vfs/Inline.antt =====
-- The handle of core/vfs/vfs_inline.c: reading, seeking and the size. The flash is a function
-- from addresses to bytes. Sizes have 32 bits, positions 16.
use ir.Prelude.{ℕ, zero, suc, ◌+◌, ◌-◌, ◌%◌, List, [], ◌∷◌, ltb, if◌then◌else◌}
use ir.Prelude.Words.{add16}

pub record Handle : Type 0 where
  pub offset : ℕ
  pub pos : ℕ
  pub len : ℕ

pub data Whence : Type 0 where
  seek_set seek_cur seek_end seek_other : Whence

abbrev pub sub16 : ℕ → ℕ → ℕ
sub16 a b = (a + 65536 - b) % 65536

-- The loop that fills the caller's buffer: `n` bytes are left, from the address `at` on.
unfoldable pub read_bytes : (ℕ → ℕ) → ℕ → ℕ → List ℕ
read_bytes flash at zero = []
read_bytes flash at (suc n) = flash at ∷ read_bytes flash (add16 at 1) n

-- The bytes, whose number is returned, and the handle.
unfoldable pub vfs_inline_read : (ℕ → ℕ) → Handle → ℕ → List ℕ × Handle
unfolding read_bytes
vfs_inline_read flash fh length =
    let left = sub16 fh.len fh.pos in
    let n = (if ltb length left then length else left) in
    (read_bytes flash (add16 fh.offset fh.pos) n, record fh { pos = add16 fh.pos n })

unfoldable pub seek_to : Handle → ℕ → ℕ × Handle
seek_to fh new_pos = if ltb fh.len new_pos then (255, fh) else (0, record fh { pos = new_pos })

unfoldable pub vfs_inline_fseek : Handle → ℕ → Whence → ℕ × Handle
vfs_inline_fseek fh offset seek_set = seek_to fh (offset % 65536)
vfs_inline_fseek fh offset seek_cur = seek_to fh (add16 fh.pos offset)
vfs_inline_fseek fh offset seek_end = seek_to fh (add16 fh.len offset)
vfs_inline_fseek fh offset seek_other = (255, fh)

unfoldable pub vfs_inline_size : Handle → ℕ
vfs_inline_size fh = fh.len
