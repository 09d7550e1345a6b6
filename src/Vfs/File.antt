-- ===== src/Vfs/File.antt =====
-- A file as its content and a position, and the handle against it.
use ir.Prelude.{
  ℕ, zero, suc, ◌+◌, ◌-◌, ◌<◌, ◌≤◌, ◌≡◌, List, [], ◌∷◌, ltb, if◌then◌else◌, length, take, drop, min,
  Option, some, none,
}
use ir.Prelude.Int.{ℤ, pos, negsuc}
use ir.Vfs.Inline.{
  Handle, Whence, seek_set, seek_cur, seek_end, seek_other, vfs_inline_read, vfs_inline_fseek,
}

-- `n` bytes of the flash.
abbrev pub bytes : (ℕ → ℕ) → ℕ → ℕ → List ℕ
bytes flash at zero = []
bytes flash at (suc n) = flash at ∷ bytes flash (at + 1) n

pub record IsOpen (flash : ℕ → ℕ) (content : List ℕ) (position : ℕ) (fh : Handle) : Type 0 where
  pub content_at : bytes flash fh.offset fh.len ≡ content
  pub position_at : fh.pos ≡ position
  pub within : fh.pos ≤ fh.len
  pub in_flash : fh.offset + fh.len < 65536

pub data Call : Type 0 where
  read : ℕ → Call
  seek : Whence → ℤ → Call

pub data Answer : Type 0 where
  got : List ℕ → Answer
  code : ℕ → Answer

-- A signed offset as the caller passes it.
abbrev pub unsigned : ℤ → ℕ
unsigned (pos n) = n
unsigned (negsuc n) = 4294967296 - (n + 1)

-- The calls on a handle, and on a file: its content, and a position in it.
abbrev pub run_handle : (ℕ → ℕ) → List Call → Handle → List Answer
run_handle flash [] fh = []
run_handle flash (read n ∷ calls) fh =
    let r = vfs_inline_read flash fh n in got r.0 ∷ run_handle flash calls r.1
run_handle flash (seek whence offset ∷ calls) fh =
    let r = vfs_inline_fseek fh (unsigned offset) whence in code r.0 ∷ run_handle flash calls r.1

-- From a base, by a signed offset; `none` is before the start.
abbrev pub move : ℕ → ℤ → Option ℕ
move base (pos n) = some (base + n)
move base (negsuc n) = if ltb n base then some (base - (n + 1)) else none

abbrev pub target : List ℕ → ℕ → Whence → ℤ → Option ℕ
target content p seek_set offset = move 0 offset
target content p seek_cur offset = move p offset
target content p seek_end offset = move (length content) offset
target content p seek_other offset = none

abbrev pub checked : List ℕ → Option ℕ → Option ℕ
checked content none = none
checked content (some t) = if ltb (length content) t then none else some t

abbrev pub run_file : List Call → List ℕ → ℕ → List Answer
run_file [] content p = []
run_file (read n ∷ calls) content p =
    got (take n (drop p content)) ∷ run_file calls content (min (p + n) (length content))
run_file (seek whence offset ∷ calls) content p =
    elim (checked content (target content p whence offset)) [
      | none ↦ code 255 ∷ run_file calls content p
      | some t ↦ code 0 ∷ run_file calls content t
    ]

-- Offsets that do not wrap around 16 bits, whatever they are added to.
abbrev pub IsSmall : ℕ → ℤ → Type 0
IsSmall size (pos n) = n + size < 65536
IsSmall size (negsuc n) = n + 1 + size < 65536

abbrev pub AreSmall : ℕ → List Call → Type 0
AreSmall size [] = Unit
AreSmall size (read n ∷ calls) = AreSmall size calls
AreSmall size (seek whence offset ∷ calls) = IsSmall size offset × AreSmall size calls
