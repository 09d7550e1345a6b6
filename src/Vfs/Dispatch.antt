-- ===== src/Vfs/Dispatch.antt =====
-- The table of file modules, core/vfs/vfs.c. A module is a record of its functions, `none` for NULL,
-- over handles and the state `W` of all modules; the buffer of a read is the bytes that it returns.
-- The configuration selects the modules of the table.
use ir.Prelude.{ℕ, Option, none, some, List, [], ◌∷◌, get_elem?}

-- The module that is responsible, and what it keeps.
pub record FileHandle (X : Type 0) : Type 0 where
  pub fh_type : ℕ
  pub u : X

pub record VfsFunc (X W : Type 0) : Type 0 where
  pub open_file : List ℕ → W → Option (FileHandle X) × W
  pub close : Option (FileHandle X → W → W)
  pub read : Option (FileHandle X → ℕ → W → List ℕ × W)
  pub write : Option (FileHandle X → List ℕ → W → ℕ × W)
  pub fseek : Option (FileHandle X → ℕ → ℕ → W → ℕ × W)
  pub truncate : Option (FileHandle X → ℕ → W → ℕ × W)
  pub create : Option (List ℕ → W → Option (FileHandle X) × W)
  pub size : Option (FileHandle X → W → ℕ × W)

module _ {X W : Type 0} where
  -- The loops over the table stop at the first module that gives a handle.
  unfoldable pub vfs_open : List (VfsFunc X W) → List ℕ → W → Option (FileHandle X) × W
  vfs_open [] filename w = (none, w)
  vfs_open (funcs ∷ rest) filename w =
      let opened = funcs.open_file filename w in
      elim opened.0 [ some fh ↦ (some fh, opened.1) | none ↦ vfs_open rest filename opened.1 ]

  unfoldable pub create_in : VfsFunc X W → List ℕ → W → Option (FileHandle X) × W
  create_in funcs name w = elim funcs.create [ some create ↦ create name w | none ↦ (none, w) ]

  unfoldable pub vfs_create : List (VfsFunc X W) → List ℕ → W → Option (FileHandle X) × W
  vfs_create [] name w = (none, w)
  vfs_create (funcs ∷ rest) name w =
      let created = create_in funcs name w in
      elim created.0 [ some fh ↦ (some fh, created.1) | none ↦ vfs_create rest name created.1 ]

  -- Each operation reads the entry of the handle's module, and fails behind the table; without the
  -- function it returns 0.
  unfoldable pub vfs_read : List (VfsFunc X W) → FileHandle X → ℕ → W → Option (List ℕ × W)
  vfs_read vfs_funcs handle length w = elim (get_elem? vfs_funcs handle.fh_type) [
    | none ↦ none
    | some funcs ↦ elim funcs.read [ some read ↦ some (read handle length w) | none ↦ some ([], w) ]
  ]

  unfoldable pub vfs_write : List (VfsFunc X W) → FileHandle X → List ℕ → W → Option (ℕ × W)
  vfs_write vfs_funcs handle buf w = elim (get_elem? vfs_funcs handle.fh_type) [
    | none ↦ none
    | some funcs ↦ elim funcs.write [ some write ↦ some (write handle buf w) | none ↦ some (0, w) ]
  ]

  unfoldable pub vfs_size : List (VfsFunc X W) → FileHandle X → W → Option (ℕ × W)
  vfs_size vfs_funcs handle w = elim (get_elem? vfs_funcs handle.fh_type) [
    | none ↦ none
    | some funcs ↦ elim funcs.size [ some size ↦ some (size handle w) | none ↦ some (0, w) ]
  ]

  unfoldable pub vfs_fseek : List (VfsFunc X W) → FileHandle X → ℕ → ℕ → W → Option (ℕ × W)
  vfs_fseek vfs_funcs handle offset whence w = elim (get_elem? vfs_funcs handle.fh_type) [
    | none ↦ none
    | some funcs ↦ elim funcs.fseek [
      | some fseek ↦ some (fseek handle offset whence w)
      | none ↦ some (0, w)
    ]
  ]

  unfoldable pub vfs_truncate : List (VfsFunc X W) → FileHandle X → ℕ → W → Option (ℕ × W)
  vfs_truncate vfs_funcs handle length w = elim (get_elem? vfs_funcs handle.fh_type) [
    | none ↦ none
    | some funcs ↦ elim funcs.truncate [
      | some truncate ↦ some (truncate handle length w)
      | none ↦ some (0, w)
    ]
  ]

  unfoldable pub vfs_close : List (VfsFunc X W) → FileHandle X → W → Option W
  vfs_close vfs_funcs handle w = elim (get_elem? vfs_funcs handle.fh_type) [
    | none ↦ none
    | some funcs ↦ elim funcs.close [ some close ↦ some (close handle w) | none ↦ some w ]
  ]
