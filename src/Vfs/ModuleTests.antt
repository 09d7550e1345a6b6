-- ===== src/Vfs/ModuleTests.antt =====
-- Modules and copies at a concrete module.
use ir.Prelude.{
  ℕ, zero, suc, ◌-◌, min, ◌≡◌, refl, sym, ap, ◌∙◌, Option, none, some, List, [], ◌∷◌, ◌++◌, leb,
  if◌then◌else◌, length, take, drop, get_elem?, length-append, length-take, arith,
}
use ir.Vfs.Dispatch.{
  FileHandle, VfsFunc, vfs_open, vfs_create, create_in, vfs_read, vfs_write, vfs_close,
}
use ir.Vfs.Copy.{vfs_copy_file}
use ir.Vfs.Copy.Content.{IsStream, vfs_copy_file-Copied}
use ir.Vfs.Opened.{IsNumbered, read_by, write_by, close_by, vfs_open-same_module}

-- The bytes left to read, and those stored, of which there is room for four.
abbrev Disk : Type 0
Disk = List ℕ × List ℕ

abbrev source : FileHandle ℕ
source = record { fh_type = 0; u = 0 }

abbrev dest : FileHandle ℕ
dest = record { fh_type = 0; u = 1 }

abbrev ram : VfsFunc ℕ Disk
ram = record {
  open_file = λ filename w. (some source, w);
  close = some (λ fh w. w);
  read = some (λ fh n w. (take n w.0, (drop n w.0, w.1)));
  write = some (λ fh bytes w.
      (min (length bytes) (4 - length w.1), (w.0, w.1 ++ take (4 - length w.1) bytes)));
  fseek = none;
  truncate = none;
  create = some (λ name w. (some dest, w));
  size = none;
}

abbrev modules : List (VfsFunc ℕ Disk)
modules = ram ∷ []

ram-IsStream : IsStream modules source dest (λ w. w.0) (λ w. w.1) (λ w. 4 - length w.1)
unfolding vfs_read vfs_write vfs_close
ram-IsStream = record {
  reads = λ n w. (_, refl, refl, refl, refl);
  writes = λ bytes w. (
    _,
    refl,
    refl,
    refl,
    (let size = length-append w.1 (take (4 - length w.1) bytes) in
        let taken = length-take (4 - length w.1) bytes in omega (arith, size, taken)),
  );
  closes_source = λ w. (w, refl, refl);
  closes_dest = λ w. (w, refl, refl);
}

created : vfs_create modules (100 ∷ []) (1 ∷ 2 ∷ 3 ∷ [], []) ≡ (some dest, (1 ∷ 2 ∷ 3 ∷ [], []))
unfolding vfs_create create_in
created = refl

opened : vfs_open modules (115 ∷ []) (1 ∷ 2 ∷ 3 ∷ [], []) ≡ (some source, (1 ∷ 2 ∷ 3 ∷ [], []))
unfolding vfs_open
opened = refl

-- Three bytes, by blocks of two.
vfs_copy_file-Copied_example :
    (v : Disk) × (vfs_copy_file modules 2 5 (100 ∷ []) (115 ∷ []) (1 ∷ 2 ∷ 3 ∷ [], [])
      ≡ some (if leb 3 4 then 0 else 1, v))
    × (v.1 ≡ 1 ∷ 2 ∷ 3 ∷ [])
vfs_copy_file-Copied_example =
    vfs_copy_file-Copied modules 2 source dest (λ w. w.0) (λ w. w.1) (λ w. 4 - length w.1)
      ram-IsStream 5 (100 ∷ []) (115 ∷ []) (1 ∷ 2 ∷ 3 ∷ [], []) (1 ∷ 2 ∷ 3 ∷ [], [])
      (1 ∷ 2 ∷ 3 ∷ [], []) (omega arith) (omega arith) (omega arith) created opened

abbrev handle_tag : FileHandle ℕ → Option (FileHandle ℕ) → ℕ
handle_tag d none = d.fh_type
handle_tag d (some fh) = fh.fh_type

abbrev opened_by : List ℕ → Disk → Option (VfsFunc ℕ Disk) → Option (FileHandle ℕ)
opened_by filename w none = none
opened_by filename w (some funcs) = (funcs.open_file filename w).0

modules-IsNumbered : IsNumbered 0 modules
modules-IsNumbered zero funcs filename w fh e o =
    sym (ap (handle_tag source) (ap (opened_by filename w) e ∙ o))
modules-IsNumbered (suc i) funcs filename w fh e o = absurd (ground arith)

vfs_open-same_module_example :
    (funcs : VfsFunc ℕ Disk) × (u : Disk) × (get_elem? modules 0 ≡ some funcs)
    × (funcs.open_file (115 ∷ []) u ≡ (some source, (1 ∷ 2 ∷ 3 ∷ [], [])))
    × ((n : ℕ) (x : Disk) → vfs_read modules source n x ≡ some (read_by funcs source n x))
    × ((bytes : List ℕ) (x : Disk)
        → vfs_write modules source bytes x ≡ some (write_by funcs source bytes x))
    × ((x : Disk) → vfs_close modules source x ≡ some (close_by funcs source x))
vfs_open-same_module_example =
    vfs_open-same_module modules (115 ∷ []) (1 ∷ 2 ∷ 3 ∷ [], []) (1 ∷ 2 ∷ 3 ∷ [], []) source
      modules-IsNumbered opened
