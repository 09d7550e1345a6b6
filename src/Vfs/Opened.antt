-- ===== src/Vfs/Opened.antt =====
-- Which module of core/vfs/vfs.c the operations on an opened file reach.
use ir.Prelude.{
  ℕ, suc, ◌+◌, ◌≡◌, refl, ap, ◌∙◌, none, some, List, [], ◌∷◌, get_elem?, arith, Option-cases, inl,
  inr,
}
use ir.Vfs.Dispatch.{FileHandle, VfsFunc, vfs_open, vfs_read, vfs_write, vfs_close}

module _ {X W : Type 0} where
  -- The modules, the first of which has this number, put their numbers into the handles they give.
  abbrev pub IsNumbered : ℕ → List (VfsFunc X W) → Type 0
  IsNumbered first modules =
      (i : ℕ) (funcs : VfsFunc X W) (filename : List ℕ) (w : W) (fh : FileHandle X)
      → get_elem? modules i ≡ some funcs
      → (funcs.open_file filename w).0 ≡ some fh
      → fh.fh_type ≡ first + i

  -- The module that has opened the file, whose place in the table follows the given one.
  abbrev Opener : ℕ → List (VfsFunc X W) → List ℕ → FileHandle X → W → Type 0
  Opener first modules filename fh v =
      (i : ℕ) × (funcs : VfsFunc X W) × (u : W) × (get_elem? modules i ≡ some funcs)
      × (funcs.open_file filename u ≡ (some fh, v))
      × (fh.fh_type ≡ first + i)

  vfs_open-Opener :
      (first : ℕ) (modules : List (VfsFunc X W)) (filename : List ℕ) (w v : W) (fh : FileHandle X)
      → IsNumbered first modules
      → vfs_open modules filename w ≡ (some fh, v)
      → Opener first modules filename fh v
  unfolding vfs_open
  vfs_open-Opener first [] filename w v fh numbered opened = absurd (ground arith)
  vfs_open-Opener first (funcs ∷ rest) filename w v fh numbered opened =
      elim (Option-cases (funcs.open_file filename w).0) [
        | inr (h, e) ↦
            let same : (some h, (funcs.open_file filename w).1) ≡ (some fh, v) = rw e at opened in
            let answer : funcs.open_file filename w ≡ (some fh, v) =
              ap (λ o. (o, (funcs.open_file filename w).1)) e ∙ same in
            (0, funcs, w, refl, answer, numbered 0 funcs filename w fh refl (ap (λ p. p.0) answer))
        | inl e ↦
            let later = rw e at opened in
            let (i, f, u, found, given, tag) =
              vfs_open-Opener (first + 1) rest filename (funcs.open_file filename w).1 v fh
                (λ i f n x h g o. numbered (suc i) f n x h g o ∙ omega arith) later in
            (suc i, f, u, found, given, tag ∙ omega arith)
      ]

  -- What a module's function gives for a handle, or a module without it.
  abbrev pub read_by : VfsFunc X W → FileHandle X → ℕ → W → List ℕ × W
  read_by funcs fh n w = elim funcs.read [ some read ↦ read fh n w | none ↦ ([], w) ]

  abbrev pub write_by : VfsFunc X W → FileHandle X → List ℕ → W → ℕ × W
  write_by funcs fh bytes w = elim funcs.write [ some write ↦ write fh bytes w | none ↦ (0, w) ]

  abbrev pub close_by : VfsFunc X W → FileHandle X → W → W
  close_by funcs fh w = elim funcs.close [ some close ↦ close fh w | none ↦ w ]

  vfs_read_by :
      (modules : List (VfsFunc X W)) (funcs : VfsFunc X W) (fh : FileHandle X) (n : ℕ) (w : W)
      → get_elem? modules fh.fh_type ≡ some funcs
      → vfs_read modules fh n w ≡ some (read_by funcs fh n w)
  unfolding vfs_read
  vfs_read_by modules funcs fh n w e =
      rw (e, vfs_read)
        (elim funcs.read
          as (λ r.
            (elim r [ some read ↦ some (read fh n w) | none ↦ some ([], w) ])
            ≡ some (elim r [ some read ↦ read fh n w | none ↦ ([], w) ])) [
              | none ↦ refl
              | some read ↦ refl
            ])

  vfs_write_by :
      (modules : List (VfsFunc X W)) (funcs : VfsFunc X W) (fh : FileHandle X) (bytes : List ℕ)
      (w : W)
      → get_elem? modules fh.fh_type ≡ some funcs
      → vfs_write modules fh bytes w ≡ some (write_by funcs fh bytes w)
  unfolding vfs_write
  vfs_write_by modules funcs fh bytes w e =
      rw (e, vfs_write)
        (elim funcs.write
          as (λ r.
            (elim r [ some write ↦ some (write fh bytes w) | none ↦ some (0, w) ])
            ≡ some (elim r [ some write ↦ write fh bytes w | none ↦ (0, w) ])) [
              | none ↦ refl
              | some write ↦ refl
            ])

  vfs_close_by :
      (modules : List (VfsFunc X W)) (funcs : VfsFunc X W) (fh : FileHandle X) (w : W)
      → get_elem? modules fh.fh_type ≡ some funcs
      → vfs_close modules fh w ≡ some (close_by funcs fh w)
  unfolding vfs_close
  vfs_close_by modules funcs fh w e =
      rw (e, vfs_close)
        (elim funcs.close
          as (λ r.
            (elim r [ some close ↦ some (close fh w) | none ↦ some w ])
            ≡ some (elim r [ some close ↦ close fh w | none ↦ w ])) [
              | none ↦ refl
              | some close ↦ refl
            ])

  -- In a table whose modules put their own numbers into the handles they give: a handle that
  -- `vfs_open` returns was given for this name by a module of the table, and reading, writing and
  -- closing with this handle is done by the functions of the same module.
  pub vfs_open-same_module :
      (modules : List (VfsFunc X W)) (filename : List ℕ) (w v : W) (fh : FileHandle X)
      → IsNumbered 0 modules
      → vfs_open modules filename w ≡ (some fh, v)
      → (funcs : VfsFunc X W) × (u : W) × (get_elem? modules fh.fh_type ≡ some funcs)
        × (funcs.open_file filename u ≡ (some fh, v))
        × ((n : ℕ) (x : W) → vfs_read modules fh n x ≡ some (read_by funcs fh n x))
        × ((bytes : List ℕ) (x : W)
            → vfs_write modules fh bytes x ≡ some (write_by funcs fh bytes x))
        × ((x : W) → vfs_close modules fh x ≡ some (close_by funcs fh x))
  vfs_open-same_module modules filename w v fh numbered opened =
      let (i, funcs, u, found, given, tag) =
        vfs_open-Opener 0 modules filename w v fh numbered opened in
      let at_tag : get_elem? modules fh.fh_type ≡ some funcs =
        ap (get_elem? modules) (tag ∙ (omega arith)) ∙ found in
      (
        funcs,
        u,
        at_tag,
        given,
        λ n x. vfs_read_by modules funcs fh n x at_tag,
        λ bytes x. vfs_write_by modules funcs fh bytes x at_tag,
        λ x. vfs_close_by modules funcs fh x at_tag,
      )
