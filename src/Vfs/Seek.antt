-- ===== src/Vfs/Seek.antt =====
-- One read and one seek of `vfs_inline_read` and `vfs_inline_fseek` on an open file.
use ir.Prelude.{
  ℕ, zero, suc, ◌+◌, ◌-◌, ◌<◌, ◌≤◌, ◌≡◌, refl, true, List, [], ◌∷◌, arith, ltb, length, length-drop,
  take, drop, min, ap, ap₂, ◌∙◌, sym, Bool-cases, inl, inr, Option, some, none,
}
use ir.Prelude.Int.{ℤ, pos, negsuc}
use ir.Prelude.Words.{add16}
use ir.Vfs.Inline.{
  Handle, Whence, seek_set, seek_cur, seek_end, seek_other, sub16, seek_to, read_bytes,
  vfs_inline_read, vfs_inline_fseek,
}
use ir.Vfs.File.{bytes, IsOpen, unsigned, move, target, checked, IsSmall}

length-bytes : (flash : ℕ → ℕ) (at n : ℕ) → length (bytes flash at n) ≡ n
length-bytes flash at zero = refl
length-bytes flash at (suc n) = ap suc (length-bytes flash (at + 1) n)

read_bytes-bytes :
    (flash : ℕ → ℕ) (at n : ℕ) → at + n < 65536 → read_bytes flash at n ≡ bytes flash at n
unfolding read_bytes
read_bytes-bytes flash at zero b = refl
read_bytes-bytes flash at (suc n) b =
    let next : add16 at 1 ≡ at + 1 = omega arith in
    ap (λ xs. flash at ∷ xs)
      (ap (λ a. read_bytes flash a n) next ∙ read_bytes-bytes flash (at + 1) n (omega arith))

bytes_between :
    (flash : ℕ → ℕ) (at n p k : ℕ)
    → p + k ≤ n
    → bytes flash (at + p) k ≡ take k (drop p (bytes flash at n))
bytes_between flash at n p zero b = refl
bytes_between flash at zero p (suc k) b = absurd (omega arith)
bytes_between flash at (suc n) zero (suc k) b =
    ap₂ (λ a xs. flash a ∷ xs) (omega arith)
      (ap (λ a. bytes flash a k) (omega arith) ∙ bytes_between flash (at + 1) n 0 k (omega arith))
bytes_between flash at (suc n) (suc p) (suc k) b =
    ap (λ a. bytes flash a (suc k)) (omega arith)
    ∙ bytes_between flash (at + 1) n p (suc k) (omega arith)

pub length-content :
    (flash : ℕ → ℕ) (content : List ℕ) (p : ℕ) (fh : Handle)
    → IsOpen flash content p fh
    → length content ≡ fh.len
length-content flash content p fh o =
    ap length (sym o.content_at) ∙ length-bytes flash fh.offset fh.len

take_none : (n : ℕ) (xs : List ℕ) → length xs ≡ 0 → take n xs ≡ xs
take_none zero [] e = refl
take_none (suc n) [] e = refl
take_none n (x ∷ xs) e = absurd (omega arith)

take_all : (n k : ℕ) (xs : List ℕ) → length xs ≤ n → length xs ≤ k → take n xs ≡ take k xs
take_all n k [] a b = take_none n [] refl ∙ sym (take_none k [] refl)
take_all zero k (x ∷ xs) a b = absurd (omega arith)
take_all (suc n) zero (x ∷ xs) a b = absurd (omega arith)
take_all (suc n) (suc k) (x ∷ xs) a b =
    ap (λ ys. x ∷ ys) (take_all n k xs (omega arith) (omega arith))

module _ (flash : ℕ → ℕ) (content : List ℕ) (p : ℕ) (fh : Handle)
    (o : IsOpen flash content p fh) where
  read_within :
      (k : ℕ)
      → fh.pos + k ≤ fh.len
      → read_bytes flash (add16 fh.offset fh.pos) k ≡ take k (drop p content)
  read_within k b =
      let flat : add16 fh.offset fh.pos ≡ fh.offset + fh.pos =
        omega (arith, o.in_flash, o.within) in
      ap (λ a. read_bytes flash a k) flat
      ∙ read_bytes-bytes flash (fh.offset + fh.pos) k (omega (arith, o.in_flash))
      ∙ bytes_between flash fh.offset fh.len fh.pos k b
      ∙ ap₂ (λ q xs. take k (drop q xs)) o.position_at o.content_at

  pub at_position : (q r : ℕ) → q ≡ r → q ≤ fh.len → IsOpen flash content r (record fh { pos = q })
  at_position q r e b = record {
    content_at = o.content_at;
    position_at = e;
    within = b;
    in_flash = o.in_flash;
  }

  pub read-IsOpen :
      (n : ℕ)
      → ((vfs_inline_read flash fh n).0 ≡ take n (drop p content))
        × IsOpen flash content (min (p + n) (length content)) (vfs_inline_read flash fh n).1
  unfolding vfs_inline_read
  read-IsOpen n =
      let size = length-content flash content p fh o in
      let pos_ok = o.position_at in
      let bound = o.within in
      let small = o.in_flash in
      let left : sub16 fh.len fh.pos ≡ fh.len - fh.pos = omega arith in
      elim (Bool-cases (ltb n (fh.len - fh.pos))) [
        | inl short ↦
            let inside : fh.pos + n ≤ fh.len = ground arith in
            rw (left, short)
              (
                read_within n inside,
                at_position (add16 fh.pos n) (min (p + n) (length content)) (omega arith)
                    (omega arith),
              )
        | inr long ↦
            let rest : fh.len - fh.pos ≤ n = ground arith in
            let ends = length-drop p content in
            rw (left, long)
              (
                read_within (fh.len - fh.pos) (omega arith)
                    ∙ take_all (fh.len - fh.pos) n (drop p content) (omega arith) (omega arith),
                at_position (add16 fh.pos (fh.len - fh.pos)) (min (p + n) (length content))
                    (omega arith) (omega arith),
              )
      ]

  -- What `vfs_inline_fseek` does for the new position of the specification.
  abbrev pub moved : Option ℕ → ℕ × Handle
  moved none = (255, fh)
  moved (some t) = (0, record fh { pos = t })

  seek_forward : (t : ℕ) → seek_to fh t ≡ moved (checked content (some t))
  unfolding seek_to
  seek_forward t =
      let size = length-content flash content p fh o in
      rw size (elim (Bool-cases (ltb fh.len t)) [ inl far ↦ rw far | inr near ↦ rw near ])

  seek_beyond : (t : ℕ) → fh.len < t → seek_to fh t ≡ moved none
  unfolding seek_to
  seek_beyond t b = let far : ltb fh.len t ≡ true = ground arith in rw far

  seek_by :
      (base : ℕ) (offset : ℤ)
      → base ≤ fh.len
      → IsSmall fh.len offset
      → seek_to fh (add16 base (unsigned offset)) ≡ moved (checked content (move base offset))
  seek_by base (pos n) b small = ap (seek_to fh) (omega arith) ∙ seek_forward (base + n)
  seek_by base (negsuc n) b small = elim (Bool-cases (ltb n base)) [
    | inl back ↦
        let inside : n < base = ground arith in
        rw back (ap (seek_to fh) (omega arith) ∙ seek_forward (base - (n + 1)))
    | inr over ↦
        let before : base ≤ n = ground arith in
        rw over (seek_beyond (add16 base (4294967296 - (n + 1))) (omega arith))
  ]

  pub seek-moved :
      (whence : Whence) (offset : ℤ)
      → IsSmall fh.len offset
      → vfs_inline_fseek fh (unsigned offset) whence
        ≡ moved (checked content (target content p whence offset))
  unfolding vfs_inline_fseek
  seek-moved seek_set offset small =
      ap (seek_to fh) (omega arith) ∙ seek_by 0 offset (omega arith) small
  seek-moved seek_cur offset small =
      seek_by fh.pos offset o.within small
      ∙ ap (λ b. moved (checked content (move b offset))) o.position_at
  seek-moved seek_end offset small =
      seek_by fh.len offset (omega arith) small
      ∙ ap (λ b. moved (checked content (move b offset)))
          (sym (length-content flash content p fh o))
  seek-moved seek_other offset small = refl
