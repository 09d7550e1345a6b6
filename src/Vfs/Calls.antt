-- ===== src/Vfs/Calls.antt =====
-- Any calls on an open file.
use ir.Prelude.{
  ℕ, ◌+◌, ◌≤◌, ◌≡◌, refl, true, List, [], ◌∷◌, arith, ltb, if◌then◌else◌, length, min, ap, ap₂, ◌∙◌,
  sym, Bool-cases, inl, inr, Option, some, none,
}
use ir.Prelude.Int.{ℤ}
use mathlib.Core.Path.{subst}
use ir.Vfs.Inline.{Handle, vfs_inline_read}
use ir.Vfs.File.{
  IsOpen, Call, read, seek, got, code, run_handle, run_file, checked, target, IsSmall, AreSmall,
}
use ir.Vfs.Seek.{length-content, read-IsOpen, seek-moved, moved, at_position}

checked_le :
    (content : List ℕ) (o : Option ℕ) (t : ℕ) → checked content o ≡ some t → t ≤ length content
checked_le content none t e = cc
checked_le content (some r) t e = elim (Bool-cases (ltb (length content) r)) [
  | inl far ↦ absurd (refused far)
  | inr near ↦ ground (arith, e)
]
  where
    refused : ltb (length content) r ≡ true → ⊥
    refused far = cc (sym e ∙ ap (λ b. if b then none else some r) far)

-- The calls after a seek.
answers_after :
    (flash : ℕ → ℕ) (content : List ℕ) (p : ℕ) (fh : Handle) (o : IsOpen flash content p fh)
    (calls : List Call) (c : Option ℕ)
    → ((t : ℕ) → c ≡ some t → t ≤ length content)
    → ((q : ℕ) (f : Handle)
        → IsOpen flash content q f
        → run_handle flash calls f ≡ run_file calls content q)
    → code (moved flash content p fh o c).0
        ∷ run_handle flash calls (moved flash content p fh o c).1
      ≡ elim c [
        | none ↦ code 255 ∷ run_file calls content p
        | some t ↦ code 0 ∷ run_file calls content t
      ]
answers_after flash content p fh o calls none b same = ap (λ rest. code 255 ∷ rest) (same p fh o)
answers_after flash content p fh o calls (some t) b same =
    ap (λ rest. code 0 ∷ rest)
      (same t (record fh { pos = t })
        (at_position flash content p fh o t t refl
          (ground (arith, b t refl, length-content flash content p fh o))))

-- On the handle of an open file that lies below address 65535, any sequence of reads and seeks, whose
-- offsets plus the size stay below 65536, answers as on the file's content with a position in it: a
-- read gets the bytes from the position on, up to the end, and moves behind them; a seek to a position
-- from the start to the end of the file moves there, and any other is refused and changes nothing.
pub run_handle-run_file :
    (flash : ℕ → ℕ) (content : List ℕ) (calls : List Call) (p : ℕ) (fh : Handle)
    → IsOpen flash content p fh
    → AreSmall (length content) calls
    → run_handle flash calls fh ≡ run_file calls content p
run_handle-run_file flash content [] p fh o small = refl
run_handle-run_file flash content (read n ∷ calls) p fh o small =
    let (bytes, next) = read-IsOpen flash content p fh o n in
    ap₂ (λ x xs. got x ∷ xs) bytes
      (run_handle-run_file flash content calls (min (p + n) (length content))
        (vfs_inline_read flash fh n).1 next small)
run_handle-run_file flash content (seek whence offset ∷ calls) p fh o (near, small) =
    ap (λ r. code r.0 ∷ run_handle flash calls r.1)
      (seek-moved flash content p fh o whence offset
        (ap_small (length content) fh.len (length-content flash content p fh o) offset near))
    ∙ answers_after flash content p fh o calls (checked content (target content p whence offset))
        (checked_le content (target content p whence offset))
        (λ q f r. run_handle-run_file flash content calls q f r small)
  where
    ap_small : (m n : ℕ) → m ≡ n → (offset : ℤ) → IsSmall m offset → IsSmall n offset
    ap_small m n e offset s = subst (λ k. IsSmall k offset) e s
