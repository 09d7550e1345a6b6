-- ===== src/Vfs/Tests.antt =====
-- An inlined file at concrete calls.
use ir.Prelude.{ℕ, ◌%◌, ◌≡◌, refl, List, [], ◌∷◌, arith}
use ir.Prelude.Int.{pos, negsuc}
use ir.Vfs.Inline.{Handle, seek_set, seek_cur, seek_end}
use ir.Vfs.File.{IsOpen, Call, read, seek, got, code, run_handle}
use ir.Vfs.Calls.{run_handle-run_file}

-- Each address holds its own lowest byte.
abbrev flash : ℕ → ℕ
flash at = at % 256

abbrev handle : Handle
handle = record { offset = 16; pos = 1; len = 5 }

handle-IsOpen : IsOpen flash (16 ∷ 17 ∷ 18 ∷ 19 ∷ 20 ∷ []) 1 handle
handle-IsOpen = record {
  content_at = refl;
  position_at = refl;
  within = omega arith;
  in_flash = omega arith;
}

-- Reading, going back by three, a seek beyond the end, and reading the rest.
abbrev calls : List Call
calls =
    read 3
    ∷ seek seek_cur (negsuc 2)
    ∷ seek seek_set (pos 6)
    ∷ seek seek_end (negsuc 5)
    ∷ read 9
    ∷ []

run_handle-run_file_example :
    run_handle flash calls handle
    ≡ got (17 ∷ 18 ∷ 19 ∷ []) ∷ code 0 ∷ code 255 ∷ code 255 ∷ got (17 ∷ 18 ∷ 19 ∷ 20 ∷ []) ∷ []
run_handle-run_file_example =
    run_handle-run_file flash (16 ∷ 17 ∷ 18 ∷ 19 ∷ 20 ∷ []) calls 1 handle handle-IsOpen
      (omega arith, (omega arith, (omega arith, tt)))
