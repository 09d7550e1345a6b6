-- ===== src/Vfs/Copy/Content.antt =====
-- What core/vfs/vfs-util.c copies, for modules that read and write a file in order.
use mathlib.Core.Option
use ir.Prelude.{
  ℕ, zero, suc, ◌+◌, ◌-◌, ◌%◌, ◌<◌, ◌≤◌, min, ◌≡◌, refl, sym, ap, ap₂, ◌∙◌, inl, inr, true, false,
  Option, some, List, [], ◌∷◌, ◌++◌, append-nil, append_assoc, arith, ltb, leb, ◌==◌, if◌then◌else◌,
  length, take, drop, Bool-cases, length-take, length-drop, take_over,
}
use ir.Vfs.Dispatch.{FileHandle, VfsFunc, vfs_open, vfs_create, vfs_read, vfs_write, vfs_close}
use ir.Vfs.Copy.{close_both, copy_blocks, copy_opened, copy_created, vfs_copy_file}

take-take : (m n : ℕ) (xs : List ℕ) → m ≤ n → take m (take n xs) ≡ take m xs
take-take zero n xs h = refl
take-take (suc m) zero xs h = absurd (omega arith)
take-take (suc m) (suc n) [] h = refl
take-take (suc m) (suc n) (x ∷ xs) h = ap (λ r. x ∷ r) (take-take m n xs (omega arith))

take-append-take : (m n : ℕ) (xs : List ℕ) → take (m + n) xs ≡ take m xs ++ take n (drop m xs)
take-append-take zero n xs = ap (λ k. take k xs) {y = n} (omega arith)
take-append-take (suc m) n [] =
    let count : suc m + n ≡ suc (m + n) = omega arith in
    ap (λ k. take k []) count ∙ sym (take_over n [] (omega arith))
take-append-take (suc m) n (x ∷ xs) =
    let count : suc m + n ≡ suc (m + n) = omega arith in
    ap (λ k. take k (x ∷ xs)) count ∙ ap (λ r. x ∷ r) (take-append-take m n xs)

-- The source has `left` bytes to read; the destination has the bytes `stored`, and `room` for more.
-- A read gives as many bytes as are left and asked for, and a write stores as many as there is
-- room for, and returns their number.
pub record IsStream {X W : Type 0} (vfs_funcs : List (VfsFunc X W)) (s d : FileHandle X)
    (left stored : W → List ℕ) (room : W → ℕ) : Type 0 where
  pub reads :
      (n : ℕ) (w : W)
      → (v : W) × (vfs_read vfs_funcs s n w ≡ some (take n (left w), v))
        × (left v ≡ drop n (left w))
        × (stored v ≡ stored w)
        × (room v ≡ room w)
  pub writes :
      (bytes : List ℕ) (w : W)
      → (v : W) × (vfs_write vfs_funcs d bytes w ≡ some (min (length bytes) (room w), v))
        × (left v ≡ left w)
        × (stored v ≡ stored w ++ take (room w) bytes)
        × (room v ≡ room w - length bytes)
  pub closes_source : (w : W) → (v : W) × (vfs_close vfs_funcs s w ≡ some v) × (stored v ≡ stored w)
  pub closes_dest : (w : W) → (v : W) × (vfs_close vfs_funcs d w ≡ some v) × (stored v ≡ stored w)

word : (n : ℕ) → n < 65536 → n % 65536 ≡ n
word n small = omega arith

take_word : (xs : List ℕ) → length xs < 65536 → take (length xs % 65536) xs ≡ xs
take_word xs small =
    ap (λ n. take n xs) (word (length xs) small) ∙ take_over (length xs) xs (omega arith)

module _ {X W : Type 0} (vfs_funcs : List (VfsFunc X W)) (buf_size : ℕ) (s d : FileHandle X) where
  copy_blocks_end :
      (fuel : ℕ) (w v : W) (bytes : List ℕ)
      → vfs_read vfs_funcs s buf_size w ≡ some (bytes, v)
      → length bytes < 65536
      → (length bytes == 0) ≡ true
      → copy_blocks vfs_funcs buf_size (suc fuel) s d w ≡ some (0, v)
  unfolding copy_blocks Option.bind
  copy_blocks_end fuel w v bytes run small none_left =
      rw (run, Option.bind) (rw (word (length bytes) small) (rw none_left refl))

  copy_blocks_short :
      (fuel : ℕ) (w v u : W) (bytes : List ℕ) (j : ℕ)
      → vfs_read vfs_funcs s buf_size w ≡ some (bytes, v)
      → length bytes < 65536
      → (length bytes == 0) ≡ false
      → vfs_write vfs_funcs d bytes v ≡ some (j, u)
      → j < 65536
      → (length bytes == j) ≡ false
      → copy_blocks vfs_funcs buf_size (suc fuel) s d w ≡ some (1, u)
  unfolding copy_blocks Option.bind
  copy_blocks_short fuel w v u bytes j run small more written small_too short =
      rw (run, Option.bind)
        (rw (word (length bytes) small) (
          rw more (
            rw (take_word bytes small) (
              rw (written, Option.bind)
                (rw (word (length bytes) small) (rw (word j small_too) (rw short refl)))))))

  copy_blocks_last :
      (fuel : ℕ) (w v u : W) (bytes : List ℕ) (j : ℕ)
      → vfs_read vfs_funcs s buf_size w ≡ some (bytes, v)
      → length bytes < 65536
      → (length bytes == 0) ≡ false
      → vfs_write vfs_funcs d bytes v ≡ some (j, u)
      → j < 65536
      → (length bytes == j) ≡ true
      → ltb (length bytes) buf_size ≡ true
      → copy_blocks vfs_funcs buf_size (suc fuel) s d w ≡ some (0, u)
  unfolding copy_blocks Option.bind
  copy_blocks_last fuel w v u bytes j run small more written small_too whole last =
      rw (run, Option.bind)
        (rw (word (length bytes) small) (
          rw more (
            rw (take_word bytes small) (
              rw (written, Option.bind)
                (rw (word (length bytes) small) (
                  rw (word j small_too)
                    (rw whole (rw (word (length bytes) small) (rw last refl)))))))))

  copy_blocks_next :
      (fuel : ℕ) (w v u : W) (bytes : List ℕ) (j : ℕ)
      → vfs_read vfs_funcs s buf_size w ≡ some (bytes, v)
      → length bytes < 65536
      → (length bytes == 0) ≡ false
      → vfs_write vfs_funcs d bytes v ≡ some (j, u)
      → j < 65536
      → (length bytes == j) ≡ true
      → ltb (length bytes) buf_size ≡ false
      → copy_blocks vfs_funcs buf_size (suc fuel) s d w ≡ copy_blocks vfs_funcs buf_size fuel s d u
  unfolding copy_blocks Option.bind
  copy_blocks_next fuel w v u bytes j run small more written small_too whole full =
      rw (run, Option.bind)
        (rw (word (length bytes) small) (
          rw more (
            rw (take_word bytes small) (
              rw (written, Option.bind)
                (rw (word (length bytes) small) (
                  rw (word j small_too)
                    (rw whole (rw (word (length bytes) small) (rw full refl)))))))))

  module _ (left stored : W → List ℕ) (room : W → ℕ)
      (io : IsStream vfs_funcs s d left stored room) where
    -- What the loop returns and stores.
    abbrev Copied : Option (ℕ × W) → W → Type 0
    Copied o w =
        (v : W) × (o ≡ some (if leb (length (left w)) (room w) then 0 else 1, v))
        × (stored v ≡ stored w ++ take (room w) (left w))

    copy_blocks-Copied :
        (fuel : ℕ) (w : W)
        → 0 < buf_size
        → buf_size < 65536
        → length (left w) < fuel
        → Copied (copy_blocks vfs_funcs buf_size fuel s d w) w
    copy_blocks-Copied zero w some_size fits_word enough = absurd (omega arith)
    copy_blocks-Copied (suc fuel) w some_size fits_word enough =
        let block = take buf_size (left w) in
        let (v, run, rest, same, same_room) = io.reads buf_size w in
        let (u, written, rest_too, after, room_after) = io.writes block v in
        let size = length-take buf_size (left w) in
        let small : length block < 65536 = omega (arith, size) in
        let small_too : min (length block) (room v) < 65536 = omega (arith, small) in
        let kept : stored u ≡ stored w ++ take (room w) block =
          after ∙ ap₂ (λ x k. x ++ take k block) same same_room in
        elim (Bool-cases (length block == 0)) [
          | inl none_left ↦
              let empty : length (left w) ≤ 0 = ground (arith, size) in
              let fits : leb (length (left w)) (room w) ≡ true = ground arith in
              (
                v,
                copy_blocks_end fuel w v block run small none_left
                    ∙ ap (λ b. some (if b then 0 else 1, v)) (sym fits),
                same
                    ∙ sym (append-nil (stored w))
                    ∙ ap (λ r. stored w ++ r)
                        (take_over 0 (left w) empty
                          ∙ sym (take_over (room w) (left w) (omega arith))),
              )
          | inr more ↦ elim (Bool-cases (length block == min (length block) (room v))) [
            | inr short ↦
                let full : leb (length (left w)) (room w) ≡ false =
                  ground (arith, size, same_room) in
                let within : room w ≤ buf_size = ground (arith, size, same_room) in
                (
                  u,
                  copy_blocks_short fuel w v u block _ run small more written small_too short
                      ∙ ap (λ b. some (if b then 0 else 1, u)) (sym full),
                  kept ∙ ap (λ r. stored w ++ r) (take-take (room w) buf_size (left w) within),
                )
            | inl whole ↦ elim (Bool-cases (ltb (length block) buf_size)) [
              | inl last ↦
                  let fits : leb (length (left w)) (room w) ≡ true =
                    ground (arith, size, same_room) in
                  let all_left : length (left w) ≤ buf_size = ground (arith, size) in
                  (
                    u,
                    copy_blocks_last fuel w v u block _ run small more written small_too whole last
                        ∙ ap (λ b. some (if b then 0 else 1, u)) (sym fits),
                    kept
                        ∙ ap (λ r. stored w ++ take (room w) r)
                            (take_over buf_size (left w) all_left),
                  )
              | inr full ↦
                  let le : buf_size ≤ length (left w) = ground (arith, size) in
                  let fits : buf_size ≤ room w = ground (arith, size, same_room) in
                  let shorter = ap length (rest_too ∙ rest) in
                  let dropped = length-drop buf_size (left w) in
                  let (t, copied, stores) =
                    copy_blocks-Copied fuel u some_size fits_word (omega arith) in
                  let block_size : length block ≡ buf_size = omega arith in
                  let room_left : room u ≡ room w - buf_size = omega arith in
                  let flag : leb (length (left u)) (room u) ≡ leb (length (left w)) (room w) =
                    ground (arith, shorter, dropped, room_left) in
                  let split : buf_size + (room w - buf_size) ≡ room w = omega arith in
                  (
                    t,
                    copy_blocks_next fuel w v u block _ run small more written small_too whole full
                        ∙ copied
                        ∙ ap (λ b. some (if b then 0 else 1, t)) flag,
                    stores
                        ∙ ap₂ (λ a b. a ++ b)
                            (kept
                              ∙ ap (λ r. stored w ++ r) (take_over (room w) block (omega arith)))
                            (ap₂ take room_left (rest_too ∙ rest))
                        ∙ append_assoc (stored w) block
                            (take (room w - buf_size) (drop buf_size (left w)))
                        ∙ ap (λ r. stored w ++ r)
                            (sym (take-append-take buf_size (room w - buf_size) (left w))
                              ∙ ap (λ k. take k (left w)) split),
                  )
            ]
          ]
        ]

    -- With a network buffer of 1 to 65535 bytes, modules that read and write a file in order, enough
    -- fuel for the bytes to copy, and both files opened: `vfs_copy_file` copies as many bytes of the
    -- source as there is room for behind what the destination holds, and returns 0 exactly if that
    -- is all of them, and 1 otherwise.
    pub vfs_copy_file-Copied :
        (fuel : ℕ) (dest src : List ℕ) (w v u : W)
        → 0 < buf_size
        → buf_size < 65536
        → length (left u) < fuel
        → vfs_create vfs_funcs dest w ≡ (some d, v)
        → vfs_open vfs_funcs src v ≡ (some s, u)
        → Copied (vfs_copy_file vfs_funcs buf_size fuel dest src w) u
    unfolding vfs_copy_file copy_created copy_opened close_both Option.bind Option.map
    vfs_copy_file-Copied fuel dest src w v u some_size fits_word enough created opened =
        let (t, copied, stores) = copy_blocks-Copied fuel u some_size fits_word enough in
        let (a, closed, same) = io.closes_source t in
        let (b, closed_too, same_too) = io.closes_dest a in
        rw (created, copy_created)
          (rw (opened, copy_opened)
            (rw (copied, Option.bind)
              (rw (closed, Option.bind)
                (rw (closed_too, Option.map) (b, refl, same_too ∙ same ∙ stores)))))
