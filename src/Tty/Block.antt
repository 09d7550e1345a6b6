-- ===== src/Tty/Block.antt =====
-- Rows of the window: clearing to the bottom, and copying upwards.
use ir.Prelude.{
  ℕ, zero, suc, ◌+◌, ◌*◌, ◌<◌, ◌≤◌, ◌≡◌, ◌≢◌, ◌⊎◌, refl, true, false, some, arith, ltb, Bool-cases,
  inl, inr, ap, ◌∙◌, sym,
}
use native.Mathlib.Decide.{ℕ_discrete}
use mathlib.Core.Option
use ir.Tty.Window.{Window, Tty, map, wmove, wspacetoeol, clear_lines, waddch}
use ir.Tty.Cell.{box, wmove_win, wmove_image}
use ir.Tty.Row.{Filled, wspacetoeol-Filled}

rows_apart : (cols p q a b : ℕ) → p < q → a < cols → p * cols + a ≢ q * cols + b
rows_apart cols p q a b h l e = grind arith

module _ (lines cols : ℕ) (w : Window) where
  -- What a window needs: its rows lie within the display's, and its loops end.
  pub record Fits : Type 0 where
    pub wide : w.maxx + w.begx < cols
    pub maxx_lt : w.maxx < 255
    pub maxy_lt : w.maxy < 255

  -- `t` is `s` with the cells of `n` rows from `y` on set to `v`.
  pub record Block (v : ℕ → ℕ → ℕ) (y n : ℕ) (s t : Tty) : Type 0 where
    pub boxed : box t.win ≡ w
    pub cells : (r c : ℕ) → y ≤ r → r < y + n → c ≤ w.maxx → t.image (map lines cols w r c) ≡ v r c
    pub others :
        (a : ℕ)
        → ((r c : ℕ) → y ≤ r → r < y + n → c ≤ w.maxx → a ≢ map lines cols w r c)
        → t.image a ≡ s.image a

  module _ (fits : Fits) where
    pub cells_apart :
        (r r' c c' : ℕ)
        → r ≢ r'
        → c ≤ w.maxx
        → c' ≤ w.maxx
        → map lines cols w r c ≢ map lines cols w r' c'
    cells_apart r r' c c' ne a b e =
        let wide = fits.wide in
        elim (lt_or r r' ne) [
          | inl l ↦
              rows_apart cols (r + w.begy) (r' + w.begy) (c + w.begx) (c' + w.begx) (omega arith)
                (omega arith) e
          | inr l ↦
              rows_apart cols (r' + w.begy) (r + w.begy) (c' + w.begx) (c + w.begx) (omega arith)
                (omega arith) (sym e)
        ]
      where
        lt_or : (m n : ℕ) → m ≢ n → (m < n) ⊎ (n < m)
        lt_or m n ne = elim (Bool-cases (ltb m n)) [
          | inl l ↦ inl (ground arith)
          | inr l ↦ inr (ground arith)
        ]

    pub Block-none : (v : ℕ → ℕ → ℕ) (y : ℕ) (s : Tty) → box s.win ≡ w → Block v y 0 s s
    Block-none v y s e = record {
      boxed = e;
      cells = λ r c a b _. absurd (omega arith);
      others = λ a _. refl;
    }

    pub Block-Filled :
        (v : ℕ → ℕ → ℕ) (y n : ℕ) (s s' u t : Tty)
        → ((a : ℕ) → s'.image a ≡ s.image a)
        → Filled lines cols w (v y) y 0 (w.maxx + 1) s' u
        → Block v (y + 1) n u t
        → Block v y (suc n) s t
    Block-Filled v y n s s' u t kept f b = record {
      boxed = b.boxed;
      cells = λ r c p q k. elim (ℕ_discrete r y) [
        | yes hit ↦
            ap (λ i. t.image (map lines cols w i c)) hit
            ∙ b.others (map lines cols w y c)
                (λ r' c' p' q' k'. cells_apart y r' c c' (omega arith) k k')
            ∙ f.cells c (omega arith) (omega arith)
            ∙ ap (λ i. v i c) (sym hit)
        | no miss ↦ b.cells r c (omega arith) (omega arith) k
      ];
      others = λ a out.
          b.others a (λ r c p q k. out r c (omega arith) (omega arith) k)
          ∙ f.others a (λ c _ k. out y c (omega arith) (omega arith) (omega arith))
          ∙ kept a;
    }

    -- The cursor at the start of a row.
    pub moved_box : (y : ℕ) (s : Tty) → box s.win ≡ w → y ≤ w.maxy → box (wmove y 0 s).win ≡ w
    moved_box y s e b = ap box (wmove_win y 0 s (in_rows y s e b) (omega arith)) ∙ e
      where
        in_rows : (y : ℕ) (s : Tty) → box s.win ≡ w → y ≤ w.maxy → y ≤ s.win.maxy
        in_rows y s e b = omega (arith, ap (λ (u : Window). u.maxy) e)

    pub moved_cursor :
        (y x : ℕ) (s : Tty)
        → box s.win ≡ w
        → y ≤ w.maxy
        → x ≤ w.maxx
        → ((wmove y x s).win.y ≡ y) × ((wmove y x s).win.x ≡ x)
    moved_cursor y x s e b c =
        let m =
          wmove_win y x s (omega (arith, ap (λ (u : Window). u.maxy) e))
            (omega (arith, ap (λ (u : Window). u.maxx) e)) in
        (ap (λ (u : Window). u.y) m, ap (λ (u : Window). u.x) m)

    module _ (fuel : ℕ) where
      clear_lines_end :
          (r y : ℕ) (s : Tty)
          → s.win.maxy < y
          → clear_lines lines cols (waddch lines cols (suc fuel)) (suc r) y s ≡ some s
      unfolding clear_lines
      clear_lines_end r y s b = let ends : ltb s.win.maxy y ≡ true = ground arith in rw ends

      clear_lines_step :
          (r y : ℕ) (s u : Tty)
          → y ≤ s.win.maxy
          → y < 255
          → wspacetoeol lines cols (waddch lines cols (suc fuel)) (wmove y 0 s) ≡ some u
          → clear_lines lines cols (waddch lines cols (suc fuel)) (suc r) y s
            ≡ clear_lines lines cols (waddch lines cols (suc fuel)) r (y + 1) u
      unfolding clear_lines Option.bind
      clear_lines_step r y s u b small run =
          let more : ltb s.win.maxy y ≡ false = ground arith in
          rw more (
            rw run
              (ap (λ k. clear_lines lines cols (waddch lines cols (suc fuel)) r k u) (omega arith)))

      pub clear_lines-Block :
          (rounds n y : ℕ) (s : Tty)
          → box s.win ≡ w
          → y + n ≡ w.maxy + 1
          → n < rounds
          → (t : Tty) × (clear_lines lines cols (waddch lines cols (suc fuel)) rounds y s ≡ some t)
            × Block (λ _ _. 32) y n s t
      clear_lines-Block zero n y s e full enough = absurd (omega arith)
      clear_lines-Block (suc rounds) zero y s e full enough = (
        s,
        clear_lines_end rounds y s (omega (arith, ap (λ (u : Window). u.maxy) e)),
        Block-none (λ _ _. 32) y s e,
      )
      clear_lines-Block (suc rounds) (suc n) y s e full enough =
          let cursor = moved_cursor y 0 s e (omega arith) (omega arith) in
          let (u, run, f) =
            wspacetoeol-Filled lines cols w fuel y 0 (w.maxx + 1) (wmove y 0 s)
              (moved_box y s e (omega arith)) (omega arith) (omega arith) (omega arith) fits.maxx_lt
              cursor.0 cursor.1 in
          let (t, later, b) =
            clear_lines-Block rounds n (y + 1) u f.boxed (omega arith) (omega arith) in
          let low = fits.maxy_lt in
          (
            t,
            clear_lines_step rounds y s u (omega (arith, ap (λ (u : Window). u.maxy) e))
                  (omega arith) run
                ∙ later,
            Block-Filled (λ _ _. 32) y n s (wmove y 0 s) u t
                (λ a. ap (λ g. g a) (wmove_image y 0 s)) f b,
          )
