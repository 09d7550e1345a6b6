-- ===== src/Tty/Scroll.antt =====
-- Scrolling a window.
use ir.Prelude.{
  ℕ, zero, suc, ◌+◌, ◌-◌, ◌<◌, ◌≤◌, ◌≡◌, ◌≢◌, refl, true, false, some, arith, ltb, ap, ◌∙◌,
}
use mathlib.Core.Option
use mathlib.Core.Path.{subst}
use ir.Prelude.Words.{add8}
use ir.Tty.Window.{Window, Tty, map, wmove, wclrtobot, copy_row, copy_lines, wscroll, waddch}
use ir.Tty.Cell.{box, IsPrinted, wmove_image}
use ir.Tty.Row.{wspacetoeol-Filled, copy_row-Filled}
use ir.Tty.Block.{
  Fits, Block, cells_apart, Block-none, Block-Filled, moved_box, moved_cursor, clear_lines-Block,
}

module _ (lines cols : ℕ) (w : Window) (fits : Fits lines cols w) (fuel : ℕ) where
  -- From the start of a row on.
  pub wclrtobot-Block :
      (rounds n y : ℕ) (s : Tty)
      → box s.win ≡ w
      → y + suc n ≡ w.maxy + 1
      → n < rounds
      → s.win.y ≡ y
      → s.win.x ≡ 0
      → (t : Tty) × (wclrtobot lines cols (waddch lines cols (suc fuel)) rounds s ≡ some t)
        × Block lines cols w (λ _ _. 32) y (suc n) s t
        × (t.win.y ≡ y)
        × (t.win.x ≡ 0)
  unfolding wclrtobot Option.bind
  wclrtobot-Block rounds n y s e full enough ey ex =
      let low = fits.maxy_lt in
      let (u, run, f) =
        wspacetoeol-Filled lines cols w fuel y 0 (w.maxx + 1) s e (omega arith) (omega arith)
          (omega arith) fits.maxx_lt ey ex in
      let (t, later, b) =
        clear_lines-Block lines cols w fits fuel rounds n (y + 1) u f.boxed (omega arith) enough in
      let next : add8 s.win.y 1 ≡ y + 1 = omega arith in
      let cursor = moved_cursor lines cols w fits y 0 t b.boxed (omega arith) (omega arith) in
      let back : (wmove s.win.y s.win.x t) ≡ wmove y 0 t =
        ap (λ r. wmove r s.win.x t) ey ∙ ap (λ c. wmove y c t) ex in
      let block = Block-Filled lines cols w fits (λ _ _. 32) y n s s u t (λ a. refl) f b in
      (
        wmove y 0 t,
        rw (run, next) (rw later (ap some back)),
        record {
          boxed = moved_box lines cols w fits y t b.boxed (omega arith);
          cells = λ r c p q k.
              ap (λ g. g (map lines cols w r c)) (wmove_image y 0 t) ∙ block.cells r c p q k;
          others = λ a out. ap (λ g. g a) (wmove_image y 0 t) ∙ block.others a out;
        },
        cursor.0,
        cursor.1,
      )

  copy_lines_end :
      (rounds d y : ℕ) (s : Tty)
      → s.win.maxy - d < y
      → copy_lines lines cols (waddch lines cols (suc fuel)) (suc rounds) d y s ≡ some s
  unfolding copy_lines
  copy_lines_end rounds d y s b = let ends : ltb (s.win.maxy - d) y ≡ true = ground arith in rw ends

  copy_lines_step :
      (rounds d y : ℕ) (s u : Tty)
      → y ≤ s.win.maxy - d
      → y < 255
      → copy_row lines cols (waddch lines cols (suc fuel)) 257 d y 0 (wmove y 0 s) ≡ some u
      → copy_lines lines cols (waddch lines cols (suc fuel)) (suc rounds) d y s
        ≡ copy_lines lines cols (waddch lines cols (suc fuel)) rounds d (y + 1) u
  unfolding copy_lines Option.bind
  copy_lines_step rounds d y s u b small run =
      let more : ltb (s.win.maxy - d) y ≡ false = ground arith in
      rw more (
        rw run (
          ap (λ k. copy_lines lines cols (waddch lines cols (suc fuel)) rounds d k u)
            (omega arith)))

  -- `n` rows are left; what stands `d` rows below them is `v`.
  copy_lines-Block :
      (rounds n d y : ℕ) (v : ℕ → ℕ → ℕ) (s : Tty)
      → box s.win ≡ w
      → 0 < d
      → d ≤ w.maxy
      → y + n + d ≡ w.maxy + 1
      → n < rounds
      → ((r c : ℕ) → y ≤ r → r + d ≤ w.maxy → c ≤ w.maxx → IsPrinted (v r c))
      → ((r c : ℕ)
          → y ≤ r
          → r + d ≤ w.maxy
          → c ≤ w.maxx
          → s.image (map lines cols w (r + d) c) ≡ v r c)
      → (t : Tty) × (copy_lines lines cols (waddch lines cols (suc fuel)) rounds d y s ≡ some t)
        × Block lines cols w v y n s t
  copy_lines-Block zero n d y v s e pd pm full enough printed source = absurd (omega arith)
  copy_lines-Block (suc rounds) zero d y v s e pd pm full enough printed source = (
    s,
    copy_lines_end rounds d y s (omega (arith, ap (λ (u : Window). u.maxy) e)),
    Block-none lines cols w fits v y s e,
  )
  copy_lines-Block (suc rounds) (suc n) d y v s e pd pm full enough printed source =
      let low = fits.maxy_lt in
      let narrow = fits.maxx_lt in
      let start = moved_cursor lines cols w fits y 0 s e (omega arith) (omega arith) in
      let (u, run, f) =
        copy_row-Filled lines cols w fuel 257 (w.maxx + 1) d y 0 (v y) (wmove y 0 s)
          (moved_box lines cols w fits y s e (omega arith)) (omega arith) (omega arith) narrow
          (omega arith) (λ _. start) (λ c k. printed y c (omega arith) (omega arith) k)
          (λ a c k l. cells_apart lines cols w fits (y + d) y a c (omega arith) k l)
          (λ c k.
            ap (λ g. g (map lines cols w (y + d) c)) (wmove_image y 0 s)
            ∙ source y c (omega arith) (omega arith) k) in
      let (t, later, b) =
        copy_lines-Block rounds n d (y + 1) v u f.boxed pd pm (omega arith) (omega arith)
          (λ r c p q k. printed r c (omega arith) q k)
          (λ r c p q k.
            f.others (map lines cols w (r + d) c)
              (λ c' _ l. cells_apart lines cols w fits (r + d) y c c' (omega arith) k (omega arith))
            ∙ ap (λ g. g (map lines cols w (r + d) c)) (wmove_image y 0 s)
            ∙ source r c (omega arith) q k) in
      (
        t,
        copy_lines_step rounds d y s u (omega (arith, ap (λ (u : Window). u.maxy) e)) (omega arith)
              run
            ∙ later,
        Block-Filled lines cols w fits v y n s (wmove y 0 s) u t
            (λ a. ap (λ g. g a) (wmove_image y 0 s)) f b,
      )

  -- `t` is `s` scrolled up by `d` lines. `w` is the window but for its cursor.
  pub record Scrolled (d : ℕ) (s t : Tty) : Type 0 where
    pub boxed : box t.win ≡ w
    pub row : t.win.y + d ≡ w.maxy + 1
    pub column : t.win.x ≡ 0
    pub moved :
        (r c : ℕ)
        → r + d ≤ w.maxy
        → c ≤ w.maxx
        → t.image (map lines cols w r c) ≡ s.image (map lines cols w (r + d) c)
    pub cleared :
        (r c : ℕ) → w.maxy < r + d → r ≤ w.maxy → c ≤ w.maxx → t.image (map lines cols w r c) ≡ 32
    pub others :
        (a : ℕ)
        → ((r c : ℕ) → r ≤ w.maxy → c ≤ w.maxx → a ≢ map lines cols w r c)
        → t.image a ≡ s.image a

  Scrolled-Block :
      (d : ℕ) (s u t : Tty)
      → 0 < d
      → d ≤ w.maxy
      → Block lines cols w (λ r c. s.image (map lines cols w (r + d) c)) 0 (w.maxy + 1 - d) s u
      → Block lines cols w (λ _ _. 32) (w.maxy + 1 - d) d (wmove (w.maxy + 1 - d) 0 u) t
      → t.win.y ≡ w.maxy + 1 - d
      → t.win.x ≡ 0
      → Scrolled d s t
  Scrolled-Block d s u t pd b copied blank ey ex = record {
    boxed = blank.boxed;
    row = omega arith;
    column = ex;
    moved = λ r c p k.
        blank.others (map lines cols w r c)
          (λ r' c' q _ l. cells_apart lines cols w fits r r' c c' (omega arith) k l)
        ∙ ap (λ g. g (map lines cols w r c)) (wmove_image (w.maxy + 1 - d) 0 u)
        ∙ copied.cells r c (omega arith) (omega arith) k;
    cleared = λ r c p q k. blank.cells r c (omega arith) (omega arith) k;
    others = λ a out.
        blank.others a (λ r c p q k. out r c (omega arith) k)
        ∙ ap (λ g. g a) (wmove_image (w.maxy + 1 - d) 0 u)
        ∙ copied.others a (λ r c p q k. out r c (omega arith) k);
  }

  -- `wscroll`, called with `waddch` to print with, in a window that fits the display and holds no
  -- ends of lines, by a number of lines from 1 to its last row: it ends, each cell gets what stood
  -- that many lines below it, the lines that are left are blank, the cursor stands at the first of
  -- them, and nothing outside the window has changed.
  pub wscroll-Scrolled :
      (d : ℕ) (s : Tty)
      → box s.win ≡ w
      → 0 < d
      → d ≤ w.maxy
      → ((r c : ℕ) → r ≤ w.maxy → c ≤ w.maxx → IsPrinted (s.image (map lines cols w r c)))
      → (t : Tty) × (wscroll lines cols (waddch lines cols (suc fuel)) 257 d s ≡ some t)
        × Scrolled d s t
  unfolding wscroll Option.bind
  wscroll-Scrolled d s e pd b printed =
      let low = fits.maxy_lt in
      let (u, run, copied) =
        copy_lines-Block 257 (w.maxy + 1 - d) d 0 (λ r c. s.image (map lines cols w (r + d) c)) s e
          pd b (omega arith) (omega arith) (λ r c _ q k. printed (r + d) c q k)
          (λ r c _ _ _. refl) in
      let first : s.win.maxy - d + 1 ≡ w.maxy + 1 - d =
        omega (arith, ap (λ (u : Window). u.maxy) e) in
      let cursor =
        moved_cursor lines cols w fits (w.maxy + 1 - d) 0 u copied.boxed (omega arith)
          (omega arith) in
      let (t, later, blank, ey, ex) =
        wclrtobot-Block 257 (d - 1) (w.maxy + 1 - d) (wmove (w.maxy + 1 - d) 0 u)
          (moved_box lines cols w fits (w.maxy + 1 - d) u copied.boxed (omega arith)) (omega arith)
          (omega arith) cursor.0 cursor.1 in
      let short : ltb s.win.maxy d ≡ false = ground (arith, ap (λ (u : Window). u.maxy) e) in
      (
        t,
        rw short (rw run (rw first later)),
        Scrolled-Block d s u t pd b copied
            (subst
              (λ n.
                Block lines cols w (λ _ _. 32) (w.maxy + 1 - d) n (wmove (w.maxy + 1 - d) 0 u) t)
              (omega arith) blank)
            ey ex,
      )
