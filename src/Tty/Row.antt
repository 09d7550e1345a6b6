-- ===== src/Tty/Row.antt =====
-- Printing along a row of the window, up to its end.
use ir.Prelude.{
  ℕ, zero, suc, ◌+◌, ◌-◌, ◌%◌, ◌<◌, ◌≤◌, ◌≡◌, ◌≢◌, refl, true, false, some, arith, ltb, ◌==◌,
  ==_iff, if◌then◌else◌, ap, ◌∙◌, sym,
}
use native.Mathlib.Decide.{ℕ_discrete}
use mathlib.Core.Option
use mathlib.Core.Path.{subst}
use ir.Tty.Window.{Window, Tty, map, put_char, spaces, wspacetoeol, copy_row, waddch}
use ir.Tty.Cell.{box, IsPrinted, put_char_win, put_char_image, waddch_inside}

other_cell : (a b ch : ℕ) (s : Tty) → a ≢ b → (if a == b then ch else s.image a) ≡ s.image a
other_cell a b ch s ne = ground arith

module _ (lines cols : ℕ) (w : Window) where
  -- `t` is `s` with the cells of the row `y` from the column `x` up to `x + n`, not included, set to
  -- `v`. `w` is the window but for its cursor.
  pub record Filled (v : ℕ → ℕ) (y x n : ℕ) (s t : Tty) : Type 0 where
    pub boxed : box t.win ≡ w
    pub cells : (c : ℕ) → x ≤ c → c < x + n → t.image (map lines cols w y c) ≡ v c
    pub others :
        (a : ℕ) → ((c : ℕ) → x ≤ c → c < x + n → a ≢ map lines cols w y c) → t.image a ≡ s.image a

  -- The cursor stands at the next cell, if there is one to fill.
  abbrev pub Cursor : ℕ → ℕ → ℕ → Tty → Type 0
  Cursor y x n s = 0 < n → (s.win.y ≡ y) × (s.win.x ≡ x)

  Filled-none : (v : ℕ → ℕ) (y x : ℕ) (s : Tty) → box s.win ≡ w → Filled v y x 0 s s
  Filled-none v y x s e = record {
    boxed = e;
    cells = λ c a b. absurd (omega arith);
    others = λ a _. refl;
  }

  module _ (ch y x n : ℕ) (s : Tty) (e : box s.win ≡ w) (p : IsPrinted ch)
      (cursor : (s.win.y ≡ y) × (s.win.x ≡ x)) where
    put_char-box : box (put_char lines cols ch s).win ≡ w
    put_char-box = ap box (put_char_win lines cols ch s p) ∙ e

    put_char-Cursor :
        x + suc n ≡ w.maxx + 1 → w.maxx < 255 → Cursor y (x + 1) n (put_char lines cols ch s)
    put_char-Cursor full b more =
        let moved = put_char_win lines cols ch s p in
        let inner : (s.win.x == s.win.maxx) ≡ false =
          ground (arith, ap (λ (u : Window). u.maxx) e) in
        (
          ap (λ (u : Window). u.y) moved ∙ rw inner cursor.0,
          ap (λ (u : Window). u.x) moved ∙ rw inner (omega arith),
        )

    put_char_cell :
        (a : ℕ)
        → (put_char lines cols ch s).image a ≡ (if a == map lines cols w y x then ch else s.image a)
    put_char_cell a =
        put_char_image lines cols ch s p a
        ∙ ap (λ u. if a == map lines cols u s.win.y s.win.x then ch else s.image a) e
        ∙ ap (λ r. if a == map lines cols w r s.win.x then ch else s.image a) cursor.0
        ∙ ap (λ c. if a == map lines cols w y c then ch else s.image a) cursor.1

    Filled-put_char :
        (v : ℕ → ℕ) (t : Tty)
        → v x ≡ ch
        → Filled v y (x + 1) n (put_char lines cols ch s) t
        → Filled v y x (suc n) s t
    Filled-put_char v t same f = record {
      boxed = f.boxed;
      cells = λ c a b. elim (ℕ_discrete c x) [
        | yes hit ↦
            ap (λ k. t.image (map lines cols w y k)) hit
            ∙ f.others (map lines cols w y x) (λ k l m q. omega arith)
            ∙ put_char_cell (map lines cols w y x)
            ∙ rw ((==_iff (map lines cols w y x) (map lines cols w y x)).1 refl)
                (sym same ∙ ap v (sym hit))
        | no miss ↦ f.cells c (omega arith) (omega arith)
      ];
      others = λ a out.
          let here : (a == map lines cols w y x) ≡ false = ground (arith, out x) in
          f.others a (λ c l m. out c (omega arith) (omega arith)) ∙ put_char_cell a ∙ rw here;
    }

  module _ (fuel : ℕ) where
    spaces-Filled :
        (n y x : ℕ) (s : Tty)
        → box s.win ≡ w
        → y ≤ w.maxy
        → x + n ≡ w.maxx + 1
        → w.maxx < 255
        → Cursor y x n s
        → (t : Tty) × (spaces lines cols (waddch lines cols (suc fuel)) n s ≡ some t)
          × Filled (λ _. 32) y x n s t
    unfolding spaces Option.bind
    spaces-Filled zero y x s e row full b cursor = (s, refl, Filled-none (λ _. 32) y x s e)
    spaces-Filled (suc n) y x s e row full b cursor =
        let here = cursor (omega arith) in
        let printed : IsPrinted 32 = (omega arith, omega arith) in
        let inside : s.win.y ≤ s.win.maxy = ground (arith, ap (λ (u : Window). u.maxy) e) in
        let (t, run, f) =
          spaces-Filled n y (x + 1) (put_char lines cols 32 s)
            (put_char-box 32 y x n s e printed here) row (omega arith) b
            (put_char-Cursor 32 y x n s e printed here full b) in
        (
          t,
          rw (waddch_inside lines cols fuel 32 s inside) run,
          Filled-put_char 32 y x n s e printed here (λ _. 32) t refl f,
        )

    -- Up to the end of the row.
    pub wspacetoeol-Filled :
        (y x k : ℕ) (s : Tty)
        → box s.win ≡ w
        → y ≤ w.maxy
        → x + k ≡ w.maxx + 1
        → x ≤ w.maxx
        → w.maxx < 255
        → s.win.y ≡ y
        → s.win.x ≡ x
        → (t : Tty) × (wspacetoeol lines cols (waddch lines cols (suc fuel)) s ≡ some t)
          × Filled (λ _. 32) y x k s t
    unfolding wspacetoeol
    wspacetoeol-Filled y x k s e row full column b ey ex =
        let count : (s.win.maxx + 257 - s.win.x) % 256 ≡ k =
          omega (arith, ap (λ (u : Window). u.maxx) e) in
        rw count (spaces-Filled k y x s e row full b (λ _. (ey, ex)))

    copy_row_end :
        (r d y x : ℕ) (s : Tty)
        → s.win.maxx < x
        → copy_row lines cols (waddch lines cols (suc fuel)) (suc r) d y x s ≡ some s
    unfolding copy_row
    copy_row_end r d y x s b = let ends : ltb s.win.maxx x ≡ true = ground arith in rw ends

    copy_row_step :
        (r d y x ch : ℕ) (s : Tty)
        → x ≤ s.win.maxx
        → x < 255
        → s.win.y ≤ s.win.maxy
        → s.image (map lines cols s.win (y + d) s.win.x) ≡ ch
        → copy_row lines cols (waddch lines cols (suc fuel)) (suc r) d y x s
          ≡ copy_row lines cols
              (waddch lines cols (suc fuel))
              r
              d
              y
              (x + 1)
              (put_char lines cols ch s)
    unfolding copy_row Option.bind
    copy_row_step r d y x ch s b small inside e =
        let more : ltb s.win.maxx x ≡ false = ground arith in
        rw (more, e)
          (rw (waddch_inside lines cols fuel ch s inside) (
            ap
              (λ c.
                copy_row lines cols (waddch lines cols (suc fuel)) r d y c
                  (put_char lines cols ch s))
              (omega arith)))

    -- The row `y + d`, whose cells are `v`, is copied to the row `y`; `k` cells are left.
    pub copy_row-Filled :
        (rounds k d y x : ℕ) (v : ℕ → ℕ) (s : Tty)
        → box s.win ≡ w
        → y ≤ w.maxy
        → x + k ≡ w.maxx + 1
        → w.maxx < 255
        → k < rounds
        → Cursor y x k s
        → ((c : ℕ) → c ≤ w.maxx → IsPrinted (v c))
        → ((a c : ℕ) → a ≤ w.maxx → c ≤ w.maxx → map lines cols w (y + d) a ≢ map lines cols w y c)
        → ((c : ℕ) → c ≤ w.maxx → s.image (map lines cols w (y + d) c) ≡ v c)
        → (t : Tty) × (copy_row lines cols (waddch lines cols (suc fuel)) rounds d y x s ≡ some t)
          × Filled v y x k s t
    copy_row-Filled zero k d y x v s e row full b enough cursor printed apart source =
        absurd (omega arith)
    copy_row-Filled (suc r) zero d y x v s e row full b enough cursor printed apart source = (
      s,
      copy_row_end r d y x s (ground (arith, ap (λ (u : Window). u.maxx) e)),
      Filled-none v y x s e,
    )
    copy_row-Filled (suc r) (suc k) d y x v s e row full b enough cursor printed apart source =
        let here = cursor (omega arith) in
        let ch = s.image (map lines cols s.win (y + d) s.win.x) in
        let same : ch ≡ v x =
          ap (λ u. s.image (map lines cols u (y + d) s.win.x)) e
          ∙ ap (λ c. s.image (map lines cols w (y + d) c)) here.1
          ∙ source x (omega arith) in
        let p : IsPrinted ch = subst IsPrinted (sym same) (printed x (omega arith)) in
        let inside : s.win.y ≤ s.win.maxy = ground (arith, ap (λ (u : Window). u.maxy) e) in
        let (t, run, f) =
          copy_row-Filled r k d y (x + 1) v (put_char lines cols ch s)
            (put_char-box ch y x k s e p here) row (omega arith) b (omega arith)
            (put_char-Cursor ch y x k s e p here full b) printed apart
            (λ c q.
              put_char_cell ch y x k s e p here (map lines cols w (y + d) c)
              ∙ other_cell (map lines cols w (y + d) c) (map lines cols w y x) ch s
                  (apart c x q (omega arith))
              ∙ source c q) in
        (
          t,
          copy_row_step r d y x ch s (ground (arith, ap (λ (u : Window). u.maxx) e)) (omega arith)
                inside refl
              ∙ run,
          Filled-put_char ch y x k s e p here v t (sym same) f,
        )
