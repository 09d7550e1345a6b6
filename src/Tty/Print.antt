-- ===== src/Tty/Print.antt =====
-- What every function of a window keeps, and one character behind the scrolling.
use ir.Prelude.{
  ℕ, ◌+◌, ◌*◌, ◌<◌, ◌≤◌, ◌≡◌, ◌≢◌, false, arith, ◌==◌, ==_iff, if◌then◌else◌, ap, ◌∙◌, sym,
}
use native.Mathlib.Decide.{ℕ_discrete}
use mathlib.Core.Path.{subst}
use ir.Prelude.Words.{add8}
use ir.Tty.Window.{Window, Tty, map, return_to, put_char}
use ir.Tty.Cell.{box, IsPrinted, put_char_win, put_char_image, return_to_win, return_to_image}
use ir.Tty.Block.{Fits}

cell_lt : (lines cols r c : ℕ) → r < lines → c < cols → r * cols + c < lines * cols
cell_lt lines cols r c h l = grind arith

module _ (lines cols : ℕ) (w : Window) where
  -- The cursor stands in the window, or below its last row, and no cell holds an end of line.
  pub record IsGood (s : Tty) : Type 0 where
    pub boxed : box s.win ≡ w
    pub row : s.win.y ≤ w.maxy + 1
    pub column : s.win.x ≤ w.maxx
    pub printed : (r c : ℕ) → r ≤ w.maxy → c ≤ w.maxx → IsPrinted (s.image (map lines cols w r c))

  -- The memory behind the image is the same.
  abbrev pub SameBehind : Tty → Tty → Type 0
  SameBehind s t = (a : ℕ) → lines * cols ≤ a → t.image a ≡ s.image a

  module _ (fits : Fits lines cols w) (tall : w.maxy + w.begy < lines) where
    pub inside_image : (r c : ℕ) → r ≤ w.maxy → c ≤ w.maxx → map lines cols w r c < lines * cols
    inside_image r c p q =
        let wide = fits.wide in
        cell_lt lines cols (r + w.begy) (c + w.begx) (omega arith) (omega arith)

    -- What a call that succeeds does.
    abbrev pub Keeps : Tty → Tty → Type 0
    Keeps s t = IsGood t × SameBehind s t

    return_to-Keeps : (y : ℕ) (s : Tty) → IsGood s → y ≤ w.maxy + 1 → Keeps s (return_to y s)
    return_to-Keeps y s g b =
        let m = return_to_win y s in
        (
          record {
            boxed = ap box m ∙ g.boxed;
            row = omega (arith, ap (λ (u : Window). u.y) m);
            column = omega (arith, ap (λ (u : Window). u.x) m);
            printed = λ r c p q.
                subst (λ f. IsPrinted (f (map lines cols w r c))) (sym (return_to_image y s))
                  (g.printed r c p q);
          },
          λ a _. ap (λ f. f a) (return_to_image y s),
        )

    IsPrinted-choice :
        (ch a b v : ℕ) → IsPrinted ch → IsPrinted v → IsPrinted (if a == b then ch else v)
    IsPrinted-choice ch a b v p q = ground arith

    put_printed-Keeps :
        (ch : ℕ) (s : Tty)
        → IsPrinted ch
        → IsGood s
        → s.win.y ≤ w.maxy
        → Keeps s (put_char lines cols ch s)
    put_printed-Keeps ch s p g b =
        let m = put_char_win lines cols ch s p in
        let low = fits.maxy_lt in
        let narrow = fits.maxx_lt in
        let column = g.column in
        let width = ap (λ (u : Window). u.maxx) g.boxed in
        let cell : map lines cols s.win s.win.y s.win.x < lines * cols =
          subst (λ u. map lines cols u s.win.y s.win.x < lines * cols) (sym g.boxed)
            (inside_image s.win.y s.win.x b column) in
        (
          record {
            boxed = ap box m ∙ g.boxed;
            row = ground (arith, ap (λ (u : Window). u.y) m);
            column = ground (arith, ap (λ (u : Window). u.x) m);
            printed = λ r c q k.
                subst IsPrinted (sym (put_char_image lines cols ch s p (map lines cols w r c))) (
                  IsPrinted-choice ch (map lines cols w r c) (map lines cols s.win s.win.y s.win.x)
                    (s.image (map lines cols w r c)) p (g.printed r c q k));
          },
          λ a far.
              put_char_image lines cols ch s p a
              ∙ other_cell a (map lines cols s.win s.win.y s.win.x) ch (s.image a) (omega arith),
        )
      where
        other_cell : (a b ch v : ℕ) → a ≢ b → (if a == b then ch else v) ≡ v
        other_cell a b ch v ne = ground arith

    pub put_char-Keeps :
        (ch : ℕ) (s : Tty) → IsGood s → s.win.y ≤ w.maxy → Keeps s (put_char lines cols ch s)
    unfolding put_char
    put_char-Keeps ch s g b = elim (ℕ_discrete ch 10) [
      | yes e ↦
          let low = fits.maxy_lt in
          rw ((==_iff ch 10).1 e) (return_to-Keeps (add8 s.win.y 1) s g (omega arith))
      | no n ↦ elim (ℕ_discrete ch 13) [
        | yes e ↦
            let other : (ch == 10) ≡ false = ground arith in
            rw other (rw ((==_iff ch 13).1 e) (return_to-Keeps s.win.y s g g.row))
        | no m ↦ put_printed-Keeps ch s (n, m) g b
      ]
    ]
