-- ===== src/Tty/Cell.antt =====
-- One character in a window: `put_char` and `wmove` by their effect on the image and the cursor.
use ir.Prelude.{
  ℕ, suc, ◌<◌, ◌≤◌, ◌≡◌, ◌≢◌, false, ◌||◌, some, arith, ltb, ◌==◌, Bool-cases, inl, inr,
  if◌then◌else◌, ap, ◌∙◌,
}
use ir.Prelude.Words.{add8}
use ir.Tty.Window.{
  Window, Tty, tty_ll_goto, tty_ll_put, follow, advance, return_to, wmove, map, write, put_char,
  waddch,
}

-- The window without its cursor.
abbrev pub box : Window → Window
box w = record w { y = 0; x = 0 }

-- A window whose loops end, with the cursor in it.
pub record IsInside (w : Window) : Type 0 where
  pub row : w.y ≤ w.maxy
  pub column : w.x ≤ w.maxx
  pub maxy_lt : w.maxy < 255
  pub maxx_lt : w.maxx < 255

-- Printed, not taken for the end of a line.
abbrev pub IsPrinted : ℕ → Type 0
IsPrinted ch = (ch ≢ 10) × (ch ≢ 13)

module _ (y x : ℕ) (s : Tty) where
  goto_win : (tty_ll_goto y x s).win ≡ s.win
  unfolding tty_ll_goto
  goto_win = ground arith

  goto_image : (tty_ll_goto y x s).image ≡ s.image
  unfolding tty_ll_goto
  goto_image = ground arith

module _ (y x ch : ℕ) (s : Tty) where
  put_win : (tty_ll_put y x ch s).win ≡ s.win
  unfolding tty_ll_put
  put_win = goto_win y x s

  put_image : (tty_ll_put y x ch s).image ≡ s.image
  unfolding tty_ll_put
  put_image = goto_image y x s

module _ (y x : ℕ) (s : Tty) where
  follow_win : (follow y x s).win ≡ s.win
  unfolding follow
  follow_win = ground (arith, goto_win y x s)

  follow_image : (follow y x s).image ≡ s.image
  unfolding follow
  follow_image = ground (arith, goto_image y x s)

-- The cursor behind a character.
abbrev pub next_y : Window → ℕ
next_y w = if w.x == w.maxx then (if w.linewrap then add8 w.y 1 else w.y) else w.y

abbrev pub next_x : Window → ℕ
next_x w = if w.x == w.maxx then (if w.linewrap then 0 else w.x) else add8 w.x 1

pub advance_image : (s : Tty) → (advance s).image ≡ s.image
unfolding advance
advance_image s = elim (Bool-cases (s.win.x == s.win.maxx)) [
  | inl e ↦ elim (Bool-cases s.win.linewrap) [
    | inl l ↦ rw (e, l) (follow_image _ _ _)
    | inr l ↦ rw (e, l) (follow_image _ _ _)
  ]
  | inr e ↦ rw e
]

pub advance_win : (s : Tty) → (advance s).win ≡ record s.win { y = next_y s.win; x = next_x s.win }
unfolding advance
advance_win s = elim (Bool-cases (s.win.x == s.win.maxx)) [
  | inl e ↦ elim (Bool-cases s.win.linewrap) [
    | inl l ↦ rw (e, l) (follow_win _ _ _)
    | inr l ↦ rw (e, l) (follow_win _ _ _)
  ]
  | inr e ↦ rw e
]

pub wmove_win :
    (y x : ℕ) (s : Tty)
    → y ≤ s.win.maxy
    → x ≤ s.win.maxx
    → (wmove y x s).win ≡ record s.win { y = y; x = x }
unfolding wmove
wmove_win y x s a b =
    let in_range : (ltb s.win.maxy y || ltb s.win.maxx x) ≡ false = ground arith in
    rw in_range (follow_win _ _ _)

pub wmove_image : (y x : ℕ) (s : Tty) → (wmove y x s).image ≡ s.image
unfolding wmove
wmove_image y x s = elim (Bool-cases (ltb s.win.maxy y || ltb s.win.maxx x)) [
  | inl out ↦ rw out
  | inr inside ↦ rw inside (follow_image _ _ _)
]

module _ (lines cols : ℕ) where
  pub write_win : (ch : ℕ) (s : Tty) → (write lines cols ch s).win ≡ s.win
  unfolding write
  write_win ch s = elim (Bool-cases (s.image (map lines cols s.win s.win.y s.win.x) == ch)) [
    | inl e ↦ rw e
    | inr e ↦ rw e (put_win _ _ _ _)
  ]

  pub write_image :
      (ch : ℕ) (s : Tty) (a : ℕ)
      → (write lines cols ch s).image a
        ≡ (if a == map lines cols s.win s.win.y s.win.x then ch else s.image a)
  unfolding write
  write_image ch s a = elim (Bool-cases (s.image (map lines cols s.win s.win.y s.win.x) == ch)) [
    | inl e ↦ rw e (ground (arith, ap s.image {x = a}))
    | inr e ↦ rw e (ap (λ g. g a) (put_image _ _ _ _))
  ]

  module _ (ch : ℕ) (s : Tty) (p : IsPrinted ch) where
    put_char_printed : put_char lines cols ch s ≡ advance (write lines cols ch s)
    unfolding put_char
    put_char_printed = ground (arith, p)

    pub put_char_win :
        (put_char lines cols ch s).win ≡ record s.win { y = next_y s.win; x = next_x s.win }
    put_char_win =
        ap (λ (t : Tty). t.win) put_char_printed
        ∙ advance_win (write lines cols ch s)
        ∙ ap moved (write_win ch s)
      where
        moved : Window → Window
        moved w = record w { y = next_y w; x = next_x w }

    pub put_char_image :
        (a : ℕ)
        → (put_char lines cols ch s).image a
          ≡ (if a == map lines cols s.win s.win.y s.win.x then ch else s.image a)
    put_char_image a =
        ap (λ (t : Tty). t.image a) put_char_printed
        ∙ ap (λ g. g a) (advance_image (write lines cols ch s))
        ∙ write_image ch s a

  pub waddch_inside :
      (fuel ch : ℕ) (s : Tty)
      → s.win.y ≤ s.win.maxy
      → waddch lines cols (suc fuel) ch s ≡ some (put_char lines cols ch s)
  unfolding waddch
  waddch_inside fuel ch s b =
      let inside : ltb s.win.maxy s.win.y ≡ false = ground arith in rw inside

pub return_to_win : (y : ℕ) (s : Tty) → (return_to y s).win ≡ record s.win { y = y; x = 0 }
unfolding return_to
return_to_win y s = follow_win _ _ _

pub return_to_image : (y : ℕ) (s : Tty) → (return_to y s).image ≡ s.image
unfolding return_to
return_to_image y s = follow_image _ _ _
