-- ===== src/Tty/Window.antt =====
-- core/tty/tty.c: printing, moving, clearing and scrolling in a window.
use ir.Prelude.{
  ℕ, zero, suc, ◌+◌, ◌-◌, ◌*◌, ◌%◌, Bool, true, ◌||◌, ◌&&◌, Option, some, none, List, [], ◌∷◌, ltb,
  ◌==◌, if◌then◌else◌,
}
use ir.Prelude.Words.{add8}
use mathlib.Core.Option

-- The window that a call is given.
pub record Window : Type 0 where
  pub subwin : Bool
  pub linewrap : Bool
  pub scrollok : Bool
  pub leaveok : Bool
  pub y : ℕ
  pub x : ℕ
  pub maxy : ℕ
  pub maxx : ℕ
  pub begy : ℕ
  pub begx : ℕ

-- The calls of the low-level driver.
pub data DriverCall : Type 0 where
  driver_clear : DriverCall
  driver_goto : ℕ → ℕ → DriverCall
  driver_put : ℕ → ℕ → ℕ → DriverCall

-- `image` is the memory from `tty_image` on, also what lies behind it; the last call of the driver
-- stands first.
pub record Tty : Type 0 where
  pub win : Window
  pub image : ℕ → ℕ
  pub ll_y : ℕ
  pub ll_x : ℕ
  pub calls : List DriverCall

unfoldable pub tty_ll_goto : ℕ → ℕ → Tty → Tty
tty_ll_goto y x s =
    if y == s.ll_y && x == s.ll_x
    then s
    else record s { calls = driver_goto y x ∷ s.calls; ll_y = y; ll_x = x }

unfoldable pub tty_ll_put : ℕ → ℕ → ℕ → Tty → Tty
unfolding tty_ll_goto
tty_ll_put y x ch s =
    let t = tty_ll_goto y x s in
    record t { calls = driver_put y x ch ∷ t.calls; ll_x = add8 t.ll_x 1 }

-- `tty_ll_goto`, unless the display's cursor may stay where it is
unfoldable pub follow : ℕ → ℕ → Tty → Tty
follow y x s = if s.win.leaveok then s else tty_ll_goto y x s

abbrev pub at : ℕ → ℕ → Tty → Tty
at y x s = record s { win = record s.win { y = y; x = x } }

-- The cursor to the next cell, or to the next line's start.
unfoldable pub advance : Tty → Tty
advance s =
    let t = (if s.win.linewrap then at (add8 s.win.y 1) 0 s else s) in
    if s.win.x == s.win.maxx
    then follow (add8 t.win.y s.win.begy) s.win.begx t
    else at s.win.y (add8 s.win.x 1) s

unfoldable pub return_to : ℕ → Tty → Tty
return_to y s = follow (add8 y s.win.begy) (add8 0 s.win.begx) (at y 0 s)

unfoldable pub wmove : ℕ → ℕ → Tty → Tty
wmove y x s =
    if ltb s.win.maxy y || ltb s.win.maxx x
    then s
    else follow (add8 y s.win.begy) (add8 x s.win.begx) (at y x s)

module _ (lines cols : ℕ) where
  -- the index of a cell of the window in `tty_image`
  abbrev pub map : Window → ℕ → ℕ → ℕ
  map w y x = (y + w.begy) * cols + (x + w.begx)

  -- The cell under the cursor.
  unfoldable pub write : ℕ → Tty → Tty
  write ch s =
      let cell = map s.win s.win.y s.win.x in
      if s.image cell == ch
      then s
      else tty_ll_put (add8 s.win.y s.win.begy) (add8 s.win.x s.win.begx) ch
          (record s { image = λ a. if a == cell then ch else s.image a })

  -- `waddch` behind the scrolling
  unfoldable pub put_char : ℕ → Tty → Tty
  put_char ch s =
      if ch == 10
      then return_to (add8 s.win.y 1) s
      else if ch == 13
      then return_to s.win.y s
      else advance (write ch s)

  unfoldable pub clear_root : Tty → Tty
  clear_root s = record s {
    image = λ a. if ltb a (lines * cols) then 32 else s.image a;
    calls = driver_clear ∷ s.calls;
    win = record s.win { y = 0; x = 0 };
  }

  -- The functions that `waddch` calls take it as `add`.
  module _ (add : ℕ → Tty → Option Tty) where
    unfoldable pub spaces : ℕ → Tty → Option Tty
    spaces zero s = some s
    spaces (suc i) s = Option.bind (add 32 s) (spaces i)

    unfoldable pub wspacetoeol : Tty → Option Tty
    wspacetoeol s = spaces ((s.win.maxx + 257 - s.win.x) % 256) s

    unfoldable pub wclrtoeol : Tty → Option Tty
    wclrtoeol s = Option.bind (wspacetoeol s) (λ t. some (wmove s.win.y s.win.x t))

    unfoldable pub clear_lines : ℕ → ℕ → Tty → Option Tty
    clear_lines zero y s = none
    clear_lines (suc fuel) y s =
        let rest = Option.bind (wspacetoeol (wmove y 0 s)) (clear_lines fuel (add8 y 1)) in
        if ltb s.win.maxy y then some s else rest

    unfoldable pub wclrtobot : ℕ → Tty → Option Tty
    wclrtobot fuel s = Option.bind (wspacetoeol s) (λ t.
        Option.bind (clear_lines fuel (add8 s.win.y 1) t) (λ u. some (wmove s.win.y s.win.x u)))

    unfoldable pub wclear : ℕ → Tty → Option Tty
    wclear fuel s = if s.win.subwin then wclrtobot fuel (wmove 0 0 s) else some (clear_root s)

    -- The row `y` from the column `x` on gets what is `n` rows below.
    unfoldable pub copy_row : ℕ → ℕ → ℕ → ℕ → Tty → Option Tty
    copy_row zero n y x s = none
    copy_row (suc fuel) n y x s =
        let rest =
          Option.bind (add (s.image (map s.win (y + n) s.win.x)) s)
            (copy_row fuel n y (add8 x 1)) in
        if ltb s.win.maxx x then some s else rest

    unfoldable pub copy_lines : ℕ → ℕ → ℕ → Tty → Option Tty
    copy_lines zero n y s = none
    copy_lines (suc fuel) n y s =
        let rest = Option.bind (copy_row 257 n y 0 (wmove y 0 s)) (copy_lines fuel n (add8 y 1)) in
        if ltb (s.win.maxy - n) y then some s else rest

    unfoldable pub wscroll : ℕ → ℕ → Tty → Option Tty
    wscroll fuel n s =
        if ltb s.win.maxy n
        then wclear fuel s
        else Option.bind (copy_lines fuel n 0 s)
            (λ t. wclrtobot fuel (wmove (s.win.maxy - n + 1) 0 t))

  unfoldable pub waddch : ℕ → ℕ → Tty → Option Tty
  waddch zero ch s = none
  waddch (suc fuel) ch s =
      let scrolled = wscroll (waddch fuel) 257 (s.win.y - s.win.maxy) s in
      if ltb s.win.maxy s.win.y
      then (if s.win.scrollok then Option.map (put_char ch) scrolled else some s)
      else some (put_char ch s)

  unfoldable pub waddstr : ℕ → List ℕ → Tty → Option Tty
  waddstr fuel [] s = some s
  waddstr fuel (ch ∷ text) s = Option.bind (waddch fuel ch s) (waddstr fuel text)

-- `malloc`'s memory is given; without it there is no window.
unfoldable pub subwin : ℕ → ℕ → ℕ → ℕ → Window
subwin lines cols begy begx = record {
  subwin = true;
  linewrap = true;
  scrollok = true;
  leaveok = true;
  y = 0;
  x = 0;
  maxy = (lines + 255) % 256;
  maxx = (cols + 255) % 256;
  begy = begy;
  begx = begx;
}

unfoldable pub initscr : ℕ → ℕ → Tty → Tty
initscr lines cols s = record s {
  win = record s.win {
    linewrap = true;
    scrollok = true;
    leaveok = true;
    maxx = (cols + 255) % 256;
    maxy = (lines + 255) % 256;
  };
  calls = driver_clear ∷ s.calls;
}
