-- ===== src/Tty/Tests.antt =====
-- Windows and the input queue at concrete calls.
use ir.Prelude.{◌+◌, ◌%◌, ◌≡◌, refl, true, false, [], ◌∷◌, some, arith}
use ir.Tty.Window.{Window, Tty, wscroll, waddch, waddstr}
use ir.Tty.Block.{Fits}
use ir.Tty.Scroll.{Scrolled, wscroll-Scrolled}
use ir.Tty.Print.{IsGood, Keeps}
use ir.Tty.Text.{waddstr-Keeps}
use ir.Tty.Queue.Fifo.{take_char, put_char, run_array, run_array-run_queue}

-- Three rows of four cells on a display of four rows of eight.
abbrev window : Window
window = record {
  subwin = true;
  linewrap = true;
  scrollok = true;
  leaveok = false;
  y = 0;
  x = 0;
  maxy = 2;
  maxx = 3;
  begy = 1;
  begx = 2;
}

abbrev tty : Tty
tty = record {
  win = record window { y = 3 };
  image = λ a. 65 + a % 20;
  ll_y = 0;
  ll_x = 0;
  calls = [];
}

window-Fits : Fits 4 8 window
window-Fits = record { wide = omega arith; maxx_lt = omega arith; maxy_lt = omega arith }

tty-IsGood : IsGood 4 8 window tty
tty-IsGood = record {
  boxed = refl;
  row = omega arith;
  column = omega arith;
  printed = λ r c p q. (omega arith, omega arith);
}

wscroll-Scrolled_example :
    (t : Tty) × (wscroll 4 8 (waddch 4 8 1) 257 2 tty ≡ some t)
    × Scrolled 4 8 window window-Fits 0 2 tty t
wscroll-Scrolled_example =
    wscroll-Scrolled 4 8 window window-Fits 0 2 tty refl (omega arith) (omega arith)
      tty-IsGood.printed

waddstr-Keeps_example :
    (t : Tty) × (waddstr 4 8 2 (72 ∷ 105 ∷ 10 ∷ 33 ∷ []) tty ≡ some t)
    × Keeps 4 8 window window-Fits (omega arith) tty t
waddstr-Keeps_example =
    waddstr-Keeps 4 8 window window-Fits (omega arith) 0 (72 ∷ 105 ∷ 10 ∷ 33 ∷ []) tty tty-IsGood

run_array-run_queue_example :
    run_array
      (put_char 65 ∷ put_char 66 ∷ take_char ∷ take_char ∷ take_char ∷ [])
      (0 ∷ 0 ∷ 0 ∷ 0 ∷ 0 ∷ 0 ∷ 0 ∷ 0 ∷ [])
    ≡ 0 ∷ 0 ∷ 65 ∷ 66 ∷ 0 ∷ []
run_array-run_queue_example =
    run_array-run_queue (put_char 65 ∷ put_char 66 ∷ take_char ∷ take_char ∷ take_char ∷ []) []
      (0 ∷ 0 ∷ 0 ∷ 0 ∷ 0 ∷ 0 ∷ 0 ∷ 0 ∷ []) refl refl
