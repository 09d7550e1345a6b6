-- ===== src/Tty/Text.antt =====
-- Printing any text in a window: it ends, and stays within the image.
use ir.Prelude.{
  ℕ, suc, ◌+◌, ◌-◌, ◌*◌, ◌<◌, ◌≤◌, ◌≡◌, ◌≢◌, refl, true, false, List, [], ◌∷◌, some, arith, ltb,
  Bool-cases, inl, inr, if◌then◌else◌, ap, ◌∙◌, sym,
}
use mathlib.Core.Option
use mathlib.Core.Path.{subst}
use ir.Tty.Window.{Window, Tty, map, wmove, put_char, wclear, clear_root, wscroll, waddch, waddstr}
use ir.Tty.Cell.{IsPrinted, wmove_image, waddch_inside}
use ir.Tty.Block.{Fits, moved_box, moved_cursor}
use ir.Tty.Scroll.{Scrolled, wclrtobot-Block, wscroll-Scrolled}
use ir.Tty.Print.{IsGood, Keeps, inside_image, put_char-Keeps}

module _ (lines cols fuel : ℕ) where
  wscroll_all :
      (d : ℕ) (s : Tty)
      → s.win.maxy < d
      → wscroll lines cols (waddch lines cols (suc fuel)) 257 d s
        ≡ wclear lines cols (waddch lines cols (suc fuel)) 257 s
  unfolding wscroll
  wscroll_all d s b = let all : ltb s.win.maxy d ≡ true = ground arith in rw all

  waddch_scroll :
      (ch : ℕ) (s : Tty)
      → s.win.maxy < s.win.y
      → s.win.scrollok ≡ true
      → waddch lines cols (suc (suc fuel)) ch s
        ≡ Option.map
            (put_char lines cols ch)
            (wscroll lines cols (waddch lines cols (suc fuel)) 257 (s.win.y - s.win.maxy) s)
  unfolding waddch
  waddch_scroll ch s b ok = let out : ltb s.win.maxy s.win.y ≡ true = ground arith in simp (out, ok)

  waddch_stay :
      (ch : ℕ) (s : Tty)
      → s.win.maxy < s.win.y
      → s.win.scrollok ≡ false
      → waddch lines cols (suc (suc fuel)) ch s ≡ some s
  unfolding waddch
  waddch_stay ch s b stop =
      let out : ltb s.win.maxy s.win.y ≡ true = ground arith in simp (out, stop)

module _ (lines cols : ℕ) (w : Window) (fits : Fits lines cols w)
    (tall : w.maxy + w.begy < lines) where
  Keeps-Scrolled :
      (fuel d : ℕ) (s t : Tty)
      → 0 < d
      → d ≤ w.maxy
      → IsGood lines cols w s
      → Scrolled lines cols w fits fuel d s t
      → Keeps lines cols w fits tall s t × (t.win.y ≤ w.maxy)
  Keeps-Scrolled fuel d s t pd b g f = (
    (
      record {
        boxed = f.boxed;
        row = omega (arith, f.row);
        column = omega (arith, f.column);
        printed = λ r c q k. elim (Bool-cases (ltb w.maxy (r + d))) [
          | inl below ↦
              subst IsPrinted (sym (f.cleared r c (ground arith) q k)) (omega arith, omega arith)
          | inr above ↦
              let near : r + d ≤ w.maxy = ground arith in
              subst IsPrinted (sym (f.moved r c near k)) (g.printed (r + d) c near k)
        ];
      },
      λ a far. f.others a (λ r c q k.
          far_apart a (map lines cols w r c) far (inside_image lines cols w fits tall r c q k)),
    ),
    omega (arith, f.row),
  )
    where
      far_apart : (a b : ℕ) → lines * cols ≤ a → b < lines * cols → a ≢ b
      far_apart a b p q = omega arith

  clear_root-Keeps :
      (s : Tty)
      → IsGood lines cols w s
      → Keeps lines cols w fits tall s (clear_root lines cols s)
        × ((clear_root lines cols s).win.y ≤ w.maxy)
  unfolding clear_root
  clear_root-Keeps s g = (
    (
      record {
        boxed = g.boxed;
        row = omega arith;
        column = omega arith;
        printed = λ r c q k.
            let blank : ltb (map lines cols w r c) (lines * cols) ≡ true =
              ground (arith, inside_image lines cols w fits tall r c q k) in
            let p : IsPrinted 32 = (omega arith, omega arith) in rw blank p;
      },
      λ a far. outside (s.image a) a far,
    ),
    omega arith,
  )
    where
      outside : (v a : ℕ) → lines * cols ≤ a → (if ltb a (lines * cols) then 32 else v) ≡ v
      outside v a far = ground arith

  -- The whole window, from its first cell on.
  wclear-Keeps :
      (fuel : ℕ) (s : Tty)
      → IsGood lines cols w s
      → (t : Tty) × (wclear lines cols (waddch lines cols (suc fuel)) 257 s ≡ some t)
        × Keeps lines cols w fits tall s t
        × (t.win.y ≤ w.maxy)
  unfolding wclear
  wclear-Keeps fuel s g = elim (Bool-cases s.win.subwin) [
    | inl sub ↦
        let low = fits.maxy_lt in
        let cursor = moved_cursor lines cols w fits 0 0 s g.boxed (omega arith) (omega arith) in
        let (t, run, b, ey, ex) =
          wclrtobot-Block lines cols w fits fuel 257 w.maxy 0 (wmove 0 0 s)
            (moved_box lines cols w fits 0 s g.boxed (omega arith)) (omega arith) (omega arith)
            cursor.0 cursor.1 in
        (
          t,
          simp sub run,
          (
            record {
              boxed = b.boxed;
              row = omega arith;
              column = omega arith;
              printed = λ r c q k.
                  subst IsPrinted (sym (b.cells r c (omega arith) (omega arith) k))
                    (omega arith, omega arith);
            },
            λ a far.
                b.others a (λ r c _ q k.
                  omega (arith, inside_image lines cols w fits tall r c (omega arith) k))
                ∙ ap (λ f. f a) (wmove_image 0 0 s),
          ),
          omega arith,
        )
    | inr root ↦ let r = clear_root-Keeps s g in (clear_root lines cols s, simp root, r.0, r.1)
  ]

  -- By any number of lines.
  wscroll-Keeps :
      (fuel d : ℕ) (s : Tty)
      → 0 < d
      → IsGood lines cols w s
      → (t : Tty) × (wscroll lines cols (waddch lines cols (suc fuel)) 257 d s ≡ some t)
        × Keeps lines cols w fits tall s t
        × (t.win.y ≤ w.maxy)
  wscroll-Keeps fuel d s pd g = elim (Bool-cases (ltb w.maxy d)) [
    | inl all ↦
        let (t, run, k, b) = wclear-Keeps fuel s g in
        (
          t,
          wscroll_all lines cols fuel d s (ground (arith, ap (λ (u : Window). u.maxy) g.boxed))
              ∙ run,
          k,
          b,
        )
    | inr part ↦
        let few : d ≤ w.maxy = ground arith in
        let (t, run, f) = wscroll-Scrolled lines cols w fits fuel d s g.boxed pd few g.printed in
        let r = Keeps-Scrolled fuel d s t pd few g f in (t, run, r.0, r.1)
  ]

  waddch-Keeps :
      (fuel ch : ℕ) (s : Tty)
      → IsGood lines cols w s
      → (t : Tty) × (waddch lines cols (suc (suc fuel)) ch s ≡ some t)
        × Keeps lines cols w fits tall s t
  unfolding Option.map
  waddch-Keeps fuel ch s g = elim (Bool-cases (ltb w.maxy s.win.y)) [
    | inl out ↦
        let outside : s.win.maxy < s.win.y = ground (arith, ap (λ (u : Window). u.maxy) g.boxed) in
        elim (Bool-cases s.win.scrollok) [
          | inl ok ↦
              let (u, run, k, b) = wscroll-Keeps fuel (s.win.y - s.win.maxy) s (omega arith) g in
              let (good, behind) = put_char-Keeps lines cols w fits tall ch u k.0 b in
              (
                put_char lines cols ch u,
                waddch_scroll lines cols fuel ch s outside ok
                    ∙ ap (Option.map (put_char lines cols ch)) run,
                (good, λ a far. behind a far ∙ k.1 a far),
              )
          | inr no_scroll ↦
              (s, waddch_stay lines cols fuel ch s outside no_scroll, (g, λ a _. refl))
        ]
    | inr inside ↦
        let row : s.win.y ≤ s.win.maxy = ground (arith, ap (λ (u : Window). u.maxy) g.boxed) in
        (
          put_char lines cols ch s,
          waddch_inside lines cols (suc fuel) ch s row,
          put_char-Keeps lines cols w fits tall ch s g (ground arith),
        )
  ]

  -- In a window that fits the display, whose cursor stands in it or below its last row and whose
  -- cells hold no ends of lines, `waddstr` of any text ends, with a depth of two calls of `waddch`;
  -- the window is again such a window, and the memory behind the image has not changed.
  pub waddstr-Keeps :
      (fuel : ℕ) (text : List ℕ) (s : Tty)
      → IsGood lines cols w s
      → (t : Tty) × (waddstr lines cols (suc (suc fuel)) text s ≡ some t)
        × Keeps lines cols w fits tall s t
  unfolding waddstr Option.bind
  waddstr-Keeps fuel [] s g = (s, refl, (g, λ a _. refl))
  waddstr-Keeps fuel (ch ∷ text) s g =
      let (t, run, k) = waddch-Keeps fuel ch s g in
      let (u, later, l) = waddstr-Keeps fuel text t k.0 in
      (u, rw run later, (l.0, λ a far. l.1 a far ∙ k.1 a far))
