-- ===== src/Tty/Queue.antt =====
-- The queue of input characters in core/tty/tty.c.
pub mod Fifo
use ir.Prelude.{
  ℕ, zero, suc, ◌+◌, ◌-◌, ◌<◌, ◌≤◌, ◌≡◌, ◌≢◌, refl, Bool, true, false, List, [], ◌∷◌, ◌++◌, arith,
  ltb, ◌==◌, if◌then◌else◌, length, get_or, set, drop, take, ap, ◌∙◌, sym, Option, some, none,
}
use ir.Prelude.Strings.{strlen}

abbrev pub queue_size : ℕ
queue_size = 8

-- `memmove` of the `n` bytes behind the first one to the front.
unfoldable pub shift : ℕ → List ℕ → List ℕ
shift zero cs = cs
shift (suc n) [] = []
shift (suc n) (c ∷ []) = c ∷ []
shift (suc n) (c ∷ d ∷ cs) = d ∷ shift n (d ∷ cs)

-- The character, 0 if there is none, and the queue.
unfoldable pub getch : List ℕ → ℕ × List ℕ
getch queue =
    let ch = get_or queue 0 0 in if ch == 0 then (ch, queue) else (ch, shift (strlen queue) queue)

unfoldable pub getch_queue : ℕ → List ℕ → ℕ × List ℕ
getch_queue ch queue =
    let len = strlen queue in
    if ltb (len + 1) queue_size then (0, set (set queue len ch) (len + 1) 0) else (1, queue)
