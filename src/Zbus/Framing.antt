-- ===== src/Zbus/Framing.antt =====
-- The frames of the bus, as a function of the payload: what both interrupts implement.
use ir.Prelude.{
  ℕ, ◌+◌, ◌*◌, ◌≤◌, List, [], ◌∷◌, ◌++◌, arith, ◌==◌, if◌then◌else◌, length, length-append,
}
use ir.Zbus.{backslash, zbus_start, zbus_stop}

-- one byte of the payload
unfoldable pub stuff : ℕ → List ℕ
stuff c = if c == backslash then backslash ∷ backslash ∷ [] else c ∷ []

unfoldable pub escape : List ℕ → List ℕ
escape [] = []
escape (c ∷ p) = stuff c ++ escape p

abbrev pub trailer : List ℕ
trailer = backslash ∷ zbus_stop ∷ []

-- `\0 payload \1`
unfoldable pub frame : List ℕ → List ℕ
frame p = backslash ∷ zbus_start ∷ (escape p ++ trailer)

length-escape : (p : List ℕ) → length (escape p) ≤ 2 * length p
unfolding escape stuff
length-escape [] = omega arith
length-escape (c ∷ p) = ground (arith, length-append (stuff c) (escape p), length-escape p)

pub length-frame : (p : List ℕ) → length (frame p) ≤ 2 * length p + 4
unfolding frame
length-frame p = omega (arith, length-append (escape p) trailer, length-escape p)
