-- ===== src/Dcf77/Reception.antt =====
-- The edges of a telegram at the interrupt of hardware/clock/dcf77/dcf77.c.
use ir.Prelude.{
  ℕ, ◌+◌, ◌<◌, ◌≤◌, ◌≡◌, ap, ◌∙◌, Bool, true, false, some, List, [], ◌∷◌, length, arith,
}
use ir.Clock.State.{Clock}
use ir.Dcf77.{Dcf77, Telegram, divtime_of, after_edge, dcf77_vect}
use ir.Dcf77.Fields.{bit_step, run}
use ir.Dcf77.Edges.{IsWidth, noise_lem, pause_lem, bit_lem, bit_step_sync, run_sync, same_telegram}

-- The edges of a part of a telegram, at any readings of the clock and the timer that make the times
-- between them those of bits and of the pauses between them. Edges that follow at once on another are
-- noise.
pub data Received (dow : ℕ) : Dcf77 → List Bool → Dcf77 → Type 0 where
  received : (d : Dcf77) → Received dow d [] d
  noise :
      (high : Bool) (tcnt2 : ℕ) (clock : Clock) (d1 d2 d3 : Dcf77) (bs : List Bool)
      (after_clock : Clock) (timer : ℕ)
      → divtime_of tcnt2 d1 clock ≤ 5
      → dcf77_vect dow high tcnt2 d1 clock ≡ some (d2, after_clock, timer)
      → Received dow d2 bs d3
      → Received dow d1 bs d3
  pause :
      (tcnt2 : ℕ) (clock : Clock) (d1 d2 d3 : Dcf77) (bs : List Bool) (after_clock : Clock)
      (timer : ℕ)
      → 184 ≤ divtime_of tcnt2 d1 clock
      → divtime_of tcnt2 d1 clock ≤ 248
      → dcf77_vect dow true tcnt2 d1 clock ≡ some (d2, after_clock, timer)
      → Received dow d2 bs d3
      → Received dow d1 bs d3
  bit_received :
      (b : Bool) (tcnt2 : ℕ) (clock : Clock) (d1 d2 d3 : Dcf77) (bs : List Bool)
      (after_clock : Clock) (timer : ℕ)
      → IsWidth b (divtime_of tcnt2 d1 clock)
      → dcf77_vect dow false tcnt2 d1 clock ≡ some (d2, after_clock, timer)
      → Received dow d2 bs d3
      → Received dow d1 (b ∷ bs) d3

-- Where the number of the second grows by the number of bits, every bit was taken.
pub Received-run :
    (dow : ℕ) (d1 d2 : Dcf77) (bs : List Bool) (g : Telegram)
    → Received dow d1 bs d2
    → d1.telegram ≡ g
    → 0 < g.sync
    → (run bs g).sync ≡ g.sync + length bs
    → g.sync + length bs ≤ 59
    → d2.telegram ≡ run bs g
unfolding run after_edge
Received-run dow d1 d2 bs g (received d) e some_sync counted room = e
Received-run dow d1 d3 bs g (noise high tcnt2 clock a d2 b cs clock2 timer short run_edge rest) e
      some_sync counted room =
    let same = same_telegram _ _ _ _ _ _ _ run_edge (noise_lem dow high tcnt2 d1 clock short) in
    Received-run dow d2 d3 bs g rest (same ∙ e) some_sync counted room
Received-run dow d1 d3 bs g (pause tcnt2 clock a d2 b cs clock2 timer long short run_edge rest) e
      some_sync counted room =
    let same = same_telegram _ _ _ _ _ _ _ run_edge (pause_lem dow tcnt2 d1 clock long short) in
    Received-run dow d2 d3 bs g rest (same ∙ e) some_sync counted room
Received-run dow d1 d3 bs g (bit_received b tcnt2 clock a d2 c cs clock2 timer w run_edge rest) e
      some_sync counted room =
    let at = ap (λ g. g.sync) e in
    let step = bit_lem dow tcnt2 d1 clock b w (omega (arith, at)) (omega (arith, at)) in
    let same = same_telegram _ _ _ _ _ _ _ run_edge step in
    let most = run_sync cs (bit_step b g) in
    let next = bit_step_sync b g in
    let exact : (bit_step b g).sync ≡ g.sync + 1 = omega (arith, most, next, counted) in
    Received-run dow d2 d3 cs (bit_step b g) rest (same ∙ ap (bit_step b) e) (omega (arith, exact))
      (omega (arith, exact, counted)) (omega (arith, exact))
