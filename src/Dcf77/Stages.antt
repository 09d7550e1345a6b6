-- ===== src/Dcf77/Stages.antt =====
-- The fields of a telegram at the pulses of hardware/clock/dcf77/dcf77.c.
use ir.Prelude.{
  ℕ, suc, ◌+◌, ◌/◌, ◌%◌, ◌<◌, ◌≡◌, refl, ap, ◌∙◌, Bool, true, false, not, List, [], ◌∷◌, ◌++◌,
  length, arith, ◌==◌, if◌then◌else◌,
}
use ir.Prelude.Words.{add8}
use ir.Dcf77.{Telegram, at_sync, check_parity, long_pulse, short_pulse, shift_byte, pulse}
use ir.Dcf77.Bits.{bit, bits, parity_of, shifted, shifted_bound, bit_or_top, bit_xor_one}
use ir.Dcf77.Fields.{width_of, bit_step, run, state, all_plain, plain, took, run-field}

pub run-append : (xs ys : List Bool) (g : Telegram) → run (xs ++ ys) g ≡ run ys (run xs g)
unfolding run
run-append [] ys g = refl
run-append (x ∷ xs) ys g = run-append xs ys (bit_step x g)

pub parity_of-append :
    (xs ys : List Bool) (p : Bool) → parity_of (xs ++ ys) p ≡ parity_of ys (parity_of xs p)
unfolding parity_of
parity_of-append [] ys p = refl
parity_of-append (x ∷ xs) ys p = parity_of-append xs ys (if x then not p else p)

-- A parity bit that is right.
pub pulse-parity :
    (p : Bool) (g : Telegram) (z : ℕ) (time : List ℕ) (s : ℕ)
    → at_sync (width_of p) g ≡ state z time 0 p s
    → (s == 21) ≡ false
    → pulse (width_of p) g ≡ state z time 0 false s
unfolding pulse long_pulse short_pulse check_parity bit
pulse-parity true g z time s known other = ap long_pulse known
pulse-parity false g z time s known other = ap short_pulse known ∙ rw other refl

parity_step :
    (p : Bool) (g : Telegram) (z : ℕ) (time : List ℕ) (s : ℕ)
    → at_sync (width_of p) g ≡ state z time 0 p s
    → (s == 21) ≡ false
    → s < 255
    → run (p ∷ []) g ≡ state z time 0 false (suc s)
unfolding run bit_step
parity_step p g z time s known other room =
    let next : add8 s 1 ≡ suc s = omega arith in
    ap {A = Telegram} {B = Telegram} (λ t. record t { sync = add8 t.sync 1 })
      (pulse-parity p g z time s known other)
    ∙ ap (state z time 0 false) next

-- The bytes of the telegram.
abbrev pub bytes : ℕ → ℕ → ℕ → ℕ → ℕ → ℕ → ℕ → ℕ → List ℕ
bytes t0 t1 t2 t3 t4 t5 t6 t7 = t0 ∷ t1 ∷ t2 ∷ t3 ∷ t4 ∷ t5 ∷ t6 ∷ t7 ∷ []

module _ (z t0 t1 t2 t3 t4 t5 t6 t7 : ℕ) where
  pub minutes_lem :
      (n : ℕ) (p : Bool)
      → t2 < 256
      → run (bits 7 n) (state z (bytes t0 t1 t2 t3 t4 t5 t6 t7) 1 p 22)
        ≡ state z
            (bytes t0 t1 (shifted (bits 7 n) t2) t3 t4 t5 t6 t7)
            2
            (parity_of (bits 7 n) false)
            29
  unfolding bits at_sync shift_byte bit took all_plain plain
  minutes_lem n p byte =
      run-field (n % 2 == 1) (bits 6 (n / 2)) _ z (bytes t0 t1 t2 t3 t4 t5 t6 t7) 1 22 false refl
        (omega arith) byte refl (omega arith) refl

  pub hours_lem :
      (n : ℕ) (p : Bool)
      → t3 < 256
      → run (bits 6 n) (state z (bytes t0 t1 t2 t3 t4 t5 t6 t7) 0 p 30)
        ≡ state z
            (bytes t0 t1 t2 (shifted (bits 6 n) t3) t4 t5 t6 t7)
            3
            (parity_of (bits 6 n) false)
            36
  unfolding bits at_sync shift_byte bit took all_plain plain
  hours_lem n p byte =
      run-field (n % 2 == 1) (bits 5 (n / 2)) _ z (bytes t0 t1 t2 t3 t4 t5 t6 t7) 2 30 false refl
        (omega arith) byte refl (omega arith) refl

  pub days_lem :
      (n : ℕ) (p : Bool)
      → t4 < 256
      → run (bits 6 n) (state z (bytes t0 t1 t2 t3 t4 t5 t6 t7) 0 p 37)
        ≡ state z
            (bytes t0 t1 t2 t3 (shifted (bits 6 n) t4) t5 t6 t7)
            4
            (parity_of (bits 6 n) false)
            43
  unfolding bits at_sync shift_byte bit took all_plain plain
  days_lem n p byte =
      run-field (n % 2 == 1) (bits 5 (n / 2)) _ z (bytes t0 t1 t2 t3 t4 t5 t6 t7) 3 37 false refl
        (omega arith) byte refl (omega arith) refl

  pub weekday_lem :
      (n : ℕ) (p : Bool)
      → t5 < 256
      → run (bits 3 n) (state z (bytes t0 t1 t2 t3 t4 t5 t6 t7) 4 p 43)
        ≡ state z
            (bytes t0 t1 t2 t3 (t4 / 4) (shifted (bits 3 n) t5) t6 t7)
            5
            (parity_of (bits 3 n) p)
            46
  unfolding bits at_sync shift_byte bit took all_plain plain
  weekday_lem n p byte =
      run-field (n % 2 == 1) (bits 2 (n / 2)) _ z (bytes t0 t1 t2 t3 (t4 / 4) t5 t6 t7) 4 43 p refl
        (omega arith) byte refl (omega arith) refl

  pub month_lem :
      (n : ℕ) (p : Bool)
      → t6 < 256
      → run (bits 5 n) (state z (bytes t0 t1 t2 t3 t4 t5 t6 t7) 5 p 46)
        ≡ state z
            (bytes t0 t1 t2 t3 t4 (t5 / 32) (shifted (bits 5 n) t6) t7)
            6
            (parity_of (bits 5 n) p)
            51
  unfolding bits at_sync shift_byte bit took all_plain plain
  month_lem n p byte =
      run-field (n % 2 == 1) (bits 4 (n / 2)) _ z (bytes t0 t1 t2 t3 t4 (t5 / 32) t6 t7) 5 46 p refl
        (omega arith) byte refl (omega arith) refl

  pub year_lem :
      (n : ℕ) (p : Bool)
      → t7 < 256
      → run (bits 8 n) (state z (bytes t0 t1 t2 t3 t4 t5 t6 t7) 6 p 51)
        ≡ state z
            (bytes t0 t1 t2 t3 t4 t5 (t6 / 8) (shifted (bits 8 n) t7))
            7
            (parity_of (bits 8 n) p)
            59
  unfolding bits at_sync shift_byte bit took all_plain plain
  year_lem n p byte =
      run-field (n % 2 == 1) (bits 7 (n / 2)) _ z (bytes t0 t1 t2 t3 t4 t5 (t6 / 8) t7) 6 51 p refl
        (omega arith) byte refl (omega arith) refl

  pub minutes_end :
      (p : Bool)
      → run (p ∷ []) (state z (bytes t0 t1 t2 t3 t4 t5 t6 t7) 2 p 29)
        ≡ state z (bytes t0 t1 (t2 / 2) t3 t4 t5 t6 t7) 0 false 30
  unfolding at_sync shift_byte
  minutes_end p = parity_step p _ z (bytes t0 t1 (t2 / 2) t3 t4 t5 t6 t7) 29 refl refl (omega arith)

  pub hours_end :
      (p : Bool)
      → run (p ∷ []) (state z (bytes t0 t1 t2 t3 t4 t5 t6 t7) 3 p 36)
        ≡ state z (bytes t0 t1 t2 (t3 / 4) t4 t5 t6 t7) 0 false 37
  unfolding at_sync shift_byte
  hours_end p = parity_step p _ z (bytes t0 t1 t2 (t3 / 4) t4 t5 t6 t7) 36 refl refl (omega arith)

  summer_time :
      (summer p : Bool)
      → at_sync (width_of summer) (state z (bytes t0 t1 t2 t3 t4 t5 t6 t7) 1 p 18)
        ≡ state (bit summer) (bytes t0 t1 t2 t3 t4 t5 t6 t7) 1 p 18
  unfolding at_sync bit
  summer_time true p = refl
  summer_time false p = refl

  -- The second 20, whose bit is one.
  start_of_time :
      (p : Bool)
      → t1 < 256
      → run (true ∷ []) (state z (bytes t0 t1 t2 t3 t4 t5 t6 t7) 1 p 21)
        ≡ state z (bytes t0 (t1 / 2 + 128) t2 t3 t4 t5 t6 t7) 1 (not p) 22
  unfolding run bit_step pulse at_sync long_pulse
  start_of_time p byte =
      let half : t1 / 2 < 128 = omega arith in
      rw (bit_or_top (t1 / 2) half) (rw (bit_xor_one p) refl)

-- What stands in the byte of the flags before the time.
module _ (z t0 t1 t2 t3 t4 t5 t6 t7 : ℕ) where
  weather_lem :
      (weather : List Bool) (byte : ℕ) (p : Bool)
      → length weather ≡ 16
      → t1 < 256
      → run (false ∷ weather) (state z (bytes t0 t1 t2 t3 t4 t5 t6 t7) byte p 1)
        ≡ state z
            (bytes t0 (shifted (false ∷ weather) t1) t2 t3 t4 t5 t6 t7)
            1
            (parity_of (false ∷ weather) p)
            18
  unfolding at_sync took all_plain plain
  weather_lem weather byte p size small =
      run-field false weather _ z (bytes t0 t1 t2 t3 t4 t5 t6 t7) 0 1 p refl (omega arith) small
        refl (omega (arith, size)) (ap (all_plain 2) size)
      ∙ ap
          (λ n.
            state z (bytes t0 (shifted (false ∷ weather) t1) t2 t3 t4 t5 t6 t7) 1
              (parity_of (false ∷ weather) p) (1 + suc n))
          size

  announcements_lem :
      (summer leap_second p : Bool)
      → t1 < 256
      → run
          (summer ∷ not summer ∷ leap_second ∷ [])
          (state z (bytes t0 t1 t2 t3 t4 t5 t6 t7) 1 p 18)
        ≡ state
            (bit summer)
            (bytes t0 (shifted (summer ∷ not summer ∷ leap_second ∷ []) t1) t2 t3 t4 t5 t6 t7)
            1
            (parity_of (summer ∷ not summer ∷ leap_second ∷ []) p)
            21
  unfolding took all_plain plain
  announcements_lem summer leap_second p small =
      run-field summer (not summer ∷ leap_second ∷ []) _ (bit summer)
        (bytes t0 t1 t2 t3 t4 t5 t6 t7) 0 18 p (summer_time z t0 t1 t2 t3 t4 t5 t6 t7 summer p)
        (omega arith) small refl (omega arith) refl

pub head_lem :
    (z t0 t1 t2 t3 t4 t5 t6 t7 : ℕ) (weather : List Bool) (summer leap_second : Bool) (byte : ℕ)
    (p : Bool)
    → length weather ≡ 16
    → t1 < 256
    → (x : ℕ) × (q : Bool) × (run
          ((false ∷ weather) ++ (summer ∷ not summer ∷ leap_second ∷ true ∷ []))
          (state z (bytes t0 t1 t2 t3 t4 t5 t6 t7) byte p 1)
        ≡ state (bit summer) (bytes t0 x t2 t3 t4 t5 t6 t7) 1 q 22)
head_lem z t0 t1 t2 t3 t4 t5 t6 t7 weather summer leap_second byte p size small =
    let flags = summer ∷ not summer ∷ leap_second ∷ [] in
    let x1 = shifted (false ∷ weather) t1 in
    let b1 = shifted_bound (false ∷ weather) t1 small in
    let x2 = shifted flags x1 in
    let b2 = shifted_bound flags x1 b1 in
    let p1 = parity_of (false ∷ weather) p in
    (
      x2 / 2 + 128,
      not (parity_of flags p1),
      run-append (false ∷ weather) (flags ++ (true ∷ [])) _
          ∙ ap (run (flags ++ (true ∷ [])))
              (weather_lem z t0 t1 t2 t3 t4 t5 t6 t7 weather byte p size small)
          ∙ run-append flags (true ∷ []) _
          ∙ ap (run (true ∷ []))
              (announcements_lem z t0 x1 t2 t3 t4 t5 t6 t7 summer leap_second p1 b1)
          ∙ start_of_time (bit summer) t0 x2 t2 t3 t4 t5 t6 t7 (parity_of flags p1) b2,
    )
