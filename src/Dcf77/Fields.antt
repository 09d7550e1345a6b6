-- ===== src/Dcf77/Fields.antt =====
-- The pulses of hardware/clock/dcf77/dcf77.c that bring the bits of one field of the telegram.
use ir.Prelude.{
  ℕ, zero, suc, ◌+◌, ◌*◌, ◌/◌, ◌<◌, ◌≡◌, refl, ap, sym, ◌∙◌, Bool, true, false, not, ◌&&◌, ◌||◌,
  List, [], ◌∷◌, length, arith, ltb, ◌==◌, if◌then◌else◌, get_or, set, length-set, ap₂, Bool-cases,
  ==_iff, inl, inr,
}
use ir.Prelude.Words.{add8}
use ir.Dcf77.{Telegram, at_sync, long_pulse, short_pulse, shift_byte, pulse}
use ir.Dcf77.Bits.{bit, parity_of, shifted, bit_or_top, bit_xor_one}

-- The pulse of a bit, and the pulses of several bits in order.
abbrev pub width_of : Bool → ℕ
width_of b = if b then 50 else 20

unfoldable pub bit_step : Bool → Telegram → Telegram
bit_step b g = let s = pulse (width_of b) g in record s { sync = add8 s.sync 1 }

unfoldable pub run : List Bool → Telegram → Telegram
run [] g = g
run (b ∷ bs) g = run bs (bit_step b g)

-- A telegram in the course of being received.
abbrev pub state : ℕ → List ℕ → ℕ → Bool → ℕ → Telegram
state zone time byte p sync = record {
  timezone = zone;
  time = time;
  timebyte = byte;
  timeparity = bit p;
  sync = sync;
}

-- Pulses that only bring a bit.
unfoldable pub plain : ℕ → Bool
plain s = not (
    s == 1
    || s == 18
    || s == 21
    || s == 22
    || s == 29
    || s == 30
    || s == 36
    || s == 37
    || s == 43
    || s == 46
    || s == 51
    || s == 59)

unfoldable pub all_plain : ℕ → ℕ → Bool
all_plain s zero = true
all_plain s (suc n) = plain s && all_plain (suc s) n

not_plain : (s k : ℕ) → plain s ≡ true → plain k ≡ false → (s == k) ≡ false
not_plain s k h n = elim (Bool-cases (s == k)) [
  | inl e ↦ absurd (grind (arith, sym h ∙ ap plain ((==_iff s k).0 e) ∙ n))
  | inr e ↦ e
]

at_sync-plain :
    (d z : ℕ) (time : List ℕ) (byte s : ℕ) (p : Bool)
    → plain s ≡ true
    → at_sync d (state z time byte p s) ≡ state z time byte p s
unfolding at_sync plain
at_sync-plain d z time byte s p h = rw (not_plain s 1 h refl) (
    rw (not_plain s 18 h refl) (
      rw (not_plain s 22 h refl) (
        rw (not_plain s 29 h refl) (
          rw (not_plain s 30 h refl) (
            rw (not_plain s 36 h refl) (
              rw (not_plain s 37 h refl) (
                rw (not_plain s 43 h refl) (
                  rw (not_plain s 46 h refl)
                    (rw (not_plain s 51 h refl) (rw (not_plain s 59 h refl) refl))))))))))

set-set : (xs : List ℕ) (i v w : ℕ) → set (set xs i v) i w ≡ set xs i w
set-set [] i v w = refl
set-set (x ∷ xs) zero v w = refl
set-set (x ∷ xs) (suc i) v w = ap (λ r. x ∷ r) (set-set xs i v w)

get_or-set : (xs : List ℕ) (i v : ℕ) → i < length xs → get_or (set xs i v) i 0 ≡ v
get_or-set [] i v h = absurd (omega arith)
get_or-set (x ∷ xs) zero v h = refl
get_or-set (x ∷ xs) (suc i) v h = get_or-set xs i v (omega arith)

set-get_or : (xs : List ℕ) (i : ℕ) → i < length xs → set xs i (get_or xs i 0) ≡ xs
set-get_or [] i h = absurd (omega arith)
set-get_or (x ∷ xs) zero h = refl
set-get_or (x ∷ xs) (suc i) h = ap (λ r. x ∷ r) (set-get_or xs i (omega arith))

&&_left : (a b : Bool) → a && b ≡ true → a ≡ true
&&_left true b h = refl
&&_left false b h = h

&&_right : (a b : Bool) → a && b ≡ true → b ≡ true
&&_right true b h = h
&&_right false b h = absurd cc

-- A bit is taken into the current byte.
unfoldable pub take_bit : Bool → Telegram → Telegram
take_bit b s = if ltb 40 (width_of b) then long_pulse s else short_pulse s

take_bit_lem :
    (b : Bool) (z : ℕ) (time : List ℕ) (k s : ℕ) (p : Bool)
    → get_or time (suc k) 0 < 256
    → (s == 21) ≡ false
    → take_bit b (state z time (suc k) p s)
      ≡ state z
          (set time (suc k) (get_or time (suc k) 0 / 2 + bit b * 128))
          (suc k)
          (if b then not p else p)
          s
unfolding take_bit long_pulse short_pulse shift_byte bit
take_bit_lem true z time k s p small other =
    let half : get_or time (suc k) 0 / 2 < 128 = omega arith in
    let some_byte : (suc k == 0) ≡ false = ground arith in
    rw (bit_or_top (get_or time (suc k) 0 / 2) half) (rw (bit_xor_one p) (rw some_byte refl))
take_bit_lem false z time k s p small other =
    let half = get_or time (suc k) 0 / 2 in
    let some_byte : (suc k == 0) ≡ false = ground arith in
    let taken : take_bit false (state z time (suc k) p s)
        ≡ state z (set time (suc k) half) (suc k) p s =
      rw other (rw some_byte refl) in
    taken
    ∙ ap (λ v. state z (set time (suc k) v) (suc k) p s) {x = half} {y = half + 0 * 128}
        (omega arith)

-- Pulses that bring bits to the byte `suc k`.
unfoldable pub took : List Bool → ℕ → List ℕ → List ℕ
took bs k time = set time (suc k) (shifted bs (get_or time (suc k) 0))

-- The first pulse of a field, of which `s` is known, and the others, which only bring a bit.
field_step :
    (b : Bool) (g : Telegram) (z : ℕ) (time : List ℕ) (k s : ℕ) (p : Bool)
    → at_sync (width_of b) g ≡ state z time (suc k) p s
    → get_or time (suc k) 0 < 256
    → (s == 21) ≡ false
    → s < 255
    → bit_step b g
      ≡ state z
          (set time (suc k) (get_or time (suc k) 0 / 2 + bit b * 128))
          (suc k)
          (if b then not p else p)
          (suc s)
unfolding bit_step pulse take_bit
field_step b g z time k s p known small other room =
    let step = ap (take_bit b) known ∙ take_bit_lem b z time k s p small other in
    let next : add8 s 1 ≡ suc s = omega arith in
    ap {A = Telegram} {B = Telegram} (λ t. record t { sync = add8 t.sync 1 }) step
    ∙ ap
        (λ n.
          state z (set time (suc k) (get_or time (suc k) 0 / 2 + bit b * 128)) (suc k)
            (if b then not p else p) n)
        next

byte_bound : (b : Bool) (t : ℕ) → t < 256 → t / 2 + bit b * 128 < 256
unfolding bit
byte_bound true t small = omega arith
byte_bound false t small = omega arith

-- A field, of which the rest is known.
module _ (b : Bool) (bs : List Bool) (z : ℕ) (time : List ℕ) (k s : ℕ) (p : Bool)
    (inside : suc k < length time) (small : get_or time (suc k) 0 < 256) where
  abbrev next_time : List ℕ
  next_time = set time (suc k) (get_or time (suc k) 0 / 2 + bit b * 128)

  next_inside : suc k < length next_time
  next_inside =
      omega (arith, inside, length-set time (suc k) (get_or time (suc k) 0 / 2 + bit b * 128))

  next_small : get_or next_time (suc k) 0 < 256
  next_small = omega (
    arith,
    get_or-set time (suc k) (get_or time (suc k) 0 / 2 + bit b * 128) inside,
    byte_bound b (get_or time (suc k) 0) small,
  )

  take_field :
      (g : Telegram)
      → at_sync (width_of b) g ≡ state z time (suc k) p s
      → (s == 21) ≡ false
      → s + suc (length bs) < 256
      → run bs (state z next_time (suc k) (if b then not p else p) (suc s))
        ≡ state z
            (took bs k next_time)
            (suc k)
            (parity_of bs (if b then not p else p))
            (suc s + length bs)
      → run (b ∷ bs) g
        ≡ state z (took (b ∷ bs) k time) (suc k) (parity_of (b ∷ bs) p) (s + suc (length bs))
  unfolding run took shifted parity_of
  take_field g known other room rest =
      let v = get_or time (suc k) 0 / 2 + bit b * 128 in
      let sum : suc s + length bs ≡ s + suc (length bs) = omega arith in
      ap (run bs) (field_step b g z time k s p known small other (omega arith))
      ∙ rest
      ∙ ap₂ (λ t n. state z t (suc k) (parity_of bs (if b then not p else p)) n)
          (set-set time (suc k) v _
            ∙ ap (λ x. set time (suc k) (shifted bs x)) (get_or-set time (suc k) v inside))
          sum

-- Pulses that only bring bits.
run-state :
    (bs : List Bool) (z : ℕ) (time : List ℕ) (k s : ℕ) (p : Bool)
    → suc k < length time
    → get_or time (suc k) 0 < 256
    → s + length bs < 256
    → all_plain s (length bs) ≡ true
    → run bs (state z time (suc k) p s)
      ≡ state z (took bs k time) (suc k) (parity_of bs p) (s + length bs)
unfolding run all_plain plain took shifted parity_of
run-state [] z time k s p inside small room h =
    ap (λ t. state z t (suc k) p s) (sym (set-get_or time (suc k) inside))
    ∙ ap (λ n. state z (took [] k time) (suc k) p n) {x = s} {y = s + 0} (omega arith)
run-state (b ∷ bs) z time k s p inside small room h =
    let is_plain : plain s ≡ true = &&_left (plain s) _ h in
    take_field b bs z time k s p inside small (state z time (suc k) p s)
      (at_sync-plain (width_of b) z time (suc k) s p is_plain) (not_plain s 21 is_plain refl) room
      (run-state bs z (next_time b bs z time k s p inside small) k (suc s) (if b then not p else p)
        (next_inside b bs z time k s p inside small) (next_small b bs z time k s p inside small)
        (omega arith) (&&_right (plain s) _ h))

-- The pulses of a field. `s` is the number of its first pulse, at which something else happens.
pub run-field :
    (b : Bool) (bs : List Bool) (g : Telegram) (z : ℕ) (time : List ℕ) (k s : ℕ) (p : Bool)
    → at_sync (width_of b) g ≡ state z time (suc k) p s
    → suc k < length time
    → get_or time (suc k) 0 < 256
    → (s == 21) ≡ false
    → s + suc (length bs) < 256
    → all_plain (suc s) (length bs) ≡ true
    → run (b ∷ bs) g
      ≡ state z (took (b ∷ bs) k time) (suc k) (parity_of (b ∷ bs) p) (s + suc (length bs))
run-field b bs g z time k s p known inside small other room h =
    take_field b bs z time k s p inside small g known other room (
      run-state bs z (next_time b bs z time k s p inside small) k (suc s) (if b then not p else p)
        (next_inside b bs z time k s p inside small) (next_small b bs z time k s p inside small)
        (omega arith) h)
