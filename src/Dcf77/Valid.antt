-- ===== src/Dcf77/Valid.antt =====
-- The variables of hardware/clock/dcf77/dcf77.c over any edges of the signal.
use ir.Prelude.{
  ℕ, zero, suc, ◌/◌, ◌<◌, ◌≤◌, ◌≡◌, ap, ◌∙◌, Bool, true, false, not, List, [], ◌∷◌, length,
  length-set, arith, ltb, ◌==◌, if◌then◌else◌, get_or, set, bit_or, bit_xor,
}
use ir.Dcf77.{Telegram, at_sync, check_parity, long_pulse, short_pulse, shift_byte, pulse}
use ir.Dcf77.Bits.{bit, bit_or_top, bit_xor_one}

-- The bytes of the telegram are bytes, the one that takes the bits is one of them, and the number of
-- the second is that of a minute.
pub record IsTelegram (g : Telegram) : Type 0 where
  pub eight : length g.time ≡ 8
  pub small : (i : ℕ) → get_or g.time i 0 < 256
  pub parity : g.timeparity ≤ 1
  pub in_time : g.timebyte < 8
  pub in_minute : g.sync ≤ 60

pub parity_bit : (n : ℕ) → n ≤ 1 → n ≡ bit (n == 1)
unfolding bit
parity_bit n h = ground arith

bit_small : (b : Bool) → bit b ≤ 1
unfolding bit
bit_small true = omega arith
bit_small false = omega arith

pub if-IsTelegram :
    (b : Bool) (x y : Telegram) → IsTelegram x → IsTelegram y → IsTelegram (if b then x else y)
if-IsTelegram true x y hx hy = hx
if-IsTelegram false x y hx hy = hy

get_or-set_small :
    (xs : List ℕ) (k v i : ℕ)
    → ((i : ℕ) → get_or xs i 0 < 256)
    → v < 256
    → get_or (set xs k v) i 0 < 256
get_or-set_small [] k v i small h = small i
get_or-set_small (x ∷ xs) zero v zero small h = h
get_or-set_small (x ∷ xs) zero v (suc i) small h = small (suc i)
get_or-set_small (x ∷ xs) (suc k) v zero small h = small 0
get_or-set_small (x ∷ xs) (suc k) v (suc i) small h =
    get_or-set_small xs k v i (λ i. small (suc i)) h

byte_set :
    (g : Telegram) (v : ℕ)
    → IsTelegram g
    → v < 256
    → IsTelegram (record g { time = set g.time g.timebyte v })
byte_set g v h small = record {
  eight = length-set g.time g.timebyte v ∙ h.eight;
  small = λ i. get_or-set_small g.time g.timebyte v i h.small small;
  parity = h.parity;
  in_time = h.in_time;
  in_minute = h.in_minute;
}

shift_byte-IsTelegram :
    (divisor : ℕ) (g : Telegram)
    → IsTelegram g
    → get_or g.time g.timebyte 0 / divisor < 256
    → IsTelegram (shift_byte divisor g)
unfolding shift_byte
shift_byte-IsTelegram divisor g h small = byte_set g (get_or g.time g.timebyte 0 / divisor) h small

to_byte :
    (k p : ℕ) (g : Telegram)
    → IsTelegram g
    → k < 8
    → p ≤ 1
    → IsTelegram (record g { timebyte = k; timeparity = p })
to_byte k p g h inside bound = record {
  eight = h.eight;
  small = h.small;
  parity = bound;
  in_time = inside;
  in_minute = h.in_minute;
}

shifted_to :
    (k divisor : ℕ) (g : Telegram)
    → IsTelegram g
    → k < 8
    → get_or g.time g.timebyte 0 / divisor < 256
    → IsTelegram (record (shift_byte divisor g) { timebyte = k })
unfolding shift_byte
shifted_to k divisor g h inside small =
    to_byte k g.timeparity (shift_byte divisor g) (shift_byte-IsTelegram divisor g h small) inside
      h.parity

at_sync-IsTelegram : (d : ℕ) (g : Telegram) → IsTelegram g → IsTelegram (at_sync d g)
unfolding at_sync
at_sync-IsTelegram d g h =
    let byte = h.small g.timebyte in
    if-IsTelegram (g.sync == 1) _ _ (to_byte 1 g.timeparity g h (omega arith) h.parity) (
      if-IsTelegram (g.sync == 18) _ _
        (record {
          eight = h.eight;
          small = h.small;
          parity = h.parity;
          in_time = h.in_time;
          in_minute = h.in_minute;
        })
        (if-IsTelegram (g.sync == 22) _ _ (to_byte 2 0 g h (omega arith) (omega arith)) (
          if-IsTelegram (g.sync == 29) _ _ (shifted_to 0 2 g h (omega arith) (omega (arith, byte)))
            (if-IsTelegram (g.sync == 30) _ _ (to_byte 3 0 g h (omega arith) (omega arith)) (
              if-IsTelegram (g.sync == 36) _ _
                (shifted_to 0 4 g h (omega arith) (omega (arith, byte)))
                (if-IsTelegram (g.sync == 37) _ _ (to_byte 4 0 g h (omega arith) (omega arith)) (
                  if-IsTelegram (g.sync == 43) _ _
                    (shifted_to 5 4 g h (omega arith) (omega (arith, byte)))
                    (if-IsTelegram (g.sync == 46) _ _
                      (shifted_to 6 32 g h (omega arith) (omega (arith, byte)))
                      (if-IsTelegram (g.sync == 51) _ _
                        (shifted_to 7 8 g h (omega arith) (omega (arith, byte)))
                        (if-IsTelegram (g.sync == 59) _ _
                          (to_byte 0 g.timeparity g h (omega arith) h.parity) h))))))))))

pub sync_set : (n : ℕ) (g : Telegram) → IsTelegram g → n ≤ 60 → IsTelegram (record g { sync = n })
sync_set n g h bound = record {
  eight = h.eight;
  small = h.small;
  parity = h.parity;
  in_time = h.in_time;
  in_minute = bound;
}

check_parity-IsTelegram : (g : Telegram) → IsTelegram g → IsTelegram (check_parity g)
unfolding check_parity
check_parity-IsTelegram g h =
    if-IsTelegram (not (g.timeparity == 0)) _ _ (sync_set 0 g h (omega arith)) h

long_pulse-IsTelegram : (g : Telegram) → IsTelegram g → IsTelegram (long_pulse g)
unfolding long_pulse
long_pulse-IsTelegram g h =
    let p = bit_xor g.timeparity 1 in
    let known =
      ap (λ n. bit_xor n 1) (parity_bit g.timeparity h.parity) ∙ bit_xor_one (g.timeparity == 1) in
    let bound : p ≤ 1 = omega (arith, known, bit_small (not (g.timeparity == 1))) in
    let byte = h.small g.timebyte in
    let half = get_or g.time g.timebyte 0 / 2 in
    let top = bit_or_top half (omega (arith, byte)) in
    let q = to_byte g.timebyte p g h h.in_time bound in
    if-IsTelegram (not (g.timebyte == 0)) _ _
      (byte_set (record g { timeparity = p }) (bit_or half 128) q (omega (arith, top, byte)))
      (check_parity-IsTelegram (record g { timeparity = p }) q)

short_pulse-IsTelegram : (g : Telegram) → IsTelegram g → IsTelegram (short_pulse g)
unfolding short_pulse
short_pulse-IsTelegram g h =
    let s = if g.sync == 21 then record g { sync = 0 } else g in
    let v =
      if-IsTelegram (g.sync == 21) (record g { sync = 0 }) g (sync_set 0 g h (omega arith)) h in
    if-IsTelegram (not (g.timebyte == 0)) _ _
      (shift_byte-IsTelegram 2 s v (omega (arith, v.small s.timebyte)))
      (check_parity-IsTelegram s v)

pub pulse-IsTelegram : (d : ℕ) (g : Telegram) → IsTelegram g → IsTelegram (pulse d g)
unfolding pulse
pulse-IsTelegram d g h =
    let s = at_sync-IsTelegram d g h in
    if-IsTelegram (ltb 40 d) _ _ (long_pulse-IsTelegram (at_sync d g) s)
      (short_pulse-IsTelegram (at_sync d g) s)
