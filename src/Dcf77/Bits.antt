-- ===== src/Dcf77/Bits.antt =====
-- The bytes of a DCF77 telegram: bits that come lowest first, as hardware/clock/dcf77/dcf77.c shifts
-- them in, and decimal numbers.
use ir.Prelude.{
  ℕ, zero, suc, ◌+◌, ◌*◌, ◌/◌, ◌%◌, ◌^◌, ◌<◌, ◌≤◌, ◌≡◌, refl, ap, ◌∙◌, Bool, true, false, not, List,
  [], ◌∷◌, length, arith, bit_or, bit_xor, ◌==◌, ==_iff, if◌then◌else◌,
}
use ir.Prelude.Tables.{upto, upto_at}
use ir.Dcf77.{bcd2bin}

-- The lowest bits of a number.
unfoldable pub bits : ℕ → ℕ → List Bool
bits zero n = []
bits (suc width) n = (n % 2 == 1) ∷ bits width (n / 2)

-- Whether a number of ones is odd, and what `timeparity` holds then.
unfoldable pub parity_of : List Bool → Bool → Bool
parity_of [] p = p
parity_of (b ∷ bs) p = parity_of bs (if b then not p else p)

unfoldable pub bit : Bool → ℕ
bit b = if b then 1 else 0

-- A byte that takes bits from its top.
unfoldable pub shifted : List Bool → ℕ → ℕ
shifted [] t = t
shifted (b ∷ bs) t = shifted bs (t / 2 + bit b * 128)

-- A number in decimal digits of four bits each.
unfoldable pub bcd : ℕ → ℕ
bcd n = n / 10 * 16 + n % 10

pub bcd2bin-bcd : (n : ℕ) → n < 100 → bcd2bin (bcd n) ≡ n
unfolding bcd2bin bcd
bcd2bin-bcd n small = omega arith

pub length-bits : (width n : ℕ) → length (bits width n) ≡ width
unfolding bits
length-bits zero n = refl
length-bits (suc width) n = ap suc (length-bits width (n / 2))

pub shifted_bound : (bs : List Bool) (t : ℕ) → t < 256 → shifted bs t < 256
unfolding shifted bit
shifted_bound [] t small = small
shifted_bound (true ∷ bs) t small = shifted_bound bs (t / 2 + 1 * 128) (omega arith)
shifted_bound (false ∷ bs) t small = shifted_bound bs (t / 2 + 0 * 128) (omega arith)

top_bit : upto (λ k. bit_or k 128 == k + 128) 128 ≡ true
unfolding upto
top_bit = refl

pub bit_or_top : (k : ℕ) → k < 128 → bit_or k 128 ≡ k + 128
bit_or_top k small = (==_iff _ _).0 (upto_at (λ k. bit_or k 128 == k + 128) k 128 small top_bit)

pub bit_xor_one : (p : Bool) → bit_xor (bit p) 1 ≡ bit (not p)
unfolding bit
bit_xor_one true = refl
bit_xor_one false = refl

low_bit : (n : ℕ) → n ≡ n / 2 * 2 + bit (n % 2 == 1)
unfolding bit
low_bit n = ground arith

doubled : (s p : ℕ) → s * (2 * p) ≡ 2 * (s * p)
doubled s p = grind arith

-- After the bits of a number, the byte has them above what is left of its own.
above :
    (width n t : ℕ)
    → n < 2 ^ width
    → (shifted (bits width n) t * 2 ^ width ≤ t + n * 256)
      × (t + n * 256 < shifted (bits width n) t * 2 ^ width + 2 ^ width)
unfolding shifted bits
above zero n t fits = (omega arith, omega arith)
above (suc width) n t fits =
    let b = bit (n % 2 == 1) in
    let low = low_bit n in
    let (lower, upper) = above width (n / 2) (t / 2 + b * 128) (omega arith) in
    let rest = shifted (bits width (n / 2)) (t / 2 + b * 128) in
    let both : shifted (bits (suc width) n) t * 2 ^ suc width ≡ 2 * (rest * 2 ^ width) =
      ap (λ p. rest * p) {x = 2 ^ suc width} (omega arith) ∙ doubled rest (2 ^ width) in
    (omega (arith, low, lower, both), omega (arith, low, upper, both))

-- A byte that took the bits of a number of seven bits, and is then shifted down to it.
pub shifted-bits_seven : (n t : ℕ) → t < 256 → n < 128 → shifted (bits 7 n) t / 2 ≡ n
shifted-bits_seven n t small fits =
    omega (arith, (above 7 n t (omega arith)).0, (above 7 n t (omega arith)).1)

pub shifted-bits_six : (n t : ℕ) → t < 256 → n < 64 → shifted (bits 6 n) t / 4 ≡ n
shifted-bits_six n t small fits =
    omega (arith, (above 6 n t (omega arith)).0, (above 6 n t (omega arith)).1)

pub shifted-bits_five : (n t : ℕ) → t < 256 → n < 32 → shifted (bits 5 n) t / 8 ≡ n
shifted-bits_five n t small fits =
    omega (arith, (above 5 n t (omega arith)).0, (above 5 n t (omega arith)).1)

pub shifted-bits_eight : (n t : ℕ) → t < 256 → n < 256 → shifted (bits 8 n) t ≡ n
shifted-bits_eight n t small fits =
    omega (arith, (above 8 n t (omega arith)).0, (above 8 n t (omega arith)).1)
