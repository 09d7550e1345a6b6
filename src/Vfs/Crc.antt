-- ===== src/Vfs/Crc.antt =====
-- The check sum of an inlined file: crc_update and crc_calc of core/vfs/vfs-concat.c, which writes it,
-- and crc_checksum of core/eeprom.c, which checks it by the function _crc_ibutton_update of the C
-- library.
use ir.Prelude.{
  ℕ, zero, suc, ◌/◌, ◌%◌, ◌^◌, ◌<◌, ◌≡◌, refl, ap, sym, ◌∙◌, Bool, true, false, ◌&&◌, ltb, List, [],
  ◌∷◌, arith, bit_xor, ◌==◌, ==_iff, if◌then◌else◌,
}
use ir.Prelude.Tables.{upto, upto_at}

unfoldable pub crc_loop : ℕ → ℕ → ℕ → ℕ
crc_loop zero crc byte = crc
crc_loop (suc i) crc byte =
    crc_loop i (if bit_xor crc byte % 2 == 1 then bit_xor (crc / 2) 140 else crc / 2) (byte / 2)

unfoldable pub crc_update : ℕ → ℕ → ℕ
crc_update crc byte = crc_loop 8 crc byte

unfoldable pub crc_calc : List ℕ → ℕ → ℕ
crc_calc [] crc = crc
crc_calc (byte ∷ bytes) crc = crc_calc bytes (crc_update crc byte)

module _ (crc_ibutton_update : ℕ → ℕ → ℕ) where
  unfoldable pub crc_checksum : List ℕ → ℕ → ℕ
  crc_checksum [] crc = crc
  crc_checksum (byte ∷ bytes) crc = crc_checksum bytes (crc_ibutton_update crc byte)

-- The manual's equivalent of _crc_ibutton_update.
unfoldable pub ibutton_loop : ℕ → ℕ → ℕ
ibutton_loop zero crc = crc
ibutton_loop (suc i) crc = ibutton_loop i (if crc % 2 == 1 then bit_xor (crc / 2) 140 else crc / 2)

abbrev halved : ℕ → ℕ → ℕ
halved crc other = if other % 2 == 1 then bit_xor (crc / 2) 140 else crc / 2

-- One step of both loops, and the bytes stay bytes.
same_step : ℕ → ℕ → Bool
same_step c d =
    (bit_xor (halved c (bit_xor c d)) (d / 2) == halved (bit_xor c d) (bit_xor c d))
    && ltb (halved c (bit_xor c d)) 256

same_steps : ℕ → Bool
same_steps c = upto (same_step c) 256

step_table : upto same_steps 256 ≡ true
unfolding upto same_steps same_step
step_table = refl

&&_both : (a b : Bool) → a && b ≡ true → (a ≡ true) × (b ≡ true)
&&_both true b h = (refl, h)
&&_both false b h = absurd cc

step_lem :
    (c d : ℕ)
    → c < 256
    → d < 256
    → (bit_xor (halved c (bit_xor c d)) (d / 2) ≡ halved (bit_xor c d) (bit_xor c d))
      × (halved c (bit_xor c d) < 256)
unfolding same_step same_steps
step_lem c d small byte =
    let row = upto_at same_steps c 256 small step_table in
    let cell : same_step c d ≡ true = upto_at (same_step c) d 256 byte row in
    let (same, bound) = &&_both _ _ cell in ((==_iff _ _).0 same, ground (arith, bound))

zero_table : upto (λ c. bit_xor c 0 == c) 256 ≡ true
unfolding upto
zero_table = refl

loops_agree :
    (i c d : ℕ) → c < 256 → d < 256 → d < 2 ^ i → crc_loop i c d ≡ ibutton_loop i (bit_xor c d)
unfolding crc_loop ibutton_loop
loops_agree zero c d small byte fits =
    let none_left : d ≡ 0 = omega arith in
    sym (
      ap (bit_xor c) none_left
      ∙ (==_iff _ _).0 (upto_at (λ c. bit_xor c 0 == c) c 256 small zero_table))
loops_agree (suc i) c d small byte fits =
    let (same, bound) = step_lem c d small byte in
    loops_agree i (halved c (bit_xor c d)) (d / 2) bound (omega arith) (omega arith)
    ∙ ap (ibutton_loop i) same

crc_loop_bound : (i c d : ℕ) → c < 256 → d < 256 → crc_loop i c d < 256
unfolding crc_loop
crc_loop_bound zero c d small byte = small
crc_loop_bound (suc i) c d small byte =
    crc_loop_bound i (halved c (bit_xor c d)) (d / 2) (step_lem c d small byte).1 (omega arith)

-- All elements are bytes.
abbrev pub AreBytes : List ℕ → Type 0
AreBytes [] = Unit
AreBytes (byte ∷ bytes) = (byte < 256) × AreBytes bytes

-- With the C library's function as its manual describes it, the check sum that the firmware computes
-- is the one that the tool writes, for any bytes.
pub crc_checksum-crc_calc :
    (crc_ibutton_update : ℕ → ℕ → ℕ) (bytes : List ℕ) (crc : ℕ)
    → ((c d : ℕ) → crc_ibutton_update c d ≡ ibutton_loop 8 (bit_xor c d))
    → AreBytes bytes
    → crc < 256
    → crc_checksum crc_ibutton_update bytes crc ≡ crc_calc bytes crc
unfolding crc_checksum crc_calc crc_update
crc_checksum-crc_calc crc_ibutton_update [] crc manual all small = refl
crc_checksum-crc_calc crc_ibutton_update (byte ∷ bytes) crc manual (is_byte, all) small =
    let same = manual crc byte ∙ sym (loops_agree 8 crc byte small is_byte (omega arith)) in
    ap (crc_checksum crc_ibutton_update bytes) same
    ∙ crc_checksum-crc_calc crc_ibutton_update bytes (crc_loop 8 crc byte) manual all
        (crc_loop_bound 8 crc byte small is_byte)
