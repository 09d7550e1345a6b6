-- ===== src/Ecmd/Result.antt =====
-- The results of commands, protocols/ecmd/ecmd-base.h. They are signed words; the model's integers
-- have no bounds, and no result leaves the word: a length is at most that of a buffer.
use ir.Prelude.{
  ℕ, ◌+◌, ◌-◌, ◌≡◌, refl, sym, ap, Bool-cases, ◌⊎◌, inl, inr, Bool, true, false, arith, ltb,
  if◌then◌else◌,
}
use ir.Prelude.Int.{ℤ, pos, negsuc}

abbrev pub final_ok : ℤ
final_ok = pos 0

abbrev pub err_parse_error : ℤ
err_parse_error = negsuc 0

-- `ECMD_AGAIN(len)`, -10 - len
unfoldable pub ecmd_again : ℤ → ℤ
ecmd_again (pos n) = negsuc (n + 9)
ecmd_again (negsuc n) = if ltb n 9 then negsuc (8 - n) else pos (n - 9)

unfoldable pub is_ecmd_again : ℤ → Bool
is_ecmd_again (pos n) = false
is_ecmd_again (negsuc n) = if ltb n 9 then false else true

unfoldable pub is_ecmd_final : ℤ → Bool
is_ecmd_final (pos n) = true
is_ecmd_final (negsuc n) = false

unfoldable pub is_ecmd_err : ℤ → Bool
is_ecmd_err (pos n) = false
is_ecmd_err (negsuc n) = ltb n 9

-- Every result is of exactly one of three forms: of a command that wants to be called again, whose
-- length `ECMD_AGAIN` gives back; of one that has ended; or an error. `ECMD_AGAIN` undoes itself.
pub ecmd_again_cases :
    (r : ℤ)
    → (ecmd_again (ecmd_again r) ≡ r)
      × (((n : ℕ) × (r ≡ ecmd_again (pos n))
            × (ecmd_again r ≡ pos n)
            × (is_ecmd_again r ≡ true)
            × (is_ecmd_final r ≡ false)
            × (is_ecmd_err r ≡ false))
          ⊎ ((n : ℕ) × (r ≡ pos n)
              × (is_ecmd_again r ≡ false)
              × (is_ecmd_final r ≡ true)
              × (is_ecmd_err r ≡ false))
          ⊎ ((is_ecmd_again r ≡ false) × (is_ecmd_final r ≡ false) × (is_ecmd_err r ≡ true)))
unfolding ecmd_again is_ecmd_again is_ecmd_final is_ecmd_err
ecmd_again_cases (pos n) =
    let far : ltb (n + 9) 9 ≡ false = ground arith in
    let back : n + 9 - 9 ≡ n = omega arith in
    (rw far (ap pos back), inr (inl (n, refl, refl, refl, refl)))
ecmd_again_cases (negsuc n) = elim (Bool-cases (ltb n 9)) [
  | inl b ↦
      let back : 8 - (8 - n) ≡ n = ground arith in
      let near : ltb (8 - n) 9 ≡ true = ground arith in
      rw (b, ecmd_again) (rw near (rw back (refl, inr (inr (refl, refl, refl)))))
  | inr b ↦
      let back : n - 9 + 9 ≡ n = ground arith in
      rw (b, ecmd_again) (ap negsuc back, inl (n - 9, ap negsuc (sym back), refl, refl, refl, refl))
]

pub is_ecmd_again-ecmd_again : (n : ℕ) → is_ecmd_again (ecmd_again (pos n)) ≡ true
unfolding ecmd_again is_ecmd_again
is_ecmd_again-ecmd_again n = let far : ltb (n + 9) 9 ≡ false = ground arith in rw far refl
