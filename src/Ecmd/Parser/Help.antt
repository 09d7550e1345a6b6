-- ===== src/Ecmd/Parser/Help.antt =====
-- The command `help` of protocols/ecmd/parser.c, which keeps its place in the line's buffer, under
-- callers that call again as long as it asks them to.
use mathlib.Core.Option
use ir.Prelude.{
  ℕ, zero, suc, ◌+◌, ◌-◌, ◌<◌, ◌≤◌, ◌≡◌, ◌≢◌, refl, sym, ap, ap₂, ◌∙◌, true, false, Option, none,
  some, List, [], ◌∷◌, ◌++◌, ◌==◌, length, get_elem?, get_elem?-some, get_elem?_past, take, drop,
  arith, drop-get_elem?, drop_all, length-append, length-drop,
}
use ir.Prelude.Int.{ℤ, pos, negsuc}
use ir.Prelude.Words.{add8}
use ir.Prelude.Strings.{store_inside, take-append}
use ir.Ecmd.Result.{ecmd_again, ecmd_again_cases, is_ecmd_again-ecmd_again, is_ecmd_again}
use ir.Ecmd.Parser.{Reply, help_ret, help_text, parse_cmd_help}

abbrev pub size : ℤ → ℕ
size (pos n) = n
size (negsuc n) = 0

module _ {W : Type 0} (names : List (List ℕ)) where
  -- The outputs of a caller that calls until the command has ended, at most `fuel` times.
  unfoldable pub listing : ℕ → List ℕ → List ℕ → ℕ → W → Option (List (List ℕ))
  listing zero cmd output len w = none
  listing (suc fuel) cmd output len w = elim (parse_cmd_help names cmd output len w) [
    | none ↦ none
    | some r ↦ elim (is_ecmd_again r.ret) [
      | true ↦
          Option.map (λ texts. take (size (ecmd_again r.ret)) r.output ∷ texts)
            (listing fuel r.cmd r.output len w)
      | false ↦ some (take (size r.ret) r.output ∷ [])
    ]
  ]

  parse_cmd_help_next :
      (k : ℕ) (name more output : List ℕ) (len : ℕ) (w : W)
      → k < 255
      → get_elem? names k ≡ some name
      → length name ≤ length output
      → parse_cmd_help names (23 ∷ k ∷ more) output len w
        ≡ some (record {
          ret = help_ret (get_elem? names (k + 1)) (length name);
          cmd = 23 ∷ (k + 1) ∷ more;
          output = name ++ drop (length name) output;
          world = w;
        })
  unfolding parse_cmd_help help_text Option.map
  parse_cmd_help_next k name more output len w small e room =
      let next : add8 k 1 ≡ k + 1 = omega arith in
      let zeroth : 0 + length name ≡ length name = omega arith in
      rw next (rw (e, help_text) (rw (store_inside 0 name output (omega arith)) (rw zeroth refl)))

  parse_cmd_help_first :
      (c d : ℕ) (more output : List ℕ) (len : ℕ) (w : W)
      → c ≢ 23
      → parse_cmd_help names (c ∷ d ∷ more) output len w
        ≡ parse_cmd_help names (23 ∷ 0 ∷ more) output len w
  unfolding parse_cmd_help
  parse_cmd_help_first c d more output len w h =
      let fresh : (c == 23) ≡ false = ground arith in rw fresh refl

  listing_end :
      (fuel n : ℕ) (cmd output : List ℕ) (len : ℕ) (w : W) (r : Reply W)
      → parse_cmd_help names cmd output len w ≡ some r
      → r.ret ≡ pos n
      → listing (suc fuel) cmd output len w ≡ some (take n r.output ∷ [])
  unfolding listing is_ecmd_again
  listing_end fuel n cmd output len w r called e =
      rw (called, listing)
        (rw (ap is_ecmd_again e, listing) (ap (λ x. some (take (size x) r.output ∷ [])) e))

  listing_again :
      (fuel n : ℕ) (cmd output : List ℕ) (len : ℕ) (w : W) (r : Reply W)
      → parse_cmd_help names cmd output len w ≡ some r
      → r.ret ≡ ecmd_again (pos n)
      → listing (suc fuel) cmd output len w
        ≡ Option.map (λ texts. take n r.output ∷ texts) (listing fuel r.cmd r.output len w)
  unfolding listing
  listing_again fuel n cmd output len w r called e =
      rw (called, listing)
        (rw (ap is_ecmd_again e ∙ is_ecmd_again-ecmd_again n, listing)
          (ap
            (λ m.
              Option.map (λ texts. take (size m) r.output ∷ texts)
                (listing fuel r.cmd r.output len w))
            (ap ecmd_again e ∙ (ecmd_again_cases (pos n)).0)))

  listing_first :
      (fuel c d : ℕ) (more output : List ℕ) (len : ℕ) (w : W)
      → c ≢ 23
      → listing (suc fuel) (c ∷ d ∷ more) output len w
        ≡ listing (suc fuel) (23 ∷ 0 ∷ more) output len w
  unfolding listing
  listing_first fuel c d more output len w h =
      rw (parse_cmd_help_first c d more output len w h, listing) refl

  listing_next :
      (left k : ℕ) (more output : List ℕ) (len : ℕ) (w : W)
      → length names < 256
      → k + suc left ≡ length names
      → ((i : ℕ) (name : List ℕ) → get_elem? names i ≡ some name → length name ≤ length output)
      → listing (suc left) (23 ∷ k ∷ more) output len w ≡ some (drop k names)
  unfolding Option.map
  listing_next zero k more output len w few counted fits =
      let (name, e) = get_elem?-some names k (omega arith) in
      let called = parse_cmd_help_next k name more output len w (omega arith) e (fits k name e) in
      listing_end 0 (length name) (23 ∷ k ∷ more) output len w _ called
        (ap (λ o. help_ret o (length name)) (get_elem?_past names (k + 1) (omega arith)))
      ∙ ap (λ t. some (t ∷ [])) (take-append name (drop (length name) output))
      ∙ ap (λ ts. some (name ∷ ts)) (sym (drop_all names (suc k) (omega arith)))
      ∙ ap some (sym (drop-get_elem? names k name e))
  listing_next (suc left) k more output len w few counted fits =
      let (name, e) = get_elem?-some names k (omega arith) in
      let (next, n) = get_elem?-some names (k + 1) (omega arith) in
      let called = parse_cmd_help_next k name more output len w (omega arith) e (fits k name e) in
      let one : k + 1 ≡ suc k = omega arith in
      let whole = length-append name (drop (length name) output) in
      let same : length (name ++ drop (length name) output) ≡ length output =
        omega (arith, whole, fits k name e, length-drop (length name) output) in
      let rest =
        listing_next left (k + 1) more (name ++ drop (length name) output) len w few (omega arith)
          (λ i t m. (let le = fits i t m in omega arith)) in
      listing_again (suc left) (length name) (23 ∷ k ∷ more) output len w _ called
        (ap (λ o. help_ret o (length name)) n)
      ∙ ap₂ (λ t ts. Option.map (λ texts. t ∷ texts) ts)
          (take-append name (drop (length name) output)) rest
      ∙ ap (λ m. some (name ∷ drop m names)) one
      ∙ ap some (sym (drop-get_elem? names k name e))

  -- A caller that calls as long as `help` asks it to, for a line that does not begin with the byte
  -- 23, with a byte of the buffer behind its end, gets all names of the table, of one to 255
  -- commands, in their order, and makes as many calls as there are names; the output has room for
  -- each of them.
  pub listing-names :
      (c d : ℕ) (more output : List ℕ) (len : ℕ) (w : W)
      → c ≢ 23
      → 0 < length names
      → length names < 256
      → ((i : ℕ) (name : List ℕ) → get_elem? names i ≡ some name → length name ≤ length output)
      → listing (length names) (c ∷ d ∷ more) output len w ≡ some names
  listing-names c d more output len w fresh some_names few fits =
      let size : length names ≡ suc (length names - 1) = omega arith in
      ap (λ n. listing n (c ∷ d ∷ more) output len w) size
      ∙ listing_first (length names - 1) c d more output len w fresh
      ∙ listing_next (length names - 1) 0 more output len w few (omega arith) fits
