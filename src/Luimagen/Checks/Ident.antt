-- ===== src/Luimagen/Checks/Ident.antt =====
-- luimagen/gen.go: the names that `checkIdent` lets through.
use luima.Prelude.{
  ℕ, ◌<◌, Bool, true, false, not, ◌||◌, List, [], ◌∷◌, ◌≡◌, refl, ◌↔◌, arith, Text, codes, text_eq,
  has, All, ltb, ◌==◌,
}
use luima.Luimagen.Runes.{is_upper, is_lower, is_digit}
use luima.Luimagen.Checks.{
  ok, keywords, any_of, all_of, is_letter, is_letter_or_digit, is_identifier, is_exported,
  check_ident, refuse_if-eq-ok,
}

-- A capital letter, and then ASCII letters and digits.
abbrev pub IsFieldName : Text → Type 0
IsFieldName [] = ⊥
IsFieldName (c ∷ s) =
    (is_upper c ≡ true) × All (λ d. (is_upper d || (is_lower d || is_digit d)) ≡ true) s

abbrev StartsSmall : Text → Type 0
StartsSmall [] = ⊥
StartsSmall (c ∷ s) = b'Z' < c

keywords-StartsSmall : All StartsSmall keywords
unfolding keywords codes
keywords-StartsSmall = omega arith

no_keyword :
    (ks : List Text) (c : ℕ) (s : Text)
    → All StartsSmall ks
    → is_upper c ≡ true
    → has ks (c ∷ s) ≡ false
unfolding has text_eq
no_keyword [] c s h u = refl
no_keyword ([] ∷ ks) c s (h, hs) u = elim h [ ]
no_keyword ((k ∷ ws) ∷ ks) c s (h, hs) u = ground (arith, no_keyword ks c s hs u)

module _ (wide_letter wide_digit : ℕ → Bool) where
  runes_of_ok :
      (s : Text)
      → all_of (is_letter_or_digit wide_letter wide_digit) s ≡ true
      → any_of (λ c. not (ltb c 128)) s ≡ false
      → any_of (λ c. c == b'_') s ≡ false
      → All (λ d. (is_upper d || (is_lower d || is_digit d)) ≡ true) s
  unfolding is_letter_or_digit is_letter
  runes_of_ok [] a b c = tt
  runes_of_ok (d ∷ s) a b c =
      (ground arith, runes_of_ok s (ground arith) (ground arith) (ground arith))

  ok_of_runes :
      (s : Text)
      → All (λ d. (is_upper d || (is_lower d || is_digit d)) ≡ true) s
      → (all_of (is_letter_or_digit wide_letter wide_digit) s ≡ true)
        × (any_of (λ c. not (ltb c 128)) s ≡ false)
        × (any_of (λ c. c == b'_') s ≡ false)
  unfolding is_letter_or_digit is_letter
  ok_of_runes [] h = (refl, refl, refl)
  ok_of_runes (d ∷ s) (h, hs) =
      let (a, b, c) = ok_of_runes s hs in (ground arith, ground arith, ground arith)

  IsFieldName-of_ok :
      (name : Text) → check_ident wide_letter wide_digit name ≡ ok tt → IsFieldName name
  unfolding check_ident is_identifier is_exported
  IsFieldName-of_ok [] h = absurd (cc)
  IsFieldName-of_ok (c ∷ s) h =
      let (i, h1) = refuse_if-eq-ok (not (is_identifier wide_letter wide_digit (c ∷ s))) _ _ tt h in
      let (a, h2) = refuse_if-eq-ok (any_of (λ d. not (ltb d 128)) (c ∷ s)) _ _ tt h1 in
      let (u, h3) = refuse_if-eq-ok (any_of (λ d. d == b'_') (c ∷ s)) _ _ tt h2 in
      (ground arith, runes_of_ok s (ground arith) (ground arith) (ground arith))

  ok_of_field_name :
      (name : Text) → IsFieldName name → check_ident wide_letter wide_digit name ≡ ok tt
  unfolding check_ident is_identifier is_exported is_letter
  ok_of_field_name [] h = elim h [ ]
  ok_of_field_name (c ∷ s) (u, h) =
      let (a, b, d) = ok_of_runes s h in
      ground (arith, no_keyword keywords c s keywords-StartsSmall u)

  -- `checkIdent` lets through exactly the names of a capital letter and then ASCII letters and digits,
  -- whatever the tables of letters and digits past ASCII say.
  pub check_ident_iff :
      (name : Text) → (check_ident wide_letter wide_digit name ≡ ok tt) ↔ IsFieldName name
  check_ident_iff name = (IsFieldName-of_ok name, ok_of_field_name name)
