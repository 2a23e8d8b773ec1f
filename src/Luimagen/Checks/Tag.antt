-- ===== src/Luimagen/Checks/Tag.antt =====
-- luimagen/gen.go: the SQL names that `checkTag` lets through.
use luima.Prelude.{
  ℕ, suc, ◌≤◌, Bool, true, false, not, ◌||◌, [], ◌∷◌, ◌++◌, none, some, ◌≡◌, refl, ◌≢◌, ◌↔◌, ap,
  arith, append_cancel_right, Text, text_eq, text_eq_iff, All, length, length-append, ◌==◌,
  Option-cases, inl, inr, ◌⊎◌, if◌then◌else◌,
}
use luima.Luimagen.Quote.{is_print, escape, escaped, hex2, hex4, quote_rune, quote_runes, quote}
use luima.Luimagen.Checks.{
  Checked, ok, failed, any_of, first_separator, needs_escape, has_separator, check_tag,
  refuse_if-eq-ok,
}

module _ (prints : ℕ → Bool) where
  -- A rune that stands for itself in a bun tag: it prints, and it is no quote, backslash, backtick,
  -- comma or colon.
  abbrev pub IsTagRune : ℕ → Type 0
  IsTagRune c =
      (is_print prints c ≡ true) × (c ≢ b'"') × (c ≢ b'\\') × (c ≢ b'`') × (c ≢ b',') × (c ≢ b':')

  -- A rune is quoted as itself, or by two runes at least.
  quote_rune_cases :
      (c : ℕ)
      → ((quote_rune prints c ≡ c ∷ []) × (is_print prints c ≡ true) × (c ≢ b'"') × (c ≢ b'\\'))
        ⊎ (2 ≤ length (quote_rune prints c))
  unfolding quote_rune escape escaped hex2 hex4
  quote_rune_cases c = ground arith

  -- A rune that `strconv.Quote` leaves as it is.
  abbrev IsPlain : ℕ → Type 0
  IsPlain c = (is_print prints c ≡ true) × (c ≢ b'"') × (c ≢ b'\\')

  length-quote_runes : (s : Text) → length s ≤ length (quote_runes prints s)
  unfolding quote_runes
  length-quote_runes [] = omega arith
  length-quote_runes (c ∷ s) =
      let below = length-quote_runes s in
      let split = length-append (quote_rune prints c) (quote_runes prints s) in
      elim (quote_rune_cases c) [
        | inl (e, _, _, _) ↦ let one : length (quote_rune prints c) ≡ 1 = ap length e in omega arith
        | inr two ↦ omega arith
      ]

  IsPlain-of_quoted : (s : Text) → quote_runes prints s ≡ s → All IsPlain s
  unfolding quote_runes
  IsPlain-of_quoted [] h = tt
  IsPlain-of_quoted (c ∷ s) h = elim (quote_rune_cases c) [
    | inl (e, p, q, b) ↦ ((p, q, b), IsPlain-of_quoted s (cc))
    | inr two ↦
        let below = length-quote_runes s in
        let split = length-append (quote_rune prints c) (quote_runes prints s) in
        let same : length (quote_rune prints c ++ quote_runes prints s) ≡ suc (length s) =
          ap length h in
        absurd (omega arith)
  ]

  quoted_of_plain : (s : Text) → All IsPlain s → quote_runes prints s ≡ s
  unfolding quote_runes quote_rune
  quoted_of_plain [] h = refl
  quoted_of_plain (c ∷ s) ((p, q, b), hs) = ground (arith, quoted_of_plain s hs)

  IsTagRune-of_plain :
      (s : Text)
      → All IsPlain s
      → any_of (λ c. c == b'`') s ≡ false
      → first_separator s ≡ none
      → All IsTagRune s
  unfolding first_separator
  IsTagRune-of_plain [] h t f = tt
  IsTagRune-of_plain (c ∷ s) (h, hs) t f =
      let sep : (if c == b',' || c == b':' then some c else first_separator s) ≡ none = f in
      (ground arith, IsTagRune-of_plain s hs (ground arith) (ground arith))

  IsPlain-of_tag :
      (s : Text)
      → All IsTagRune s
      → All IsPlain s × (any_of (λ c. c == b'`') s ≡ false) × (first_separator s ≡ none)
  unfolding first_separator
  IsPlain-of_tag [] h = (tt, refl, refl)
  IsPlain-of_tag (c ∷ s) (h, hs) =
      let (a, b, d) = IsPlain-of_tag s hs in (ground arith, ground arith, ground arith)

  separated-ne-ok :
      (v : Text) (c : ℕ)
      → first_separator v ≡ some c
      → (elim (first_separator v) as (λ _. Checked (Unit {0})) [
        | none ↦ ok tt
        | some c ↦ failed (has_separator v c)
      ])
        ≢ ok tt
  separated-ne-ok v c e h = cc

  IsTagRune-of_ok : (v : Text) → check_tag prints v ≡ ok tt → All IsTagRune v
  unfolding check_tag quote
  IsTagRune-of_ok v h =
      let tests =
        any_of (λ c. c == b'`') v || not (text_eq (quote prints v) (b'"' ∷ (v ++ b'"' ∷ []))) in
      let split = elim (first_separator v) as (λ _. Checked (Unit {0})) [
        | none ↦ ok tt
        | some c ↦ failed (has_separator v c)
      ] in
      let (quoted, sep) = refuse_if-eq-ok tests (needs_escape v) split tt h in
      let same = (text_eq_iff (quote prints v) (b'"' ∷ (v ++ b'"' ∷ []))).0 (ground arith) in
      let inner : quote_runes prints v ++ b'"' ∷ [] ≡ v ++ b'"' ∷ [] = cc in
      IsTagRune-of_plain v
        (IsPlain-of_quoted v (append_cancel_right (quote_runes prints v) v (b'"' ∷ []) inner))
        (ground arith)
        (elim (Option-cases (first_separator v)) [
          | inl e ↦ e
          | inr (c, e) ↦ absurd (separated-ne-ok v c e sep)
        ])

  ok_of_tag : (v : Text) → All IsTagRune v → check_tag prints v ≡ ok tt
  unfolding check_tag quote
  ok_of_tag v h =
      let (plain, tick, none_of) = IsPlain-of_tag v h in
      let same = quoted_of_plain v plain in
      let quoted : text_eq (quote prints v) (b'"' ∷ (v ++ b'"' ∷ [])) ≡ true =
        (text_eq_iff (quote prints v) (b'"' ∷ (v ++ b'"' ∷ []))).1
          (ap (λ t. b'"' ∷ (t ++ b'"' ∷ [])) same) in
      rw (tick, quoted, none_of) refl

  -- `checkTag` lets through exactly the names whose runes all print and are no quote, backslash, backtick,
  -- comma or colon.
  pub check_tag_iff : (v : Text) → (check_tag prints v ≡ ok tt) ↔ All IsTagRune v
  check_tag_iff v = (IsTagRune-of_ok v, ok_of_tag v)
