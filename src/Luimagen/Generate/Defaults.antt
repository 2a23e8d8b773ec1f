-- ===== src/Luimagen/Generate/Defaults.antt =====
-- luimagen/luimagen.go: the table name that `withDefaults` derives.
use luima.Prelude.{
  ℕ, Bool, true, ◌||◌, ◌==◌, [], ◌∷◌, ◌++◌, Option, none, some, ◌≡◌, refl, arith, Text, codes, All,
  All-append, Bool-cases, inl, inr,
}
use luima.Luimagen.Runes.{is_upper, is_lower, is_digit, to_lower}
use luima.Luimagen.Names.{takes_underscore, snake_from, snake_case}
use luima.Luimagen.Quote.{is_print}
use luima.Luimagen.Checks as Checks
use luima.Luimagen.Checks.{check_tag}
use luima.Luimagen.Checks.Ident.{IsFieldName}
use luima.Luimagen.Checks.Tag.{IsTagRune, check_tag_iff}
use luima.Luimagen.Files.{Os}
use luima.Luimagen.Generate.{Options, with_defaults}

-- A letter or a digit, or the underscore that snakeCase takes.
abbrev IsWordRune : ℕ → Type 0
IsWordRune c = (is_upper c || (is_lower c || (is_digit c || c == b'_'))) ≡ true

module _ (prints : ℕ → Bool) where
  word_rune-IsTagRune : (c : ℕ) → IsWordRune c → IsTagRune prints c
  unfolding is_print
  word_rune-IsTagRune c h = ground arith

  to_lower-IsWordRune : (c : ℕ) → IsWordRune c → IsWordRune (to_lower c)
  unfolding to_lower
  to_lower-IsWordRune c h = ground arith

  snake_from-IsTagRune :
      (before : Option ℕ) (s : Text)
      → All IsWordRune s
      → All (IsTagRune prints) (snake_from before s)
  unfolding snake_from
  snake_from-IsTagRune before [] h = tt
  snake_from-IsTagRune before (r ∷ rest) (w, h) =
      let ih = snake_from-IsTagRune (some r) rest h in
      let small = word_rune-IsTagRune (to_lower r) (to_lower-IsWordRune r w) in
      elim (Bool-cases (is_upper r)) [
        | inr other ↦ rw other (word_rune-IsTagRune r w, ih)
        | inl upper ↦ elim (Bool-cases (takes_underscore before rest)) [
          | inl cut ↦ rw (upper, cut) (word_rune-IsTagRune b'_' refl, (small, ih))
          | inr joined ↦ rw (upper, joined) (small, ih)
        ]
      ]

  name_runes-IsWordRune :
      (s : Text) → All (λ d. (is_upper d || (is_lower d || is_digit d)) ≡ true) s → All IsWordRune s
  name_runes-IsWordRune [] h = tt
  name_runes-IsWordRune (c ∷ s) (w, h) = (ground arith, name_runes-IsWordRune s h)

  field_name-IsWordRune : (name : Text) → IsFieldName name → All IsWordRune name
  field_name-IsWordRune [] h = absurd h
  field_name-IsWordRune (c ∷ s) (u, h) = (rw u refl, name_runes-IsWordRune s h)

  snake_case-IsTagRune : (name : Text) → IsFieldName name → All (IsTagRune prints) (snake_case name)
  unfolding snake_case
  snake_case-IsTagRune name h = snake_from-IsTagRune none name (field_name-IsWordRune name h)

  plural-IsTagRune : All (IsTagRune prints) (codes "s")
  unfolding codes
  plural-IsTagRune = (word_rune-IsTagRune b's' refl, tt)

  module _ (os : Os) where
    -- Where the type is a name and no table is given, checkTag has no error for the derived table name.
    pub with_defaults-tag :
        (o : Options)
        → IsFieldName o.type_name
        → o.table ≡ []
        → check_tag prints (with_defaults os o).table ≡ Checks.ok tt
    unfolding with_defaults
    with_defaults-tag o named given = rw given (
        (check_tag_iff prints (snake_case o.type_name ++ codes "s")).1 (
          All-append (IsTagRune prints) (snake_case o.type_name) (codes "s")
            (snake_case-IsTagRune o.type_name named) plural-IsTagRune))
