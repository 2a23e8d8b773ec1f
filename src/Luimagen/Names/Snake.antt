-- ===== src/Luimagen/Names/Snake.antt =====
-- What `snakeCase` makes of a name without underscores.
use luima.Prelude.{
  ℕ, Bool, true, false, [], ◌∷◌, map, Option, none, some, ◌≡◌, refl, ◌≢◌, arith, Text, All, ◌==◌,
  if◌then◌else◌, Bool-cases, inl, inr,
}
use luima.Luimagen.Runes.{is_upper, to_lower}
use luima.Luimagen.Names.{takes_underscore, snake_from, snake_case}

-- The text without its underscores.
unfoldable pub letters : Text → Text
letters [] = []
letters (c ∷ s) = let rest = letters s in if c == b'_' then rest else c ∷ rest

-- Words that are not empty, with one underscore between two of them; the flag says that the text
-- stands behind a letter of its word.
abbrev pub IsWords : Bool → Text → Type 0
IsWords within [] = within ≡ true
IsWords within (c ∷ s) = if c == b'_' then (within ≡ true) × IsWords false s else IsWords true s

abbrev pub NoUnderscore : Text → Type 0
NoUnderscore = All (λ c. c ≢ b'_')

letters-snake_from :
    (before : Option ℕ) (s : Text) → NoUnderscore s → letters (snake_from before s) ≡ map to_lower s
unfolding letters snake_from to_lower
letters-snake_from before [] h = refl
letters-snake_from before (r ∷ rest) (n, h) =
    let ih = letters-snake_from (some r) rest h in ground arith

snake_from_no_upper :
    (before : Option ℕ) (s : Text) → All (λ c. is_upper c ≡ false) (snake_from before s)
unfolding snake_from to_lower
snake_from_no_upper before [] = tt
snake_from_no_upper before (r ∷ rest) = elim (Bool-cases (is_upper r)) [
  | inr other ↦ rw other (other, snake_from_no_upper (some r) rest)
  | inl upper ↦ elim (Bool-cases (takes_underscore before rest)) [
    | inl cut ↦ rw (upper, cut) (refl, (ground arith, snake_from_no_upper (some r) rest))
    | inr joined ↦ rw (upper, joined) (ground arith, snake_from_no_upper (some r) rest)
  ]
]

not_underscore : (c : ℕ) → c ≢ b'_' → (c == b'_') ≡ false
not_underscore c h = ground arith

lower_not_underscore : (c : ℕ) → c ≢ b'_' → (to_lower c == b'_') ≡ false
unfolding to_lower
lower_not_underscore c h = ground arith

snake_from-IsWords :
    (before : ℕ) (s : Text) → NoUnderscore s → IsWords true (snake_from (some before) s)
unfolding snake_from
snake_from-IsWords before [] h = refl
snake_from-IsWords before (r ∷ rest) (n, h) = elim (Bool-cases (is_upper r)) [
  | inr other ↦ rw (other, not_underscore r n) (snake_from-IsWords r rest h)
  | inl upper ↦ elim (Bool-cases (takes_underscore (some before) rest)) [
    | inl cut ↦ rw (upper, cut) (refl, rw (lower_not_underscore r n) (snake_from-IsWords r rest h))
    | inr joined ↦ rw (upper, joined, lower_not_underscore r n) (snake_from-IsWords r rest h)
  ]
]

-- What the column name of a field keeps: its letters, in lower case, in words joined by single
-- underscores.
pub record IsColumnNameOf (name column : Text) : Type 0 where
  pub same_letters : letters column ≡ map to_lower name
  pub no_upper : All (λ c. is_upper c ≡ false) column
  pub words : IsWords false column

snake_case-IsWords :
    (r : ℕ) (rest : Text) → NoUnderscore (r ∷ rest) → IsWords false (snake_case (r ∷ rest))
unfolding snake_case snake_from takes_underscore
snake_case-IsWords r rest (n, h) = elim (Bool-cases (is_upper r)) [
  | inr other ↦ rw (other, not_underscore r n) (snake_from-IsWords r rest h)
  | inl upper ↦ rw (upper, lower_not_underscore r n) (snake_from-IsWords r rest h)
]

-- The column that is derived from a name that is not empty and has no underscore has the letters of
-- the name in lower case, no capital, and single underscores between words only.
pub snake_case-IsColumnNameOf :
    (name : Text) → name ≢ [] → NoUnderscore name → IsColumnNameOf name (snake_case name)
unfolding snake_case
snake_case-IsColumnNameOf [] ne h = absurd (ne refl)
snake_case-IsColumnNameOf (r ∷ rest) ne h = record {
  same_letters = letters-snake_from none (r ∷ rest) h;
  no_upper = snake_from_no_upper none (r ∷ rest);
  words = snake_case-IsWords r rest h;
}
