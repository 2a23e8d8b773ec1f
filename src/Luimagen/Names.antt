-- ===== src/Luimagen/Names.antt =====
-- luimagen/gen.go: `snakeCase`, `lowerFirst` and `upperFirst`.
pub mod Snake
pub mod Lower
use luima.Prelude.{
  ℕ, Bool, true, false, ◌||◌, List, [], ◌∷◌, ◌++◌, Option, none, some, Text, codes, if◌then◌else◌,
}
use luima.Luimagen.Runes.{is_upper, is_lower, to_lower, to_upper, has_suffix, drop_last}

-- `i > 0 && i+1 < len(rs) && (unicode.IsLower(rs[i-1]) || unicode.IsLower(rs[i+1]))`, from the rune
-- before, if any, and the runes after.
unfoldable pub takes_underscore : Option ℕ → Text → Bool
takes_underscore (some before) (next ∷ _) = is_lower before || is_lower next
takes_underscore _ _ = false

-- The loop, behind the rune `before`.
unfoldable pub snake_from : Option ℕ → Text → Text
snake_from before [] = []
snake_from before (r ∷ rest) =
    let more = snake_from (some r) rest in
    let lowered = to_lower r ∷ more in
    if is_upper r
    then if takes_underscore before rest then b'_' ∷ lowered else lowered
    else r ∷ more

unfoldable pub snake_case : Text → Text
snake_case s = snake_from none s

abbrev pub lower_head : Text → Text
lower_head [] = []
lower_head (c ∷ s) = to_lower c ∷ s

-- A trailing "ID" becomes "Id".
unfoldable pub fold_id : Text → Text
fold_id s = if has_suffix s (codes "ID") then drop_last s ++ codes "d" else s

unfoldable pub lower_first : Text → Text
lower_first s = lower_head (fold_id s)

unfoldable pub upper_first : Text → Text
upper_first [] = []
upper_first (c ∷ s) = to_upper c ∷ s
