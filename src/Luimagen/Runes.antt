-- ===== src/Luimagen/Runes.antt =====
-- The functions of the packages unicode and strings that luimagen applies to names, on ASCII: each name
-- has passed checkIdent before they run.
use luima.Prelude.{
  ℕ, ◌+◌, ◌-◌, Bool, true, false, Option, none, some, ◌&&◌, ◌||◌, [], ◌∷◌, map, Text, text_eq, leb,
  ◌==◌, if◌then◌else◌, ◌++◌, ◌≡◌, refl, arith,
}

abbrev pub is_upper : ℕ → Bool
is_upper c = leb b'A' c && leb c b'Z'

abbrev pub is_lower : ℕ → Bool
is_lower c = leb b'a' c && leb c b'z'

abbrev pub is_digit : ℕ → Bool
is_digit c = leb b'0' c && leb c b'9'

unfoldable pub to_lower : ℕ → ℕ
to_lower c = if is_upper c then c + 32 else c

unfoldable pub to_upper : ℕ → ℕ
to_upper c = if is_lower c then c - 32 else c

-- `strings.EqualFold`, exact where one side is ASCII: the long s and the Kelvin sign are the only other
-- runes that fold to an ASCII letter.
unfoldable pub fold : ℕ → ℕ
unfolding to_lower
fold c = if c == 0x17f then b's' else if c == 0x212a then b'k' else to_lower c

unfoldable pub equal_fold : Text → Text → Bool
equal_fold s t = text_eq (map fold s) (map fold t)

-- `strings.HasSuffix`.
unfoldable pub has_suffix : Text → Text → Bool
has_suffix [] t = text_eq [] t
has_suffix (c ∷ s) t = text_eq (c ∷ s) t || has_suffix s t

-- What follows a prefix.
unfoldable pub after_prefix : Text → Text → Option Text
after_prefix [] s = some s
after_prefix (p ∷ ps) [] = none
after_prefix (p ∷ ps) (c ∷ s) = if p == c then after_prefix ps s else none

-- `strings.CutPrefix`.
unfoldable pub cut_prefix : Text → Text → Text × Bool
cut_prefix prefix s = elim (after_prefix prefix s) [ some rest ↦ (rest, true) | none ↦ (s, false) ]

-- `s[:len(s)-1]`.
unfoldable pub drop_last : Text → Text
drop_last [] = []
drop_last (c ∷ []) = []
drop_last (c ∷ (d ∷ s)) = c ∷ drop_last (d ∷ s)

pub after_prefix-eq-some : (p s rest : Text) → after_prefix p s ≡ some rest → s ≡ p ++ rest
unfolding after_prefix
after_prefix-eq-some [] s rest h = cc
after_prefix-eq-some (c ∷ p) [] rest h = absurd (cc)
after_prefix-eq-some (c ∷ p) (d ∷ s) rest h =
    let e : (c ≡ d) × (after_prefix p s ≡ some rest) = ground arith in
    let tail = after_prefix-eq-some p s rest (e.1) in cc

pub after_prefix-append : (p rest : Text) → after_prefix p (p ++ rest) ≡ some rest
unfolding after_prefix
after_prefix-append [] rest = refl
after_prefix-append (c ∷ p) rest = ground (arith, after_prefix-append p rest)
