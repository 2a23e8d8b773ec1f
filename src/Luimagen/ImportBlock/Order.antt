-- ===== src/Luimagen/ImportBlock/Order.antt =====
-- luimagen/patch.go: the order of cmp.Compare on paths, by which `splitGroups` sorts.
use luima.Prelude.{Bool, true, false, ◌&&◌, ◌||◌, ◌==◌, [], ◌∷◌, ◌≡◌, refl, Text, ltb, arith}

-- `cmp.Compare(s, t) <= 0`.
abbrev pub path_le : Text → Text → Bool
path_le [] t = true
path_le (c ∷ s) [] = false
path_le (c ∷ s) (d ∷ t) = ltb c d || (c == d && path_le s t)

pub path_le_total : (s t : Text) → path_le s t ≡ false → path_le t s ≡ true
path_le_total [] t h = absurd (cc)
path_le_total (c ∷ s) [] h = refl
path_le_total (c ∷ s) (d ∷ t) h = let rest = path_le_total s t in ground arith

pub path_le_trans : (s t u : Text) → path_le s t ≡ true → path_le t u ≡ true → path_le s u ≡ true
path_le_trans [] t u h k = refl
path_le_trans (c ∷ s) [] u h k = absurd (cc)
path_le_trans (c ∷ s) (d ∷ t) [] h k = absurd (cc)
path_le_trans (c ∷ s) (d ∷ t) (e ∷ u) h k = let rest = path_le_trans s t u in ground arith
