-- ===== src/Luimagen/Names/Lower.antt =====
-- `lowerFirst` changes the case of a name and nothing else, so that gqlgen's case-insensitive match of
-- the names finds them again.
use luima.Prelude.{
  ℕ, true, [], ◌∷◌, ◌++◌, map, ◌≡◌, refl, ap, arith, ◌∙◌, Text, codes, text_eq, text_eq_iff,
  Bool-cases, inl, inr,
}
use mathlib.Core.List.{append_assoc, map-append}
use luima.Luimagen.Runes.{to_lower, fold, equal_fold, has_suffix, drop_last}
use luima.Luimagen.Names.{lower_head, fold_id, lower_first}

fold-to_lower : (c : ℕ) → fold (to_lower c) ≡ fold c
unfolding fold
fold-to_lower c = ground arith

-- A text that ends in "ID".
has_suffix-append :
    (s : Text) → has_suffix s (codes "ID") ≡ true → (p : Text) × (s ≡ p ++ codes "ID")
unfolding has_suffix
has_suffix-append [] h = ([], (text_eq_iff [] (codes "ID")).0 h)
has_suffix-append (c ∷ s) h = elim (Bool-cases (text_eq (c ∷ s) (codes "ID"))) [
  | inl whole ↦ ([], (text_eq_iff (c ∷ s) (codes "ID")).0 whole)
  | inr longer ↦ let (p, e) = has_suffix-append s (ground arith) in (c ∷ p, ap (◌∷◌ c) e)
]

drop_last-concat : (p : Text) (c d : ℕ) → drop_last (p ++ c ∷ d ∷ []) ≡ p ++ c ∷ []
unfolding drop_last
drop_last-concat [] c d = refl
drop_last-concat (x ∷ []) c d = refl
drop_last-concat (x ∷ (y ∷ p)) c d = ap (◌∷◌ x) (drop_last-concat (y ∷ p) c d)

map-fold-fold_id : (s : Text) → map fold (fold_id s) ≡ map fold s
unfolding fold_id fold codes
map-fold-fold_id s = elim (Bool-cases (has_suffix s (codes "ID"))) [
  | inr plain ↦ rw plain
  | inl suffix ↦
      let (p, e) = has_suffix-append s suffix in
      rw (suffix, e, drop_last-concat p b'I' b'D') (simp (append_assoc, map-append))
]

map-fold-lower_head : (s : Text) → map fold (lower_head s) ≡ map fold s
map-fold-lower_head [] = refl
map-fold-lower_head (c ∷ s) = rw (fold-to_lower c)

-- Whatever the name, the GraphQL name that is derived from it differs from it in case only, as
-- strings.EqualFold compares.
pub equal_fold-lower_first : (name : Text) → equal_fold (lower_first name) name ≡ true
unfolding equal_fold lower_first
equal_fold-lower_first name =
    (text_eq_iff _ _).1 (map-fold-lower_head (fold_id name) ∙ map-fold-fold_id name)
