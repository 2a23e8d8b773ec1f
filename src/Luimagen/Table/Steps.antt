-- ===== src/Luimagen/Table/Steps.antt =====
-- luimagen/gen.go: one round of the loop of `tableFromFields`.
use luima.Prelude.{
  ℕ, Bool, true, false, not, [], ◌∷◌, ◌++◌, Option, none, some, ◌≡◌, refl, arith, Text, text_eq,
  text_eq_iff, Bool-cases, inl, inr, if◌then◌else◌,
}
use luima.Luimagen.Names.{lower_first}
use luima.Luimagen.Checks.{
  Checked, ok, Failure, ◌>>◌, >>=-eq-ok, refuse_if, refuse_if-eq-ok, array_key, two_keys,
  same_column, same_field,
}
use luima.Luimagen.Table.{
  Field, Column, Builder, user_of, refuse_dup, place, field_column, add_field,
}
use luima.Luimagen.Table.Columns.{IsColumnOf, field_column_iff}

-- What a round of the loop leaves for the field `f` of column `c`.
abbrev pub after : Field → Column → Builder → Builder
after f c b = record {
  seen_col = (c.sql, f.name) ∷ b.seen_col;
  seen_gql = (lower_first f.name, f.name) ∷ b.seen_gql;
  pk = if f.pk then c else b.pk;
  cols = if f.pk then b.cols else b.cols ++ c ∷ [];
}

abbrev pub placed : Field → Column → Builder → Builder
placed f c b = record b {
  pk = if f.pk then c else b.pk;
  cols = if f.pk then b.cols else b.cols ++ c ∷ [];
}

-- A primary key is a scalar, and the first.
abbrev pub IsPlaceable : Field → Column → Builder → Type 0
IsPlaceable f c b = f.pk ≡ true → (c.array ≡ false) × (b.pk.field ≡ [])

refuse_dup-eq-ok {ℓ} :
    {B : Type ℓ} (o : Option Text) (e : Text → Failure) (m : Checked B) (x : B)
    → (refuse_dup o e >> m) ≡ ok x
    → (o ≡ none) × (m ≡ ok x)
refuse_dup-eq-ok none e m x h = (refl, h)
refuse_dup-eq-ok (some prev) e m x h = absurd (cc)

place_of_ok :
    (type_name : Text) (f : Field) (c : Column) (b b' : Builder)
    → place type_name f c b ≡ ok b'
    → IsPlaceable f c b × (b' ≡ placed f c b)
unfolding place
place_of_ok type_name f c b b' h = elim (Bool-cases f.pk) [
  | inl key ↦
      let m : Checked Builder =
        refuse_if (not (text_eq b.pk.field [])) (two_keys type_name b.pk.field f.name)
        >> ok (record b { pk = c }) in
      let h' : (refuse_if c.array (array_key type_name f.name f.go_type) >> m) ≡ ok b' = cc in
      let (scalar, h1) = refuse_if-eq-ok c.array (array_key type_name f.name f.go_type) m b' h' in
      let (first, h2) =
        refuse_if-eq-ok (not (text_eq b.pk.field [])) _ (ok (record b { pk = c })) b' h1 in
      ((λ _. (scalar, (text_eq_iff b.pk.field []).0 (ground arith))), rw key (cc))
  | inr plain ↦ (λ k. absurd (cc), rw plain (cc))
]

ok_of_place :
    (type_name : Text) (f : Field) (c : Column) (b : Builder)
    → IsPlaceable f c b
    → place type_name f c b ≡ ok (placed f c b)
unfolding place
ok_of_place type_name f c b h = elim (Bool-cases f.pk) [
  | inl key ↦
      let (scalar, first) = h key in
      let unset = (text_eq_iff b.pk.field []).1 first in rw (key, scalar, unset) refl
  | inr plain ↦ rw plain refl
]

-- What a round asks of a field: its own rules, names not in use, and a primary key that can be one.
abbrev pub IsAddable : (ℕ → Bool) → Field → Column → Builder → Type 0
IsAddable prints f c b =
    IsColumnOf prints f c
    × (user_of b.seen_col c.sql ≡ none)
    × (user_of b.seen_gql (lower_first f.name) ≡ none)
    × IsPlaceable f c b

module _ (wide_letter wide_digit prints : ℕ → Bool) (type_name : Text) where
  pub IsAddable-of_ok :
      (f : Field) (b b' : Builder)
      → add_field wide_letter wide_digit prints type_name f b ≡ ok b'
      → (c : Column) × IsAddable prints f c b × (b' ≡ after f c b)
  unfolding add_field
  IsAddable-of_ok f b b' h =
      let dup_col : Column → Text → Failure = λ c prev. same_column prev f.name c.sql in
      let dup_gql : Text → Failure = λ prev. same_field prev f.name (lower_first f.name) in
      let last : Column → Checked Builder = λ c. place type_name f c (record b {
        seen_col = (c.sql, f.name) ∷ b.seen_col;
        seen_gql = (lower_first f.name, f.name) ∷ b.seen_gql;
      }) in
      let gql : Column → Checked Builder =
        λ c. refuse_dup (user_of b.seen_gql (lower_first f.name)) dup_gql >> last c in
      let (c, col, h1) =
        >>=-eq-ok (field_column wide_letter wide_digit prints f)
          (λ c. refuse_dup (user_of b.seen_col c.sql) (dup_col c) >> gql c) b' h in
      let (new_col, h2) = refuse_dup-eq-ok (user_of b.seen_col c.sql) (dup_col c) (gql c) b' h1 in
      let (new_gql, h3) =
        refuse_dup-eq-ok (user_of b.seen_gql (lower_first f.name)) dup_gql (last c) b' h2 in
      let (placeable, e) = place_of_ok type_name f c _ b' h3 in
      (
        c,
        ((field_column_iff wide_letter wide_digit prints f c).0 col, new_col, new_gql, placeable),
        e,
      )

  pub ok_of_addable :
      (f : Field) (c : Column) (b : Builder)
      → IsAddable prints f c b
      → add_field wide_letter wide_digit prints type_name f b ≡ ok (after f c b)
  unfolding add_field
  ok_of_addable f c b (col, new_col, new_gql, placeable) =
      let made = (field_column_iff wide_letter wide_digit prints f c).1 col in
      rw (made, new_col, new_gql) (ok_of_place type_name f c _ placeable)
