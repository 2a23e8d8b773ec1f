-- ===== src/Luimagen/Table/Accepted.antt =====
-- luimagen/gen.go: the tables that `tableFromFields` makes.
use luima.Prelude.{
  ℕ, Bool, false, List, [], ◌∷◌, ◌≡◌, refl, ◌≢◌, ◌↔◌, ap, sym, ◌∙◌, subst, Text, text_eq,
  text_eq-false_iff, All, Bool-cases, inl, inr,
}
use luima.Luimagen.Checks.{
  Checked, ok, ◌>>=◌, ◌>>◌, >>=-eq-ok, refuse_if, refuse_if-eq-ok, no_key, only_key, check_ident,
}
use luima.Luimagen.Checks.Ident.{IsFieldName, check_ident_iff}
use luima.Luimagen.Table.{
  Field, Column, ModelTable, Builder, no_column, new_builder, has_no_columns, user_of, add_fields,
  table_from_fields,
}
use luima.Luimagen.Table.Rows.{
  AreColumnsOf, keys, others, Distinct, sql_names, gql_names, AreNew, Key, AreAddable,
  AreAddable-of_fields, fields_of_addable,
}

-- `t` is the table of the fields, whose columns are `cs`: no two columns share a SQL name or a GraphQL
-- name, one is a primary key, and a scalar, and there are others.
pub record IsTableOf (prints : ℕ → Bool) (type_name : Text) (fs : List Field) (cs : List Column)
    (t : ModelTable) : Type 0 where
  pub valid_type : IsFieldName type_name
  pub same_type : t.type_name ≡ type_name
  pub columns : AreColumnsOf prints fs cs
  pub distinct_sql : Distinct (sql_names cs)
  pub distinct_gql : Distinct (gql_names cs)
  pub one_key : keys fs cs ≡ t.pk ∷ []
  pub scalar_key : t.pk.array ≡ false
  pub other_columns : t.cols ≡ others fs cs
  pub some_column : t.cols ≢ []

field_name_not_nil : (name : Text) → IsFieldName name → name ≢ []
field_name_not_nil [] h e = h
field_name_not_nil (c ∷ s) h e = cc

abbrev IsNamed : Column → Type 0
IsNamed c = c.field ≢ []

keys-IsNamed :
    (prints : ℕ → Bool) (fs : List Field) (cs : List Column)
    → AreColumnsOf prints fs cs
    → All IsNamed (keys fs cs)
keys-IsNamed prints [] [] h = tt
keys-IsNamed prints [] (c ∷ cs) h = absurd h
keys-IsNamed prints (f ∷ fs) [] h = absurd h
keys-IsNamed prints (f ∷ fs) (c ∷ cs) (h, hs) =
    let named : IsNamed c = λ e. field_name_not_nil f.name h.valid_name (sym h.same_field ∙ e) in
    let more = keys-IsNamed prints fs cs hs in
    elim (Bool-cases f.pk) [ inl key ↦ rw key (named, more) | inr plain ↦ rw plain more ]

Key-one :
    (ks : List Column) (q : Column)
    → All IsNamed ks
    → q.field ≢ []
    → Key no_column ks q
    → (ks ≡ q ∷ []) × (q.array ≡ false)
Key-one [] q named n h = absurd (n (ap (λ c. c.field) h))
Key-one (k ∷ []) q named n (scalar, _, same) =
    (ap (λ c. c ∷ []) (sym same), ap (λ c. c.array) same ∙ scalar)
Key-one (k ∷ (l ∷ ks)) q named n (_, _, (_, unset, _)) = absurd (named.0 unset)

has_no_columns_iff : (cs : List Column) → (has_no_columns cs ≡ false) ↔ (cs ≢ [])
has_no_columns_iff [] = ((λ h. absurd (cc)), λ n. absurd (n refl))
has_no_columns_iff (c ∷ cs) = ((λ h e. cc), λ n. refl)

module _ (wide_letter wide_digit prints : ℕ → Bool) where
  IsTableOf-ok :
      (type_name : Text) (fs : List Field) (t : ModelTable)
      → table_from_fields wide_letter wide_digit prints type_name fs ≡ ok t
      → (cs : List Column) × IsTableOf prints type_name fs cs t
  unfolding table_from_fields
  IsTableOf-ok type_name fs t h =
      let made : Builder → Checked ModelTable =
        λ b. ok (record { type_name = type_name; pk = b.pk; cols = b.cols }) in
      let nonempty : Builder → Checked ModelTable =
        λ b. refuse_if (has_no_columns b.cols) (only_key type_name) >> made b in
      let keyed : Builder → Checked ModelTable =
        λ b. refuse_if (text_eq b.pk.field []) (no_key type_name) >> nonempty b in
      let looped = add_fields wide_letter wide_digit prints type_name fs new_builder in
      let (_, named, h1) =
        >>=-eq-ok (check_ident wide_letter wide_digit type_name) (λ _. looped >>= keyed) t h in
      let (b, added, h2) = >>=-eq-ok looped keyed t h1 in
      let (has_key, h3) =
        refuse_if-eq-ok (text_eq b.pk.field []) (no_key type_name) (nonempty b) t h2 in
      let (has_cols, h4) =
        refuse_if-eq-ok (has_no_columns b.cols) (only_key type_name) (made b) t h3 in
      let same : record { type_name = type_name; pk = b.pk; cols = b.cols } ≡ t = cc in
      let (cs, addable, cols) =
        AreAddable-of_fields wide_letter wide_digit prints type_name fs new_builder b added in
      let (one, scalar) =
        Key-one (keys fs cs) b.pk (keys-IsNamed prints fs cs addable.columns)
          ((text_eq-false_iff b.pk.field []).0 has_key) addable.one_key in
      (
        cs,
        subst (λ t. IsTableOf prints type_name fs cs t) same
            (record {
              valid_type = (check_ident_iff wide_letter wide_digit type_name).0 named;
              same_type = refl;
              columns = addable.columns;
              distinct_sql = addable.distinct_sql;
              distinct_gql = addable.distinct_gql;
              one_key = one;
              scalar_key = scalar;
              other_columns = cols;
              some_column = (has_no_columns_iff b.cols).0 has_cols;
            }),
      )

  new_all : (names : List Text) → AreNew [] names
  unfolding user_of
  new_all [] = tt
  new_all (x ∷ xs) = (refl, new_all xs)

  ok_of_table :
      (type_name : Text) (fs : List Field) (cs : List Column) (t : ModelTable)
      → IsTableOf prints type_name fs cs t
      → table_from_fields wide_letter wide_digit prints type_name fs ≡ ok t
  unfolding table_from_fields
  ok_of_table type_name fs cs t h =
      let addable : AreAddable prints fs cs new_builder t.pk = record {
        columns = h.columns;
        distinct_sql = h.distinct_sql;
        distinct_gql = h.distinct_gql;
        new_sql = new_all (sql_names cs);
        new_gql = new_all (gql_names cs);
        one_key = subst (λ ks. Key no_column ks t.pk) (sym h.one_key) (h.scalar_key, refl, refl);
      } in
      let named = subst (λ ks. All IsNamed ks) h.one_key (keys-IsNamed prints fs cs h.columns) in
      let (b, added, key, cols) =
        fields_of_addable wide_letter wide_digit prints type_name fs cs new_builder t.pk addable in
      let has_key : text_eq b.pk.field [] ≡ false =
        (text_eq-false_iff b.pk.field []).1 (λ e. named.0 (ap (λ c. c.field) (sym key) ∙ e)) in
      let all_cols : b.cols ≡ t.cols = cols ∙ sym h.other_columns in
      let has_cols : has_no_columns b.cols ≡ false =
        (has_no_columns_iff b.cols).1 (λ e. h.some_column (sym all_cols ∙ e)) in
      rw
        (
          (check_ident_iff wide_letter wide_digit type_name).1 h.valid_type,
          added,
          has_key,
          has_cols,
        )
        (λ i. ok (record { type_name = sym h.same_type i; pk = key i; cols = all_cols i }))

  -- `tableFromFields` makes the table `t` exactly where the type and every field follow the rules, the
  -- names of the columns are distinct, one field is a primary key, of a scalar type, and another is
  -- not; `t` then holds the key and the other columns, in the order of the fields.
  pub table_from_fields_iff :
      (type_name : Text) (fs : List Field) (t : ModelTable)
      → (table_from_fields wide_letter wide_digit prints type_name fs ≡ ok t)
        ↔ ((cs : List Column) × IsTableOf prints type_name fs cs t)
  table_from_fields_iff type_name fs t =
      (IsTableOf-ok type_name fs t, λ h. ok_of_table type_name fs h.0 t h.1)
