-- ===== src/Luimagen/Table/Columns.antt =====
-- luimagen/gen.go: the column that `tableFromFields` makes of one field.
use luima.Prelude.{
  ℕ, Bool, false, ◌≡◌, refl, ◌≢◌, ◌↔◌, sym, subst, Text, codes, text_eq, text_eq-false_iff, All,
}
use luima.Luimagen.Checks.{
  Checked, ok, failed, taken, ◌>>=◌, ◌>>◌, refuse_if, >>=-eq-ok, refuse_if-eq-ok, check_ident,
  check_tag, scalar_type,
}
use luima.Luimagen.Checks.Ident.{IsFieldName, check_ident_iff}
use luima.Luimagen.Checks.Tag.{IsTagRune, check_tag_iff}
use luima.Luimagen.Checks.Scalar.{IsTypeOf, scalar_type_iff}
use luima.Luimagen.Table.{Field, Column, about_field, column_name, field_column}

-- `c` is the column of the field `f`: the names hold, the type is one that gqlgen maps, and every part
-- of the column is the field's.
pub record IsColumnOf (prints : ℕ → Bool) (f : Field) (c : Column) : Type 0 where
  pub valid_name : IsFieldName f.name
  pub not_taken : f.name ≢ codes "BaseModel"
  pub valid_tag : All (IsTagRune prints) c.sql
  pub mapped : IsTypeOf f.go_type c.gql c.array
  pub same_field : c.field ≡ f.name
  pub same_type : c.go_type ≡ f.go_type
  pub same_sql : c.sql ≡ column_name f

about_field-eq-ok {ℓ} :
    {A : Type ℓ} (name : Text) (m : Checked A) (a : A) → about_field name m ≡ ok a → m ≡ ok a
about_field-eq-ok name (ok a) b h = h
about_field-eq-ok name (failed e) b h = absurd (cc)

module _ (wide_letter wide_digit prints : ℕ → Bool) where
  abbrev made_column : Field → Text → Bool → Column
  made_column f gql array = record {
    field = f.name;
    go_type = f.go_type;
    sql = column_name f;
    gql = gql;
    array = array;
  }

  abbrev tagged_column : Field → Text → Bool → Checked Column
  tagged_column f gql array =
      about_field f.name (check_tag prints (column_name f)) >> ok (made_column f gql array)

  IsColumnOf-tagged :
      (f : Field) (gql : Text) (array : Bool) (c : Column)
      → IsFieldName f.name
      → f.name ≢ codes "BaseModel"
      → IsTypeOf f.go_type gql array
      → tagged_column f gql array ≡ ok c
      → IsColumnOf prints f c
  IsColumnOf-tagged f gql array c named free typed h =
      let (v, tagged, made) =
        >>=-eq-ok (about_field f.name (check_tag prints (column_name f)))
          (λ _. ok (made_column f gql array)) c h in
      let same : made_column f gql array ≡ c = cc in
      let tag =
        (check_tag_iff prints (column_name f)).0
          (about_field-eq-ok f.name (check_tag prints (column_name f)) tt tagged) in
      subst (λ c. IsColumnOf prints f c) same
        (record {
          valid_name = named;
          not_taken = free;
          valid_tag = tag;
          mapped = typed;
          same_field = refl;
          same_type = refl;
          same_sql = refl;
        })

  IsColumnOf-ok :
      (f : Field) (c : Column)
      → field_column wide_letter wide_digit prints f ≡ ok c
      → IsColumnOf prints f c
  unfolding field_column
  IsColumnOf-ok f c h =
      let typed_column =
        about_field f.name (scalar_type f.go_type) >>= λ t. tagged_column f t.0 t.1 in
      let (u, named, h1) =
        >>=-eq-ok (check_ident wide_letter wide_digit f.name)
          (λ _. refuse_if (text_eq f.name (codes "BaseModel")) (taken f.name) >> typed_column) c
          h in
      let (free, h2) =
        refuse_if-eq-ok (text_eq f.name (codes "BaseModel")) (taken f.name) typed_column c h1 in
      let (t, typed, h3) =
        >>=-eq-ok (about_field f.name (scalar_type f.go_type)) (λ t. tagged_column f t.0 t.1) c
          h2 in
      IsColumnOf-tagged f t.0 t.1 c ((check_ident_iff wide_letter wide_digit f.name).0 named)
        ((text_eq-false_iff f.name (codes "BaseModel")).0 free)
        ((scalar_type_iff f.go_type t.0 t.1).0
          (about_field-eq-ok f.name (scalar_type f.go_type) t typed))
        h3

  ok_of_column :
      (f : Field) (c : Column)
      → IsColumnOf prints f c
      → field_column wide_letter wide_digit prints f ≡ ok c
  unfolding field_column
  ok_of_column f c h =
      let named = (check_ident_iff wide_letter wide_digit f.name).1 h.valid_name in
      let typed = (scalar_type_iff f.go_type c.gql c.array).1 h.mapped in
      let tagged =
        (check_tag_iff prints (column_name f)).1
          (subst (λ t. All (IsTagRune prints) t) h.same_sql h.valid_tag) in
      let free : text_eq f.name (codes "BaseModel") ≡ false =
        (text_eq-false_iff f.name (codes "BaseModel")).1 h.not_taken in
      rw (named, free, typed, tagged)
        (λ i. ok (record c {
          field = sym h.same_field i;
          go_type = sym h.same_type i;
          sql = sym h.same_sql i;
        }))

  -- One field is accepted exactly where its names hold and its type is mapped, and its column is then
  -- made of its parts.
  pub field_column_iff :
      (f : Field) (c : Column)
      → (field_column wide_letter wide_digit prints f ≡ ok c) ↔ IsColumnOf prints f c
  field_column_iff f c = (IsColumnOf-ok f c, ok_of_column f c)
