-- ===== src/Luimagen/Table.antt =====
-- luimagen/luimagen.go: `Field`; luimagen/gen.go: `column`, `modelTable` and `tableFromFields`.
pub mod Columns
pub mod Steps
pub mod Rows
pub mod Accepted
pub mod Keyed
use luima.Prelude.{
  ℕ, Bool, true, false, not, List, [], ◌∷◌, ◌++◌, Option, none, some, Text, codes, text_eq,
  if◌then◌else◌,
}
use luima.Luimagen.Names.{snake_case, lower_first}
use luima.Luimagen.Checks.{
  Checked, ok, failed, Failure, in_field, taken, same_column, same_field, array_key, two_keys,
  no_key, only_key, ◌>>=◌, ◌>>◌, refuse_if, check_ident, check_tag, scalar_type,
}

pub record Field : Type 0 where
  pub name : Text
  pub go_type : Text
  pub pk : Bool
  pub column : Text

pub record Column : Type 0 where
  pub field : Text
  pub go_type : Text
  pub sql : Text
  pub gql : Text
  pub array : Bool

pub record ModelTable : Type 0 where
  pub type_name : Text
  pub pk : Column
  pub cols : List Column

-- What the loop over the fields has built: the maps from the names in use to the fields that use them,
-- the primary key, of an empty field name until there is one, and the other columns.
pub record Builder : Type 0 where
  pub seen_col : List (Text × Text)
  pub seen_gql : List (Text × Text)
  pub pk : Column
  pub cols : List Column

abbrev pub no_column : Column
no_column = record { field = []; go_type = []; sql = []; gql = []; array = false }

abbrev pub new_builder : Builder
new_builder = record { seen_col = []; seen_gql = []; pk = no_column; cols = [] }

-- `prev, dup := seen[name]`.
unfoldable pub user_of : List (Text × Text) → Text → Option Text
user_of [] name = none
user_of ((n, user) ∷ seen) name = if text_eq n name then some user else user_of seen name

abbrev pub refuse_dup : Option Text → (Text → Failure) → Checked (Unit {0})
refuse_dup none e = ok tt
refuse_dup (some prev) e = failed (e prev)

-- `fmt.Errorf("field %s: %w", …)` around an error.
abbrev pub about_field {ℓ} : {A : Type ℓ} → Text → Checked A → Checked A
about_field name (ok a) = ok a
about_field name (failed e) = failed (in_field name e)

-- `cmp.Or(f.Column, snakeCase(f.Name))`.
unfoldable pub column_name : Field → Text
column_name f = if text_eq f.column [] then snake_case f.name else f.column

-- The last part of the loop's body: the primary key, or one column more.
unfoldable pub place : Text → Field → Column → Builder → Checked Builder
place type_name f c b =
    if f.pk
    then (do
      refuse_if c.array (array_key type_name f.name f.go_type)
      refuse_if (not (text_eq b.pk.field [])) (two_keys type_name b.pk.field f.name)
      ok (record b { pk = c }))
    else ok (record b { cols = b.cols ++ c ∷ [] })

abbrev pub has_no_columns : List Column → Bool
has_no_columns [] = true
has_no_columns _ = false

module _ (wide_letter wide_digit prints : ℕ → Bool) where
  -- The first part of the loop's body, which looks at one field alone.
  unfoldable pub field_column : Field → Checked Column
  field_column f = do
    check_ident wide_letter wide_digit f.name
    refuse_if (text_eq f.name (codes "BaseModel")) (taken f.name)
    (gql, array) ← about_field f.name (scalar_type f.go_type)
    about_field f.name (check_tag prints (column_name f))
    ok (record {
      field = f.name;
      go_type = f.go_type;
      sql = column_name f;
      gql = gql;
      array = array;
    })

  -- The loop's body.
  unfoldable pub add_field : Text → Field → Builder → Checked Builder
  add_field type_name f b = do
    c ← field_column f
    refuse_dup (user_of b.seen_col c.sql) (λ prev. same_column prev f.name c.sql)
    refuse_dup (user_of b.seen_gql (lower_first f.name))
        (λ prev. same_field prev f.name (lower_first f.name))
    place type_name f c (record b {
      seen_col = (c.sql, f.name) ∷ b.seen_col;
      seen_gql = (lower_first f.name, f.name) ∷ b.seen_gql;
    })

  unfoldable pub add_fields : Text → List Field → Builder → Checked Builder
  add_fields type_name [] b = ok b
  add_fields type_name (f ∷ fs) b = do b' ← add_field type_name f b; add_fields type_name fs b'

  -- `tableFromFields`.
  unfoldable pub table_from_fields : Text → List Field → Checked ModelTable
  table_from_fields type_name fields = do
    check_ident wide_letter wide_digit type_name
    b ← add_fields type_name fields new_builder
    refuse_if (text_eq b.pk.field []) (no_key type_name)
    refuse_if (has_no_columns b.cols) (only_key type_name)
    ok (record { type_name = type_name; pk = b.pk; cols = b.cols })
