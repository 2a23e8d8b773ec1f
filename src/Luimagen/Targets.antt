-- ===== src/Luimagen/Targets.antt =====
-- luimagen/patch.go: `target` and `targets`, the five methods and what fills each.
use luima.Prelude.{
  ℕ, Bool, List, [], ◌∷◌, ◌++◌, map, Option, none, some, Text, codes, text_eq, join, if◌then◌else◌,
}
use luima.Luimagen.Runes.{to_lower}
use luima.Luimagen.Quote.{quote}
use luima.Luimagen.Table.{Column, ModelTable}

-- `body` is given as many names as `arity` says.
pub record Target : Type 0 where
  pub recv : Text
  pub name : Text
  pub arity : ℕ
  pub body : List Text → Text

-- `strings.ToLower`, of ASCII names.
unfoldable pub lower : Text → Text
lower s = map to_lower s

-- `inputFields[key]`: the last entry of a key counts.
unfoldable pub field_of : List (Text × Text) → Text → Option Text
field_of [] key = none
field_of ((k, name) ∷ fields) key = elim (field_of fields key) [
  | some later ↦ some later
  | none ↦ if text_eq k key then some name else none
]

-- `inputField`.
unfoldable pub input_field : List (Text × Text) → Text → Text
input_field fields name = elim (field_of fields (lower name)) [ some got ↦ got | none ↦ name ]

-- `p[0]` and `p[1]`.
abbrev pub first : List Text → Text
first [] = []
first (p ∷ ps) = p

abbrev pub second : List Text → Text
second [] = []
second (p ∷ ps) = first ps

-- The texts, one after the other.
abbrev pub concat : List Text → Text
concat [] = []
concat (t ∷ ts) = t ++ concat ts

-- `assignments`.
unfoldable pub assignments : List (Text × Text) → List Column → Text → Text
assignments fields cols input = join (codes ", ") (
    map
      (λ c.
        concat (c.field ∷ (codes ": " ∷ (input ∷ (codes "." ∷ (input_field fields c.field ∷ []))))))
      cols)

module _ (prints : ℕ → Bool) where
  -- `label`.
  unfoldable pub label : ModelTable → Text → Text
  label t key =
      if text_eq t.pk.go_type (codes "string")
      then concat (quote prints (lower t.type_name ++ codes " ") ∷ (codes "+" ∷ (key ∷ [])))
      else concat (
          codes "fmt.Sprintf("
          ∷ (quote prints (lower t.type_name ++ codes " %v")
              ∷ (codes ", " ∷ (key ∷ (codes ")" ∷ [])))))

  abbrev pub key_literal : ModelTable → Text → Text → Text
  key_literal t model_pkg key = concat (
      model_pkg
      ∷ (codes "." ∷ (t.type_name ∷ (codes "{" ∷ (t.pk.field ∷ (codes ": " ∷ (key ∷ [])))))))

  unfoldable pub get_body : ModelTable → Text → List Text → Text
  get_body t model_pkg p = concat (
      codes "return luima.Get(ctx, r.DB, &"
      ∷ (key_literal t model_pkg (first p) ∷ (codes "})" ∷ [])))

  unfoldable pub list_body : ModelTable → Text → List Text → Text
  list_body t model_pkg p = concat (
      codes
        "// Capped at 100 rows: luima ships no pagination, so this bounds an\n\t// otherwise unbounded query. Raise or drop the Limit to suit the table.\n\treturn luima.List["
      ∷ (model_pkg
          ∷ (codes "."
              ∷ (t.type_name
                  ∷ (codes
                        "](ctx, r.DB, func(q *bun.SelectQuery) *bun.SelectQuery {\n\t\treturn q.Order("
                      ∷ (quote prints t.pk.sql ∷ (codes ").Limit(100)\n\t})" ∷ [])))))))

  -- The bodies of Create and Update, which differ in the helper that they call.
  unfoldable pub write_body : Text → ModelTable → Text → List (Text × Text) → List Text → Text
  write_body helper t model_pkg fields p = concat (
      codes "return luima."
      ∷ (helper
          ∷ (codes "(ctx, r.DB, &"
              ∷ (key_literal t model_pkg (first p)
                  ∷ (codes ", "
                      ∷ (assignments fields t.cols (second p)
                          ∷ (codes "}, " ∷ (label t (first p) ∷ (codes ")" ∷ [])))))))))

  unfoldable pub delete_body : ModelTable → Text → List Text → Text
  delete_body t model_pkg p = concat (
      codes "return luima.Delete(ctx, r.DB, &"
      ∷ (key_literal t model_pkg (first p) ∷ (codes "})" ∷ [])))

  -- `targets`.
  unfoldable pub targets : ModelTable → Text → List (Text × Text) → List Target
  targets t model_pkg fields =
      record {
        recv = codes "queryResolver";
        name = t.type_name;
        arity = 1;
        body = get_body t model_pkg;
      }
      ∷ (record {
        recv = codes "queryResolver";
        name = t.type_name ++ codes "s";
        arity = 0;
        body = list_body t model_pkg;
      }
          ∷ (record {
            recv = codes "mutationResolver";
            name = codes "Create" ++ t.type_name;
            arity = 2;
            body = write_body (codes "Create") t model_pkg fields;
          }
              ∷ (record {
                recv = codes "mutationResolver";
                name = codes "Update" ++ t.type_name;
                arity = 2;
                body = write_body (codes "Update") t model_pkg fields;
              }
                  ∷ (record {
                    recv = codes "mutationResolver";
                    name = codes "Delete" ++ t.type_name;
                    arity = 1;
                    body = delete_body t model_pkg;
                  }
                      ∷ []))))
