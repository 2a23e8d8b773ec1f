-- ===== src/Luimagen/Source.antt =====
-- luimagen/gen.go: the texts that `sdl` and `modelSource` build, the latter before go/format.
pub mod Typed
pub mod Closed
use luima.Prelude.{ℕ, Bool, List, [], ◌∷◌, ◌++◌, Text, codes, if◌then◌else◌}
use luima.Luimagen.Names.{lower_first}
use luima.Luimagen.Quote.{quote}
use luima.Luimagen.Table.{Column, ModelTable}
use luima.Luimagen.Targets.{concat}

-- `gqlFieldType`.
unfoldable pub gql_field_type : Column → Text
gql_field_type c =
    if c.array then concat (codes "[" ∷ (c.gql ∷ (codes "!]!" ∷ []))) else c.gql ++ codes "!"

-- The loop over the columns, in the type and in the input.
unfoldable pub sdl_fields : List Column → Text
sdl_fields [] = []
sdl_fields (c ∷ cols) =
    concat
      (codes "  " ∷ (lower_first c.field ∷ (codes ": " ∷ (gql_field_type c ∷ (codes "\n" ∷ [])))))
    ++ sdl_fields cols

abbrev pub keyword : Bool → Text
keyword declare = if declare then codes "type" else codes "extend type"

unfoldable pub sdl_type : ModelTable → Text
sdl_type t = concat (
    codes "type "
    ∷ (t.type_name
        ∷ (codes " {\n  "
            ∷ (lower_first t.pk.field
                ∷ (codes ": "
                    ∷ (t.pk.gql ∷ (codes "!\n" ∷ (sdl_fields t.cols ∷ (codes "}\n\n" ∷ [])))))))))

unfoldable pub sdl_input : ModelTable → Text
sdl_input t = concat (
    codes "input "
    ∷ (t.type_name ∷ (codes "Input {\n" ∷ (sdl_fields t.cols ∷ (codes "}\n\n" ∷ [])))))

-- `(<pk>: <scalar>!`, the argument that names a row.
abbrev pub key_argument : ModelTable → Text
key_argument t =
    concat (codes "(" ∷ (lower_first t.pk.field ∷ (codes ": " ∷ (t.pk.gql ∷ (codes "!" ∷ [])))))

unfoldable pub sdl_query : ModelTable → Bool → Text
sdl_query t declare = concat (
    keyword declare
    ∷ (codes " Query {\n  "
        ∷ (lower_first t.type_name
            ∷ (key_argument t
                ∷ (codes "): "
                    ∷ (t.type_name
                        ∷ (codes "\n  "
                            ∷ (lower_first t.type_name
                                ∷ (codes "s: [" ∷ (t.type_name ∷ (codes "!]!\n}\n\n" ∷ [])))))))))))

-- `create<T>` and `update<T>`.
abbrev pub write_mutation : Text → ModelTable → Text
write_mutation verb t = concat (
    codes "  "
    ∷ (verb
        ∷ (t.type_name
            ∷ (key_argument t
                ∷ (codes ", input: "
                    ∷ (t.type_name ∷ (codes "Input!): " ∷ (t.type_name ∷ (codes "!\n" ∷ [])))))))))

unfoldable pub sdl_mutation : ModelTable → Bool → Text
sdl_mutation t declare = concat (
    keyword declare
    ∷ (codes " Mutation {\n"
        ∷ (write_mutation (codes "create") t
            ∷ (write_mutation (codes "update") t
                ∷ (codes "  delete"
                    ∷ (t.type_name ∷ (key_argument t ∷ (codes "): Boolean!\n}\n" ∷ []))))))))

-- `sdl`.
unfoldable pub sdl : ModelTable → Bool → Bool → Text
sdl t declare_query declare_mutation =
    sdl_type t ++ (sdl_input t ++ (sdl_query t declare_query ++ sdl_mutation t declare_mutation))

-- The comment in the generated model.
unfoldable pub model_comment : Text
model_comment =
    codes
      "//\n// @dev Three things here are load-bearing. The embedded bun.BaseModel names the table, the\n// ,pk tag is mandatory because Get, Update and Delete all call WherePK, and ,array is what\n// keeps a slice column from being encoded as JSONB that an array column rejects. Every field\n// is exported because bun and encoding/json read them by reflection, and gqlgen's generated\n// code reads them from another package.\n//\n// The table name is the one that fails quietly. bun skips every unexported field that is not\n// embedded without a word, so naming the table in a `tableName` field — the spelling other\n// Postgres mappers use — compiles, is ignored, and leaves the table as the underscored,\n// pluralized type name. Deleting the embedded line below does not break the build, only the\n// queries.\n//\n// gqlgen autobinds this type rather than regenerating it — edit it freely.\n"

-- The tag of a column: its name, and whether it is an array.
unfoldable pub column_tag : Column → Text
column_tag c = if c.array then c.sql ++ codes ",array" else c.sql

abbrev pub struct_line : Text → Text → Text → Text
struct_line field go_type tag = concat (
    codes "\t"
    ∷ (field ∷ (codes " " ∷ (go_type ∷ (codes " `bun:\"" ∷ (tag ∷ (codes "\"`\n" ∷ [])))))))

unfoldable pub struct_lines : List Column → Text
struct_lines [] = []
struct_lines (c ∷ cols) = struct_line c.field c.go_type (column_tag c) ++ struct_lines cols

module _ (prints : ℕ → Bool) where
  -- What `modelSource` hands to format.Source.
  unfoldable pub model_text : Text → ModelTable → Text → Text
  model_text pkg t table = concat (
      codes "package "
      ∷ (pkg
          ∷ (codes "\n\nimport "
              ∷ (quote prints (codes "github.com/uptrace/bun")
                  ∷ (codes "\n\n// "
                      ∷ (t.type_name
                          ∷ (codes " @notice The autobound model behind the GraphQL "
                              ∷ (t.type_name
                                  ∷ (codes " type, generated by luimagen.\n"
                                      ∷ (model_comment
                                          ∷ (codes "type "
                                              ∷ (t.type_name
                                                  ∷ (codes " struct {\n\tbun.BaseModel `bun:"
                                                      ∷ (quote prints (codes "table:" ++ table)
                                                          ∷ (codes "`\n\n"
                                                            ∷ (struct_line t.pk.field t.pk.go_type
                                                            (t.pk.sql ++ codes ",pk")
                                                            ∷ (struct_lines t.cols
                                                            ∷ (codes "}\n" ∷ []))))))))))))))))))
