-- ===== src/Luimaerr/Context.antt =====
-- luimaerr/errors.go: `answeredAt`, over what gqlgen's request context says.
use luima.Prelude.{
  Bool, false, List, [], ◌∷◌, Option, none, some, Text, text_eq, has, ltb, ◌==◌, if◌then◌else◌,
}
use luima.Luimaerr.Errors.{PathElement, path_name, path_index, Location, GoError, gql}

-- The `*ast.Field` of a field context: the names of its arguments, and its position if it has one.
pub record AstField : Type 0 where
  pub arguments : List Text
  pub position : Option Location

-- What `graphql.GetPath` and `graphql.GetFieldContext` answer for a request context: the path, and
-- the field context, if there is one, with its `*ast.Field`, if that is not nil.
pub record Context : Type 0 where
  pub path : List PathElement
  pub field : Option (Option AstField)

unfoldable pub element_eq : PathElement → PathElement → Bool
element_eq (path_name s) (path_name t) = text_eq s t
element_eq (path_index i) (path_index j) = i == j
element_eq _ _ = false

-- `len(p) >= len(path) && slices.Equal(p[:len(path)], path)`, and then `p[len(path):]`.
unfoldable pub rest_after : List PathElement → List PathElement → Option (List PathElement)
rest_after [] p = some p
rest_after (x ∷ path) [] = none
rest_after (x ∷ path) (y ∷ p) = if element_eq y x then rest_after path p else none

-- The path and the locations of an error that is a `*gqlerror.Error` itself, and not by wrapping.
unfoldable pub recorded : GoError → Option (List PathElement × List Location)
recorded (gql ge _) = some (ge.path, ge.locations)
recorded _ = none

-- `if pos := fc.Field.Position; pos != nil && pos.Line > 0`.
unfoldable pub own_location : AstField → List Location
own_location f = elim f.position [ none ↦ [] | some pos ↦ if ltb 0 pos.line then pos ∷ [] else [] ]

-- Whether the first element past the context's path names an argument of the field.
unfoldable pub names_argument : List Text → List PathElement → Bool
names_argument args (path_name s ∷ _) = has args s
names_argument args _ = false

-- While a field resolves: `fc.Field.Field` is not nil.
pub field_path : AstField → List PathElement → GoError → List PathElement
field_path f path err = elim (recorded err) [
  | none ↦ path
  | some (p, _) ↦ elim (rest_after path p) [
    | none ↦ path
    | some more ↦ if names_argument f.arguments more then p else path
  ]
]

-- Before any field runs: `fc == nil`.
pub request_path : List PathElement → GoError → List PathElement × List Location
request_path path err = elim (recorded err) [
  | none ↦ (path, [])
  | some (p, ls) ↦ elim (rest_after path p) [ none ↦ (path, []) | some _ ↦ (p, ls) ]
]

-- `answeredAt`.
unfoldable pub answered_at : Context → GoError → List PathElement × List Location
unfolding request_path field_path
answered_at ctx err = elim ctx.field [
  | none ↦ request_path ctx.path err
  | some none ↦ (ctx.path, [])
  | some (some f) ↦ (field_path f ctx.path err, own_location f)
]
