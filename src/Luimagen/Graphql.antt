-- ===== src/Luimagen/Graphql.antt =====
-- The type definitions of the GraphQL schema language, and how the fragments of luimagen/gen.go spell them:
-- what the text of `sdl` is measured against.
use luima.Prelude.{List, [], ◌∷◌, ◌++◌, map, ◌≡◌, ◌⊎◌, Text, codes, join, All, AllPairs, ◌≢◌}

pub data GqlType : Type 0 where
  named : Text → GqlType
  list_of non_null : GqlType → GqlType

pub record Argument : Type 0 where
  pub name : Text
  pub type : GqlType

pub record FieldDefinition : Type 0 where
  pub name : Text
  pub arguments : List Argument
  pub type : GqlType

pub data Kind : Type 0 where
  object object_extension input_object : Kind

pub record Definition : Type 0 where
  pub kind : Kind
  pub name : Text
  pub fields : List FieldDefinition

abbrev pub print_type : GqlType → Text
print_type (named n) = n
print_type (list_of t) = codes "[" ++ (print_type t ++ codes "]")
print_type (non_null t) = print_type t ++ codes "!"

abbrev pub print_argument : Argument → Text
print_argument a = a.name ++ (codes ": " ++ print_type a.type)

abbrev pub print_arguments : List Argument → Text
print_arguments [] = []
print_arguments (a ∷ args) =
    codes "(" ++ (join (codes ", ") (map print_argument (a ∷ args)) ++ codes ")")

abbrev pub print_field : FieldDefinition → Text
print_field f =
    codes "  "
    ++ (f.name
        ++ (print_arguments f.arguments ++ (codes ": " ++ (print_type f.type ++ codes "\n"))))

abbrev pub print_fields : List FieldDefinition → Text
print_fields [] = []
print_fields (f ∷ fields) = print_field f ++ print_fields fields

abbrev pub print_kind : Kind → Text
print_kind object = codes "type"
print_kind object_extension = codes "extend type"
print_kind input_object = codes "input"

abbrev pub print_definition : Definition → Text
print_definition d =
    print_kind d.kind
    ++ (codes " " ++ (d.name ++ (codes " {\n" ++ (print_fields d.fields ++ codes "}\n"))))

-- The definitions, with a line between any two.
abbrev pub print_document : List Definition → Text
print_document defs = join (codes "\n") (map print_definition defs)

abbrev pub base_of : GqlType → Text
base_of (named n) = n
base_of (list_of t) = base_of t
base_of (non_null t) = base_of t

abbrev pub IsBuiltIn : Text → Type 0
IsBuiltIn n =
    (n ≡ codes "String") ⊎ ((n ≡ codes "Int") ⊎ ((n ≡ codes "Float") ⊎ (n ≡ codes "Boolean")))

-- A definition of that kind declares the name.
abbrev pub Declares : List Definition → Kind → Text → Type 0
Declares [] kind n = ⊥
Declares (d ∷ defs) kind n = ((d.kind ≡ kind) × (d.name ≡ n)) ⊎ Declares defs kind n

-- What an argument or a field of an input may be, and what a field of an object may be.
abbrev pub IsInputType : List Definition → GqlType → Type 0
IsInputType defs t = IsBuiltIn (base_of t) ⊎ Declares defs input_object (base_of t)

abbrev pub IsOutputType : List Definition → GqlType → Type 0
IsOutputType defs t = IsBuiltIn (base_of t) ⊎ Declares defs object (base_of t)

abbrev pub IsFieldOf : List Definition → Kind → FieldDefinition → Type 0
IsFieldOf defs input_object f = (f.arguments ≡ []) × IsInputType defs f.type
IsFieldOf defs _ f = All (λ a. IsInputType defs a.type) f.arguments × IsOutputType defs f.type

-- Each field of a definition has a name of its own, and types that the document declares, of the right kind.
pub record IsTyped (defs : List Definition) (d : Definition) : Type 0 where
  pub distinct : AllPairs (λ f g. f.name ≢ g.name) d.fields
  pub fields_typed : All (IsFieldOf defs d.kind) d.fields
