-- ===== src/Luimagen/Source/Typed.antt =====
-- luimagen/gen.go: the text of `sdl`, as a document of the GraphQL schema language whose types are declared.
use luima.Prelude.{
  Bool, true, false, List, [], ◌∷◌, ◌++◌, map, ◌≡◌, refl, Text, codes, join, Bool-cases, inl, inr,
  if◌then◌else◌,
}
use mathlib.Core.List.{append_assoc, append-nil}
use luima.Luimagen.Names.{lower_first}
use luima.Luimagen.Table.{Column, ModelTable}
use luima.Luimagen.Graphql.{
  GqlType, named, list_of, non_null, Argument, FieldDefinition, Kind, object, object_extension,
  input_object, Definition, print_type, print_fields, print_definition, print_document,
}
use luima.Luimagen.Source.{
  gql_field_type, sdl_fields, sdl_type, sdl_input, sdl_query, sdl_mutation, sdl,
}

-- The GraphQL type of a Go type: a scalar, or a list of that scalar with no null in it.
abbrev pub type_of : Column → GqlType
type_of c = if c.array then non_null (list_of (non_null (named c.gql))) else non_null (named c.gql)

abbrev pub plain_field : Text → GqlType → FieldDefinition
plain_field name type = record { name = name; arguments = []; type = type }

abbrev pub field_of_column : Column → FieldDefinition
field_of_column c = plain_field (lower_first c.field) (type_of c)

abbrev pub object_or_extension : Bool → Kind
object_or_extension declare = if declare then object else object_extension

module _ (t : ModelTable) where
  abbrev pub row_type : GqlType
  row_type = named t.type_name

  abbrev pub input_name : Text
  input_name = t.type_name ++ codes "Input"

  abbrev pub key_of : Argument
  key_of = record { name = lower_first t.pk.field; type = non_null (named t.pk.gql) }

  abbrev pub input_of : Argument
  input_of = record { name = codes "input"; type = non_null (named input_name) }

  -- The document of a table: the type, its input, and its operations.
  abbrev pub type_definition : Definition
  type_definition = record {
    kind = object;
    name = t.type_name;
    fields =
        plain_field (lower_first t.pk.field) (non_null (named t.pk.gql))
        ∷ map field_of_column t.cols;
  }

  abbrev pub input_definition : Definition
  input_definition = record {
    kind = input_object;
    name = input_name;
    fields = map field_of_column t.cols;
  }

  abbrev pub query_definition : Bool → Definition
  query_definition declare = record {
    kind = object_or_extension declare;
    name = codes "Query";
    fields =
        record { name = lower_first t.type_name; arguments = key_of ∷ []; type = row_type }
        ∷ (plain_field (lower_first t.type_name ++ codes "s")
              (non_null (list_of (non_null row_type)))
            ∷ []);
  }

  abbrev pub mutation_definition : Bool → Definition
  mutation_definition declare = record {
    kind = object_or_extension declare;
    name = codes "Mutation";
    fields =
        record {
          name = codes "create" ++ t.type_name;
          arguments = key_of ∷ (input_of ∷ []);
          type = non_null row_type;
        }
        ∷ (record {
          name = codes "update" ++ t.type_name;
          arguments = key_of ∷ (input_of ∷ []);
          type = non_null row_type;
        }
            ∷ (record {
              name = codes "delete" ++ t.type_name;
              arguments = key_of ∷ [];
              type = non_null (named (codes "Boolean"));
            }
                ∷ []));
  }

  abbrev pub document_of : Bool → Bool → List Definition
  document_of query mutation =
      type_definition
      ∷ (input_definition ∷ (query_definition query ∷ (mutation_definition mutation ∷ [])))

print_type-type_of : (c : Column) → gql_field_type c ≡ print_type (type_of c)
unfolding gql_field_type codes
print_type-type_of c = elim (Bool-cases c.array) [ inl e ↦ rw e (simp append_assoc) | inr e ↦ rw e ]

sdl_fields-print : (cols : List Column) → sdl_fields cols ≡ print_fields (map field_of_column cols)
unfolding sdl_fields codes
sdl_fields-print [] = refl
sdl_fields-print (c ∷ cols) =
    simp (append_assoc, append-nil, print_type-type_of c, sdl_fields-print cols)

sdl_type-print : (t : ModelTable) → sdl_type t ≡ print_definition (type_definition t) ++ codes "\n"
unfolding sdl_type codes
sdl_type-print t = simp (append_assoc, append-nil, sdl_fields-print t.cols)

sdl_input-print :
    (t : ModelTable) → sdl_input t ≡ print_definition (input_definition t) ++ codes "\n"
unfolding sdl_input codes
sdl_input-print t = simp (append_assoc, append-nil, sdl_fields-print t.cols)

sdl_query-print :
    (t : ModelTable) (declare : Bool)
    → sdl_query t declare ≡ print_definition (query_definition t declare) ++ codes "\n"
unfolding sdl_query codes join
sdl_query-print t true = simp (append_assoc, append-nil)
sdl_query-print t false = simp (append_assoc, append-nil)

sdl_mutation-print :
    (t : ModelTable) (declare : Bool)
    → sdl_mutation t declare ≡ print_definition (mutation_definition t declare)
unfolding sdl_mutation codes join
sdl_mutation-print t true = simp (append_assoc, append-nil)
sdl_mutation-print t false = simp (append_assoc, append-nil)

pub sdl-print :
    (t : ModelTable) (query mutation : Bool)
    → sdl t query mutation ≡ print_document (document_of t query mutation)
unfolding sdl codes join
sdl-print t query mutation =
    rw (sdl_type-print t, sdl_input-print t, sdl_query-print t query, sdl_mutation-print t mutation)
      (simp append_assoc)
