-- ===== src/Luimagen/Source/Closed.antt =====
-- luimagen/gen.go: the document that `sdl` prints of a table that `tableFromFields` made has types that it
-- declares, and fields with names of their own.
use luima.Prelude.{
  ℕ, Bool, true, false, List, [], ◌∷◌, ◌++◌, map, ◌≡◌, refl, ◌≢◌, ap, inl, inr, arith, Text, codes,
  length, length-append, All, All-map, All-imp, AllPairs, Bool-cases,
}
use luima.Luimagen.Names.{lower_first}
use luima.Luimagen.Checks.{ok}
use luima.Luimagen.Table.{Field, Column, ModelTable, table_from_fields}
use luima.Luimagen.Table.Accepted.{table_from_fields_iff}
use luima.Luimagen.Table.Keyed.{Differ, IsMapped, table-IsMapped, table-Differ}
use luima.Luimagen.Graphql.{
  Definition, object, input_object, IsInputType, IsOutputType, IsFieldOf, IsTyped, print_document,
}
use luima.Luimagen.Source.{sdl}
use luima.Luimagen.Source.Typed.{
  type_of, field_of_column, type_definition, input_definition, query_definition,
  mutation_definition, key_of, input_of, document_of, sdl-print,
}

fields-Differ :
    (cols : List Column)
    → AllPairs Differ cols
    → AllPairs (λ f g. f.name ≢ g.name) (map field_of_column cols)
fields-Differ [] h = tt
fields-Differ (c ∷ cols) (h, k) =
    (All-map (λ f. lower_first c.field ≢ f.name) field_of_column cols h, fields-Differ cols k)

plural-ne : (name : Text) → name ≢ name ++ codes "s"
unfolding codes
plural-ne name e =
    let a = ap length e in let b = length-append name (codes "s") in absurd (omega arith)

abbrev first : Text → ℕ
first [] = 0
first (c ∷ s) = c

create-ne-update : (name : Text) → codes "create" ++ name ≢ codes "update" ++ name
unfolding codes
create-ne-update name h = let e : ◌≡◌ {A = ℕ} b'c' b'u' = ap first h in absurd (omega arith)

create-ne-delete : (name : Text) → codes "create" ++ name ≢ codes "delete" ++ name
unfolding codes
create-ne-delete name h = let e : ◌≡◌ {A = ℕ} b'c' b'd' = ap first h in absurd (omega arith)

update-ne-delete : (name : Text) → codes "update" ++ name ≢ codes "delete" ++ name
unfolding codes
update-ne-delete name h = let e : ◌≡◌ {A = ℕ} b'u' b'd' = ap first h in absurd (omega arith)

module _ (t : ModelTable) (mapped : All IsMapped (t.pk ∷ t.cols))
    (differ : AllPairs Differ (t.pk ∷ t.cols)) (query mutation : Bool) where
  abbrev doc : List Definition
  doc = document_of t query mutation

  column-Input : (c : Column) → IsMapped c → IsInputType doc (type_of c)
  column-Input c h = elim (Bool-cases c.array) [ inl e ↦ rw e (inl h) | inr e ↦ rw e (inl h) ]

  column-Output : (c : Column) → IsMapped c → IsOutputType doc (type_of c)
  column-Output c h = elim (Bool-cases c.array) [ inl e ↦ rw e (inl h) | inr e ↦ rw e (inl h) ]

  type-IsTyped : IsTyped doc (type_definition t)
  type-IsTyped = record {
    distinct = (
      All-map (λ f. lower_first t.pk.field ≢ f.name) field_of_column t.cols (differ.0),
      fields-Differ t.cols (differ.1),
    );
    fields_typed = (
      (tt, inl (mapped.0)),
      All-map (IsFieldOf doc object) field_of_column t.cols
          (All-imp (λ c (h : IsMapped c). (tt, column-Output c h)) t.cols (mapped.1)),
    );
  }

  input-IsTyped : IsTyped doc (input_definition t)
  input-IsTyped = record {
    distinct = fields-Differ t.cols (differ.1);
    fields_typed =
        All-map (IsFieldOf doc input_object) field_of_column t.cols
          (All-imp (λ c (h : IsMapped c). (refl, column-Input c h)) t.cols (mapped.1));
  }

  query-IsTyped : (declare : Bool) → IsTyped doc (query_definition t declare)
  query-IsTyped true = record {
    distinct = ((plural-ne (lower_first t.type_name), tt), (tt, tt));
    fields_typed =
        (((inl (mapped.0), tt), inr (inl (refl, refl))), ((tt, inr (inl (refl, refl))), tt));
  }
  query-IsTyped false = record {
    distinct = ((plural-ne (lower_first t.type_name), tt), (tt, tt));
    fields_typed =
        (((inl (mapped.0), tt), inr (inl (refl, refl))), ((tt, inr (inl (refl, refl))), tt));
  }

  key_and_input : IsInputType doc (key_of t).type × (IsInputType doc (input_of t).type × Unit {0})
  key_and_input = (inl (mapped.0), (inr (inr (inl (refl, refl))), tt))

  mutation-IsTyped : (declare : Bool) → IsTyped doc (mutation_definition t declare)
  mutation-IsTyped true = record {
    distinct = (
      (create-ne-update t.type_name, (create-ne-delete t.type_name, tt)),
      ((update-ne-delete t.type_name, tt), (tt, tt)),
    );
    fields_typed = (
      (key_and_input, inr (inl (refl, refl))),
      (
        (key_and_input, inr (inl (refl, refl))),
        (((inl (mapped.0), tt), inl (inr (inr (inr refl)))), tt),
      ),
    );
  }
  mutation-IsTyped false = record {
    distinct = (
      (create-ne-update t.type_name, (create-ne-delete t.type_name, tt)),
      ((update-ne-delete t.type_name, tt), (tt, tt)),
    );
    fields_typed = (
      (key_and_input, inr (inl (refl, refl))),
      (
        (key_and_input, inr (inl (refl, refl))),
        (((inl (mapped.0), tt), inl (inr (inr (inr refl)))), tt),
      ),
    );
  }

  document-IsTyped : All (IsTyped doc) doc
  document-IsTyped =
      (type-IsTyped, (input-IsTyped, (query-IsTyped query, (mutation-IsTyped mutation, tt))))

module _ (wide_letter wide_digit prints : ℕ → Bool) where
  -- For a table that tableFromFields made, the text of sdl is a document of the GraphQL schema language: the
  -- type, its input, and its operations, where each field of a definition has a name of its own, each argument
  -- and field of an input is of a built-in scalar or an input that the document declares, and each field
  -- of an object is of a built-in scalar or an object that it declares, lists of these included.
  pub sdl-IsTyped :
      (type_name : Text) (fs : List Field) (t : ModelTable) (query mutation : Bool)
      → table_from_fields wide_letter wide_digit prints type_name fs ≡ ok t
      → (sdl t query mutation ≡ print_document (document_of t query mutation))
        × All (IsTyped (document_of t query mutation)) (document_of t query mutation)
  sdl-IsTyped type_name fs t query mutation h =
      let (cs, table) = (table_from_fields_iff wide_letter wide_digit prints type_name fs t).0 h in
      (
        sdl-print t query mutation,
        document-IsTyped t
            (table-IsMapped prints fs cs t table.columns table.one_key table.other_columns)
            (table-Differ prints fs cs t table.columns table.one_key table.other_columns
              table.distinct_gql)
            query mutation,
      )
