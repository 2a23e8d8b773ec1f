-- ===== src/Server/Introspection/Reach.antt =====
-- What it means that a document selects __schema or __type, without a walk.
use luima.Prelude.{true, ◌≡◌, some, Text}
use luima.Server.Query.{
  Selection, field, inline_fragment, fragment_spread, SelectionSet, cons, Fragments, for_name,
}
use luima.Server.Introspection.{is_introspection}

mutual
  pub data Selects (frags : Fragments) : SelectionSet → Type 0 where
    at_head :
        {s : Selection} {rest : SelectionSet} → SelectsOf frags s → Selects frags (cons s rest)
    in_rest :
        {s : Selection} {rest : SelectionSet} → Selects frags rest → Selects frags (cons s rest)

  pub data SelectsOf (frags : Fragments) : Selection → Type 0 where
    direct :
        {name : Text} {set : SelectionSet}
        → is_introspection name ≡ true
        → SelectsOf frags (field name set)
    nested :
        {name : Text} {set : SelectionSet} → Selects frags set → SelectsOf frags (field name set)
    within : {set : SelectionSet} → Selects frags set → SelectsOf frags (inline_fragment set)
    spread :
        {name : Text} {set : SelectionSet}
        → for_name frags name ≡ some set
        → Selects frags set
        → SelectsOf frags (fragment_spread name)
