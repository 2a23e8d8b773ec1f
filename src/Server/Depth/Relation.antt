-- ===== src/Server/Depth/Relation.antt =====
-- What it means for a document to nest so deep, without a walk: fields inside fields, where an inline
-- fragment and a spread stand for the selections that they hold.
use luima.Prelude.{ℕ, suc, ◌≡◌, some, Text}
use luima.Server.Query.{
  Selection, field, inline_fragment, fragment_spread, SelectionSet, cons, Fragments, for_name,
}

mutual
  pub data Nests (frags : Fragments) : SelectionSet → ℕ → Type 0 where
    no_level : {set : SelectionSet} → Nests frags set 0
    at_head :
        {s : Selection} {rest : SelectionSet} {n : ℕ}
        → NestsOf frags s n
        → Nests frags (cons s rest) n
    in_rest :
        {s : Selection} {rest : SelectionSet} {n : ℕ}
        → Nests frags rest n
        → Nests frags (cons s rest) n

  pub data NestsOf (frags : Fragments) : Selection → ℕ → Type 0 where
    level :
        {name : Text} {set : SelectionSet} {n : ℕ}
        → Nests frags set n
        → NestsOf frags (field name set) (suc n)
    within :
        {set : SelectionSet} {n : ℕ} → Nests frags set n → NestsOf frags (inline_fragment set) n
    spread :
        {name : Text} {set : SelectionSet} {n : ℕ}
        → for_name frags name ≡ some set
        → Nests frags set n
        → NestsOf frags (fragment_spread name) n
