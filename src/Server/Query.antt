-- ===== src/Server/Query.antt =====
-- The part of gqlparser's document that server/depth.go walks: selection sets, and the fragment
-- definitions of the document, found by name.
use luima.Prelude.{ℕ, ◌<◌, List, [], ◌∷◌, ◌≡◌, Option, none, some, Text, text_eq, if◌then◌else◌}

mutual
  pub data Selection : Type 0 where
    field : Text → SelectionSet → Selection
    inline_fragment : SelectionSet → Selection
    fragment_spread : Text → Selection

  pub data SelectionSet : Type 0 where
    nil : SelectionSet
    cons : Selection → SelectionSet → SelectionSet

abbrev pub Fragments : Type 0
Fragments = List (Text × SelectionSet)

-- `FragmentDefinitionList.ForName`: the first definition of that name.
unfoldable pub for_name : Fragments → Text → Option SelectionSet
for_name [] k = none
for_name ((name, set) ∷ rest) k = if text_eq name k then some set else for_name rest k

-- Every spread that stands in the set itself, at any depth, satisfies `P`.
abbrev mutual
  pub AllSpreads : (Text → Type 0) → SelectionSet → Type 0
  AllSpreads P nil = Unit
  AllSpreads P (cons s rest) = AllSpreadsOf P s × AllSpreads P rest

  pub AllSpreadsOf : (Text → Type 0) → Selection → Type 0
  AllSpreadsOf P (field name set) = AllSpreads P set
  AllSpreadsOf P (inline_fragment set) = AllSpreads P set
  AllSpreadsOf P (fragment_spread name) = P name

-- What gqlparser's rule NoFragmentCycles ensures: the fragments can be ranked so that each one
-- spreads only fragments of a lower rank.
pub record IsAcyclic (frags : Fragments) : Type 0 where
  pub rank : Text → ℕ
  pub falls :
      (name : Text) (set : SelectionSet)
      → for_name frags name ≡ some set
      → AllSpreads (λ other. rank other < rank name) set
