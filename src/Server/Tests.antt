-- ===== src/Server/Tests.antt =====
-- Runs of the server's limits and middleware, and each of their theorems at an input.
use luima.Prelude.{
  ℕ, ◌≤◌, ◌<◌, true, false, [], ◌∷◌, none, some, ◌≡◌, refl, ◌⊎◌, ◌↔◌, inl, inr, codes, has, text_eq,
  Bool-cases, subst,
}
use luima.Server.Query.{
  field, fragment_spread, SelectionSet, nil, cons, Fragments, for_name, IsAcyclic, AllSpreads,
}
use luima.Server.Depth.{
  selection_depth, max_depth, depth_error, depth_walk, set_depth, spread_depth,
}
use luima.Server.Depth.Relation.{Nests, at_head, in_rest, level, spread, no_level}
use luima.Server.Depth.Limit.{selection_depth_exact, max_depth_iff}
use luima.Server.Introspection.{introspects, is_introspection}
use luima.Server.Introspection.Reach.{Selects}
use luima.Server.Introspection.Exact.{introspects_exact}

-- { a ...F } with fragment F { b { c } }
abbrev operation : SelectionSet
operation = cons (field (codes "a") nil) (cons (fragment_spread (codes "F")) nil)

abbrev fragments : Fragments
fragments = (codes "F", cons (field (codes "b") (cons (field (codes "c") nil) nil)) nil) ∷ []

-- fragment G { __schema ...G }, a cycle
abbrev cyclic : Fragments
cyclic =
    (codes "G", cons (fragment_spread (codes "G")) (cons (field (codes "__schema") nil) nil)) ∷ []

abbrev cyclic_operation : SelectionSet
cyclic_operation = cons (fragment_spread (codes "G")) nil

walks : Unit {0}
unfolding selection_depth depth_walk set_depth spread_depth for_name has text_eq codes max_depth
    introspects is_introspection
walks = tt

selection_depth_runs : selection_depth fragments operation ≡ some 2
unfolding walks
selection_depth_runs = refl

selection_depth-cyclic : selection_depth cyclic cyclic_operation ≡ some 1
unfolding walks
selection_depth-cyclic = refl

max_depth_runs : max_depth 1 fragments operation ≡ some (some (depth_error 2 1))
unfolding walks
max_depth_runs = refl

introspects_runs : introspects cyclic cyclic_operation ≡ some true
unfolding walks
introspects_runs = refl

introspects_not : introspects fragments operation ≡ some false
unfolding walks
introspects_not = refl

-- No fragment is spread inside the one definition.
body_of :
    (set : SelectionSet)
    → some (cons (field (codes "b") (cons (field (codes "c") nil) nil)) nil) ≡ some set
    → AllSpreads (λ other. 0 < 0) set
body_of set h =
    let same : cons (field (codes "b") (cons (field (codes "c") nil) nil)) nil ≡ set = cc in
    subst (AllSpreads (λ other. 0 < 0)) same ((tt, tt), tt)

no_spreads : IsAcyclic fragments
unfolding for_name
no_spreads = record {
  rank = λ name. 0;
  falls = λ name set h. elim (Bool-cases (text_eq (codes "F") name)) [
    | inl same ↦ body_of set (rw same at h)
    | inr other ↦ absurd (cc (rw other at h))
  ];
}

two_levels : Nests fragments operation 2
unfolding for_name text_eq codes
two_levels = in_rest (at_head (spread refl (at_head (level (at_head (level no_level))))))

selection_depth_exact_example :
    (d : ℕ) × (selection_depth fragments operation ≡ some d)
    × Nests fragments operation d
    × ((n : ℕ) → Nests fragments operation n → n ≤ d)
selection_depth_exact_example = selection_depth_exact fragments operation no_spreads

max_depth_iff_example :
    (max_depth 15 fragments operation ≡ some none)
    ↔ ((n : ℕ) → Nests fragments operation n → n ≤ 15)
max_depth_iff_example = max_depth_iff 15 fragments operation no_spreads

introspects_exact_example :
    ((introspects cyclic cyclic_operation ≡ some true) × Selects cyclic cyclic_operation)
    ⊎ ((introspects cyclic cyclic_operation ≡ some false) × ¬ Selects cyclic cyclic_operation)
introspects_exact_example = introspects_exact cyclic cyclic_operation
