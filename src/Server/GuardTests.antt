-- ===== src/Server/GuardTests.antt =====
-- server/server.go and server/depth.go: a gqlgen that runs its extensions, and an operation that a mounted
-- server runs.
use luima.Prelude.{
  ℕ, ◌≤◌, Bool, true, false, ◌&&◌, List, [], ◌∷◌, Option, none, some, ◌≡◌, refl, codes, text_eq,
  has,
}
use luima.Prelude.Int.{pos}
use luima.Luimaerr.Errors.{GqlError}
use luima.Server.Query.{field, SelectionSet, nil, cons, Fragments, IsAcyclic}
use luima.Server.Depth.{max_depth, selection_depth, depth_walk, set_depth, spread_depth}
use luima.Server.Depth.Relation.{Nests}
use luima.Server.Introspection.{
  no_introspection, introspects, scan_walk, scan_set, scan_spread, is_introspection,
}
use luima.Server.Introspection.Reach.{Selects}
use luima.Server.Mount.{
  Call, Config, use_extension, Extension, introspection_extension, no_introspection_extension,
  max_depth_extension, server_calls, default_calls, unless_negative,
}
use luima.Server.Mount.Guards.{Uses, now, later, HearsExtensions, IsLimit, server-IsGuarded}
use luima.Server.MountTests.{numbers, zero_config}

abbrev passes : Option (Option GqlError) → Bool
passes none = false
passes (some none) = true
passes (some (some e)) = false

passes-true : (o : Option (Option GqlError)) → passes o ≡ true → o ≡ some none
passes-true none h = cc
passes-true (some none) h = refl
passes-true (some (some e)) h = cc

abbrev lets : Fragments → SelectionSet → Call numbers → Bool
lets frags operation (use_extension no_introspection_extension) =
    passes (no_introspection frags operation)
lets frags operation (use_extension (max_depth_extension (pos n))) =
    passes (max_depth n frags operation)
lets frags operation _ = true

abbrev runs : List (Call numbers) → Fragments → SelectionSet → Bool
runs [] frags operation = true
runs (c ∷ calls) frags operation = lets frags operation c && runs calls frags operation

and_both : (a b : Bool) → a && b ≡ true → (a ≡ true) × (b ≡ true)
and_both true true h = (refl, refl)
and_both true false h = cc
and_both false b h = cc

Uses-lets :
    {e : Extension} {calls : List (Call numbers)} (frags : Fragments) (operation : SelectionSet)
    → Uses e calls
    → runs calls frags operation ≡ true
    → lets frags operation (use_extension e) ≡ true
Uses-lets {e} frags operation (now {calls}) h = (and_both _ _ h).0
Uses-lets frags operation (later u) h = Uses-lets frags operation u (and_both _ _ h).1

runs-HearsExtensions : HearsExtensions numbers runs
runs-HearsExtensions = record {
  no_introspection = λ calls frags operation u h. passes-true _ (Uses-lets frags operation u h);
  max_depth = λ n calls frags operation u h. passes-true _ (Uses-lets frags operation u h);
}

-- Configure turns introspection on, behind what Mount uses.
abbrev public_config : Config numbers
public_config = record zero_config {
  disable_introspection = true;
  max_depth = pos 2;
  configure = use_extension introspection_extension ∷ [];
}

abbrev users : SelectionSet
users = cons (field (codes "users") (cons (field (codes "id") nil) nil)) nil

server-IsGuarded_example :
    (true ≡ true → ¬ Selects [] users)
    × ((n : ℕ) → IsLimit (pos 2) 15 n → IsAcyclic [] → (k : ℕ) → Nests [] users k → k ≤ n)
unfolding server_calls default_calls unless_negative no_introspection introspects scan_walk scan_set
    scan_spread is_introspection max_depth selection_depth depth_walk set_depth spread_depth codes
    text_eq has
server-IsGuarded_example =
    server-IsGuarded numbers runs runs-HearsExtensions public_config [] users refl
