-- ===== src/Server/Introspection.antt =====
-- server/depth.go: `noIntrospection` and `introspects`.
pub mod Reach
pub mod Memo
pub mod Total
pub mod Exact
use luima.Prelude.{
  ℕ, zero, suc, Bool, true, false, ◌||◌, List, [], ◌∷◌, Option, none, some, Text, codes, text_eq,
  has, length, if◌then◌else◌, ◌>>=◌,
}
use luima.Luimaerr.Errors.{GqlError}
use luima.Server.Query.{
  Selection, field, inline_fragment, fragment_spread, SelectionSet, nil, cons, Fragments, for_name,
}
use luima.Server.Depth.{limit_error}

-- The end of a walk: stopped for want of fuel, a match, or none, with the map of the fragments seen.
-- A match returns at once through every loop, so the map no longer matters.
pub data Scan : Type 0 where
  stopped found : Scan
  clean : List Text → Scan

abbrev pub continue : Scan → (List Text → Scan) → Scan
continue stopped k = stopped
continue found k = found
continue (clean seen) k = k seen

unfoldable pub is_introspection : Text → Bool
is_introspection name = text_eq name (codes "__schema") || text_eq name (codes "__type")

abbrev pub Walk : Type 0
Walk = List Text → SelectionSet → Scan

-- `case *ast.FragmentSpread`: `seen` is marked on entry and never cleared.
unfoldable pub scan_spread : Walk → Fragments → List Text → Text → Scan
scan_spread expand frags seen name =
    let walk = elim (for_name frags name) as (λ _. Scan) [
      | none ↦ clean (name ∷ seen)
      | some set ↦ expand (name ∷ seen) set
    ] in
    if has seen name then clean seen else walk

unfoldable mutual
  pub scan_one : Walk → Fragments → List Text → Selection → Scan
  scan_one expand frags seen (field name set) =
      let walk = scan_set expand frags seen set in if is_introspection name then found else walk
  scan_one expand frags seen (inline_fragment set) = scan_set expand frags seen set
  scan_one expand frags seen (fragment_spread name) = scan_spread expand frags seen name

  -- The loop over the selections.
  pub scan_set : Walk → Fragments → List Text → SelectionSet → Scan
  scan_set expand frags seen nil = clean seen
  scan_set expand frags seen (cons s rest) =
      continue (scan_one expand frags seen s) (λ seen'. scan_set expand frags seen' rest)

-- The walk, through at most `fuel` spreads inside one another.
unfoldable pub scan_walk : ℕ → Fragments → Walk
scan_walk zero frags seen set = stopped
scan_walk (suc fuel) frags seen set = scan_set (scan_walk fuel frags) frags seen set

abbrev pub verdict : Scan → Option Bool
verdict stopped = none
verdict found = some true
verdict (clean _) = some false

-- `introspects`, from an empty map.
unfoldable pub introspects : Fragments → SelectionSet → Option Bool
unfolding scan_walk scan_set scan_spread
introspects frags set = verdict (scan_walk (suc (length frags)) frags [] set)

unfoldable pub introspection_error : GqlError
introspection_error =
    limit_error (codes "introspection is disabled") (codes "INTROSPECTION_DISABLED")

-- `noIntrospection.MutateOperationContext`; the inner `none` lets the operation run.
unfoldable pub no_introspection : Fragments → SelectionSet → Option (Option GqlError)
no_introspection frags operation = do
  hit ← introspects frags operation
  some (if hit then some introspection_error else none)
