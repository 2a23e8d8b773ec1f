-- ===== src/Server/Depth.antt =====
-- server/depth.go: `maxDepth` and `selectionDepth`.
pub mod Relation
pub mod Total
pub mod Exact
pub mod Limit
use luima.Prelude.{
  ℕ, zero, suc, List, [], ◌∷◌, ◌++◌, Option, none, some, Text, codes, has, length, ltb, leb, itoa,
  if◌then◌else◌, ◌>>=◌,
}
use luima.Luimaerr.Errors.{GqlError, string}
use luima.Server.Query.{
  Selection, field, inline_fragment, fragment_spread, SelectionSet, nil, cons, Fragments, for_name,
}

-- A walk of the document: the spreads on the stack, the selections, and the depth, or `none` where
-- the walk was stopped. `visiting` is the map of the source: what a spread adds to it is taken out
-- when its walk returns, so each call leaves the map as it found it, and the map is passed on by
-- value.
abbrev pub Walk : Type 0
Walk = List Text → SelectionSet → Option ℕ

module _ (expand : Walk) (frags : Fragments) (visiting : List Text) where
  -- `case *ast.FragmentSpread`, up to its recursive call, which is `expand`. Both `continue`s leave
  -- the depth as it is, as a branch of depth 0 does.
  unfoldable pub spread_depth : Text → Option ℕ
  spread_depth name =
      let walk = elim (for_name frags name) as (λ _. Option ℕ) [
        | none ↦ some 0
        | some set ↦ expand (name ∷ visiting) set
      ] in
      if has visiting name then some 0 else walk

unfoldable mutual
  -- The switch on one selection.
  pub branch_depth : Walk → Fragments → List Text → Selection → Option ℕ
  branch_depth expand frags visiting (field name set) = do
    d ← set_depth expand frags visiting 0 set
    some (suc d)
  branch_depth expand frags visiting (inline_fragment set) = set_depth expand frags visiting 0 set
  branch_depth expand frags visiting (fragment_spread name) =
      spread_depth expand frags visiting name

  -- The loop over the selections; the number is the source's `depth`.
  pub set_depth : Walk → Fragments → List Text → ℕ → SelectionSet → Option ℕ
  set_depth expand frags visiting depth nil = some depth
  set_depth expand frags visiting depth (cons s rest) = do
    d ← branch_depth expand frags visiting s
    set_depth expand frags visiting (if ltb depth d then d else depth) rest

-- `selectionDepth`, on a stack of spreads of at most `fuel`.
unfoldable pub depth_walk : ℕ → Fragments → Walk
depth_walk zero frags visiting set = none
depth_walk (suc fuel) frags visiting set = set_depth (depth_walk fuel frags) frags visiting 0 set

-- One level for the operation, and one for each fragment that may be on the stack.
unfoldable pub selection_depth : Fragments → SelectionSet → Option ℕ
selection_depth frags set = depth_walk (suc (length frags)) frags [] set

-- `gqlerror.Errorf`, with the code in its extensions.
unfoldable pub limit_error : Text → Text → GqlError
limit_error message code = record {
  message = message;
  path = [];
  locations = [];
  extensions = (codes "code", string code) ∷ [];
}

unfoldable pub depth_error : ℕ → ℕ → GqlError
depth_error d limit =
    limit_error
      (codes "operation has depth "
        ++ (itoa d ++ (codes ", which exceeds the limit of " ++ itoa limit)))
      (codes "DEPTH_LIMIT_EXCEEDED")

-- `maxDepth.MutateOperationContext`; the inner `none` lets the operation run.
unfoldable pub max_depth : ℕ → Fragments → SelectionSet → Option (Option GqlError)
max_depth limit frags operation = do
  d ← selection_depth frags operation
  some (if leb d limit then none else some (depth_error d limit))
