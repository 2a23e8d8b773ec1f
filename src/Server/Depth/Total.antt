-- ===== src/Server/Depth/Total.antt =====
-- The walk of `selectionDepth` ends on every document, cyclic ones included: a spread on the stack is
-- never entered again, so the stack holds at most as many spreads as there are fragments.
use luima.Prelude.{
  ℕ, zero, suc, ◌+◌, ◌<◌, ◌≤◌, List, [], ◌∷◌, some, ◌≡◌, refl, true, false, arith, Text,
  text_eq_iff, has, length, if◌then◌else◌, Bool-cases, Option-cases, inl, inr, ltb,
}
use luima.Server.Query.{
  Selection, field, inline_fragment, fragment_spread, SelectionSet, nil, cons, Fragments, for_name,
}
use luima.Server.Depth.{Walk, spread_depth, branch_depth, set_depth, depth_walk, selection_depth}

-- How many of the definitions are not on the stack.
pub unvisited : Fragments → List Text → ℕ
unvisited [] visiting = 0
unvisited ((name, set) ∷ rest) visiting =
    (if has visiting name then 0 else 1) + unvisited rest visiting

pub unvisited-le-length : (frags : Fragments) (v : List Text) → unvisited frags v ≤ length frags
unfolding unvisited
unvisited-le-length [] v = omega arith
unvisited-le-length ((name, set) ∷ rest) v = ground (arith, unvisited-le-length rest v)

unvisited-cons :
    (frags : Fragments) (name : Text) (v : List Text)
    → unvisited frags (name ∷ v) ≤ unvisited frags v
unfolding unvisited has
unvisited-cons [] name v = omega arith
unvisited-cons ((other, set) ∷ rest) name v = ground (arith, unvisited-cons rest name v)

-- A larger stack leaves no more definitions.
pub unvisited_mono :
    (frags : Fragments) (v w : List Text)
    → ((x : Text) → has v x ≡ true → has w x ≡ true)
    → unvisited frags w ≤ unvisited frags v
unfolding unvisited
unvisited_mono [] v w h = omega arith
unvisited_mono ((name, set) ∷ rest) v w h =
    let le = unvisited_mono rest v w h in ground (arith, h name)

-- Entering a defined fragment that is not on the stack leaves fewer.
pub unvisited-lt :
    (frags : Fragments) (name : Text) (v : List Text) (set : SelectionSet)
    → for_name frags name ≡ some set
    → has v name ≡ false
    → unvisited frags (name ∷ v) < unvisited frags v
unfolding unvisited has for_name
unvisited-lt [] name v set d h = absurd (cc)
unvisited-lt ((other, s) ∷ rest) name v set d h = ground (
  arith,
  text_eq_iff other name,
  text_eq_iff name other,
  unvisited-cons rest name v,
  unvisited-lt rest name v set,
)

module _ (expand : Walk) (frags : Fragments) (visiting : List Text)
    (expands : (name : Text) (set : SelectionSet)
      → has visiting name ≡ false
      → for_name frags name ≡ some set
      → (d : ℕ) × (expand (name ∷ visiting) set ≡ some d)) where
  spread_depth_total : (name : Text) → (d : ℕ) × (spread_depth expand frags visiting name ≡ some d)
  unfolding spread_depth
  spread_depth_total name = elim (Bool-cases (has visiting name)) [
    | inl seen ↦ (0, rw seen)
    | inr fresh ↦ elim (Option-cases (for_name frags name)) [
      | inl undefined ↦ (0, rw (fresh, undefined, spread_depth))
      | inr (set, defined) ↦
          let (d, e) = expands name set fresh defined in (d, rw (fresh, defined, spread_depth) e)
    ]
  ]

  mutual
    unfolding set_depth branch_depth

    branch_total : (s : Selection) → (d : ℕ) × (branch_depth expand frags visiting s ≡ some d)
    branch_total (field name set) = let (d, e) = set_total 0 set in (suc d, rw e)
    branch_total (inline_fragment set) = set_total 0 set
    branch_total (fragment_spread name) = spread_depth_total name

    set_total :
        (depth : ℕ) (set : SelectionSet)
        → (d : ℕ) × (set_depth expand frags visiting depth set ≡ some d)
    set_total depth nil = (depth, refl)
    set_total depth (cons s rest) =
        let (d, e) = branch_total s in
        let (d', e') = set_total (if ltb depth d then d else depth) rest in (d', rw e e')

  pub set_depth_total :
      (set : SelectionSet) → (d : ℕ) × (set_depth expand frags visiting 0 set ≡ some d)
  set_depth_total set = set_total 0 set

depth_walk_total :
    (fuel : ℕ) (frags : Fragments) (visiting : List Text) (set : SelectionSet)
    → unvisited frags visiting < fuel
    → (d : ℕ) × (depth_walk fuel frags visiting set ≡ some d)
unfolding depth_walk
depth_walk_total zero frags visiting set h = elim h [ ]
depth_walk_total (suc fuel) frags visiting set h =
    set_depth_total (depth_walk fuel frags) frags visiting
      (λ name body fresh defined.
        depth_walk_total fuel frags (name ∷ visiting) body
          (omega (arith, unvisited-lt frags name visiting body defined fresh)))
      set

-- The fuel of `selection_depth` is enough: the walk ends on every document, cyclic ones included.
pub selection_depth_total :
    (frags : Fragments) (set : SelectionSet) → (d : ℕ) × (selection_depth frags set ≡ some d)
unfolding selection_depth
selection_depth_total frags set =
    depth_walk_total (suc (length frags)) frags [] set (omega (arith, unvisited-le-length frags []))
