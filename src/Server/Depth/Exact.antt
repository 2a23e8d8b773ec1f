-- ===== src/Server/Depth/Exact.antt =====
-- The number that `selectionDepth` returns is the depth of the document.
use luima.Prelude.{
  ℕ, zero, suc, ◌<◌, ◌≤◌, List, [], ◌∷◌, some, ◌≡◌, true, false, arith, Text, text_eq, text_eq_iff,
  has, length, if◌then◌else◌, Bool-cases, inl, inr, ltb, >>=-eq-some, sym, ◌∙◌,
}
use luima.Server.Query.{
  Selection, field, inline_fragment, fragment_spread, SelectionSet, nil, cons, Fragments, for_name,
  AllSpreads, AllSpreadsOf, IsAcyclic,
}
use luima.Server.Depth.{Walk, spread_depth, branch_depth, set_depth, depth_walk, selection_depth}
use luima.Server.Depth.Relation.{Nests, no_level, at_head, in_rest, NestsOf, level, within, spread}

set_depth-ge :
    (expand : Walk) (frags : Fragments) (visiting : List Text) (depth : ℕ) (set : SelectionSet)
    {d : ℕ}
    → set_depth expand frags visiting depth set ≡ some d
    → depth ≤ d
unfolding set_depth
set_depth-ge expand frags visiting depth nil e = ground arith
set_depth-ge expand frags visiting depth (cons s rest) e =
    let (d, _, e') = >>=-eq-some (branch_depth expand frags visiting s) _ e in
    let le = set_depth-ge expand frags visiting (if ltb depth d then d else depth) rest e' in
    ground arith

-- What a spread that is not on the stack answers.
spread_depth-fresh :
    (expand : Walk) (frags : Fragments) (visiting : List Text) (name : Text) (set : SelectionSet)
    → has visiting name ≡ false
    → for_name frags name ≡ some set
    → spread_depth expand frags visiting name ≡ expand (name ∷ visiting) set
unfolding spread_depth
spread_depth-fresh expand frags visiting name set fresh defined = rw (fresh, defined, spread_depth)

out_of_fuel :
    (frags : Fragments) (visiting : List Text) (name : Text) (set : SelectionSet) (d : ℕ)
    → has visiting name ≡ false
    → for_name frags name ≡ some set
    → spread_depth (depth_walk zero frags) frags visiting name ≡ some d
    → ⊥
unfolding depth_walk
out_of_fuel frags visiting name set d fresh defined e =
    cc (spread_depth-fresh (depth_walk zero frags) frags visiting name set fresh defined)

enter :
    (frags : Fragments) (fuel : ℕ) (visiting : List Text) (name : Text) (set : SelectionSet) (d : ℕ)
    → has visiting name ≡ false
    → for_name frags name ≡ some set
    → spread_depth (depth_walk (suc fuel) frags) frags visiting name ≡ some d
    → set_depth (depth_walk fuel frags) frags (name ∷ visiting) 0 set ≡ some d
unfolding depth_walk
enter frags fuel visiting name set d fresh defined e =
    sym (spread_depth-fresh (depth_walk (suc fuel) frags) frags visiting name set fresh defined) ∙ e

module _ (frags : Fragments) (acyclic : IsAcyclic frags) where
  open acyclic use {rank, falls}

  -- Every fragment on the stack has a rank above that of the spread.
  abbrev Below : List Text → Text → Type 0
  Below visiting name = (v : Text) → has visiting v ≡ true → rank name < rank v

  Below-fresh :
      (visiting : List Text) (name : Text) → Below visiting name → has visiting name ≡ false
  Below-fresh visiting name b = elim (Bool-cases (has visiting name)) [
    | inl seen ↦ absurd (omega (arith, b name seen))
    | inr fresh ↦ fresh
  ]

  Below-cons :
      (visiting : List Text) (name other : Text)
      → Below visiting name
      → rank other < rank name
      → Below (name ∷ visiting) other
  unfolding has
  Below-cons visiting name other b h v e = elim (Bool-cases (text_eq name v)) [
    | inl same ↦ rw ((text_eq_iff name v).0 same) at h
    | inr differs ↦ omega (arith, b v (ground arith))
  ]

  mutual
    AllSpreads-map :
        (P Q : Text → Type 0)
        → ((name : Text) → P name → Q name)
        → (set : SelectionSet) → AllSpreads P set
        → AllSpreads Q set
    AllSpreads-map P Q f nil h = tt
    AllSpreads-map P Q f (cons s rest) (h, k) = (of_map P Q f s h, AllSpreads-map P Q f rest k)

    of_map :
        (P Q : Text → Type 0)
        → ((name : Text) → P name → Q name)
        → (s : Selection) → AllSpreadsOf P s
        → AllSpreadsOf Q s
    of_map P Q f (field name set) h = AllSpreads-map P Q f set h
    of_map P Q f (inline_fragment set) h = AllSpreads-map P Q f set h
    of_map P Q f (fragment_spread name) h = f name h

  entered :
      (visiting : List Text) (name : Text) (set : SelectionSet)
      → Below visiting name
      → for_name frags name ≡ some set
      → AllSpreads (Below (name ∷ visiting)) set
  entered visiting name set b defined =
      AllSpreads-map _ _ (λ other h. Below-cons visiting name other b h) set
        (falls name set defined)

  mutual
    unfolding set_depth branch_depth

    covers :
        (fuel : ℕ) (visiting : List Text) (depth : ℕ) {set : SelectionSet} {n : ℕ} (d : ℕ)
        → Nests frags set n
        → AllSpreads (Below visiting) set
        → set_depth (depth_walk fuel frags) frags visiting depth set ≡ some d
        → n ≤ d
    covers fuel visiting depth d no_level b e = omega arith
    covers fuel visiting depth d (at_head {s} {rest} h) (b, _) e =
        let (d', e', r) = >>=-eq-some (branch_depth (depth_walk fuel frags) frags visiting s) _ e in
        let n-le = covers_of fuel visiting d' h b e' in
        let d'-le = set_depth-ge _ frags visiting (if ltb depth d' then d' else depth) rest r in
        ground arith
    covers fuel visiting depth d (in_rest {s} h) (_, b) e =
        let (d', _, r) = >>=-eq-some (branch_depth (depth_walk fuel frags) frags visiting s) _ e in
        covers fuel visiting (if ltb depth d' then d' else depth) d h b r

    covers_of :
        (fuel : ℕ) (visiting : List Text) {s : Selection} {n : ℕ} (d : ℕ)
        → NestsOf frags s n
        → AllSpreadsOf (Below visiting) s
        → branch_depth (depth_walk fuel frags) frags visiting s ≡ some d
        → n ≤ d
    covers_of fuel visiting d (level {set} h) b e =
        let (d', e', r) =
          >>=-eq-some (set_depth (depth_walk fuel frags) frags visiting 0 set) _ e in
        let n-le = covers fuel visiting 0 d' h b e' in ground arith
    covers_of fuel visiting d (within h) b e = covers fuel visiting 0 d h b e
    covers_of zero visiting d (spread {name} {set} defined h) b e =
        absurd (out_of_fuel frags visiting name set d (Below-fresh visiting name b) defined e)
    covers_of (suc fuel) visiting d (spread {name} {set} defined h) b e =
        covers fuel (name ∷ visiting) 0 d h (entered visiting name set b defined)
          (enter frags fuel visiting name set d (Below-fresh visiting name b) defined e)

mutual
  AllSpreads-intro :
      (P : Text → Type 0) → ((name : Text) → P name) → (set : SelectionSet) → AllSpreads P set
  AllSpreads-intro P f nil = tt
  AllSpreads-intro P f (cons s rest) = (of-intro P f s, AllSpreads-intro P f rest)

  of-intro : (P : Text → Type 0) → ((name : Text) → P name) → (s : Selection) → AllSpreadsOf P s
  of-intro P f (field name set) = AllSpreads-intro P f set
  of-intro P f (inline_fragment set) = AllSpreads-intro P f set
  of-intro P f (fragment_spread name) = f name

-- In a document with no fragment cycle nothing nests deeper than the walk says.
pub selection_depth_bounds :
    (frags : Fragments) (set : SelectionSet) (d n : ℕ)
    → IsAcyclic frags
    → selection_depth frags set ≡ some d
    → Nests frags set n
    → n ≤ d
unfolding selection_depth depth_walk has
selection_depth_bounds frags set d n acyclic e h =
    covers frags acyclic (length frags) [] 0 d h
      (AllSpreads-intro _ (λ name v seen. absurd (cc)) set) e
