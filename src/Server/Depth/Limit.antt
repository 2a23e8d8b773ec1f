-- ===== src/Server/Depth/Limit.antt =====
-- What `maxDepth` admits and what it rejects.
use luima.Prelude.{
  ℕ, zero, suc, ◌<◌, ◌≤◌, List, [], ◌∷◌, none, some, ◌≡◌, subst, false, arith, Text, has, length,
  if◌then◌else◌, Bool-cases, Option-cases, inl, inr, ltb, leb, >>=-eq-some, ◌⊎◌, ◌↔◌,
}
use luima.Server.Query.{
  Selection, field, inline_fragment, fragment_spread, SelectionSet, nil, cons, Fragments, for_name,
  IsAcyclic,
}
use luima.Server.Depth.{
  Walk, spread_depth, branch_depth, set_depth, depth_walk, selection_depth, max_depth, depth_error,
}
use luima.Server.Depth.Relation.{Nests, no_level, at_head, in_rest, NestsOf, level, within, spread}
use luima.Server.Depth.Total.{selection_depth_total}
use luima.Server.Depth.Exact.{selection_depth_bounds}

deep :
    (frags : Fragments) (set : SelectionSet) (d : ℕ)
    → (d ≡ 0) ⊎ Nests frags set d
    → Nests frags set d
deep frags set d (inl e) = rw e no_level
deep frags set d (inr h) = h

module _ (expand : Walk) (frags : Fragments) (visiting : List Text)
    (sound : (name : Text) (set : SelectionSet) (d : ℕ)
      → expand (name ∷ visiting) set ≡ some d
      → Nests frags set d) where
  spread_depth_sound :
      (name : Text) (d : ℕ)
      → spread_depth expand frags visiting name ≡ some d
      → (d ≡ 0) ⊎ NestsOf frags (fragment_spread name) d
  unfolding spread_depth
  spread_depth_sound name d e = elim (Bool-cases (has visiting name)) [
    | inl seen ↦ inl (ground arith)
    | inr fresh ↦ elim (Option-cases (for_name frags name)) [
      | inl undefined ↦ inl (ground arith)
      | inr (set, defined) ↦
          inr (spread defined (sound name set d (rw (fresh, defined, spread_depth) at e)))
    ]
  ]

  mutual
    unfolding set_depth branch_depth

    branch_sound :
        (s : Selection) (d : ℕ)
        → branch_depth expand frags visiting s ≡ some d
        → (d ≡ 0) ⊎ NestsOf frags s d
    branch_sound (field name set) d e =
        let (d', e', r) = >>=-eq-some (set_depth expand frags visiting 0 set) _ e in
        let q : suc d' ≡ d = ground arith in
        inr (
          subst (λ k. NestsOf frags (field name set) k) q
            (level (deep frags set d' (set_sound 0 set d' e'))))
    branch_sound (inline_fragment set) d e = inr (within (deep frags set d (set_sound 0 set d e)))
    branch_sound (fragment_spread name) d e = spread_depth_sound name d e

    set_sound :
        (depth : ℕ) (set : SelectionSet) (d : ℕ)
        → set_depth expand frags visiting depth set ≡ some d
        → (d ≡ depth) ⊎ Nests frags set d
    set_sound depth nil d e = inl (ground arith)
    set_sound depth (cons s rest) d e =
        let (d', e', r) = >>=-eq-some (branch_depth expand frags visiting s) _ e in
        elim (set_sound (if ltb depth d' then d' else depth) rest d r) [
          | inr deep ↦ inr (in_rest deep)
          | inl eq ↦ elim (Bool-cases (ltb depth d')) [
            | inr shallow ↦ inl (rw shallow at eq)
            | inl deeper ↦ elim (branch_sound s d' e') [
              | inl z ↦ absurd (ground arith)
              | inr n ↦ inr (at_head (rw (rw deeper at eq) n))
            ]
          ]
        ]

  pub set_depth_sound :
      (set : SelectionSet) (d : ℕ)
      → set_depth expand frags visiting 0 set ≡ some d
      → Nests frags set d
  set_depth_sound set d e = deep frags set d (set_sound 0 set d e)

depth_walk_sound :
    (fuel : ℕ) (frags : Fragments) (visiting : List Text) (set : SelectionSet) (d : ℕ)
    → depth_walk fuel frags visiting set ≡ some d
    → Nests frags set d
unfolding depth_walk
depth_walk_sound zero frags visiting set d e = absurd (cc)
depth_walk_sound (suc fuel) frags visiting set d e =
    set_depth_sound (depth_walk fuel frags) frags visiting
      (λ name body d' e'. depth_walk_sound fuel frags (name ∷ visiting) body d' e') set d e

-- The walk returns a number, and that is the depth of the document, where the document has no fragment
-- cycle: it nests so deep, and no deeper.
pub selection_depth_exact :
    (frags : Fragments) (set : SelectionSet)
    → IsAcyclic frags
    → (d : ℕ) × (selection_depth frags set ≡ some d)
      × Nests frags set d
      × ((n : ℕ) → Nests frags set n → n ≤ d)
unfolding selection_depth
selection_depth_exact frags set acyclic =
    let (d, e) = selection_depth_total frags set in
    (
      d,
      e,
      depth_walk_sound (suc (length frags)) frags [] set d e,
      λ n h. selection_depth_bounds frags set d n acyclic e h,
    )

-- The operation runs exactly when it nests no deeper than the limit, where the document has no
-- fragment cycle.
pub max_depth_iff :
    (limit : ℕ) (frags : Fragments) (operation : SelectionSet)
    → IsAcyclic frags
    → (max_depth limit frags operation ≡ some none)
      ↔ ((n : ℕ) → Nests frags operation n → n ≤ limit)
unfolding max_depth
max_depth_iff limit frags operation acyclic =
    let (d, e, nests, top) = selection_depth_exact frags operation acyclic in
    elim (Bool-cases (leb d limit)) [
      | inl fits ↦ (λ _ n h. ground (arith, top n h), λ _. rw (e, fits))
      | inr over ↦
          (λ r. absurd (cc (rw (e, over) at r)), λ all. absurd (ground (arith, all d nests)))
    ]

-- An operation that nests deeper than the limit is rejected, with its depth and the limit in the
-- message, where the document has no fragment cycle.
pub max_depth_rejects :
    (limit n : ℕ) (frags : Fragments) (operation : SelectionSet)
    → IsAcyclic frags
    → Nests frags operation n
    → limit < n
    → (d : ℕ) × (n ≤ d)
      × Nests frags operation d
      × (max_depth limit frags operation ≡ some (some (depth_error d limit)))
unfolding max_depth
max_depth_rejects limit n frags operation acyclic h over =
    let (d, e, nests, top) = selection_depth_exact frags operation acyclic in
    let le = top n h in let f : leb d limit ≡ false = ground arith in (d, le, nests, rw (e, f))
