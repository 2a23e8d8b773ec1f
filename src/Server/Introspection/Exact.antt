-- ===== src/Server/Introspection/Exact.antt =====
-- `introspects` answers, and says exactly whether the document selects __schema or __type.
use luima.Prelude.{
  ℕ, zero, suc, true, false, List, [], ◌∷◌, none, some, ◌≡◌, arith, Text, has, length, Bool-cases,
  Option-cases, inl, inr, ◌⊎◌, ◌↔◌,
}
use luima.Server.Query.{
  Selection, field, inline_fragment, fragment_spread, SelectionSet, nil, cons, Fragments, for_name,
}
use luima.Server.Depth.Total.{unvisited-le-length}
use luima.Server.Introspection.{
  found, is_introspection, Walk, scan_spread, scan_one, scan_set, scan_walk, introspects,
  no_introspection, introspection_error,
}
use luima.Server.Introspection.Reach.{
  Selects, at_head, in_rest, SelectsOf, direct, nested, within, spread,
}
use luima.Server.Introspection.Memo.{IsClean, IsCleanOf, scan_walk-Kept}
use luima.Server.Introspection.Total.{Scan-cases, scan_walk_ends}

module _ (frags : Fragments) (expand : Walk)
    (finds : (s : List Text) (set : SelectionSet) → expand s set ≡ found → Selects frags set) where
  spread_finds :
      (s : List Text) (name : Text)
      → scan_spread expand frags s name ≡ found
      → SelectsOf frags (fragment_spread name)
  unfolding scan_spread
  spread_finds s name e = elim (Bool-cases (has s name)) [
    | inl old ↦ absurd (cc (rw old at e))
    | inr fresh ↦ elim (Option-cases (for_name frags name)) [
      | inl d ↦ absurd (cc (rw (fresh, d, scan_spread) at e))
      | inr (body, d) ↦ spread d (finds (name ∷ s) body (rw (fresh, d, scan_spread) at e))
    ]
  ]

  mutual
    unfolding scan_set scan_one

    one_finds :
        (s : List Text) (x : Selection) → scan_one expand frags s x ≡ found → SelectsOf frags x
    one_finds s (field name set) e = elim (Bool-cases (is_introspection name)) [
      | inl hit ↦ direct hit
      | inr other ↦ nested (set_finds s set (rw other at e))
    ]
    one_finds s (inline_fragment set) e = within (set_finds s set e)
    one_finds s (fragment_spread name) e = spread_finds s name e

    set_finds :
        (s : List Text) (set : SelectionSet)
        → scan_set expand frags s set ≡ found
        → Selects frags set
    set_finds s nil e = absurd (cc)
    set_finds s (cons x rest) e = elim (Scan-cases (scan_one expand frags s x)) [
      | inl q ↦ absurd (cc (rw q at e))
      | inr (inl q) ↦ at_head (one_finds s x q)
      | inr (inr (t, q)) ↦ in_rest (set_finds t rest (rw q at e))
    ]

  pub scan_set_finds :
      (s : List Text) (set : SelectionSet) → scan_set expand frags s set ≡ found → Selects frags set
  scan_set_finds s set e = set_finds s set e

scan_walk_finds :
    (fuel : ℕ) (frags : Fragments) (s : List Text) (set : SelectionSet)
    → scan_walk fuel frags s set ≡ found
    → Selects frags set
unfolding scan_walk
scan_walk_finds zero frags s set e = absurd (cc)
scan_walk_finds (suc fuel) frags s set e =
    scan_set_finds frags (scan_walk fuel frags)
      (λ s' set' e'. scan_walk_finds fuel frags s' set' e') s set e

-- A set of fragments that is closed and clean reaches no introspection field.
module _ (frags : Fragments) (seen : List Text)
    (closed : (x : Text) (body : SelectionSet)
      → has seen x ≡ true
      → for_name frags x ≡ some body
      → IsClean seen body) where
  mutual
    unreached : {set : SelectionSet} → Selects frags set → IsClean seen set → ⊥
    unreached (at_head h) (c, _) = unreached_of h c
    unreached (in_rest h) (_, c) = unreached h c

    unreached_of : {x : Selection} → SelectsOf frags x → IsCleanOf seen x → ⊥
    unreached_of (direct hit) (other, _) = cc
    unreached_of (nested h) (_, c) = unreached h c
    unreached_of (within h) c = unreached h c
    unreached_of (spread {name} {set} d h) c = unreached h (closed name set c d)

  pub IsClean-unreached : {set : SelectionSet} → IsClean seen set → Selects frags set → ⊥
  IsClean-unreached c h = unreached h c

-- The walk answers, and it answers true exactly when the operation selects __schema or __type, through
-- fields, inline fragments and spreads; no absence of fragment cycles is assumed.
pub introspects_exact :
    (frags : Fragments) (set : SelectionSet)
    → ((introspects frags set ≡ some true) × Selects frags set)
      ⊎ ((introspects frags set ≡ some false) × ¬ Selects frags set)
unfolding introspects has
introspects_exact frags set = elim (Scan-cases (scan_walk (suc (length frags)) frags [] set)) [
  | inl q ↦ absurd (
      scan_walk_ends (suc (length frags)) frags [] set (omega (arith, unvisited-le-length frags []))
        q)
  | inr (inl q) ↦ inl (rw q, scan_walk_finds (suc (length frags)) frags [] set q)
  | inr (inr (t, q)) ↦
      let (w, c, k) = scan_walk-Kept (suc (length frags)) frags [] t set q in
      inr (
        rw q,
        λ h.
            IsClean-unreached frags t
              (λ x body seen d. elim (k x body seen d) [
                | inl absent ↦ absurd (cc absent)
                | inr its_body ↦ its_body
              ])
              c h,
      )
]

-- An operation is refused with INTROSPECTION_DISABLED exactly when it selects __schema or __type, and
-- any other runs.
pub no_introspection_iff :
    (frags : Fragments) (operation : SelectionSet)
    → ((no_introspection frags operation ≡ some (some introspection_error))
        ↔ Selects frags operation)
      × ((no_introspection frags operation ≡ some none) ↔ ¬ Selects frags operation)
unfolding no_introspection
no_introspection_iff frags operation = elim (introspects_exact frags operation) [
  | inl (e, h) ↦ (((λ _. h), λ _. rw e), ((λ r. absurd (cc (rw e at r))), λ n. absurd (n h)))
  | inr (e, n) ↦ (((λ r. absurd (cc (rw e at r))), λ h. absurd (n h)), ((λ _. n), λ _. rw e))
]
