-- ===== src/Server/Introspection/Total.antt =====
-- The walk of `introspects` ends on every document: each fragment is entered at most once.
use luima.Prelude.{
  ℕ, zero, suc, ◌<◌, ◌≤◌, List, ◌∷◌, ◌≡◌, refl, ◌≢◌, arith, Text, has, Bool-cases, Option-cases,
  inl, inr, ◌⊎◌,
}
use luima.Server.Query.{
  Selection, field, inline_fragment, fragment_spread, SelectionSet, nil, cons, Fragments, for_name,
}
use luima.Server.Depth.Total.{unvisited, unvisited-lt, unvisited_mono}
use luima.Server.Introspection.{
  Scan, stopped, found, clean, is_introspection, Walk, scan_spread, scan_one, scan_set, scan_walk,
}
use luima.Server.Introspection.Memo.{Kept, scan_one-Within, scan_walk-Kept}

pub Scan-cases : (m : Scan) → (m ≡ stopped) ⊎ (m ≡ found) ⊎ ((t : List Text) × (m ≡ clean t))
Scan-cases stopped = inl refl
Scan-cases found = inr (inl refl)
Scan-cases (clean t) = inr (inr (t, refl))

module _ (frags : Fragments) (expand : Walk) (bound : ℕ)
    (keeps : (s t : List Text) (set : SelectionSet) → expand s set ≡ clean t → Kept frags s t set)
    (ends : (s : List Text) (set : SelectionSet)
      → unvisited frags s < bound
      → expand s set ≢ stopped) where
  spread_ends :
      (s : List Text) (name : Text)
      → unvisited frags s ≤ bound
      → scan_spread expand frags s name ≢ stopped
  unfolding scan_spread
  spread_ends s name h e = elim (Bool-cases (has s name)) [
    | inl old ↦ cc (rw old at e)
    | inr fresh ↦ elim (Option-cases (for_name frags name)) [
      | inl d ↦ cc (rw (fresh, d, scan_spread) at e)
      | inr (body, d) ↦
          ends (name ∷ s) body (omega (arith, unvisited-lt frags name s body d fresh))
            (rw (fresh, d, scan_spread) at e)
    ]
  ]

  mutual
    unfolding scan_set scan_one

    one_ends :
        (s : List Text) (x : Selection)
        → unvisited frags s ≤ bound
        → scan_one expand frags s x ≢ stopped
    one_ends s (field name set) h e = elim (Bool-cases (is_introspection name)) [
      | inl hit ↦ cc (rw hit at e)
      | inr other ↦ set_ends s set h (rw other at e)
    ]
    one_ends s (inline_fragment set) h e = set_ends s set h e
    one_ends s (fragment_spread name) h e = spread_ends s name h e

    set_ends :
        (s : List Text) (set : SelectionSet)
        → unvisited frags s ≤ bound
        → scan_set expand frags s set ≢ stopped
    set_ends s nil h e = cc
    set_ends s (cons x rest) h e = elim (Scan-cases (scan_one expand frags s x)) [
      | inl q ↦ one_ends s x h q
      | inr (inl q) ↦ cc (rw q at e)
      | inr (inr (t, q)) ↦
          set_ends t rest
            (omega (arith, unvisited_mono frags s t (scan_one-Within frags expand keeps s t x q)))
            (rw q at e)
    ]

  pub scan_set_ends :
      (s : List Text) (set : SelectionSet)
      → unvisited frags s ≤ bound
      → scan_set expand frags s set ≢ stopped
  scan_set_ends s set h e = set_ends s set h e

pub scan_walk_ends :
    (fuel : ℕ) (frags : Fragments) (s : List Text) (set : SelectionSet)
    → unvisited frags s < fuel
    → scan_walk fuel frags s set ≢ stopped
unfolding scan_walk
scan_walk_ends zero frags s set h = elim h [ ]
scan_walk_ends (suc fuel) frags s set h =
    scan_set_ends frags (scan_walk fuel frags) fuel (scan_walk-Kept fuel frags)
      (λ s' set' h'. scan_walk_ends fuel frags s' set' h') s set (omega arith)
