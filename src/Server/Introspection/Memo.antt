-- ===== src/Server/Introspection/Memo.antt =====
-- `seen` as a memo: when the walk finds no match, what it has seen is closed under spreads and holds
-- no introspection field.
use luima.Prelude.{
  ℕ, zero, suc, true, false, List, ◌∷◌, none, some, ◌≡◌, refl, arith, Text, text_eq_iff,
  text_eq_self, has, Bool-cases, Option-cases, ◌⊎◌, inl, inr, subst, ap,
}
use luima.Server.Query.{
  Selection, field, inline_fragment, fragment_spread, SelectionSet, nil, cons, Fragments, for_name,
}
use luima.Server.Introspection.{
  Scan, stopped, found, clean, continue, is_introspection, Walk, scan_spread, scan_one, scan_set,
  scan_walk,
}

-- No introspection field stands in the set, and its spreads are all in `seen`.
abbrev mutual
  pub IsClean : List Text → SelectionSet → Type 0
  IsClean seen nil = Unit
  IsClean seen (cons s rest) = IsCleanOf seen s × IsClean seen rest

  pub IsCleanOf : List Text → Selection → Type 0
  IsCleanOf seen (field name set) = (is_introspection name ≡ false) × IsClean seen set
  IsCleanOf seen (inline_fragment set) = IsClean seen set
  IsCleanOf seen (fragment_spread name) = has seen name ≡ true

abbrev pub IsWithin : List Text → List Text → Type 0
IsWithin s t = (x : Text) → has s x ≡ true → has t x ≡ true

mutual
  IsClean-mono :
      (s t : List Text) → IsWithin s t → (set : SelectionSet) → IsClean s set → IsClean t set
  IsClean-mono s t w nil h = tt
  IsClean-mono s t w (cons x rest) (h, k) = (of_mono s t w x h, IsClean-mono s t w rest k)

  of_mono : (s t : List Text) → IsWithin s t → (x : Selection) → IsCleanOf s x → IsCleanOf t x
  of_mono s t w (field name set) (h, k) = (h, IsClean-mono s t w set k)
  of_mono s t w (inline_fragment set) h = IsClean-mono s t w set h
  of_mono s t w (fragment_spread name) h = w name h

continue-eq-clean :
    (m : Scan) (k : List Text → Scan) {seen' : List Text}
    → continue m k ≡ clean seen'
    → (mid : List Text) × (m ≡ clean mid) × (k mid ≡ clean seen')
continue-eq-clean stopped k h = absurd (cc)
continue-eq-clean found k h = absurd (cc)
continue-eq-clean (clean mid) k h = (mid, refl, h)

module _ (frags : Fragments) where
  -- Of what is new in `t`, each definition is clean.
  abbrev pub IsClosed : List Text → List Text → Type 0
  IsClosed s t =
      (x : Text) (body : SelectionSet)
      → has t x ≡ true
      → for_name frags x ≡ some body
      → (has s x ≡ true) ⊎ IsClean t body

  IsClosed-trans : (s t u : List Text) → IsWithin t u → IsClosed s t → IsClosed t u → IsClosed s u
  IsClosed-trans s t u w f g x body h d = elim (g x body h d) [
    | inr k ↦ inr k
    | inl h' ↦ elim (f x body h' d) [ inl h'' ↦ inl h'' | inr k ↦ inr (IsClean-mono t u w body k) ]
  ]

  abbrev pub Kept : List Text → List Text → SelectionSet → Type 0
  Kept s t set = IsWithin s t × IsClean t set × IsClosed s t

  abbrev KeptOf : List Text → List Text → Selection → Type 0
  KeptOf s t x = IsWithin s t × IsCleanOf t x × IsClosed s t

  has-cons : (name x : Text) (s : List Text) → has s x ≡ true → has (name ∷ s) x ≡ true
  unfolding has
  has-cons name x s h = ground arith

  has-cons_self : (name : Text) (s : List Text) → has (name ∷ s) name ≡ true
  unfolding has
  has-cons_self name s = ground (arith, text_eq_self name)

  has-cons_cases :
      (name x : Text) (s : List Text) → has (name ∷ s) x ≡ true → (name ≡ x) ⊎ (has s x ≡ true)
  unfolding has
  has-cons_cases name x s h = ground (arith, text_eq_iff name x)

  same_body :
      (name x : Text) (b body : SelectionSet)
      → name ≡ x
      → for_name frags name ≡ some body
      → for_name frags x ≡ some b
      → body ≡ b
  same_body name x b body same d d' = ground (arith, ap (for_name frags) same)

  undefined_body :
      (name x : Text) (b : SelectionSet)
      → name ≡ x
      → for_name frags name ≡ none
      → for_name frags x ≡ some b
      → ⊥
  undefined_body name x b same d d' = cc (ap (for_name frags) same)

  module _ (expand : Walk)
      (keeps : (s t : List Text) (set : SelectionSet) → expand s set ≡ clean t → Kept s t set) where
    spread_defined :
        (s t : List Text) (name : Text) (body : SelectionSet)
        → for_name frags name ≡ some body
        → expand (name ∷ s) body ≡ clean t
        → KeptOf s t (fragment_spread name)
    spread_defined s t name body d e =
        let (w, c, closed) = keeps (name ∷ s) t body e in
        (
          λ x h. w x (has-cons name x s h),
          w name (has-cons_self name s),
          λ x b h d'. elim (closed x b h d') [
            | inr k ↦ inr k
            | inl h' ↦ elim (has-cons_cases name x s h') [
              | inr old ↦ inl old
              | inl same ↦ inr (subst (IsClean t) (same_body name x b body same d d') c)
            ]
          ],
        )

    spread_undefined :
        (s : List Text) (name : Text)
        → for_name frags name ≡ none
        → KeptOf s (name ∷ s) (fragment_spread name)
    spread_undefined s name d = (
      λ x h. has-cons name x s h,
      has-cons_self name s,
      λ x b h d'. elim (has-cons_cases name x s h) [
        | inr old ↦ inl old
        | inl same ↦ absurd (undefined_body name x b same d d')
      ],
    )

    spread_keeps :
        (s t : List Text) (name : Text)
        → scan_spread expand frags s name ≡ clean t
        → KeptOf s t (fragment_spread name)
    unfolding scan_spread
    spread_keeps s t name e = elim (Bool-cases (has s name)) [
      | inl old ↦
          let q : s ≡ t = ground arith in
          subst (λ u. KeptOf s u (fragment_spread name)) q ((λ x h. h), old, λ x b h d. inl h)
      | inr fresh ↦ elim (Option-cases (for_name frags name)) [
        | inl d ↦
            let q : (name ∷ s) ≡ t = ground arith in
            subst (λ u. KeptOf s u (fragment_spread name)) q (spread_undefined s name d)
        | inr (body, d) ↦ spread_defined s t name body d (rw (fresh, d, scan_spread) at e)
      ]
    ]

    mutual
      unfolding scan_set scan_one

      one_keeps :
          (s t : List Text) (x : Selection) → scan_one expand frags s x ≡ clean t → KeptOf s t x
      one_keeps s t (field name set) e = elim (Bool-cases (is_introspection name)) [
        | inl hit ↦ absurd (cc (rw hit at e))
        | inr other ↦ let (w, c, k) = set_keeps s t set (rw other at e) in (w, (other, c), k)
      ]
      one_keeps s t (inline_fragment set) e = set_keeps s t set e
      one_keeps s t (fragment_spread name) e = spread_keeps s t name e

      set_keeps :
          (s t : List Text) (set : SelectionSet)
          → scan_set expand frags s set ≡ clean t
          → Kept s t set
      set_keeps s t nil e =
          let q : s ≡ t = ground arith in
          subst (λ u. Kept s u nil) q ((λ x h. h), tt, λ x b h d. inl h)
      set_keeps s t (cons x rest) e =
          let (mid, e', r) = continue-eq-clean (scan_one expand frags s x) _ e in
          let (w, c, k) = one_keeps s mid x e' in
          let (w', c', k') = set_keeps mid t rest r in
          ((λ y h. w' y (w y h)), (of_mono mid t w' x c, c'), IsClosed-trans s mid t w' k k')

    pub scan_set-Kept :
        (s t : List Text) (set : SelectionSet)
        → scan_set expand frags s set ≡ clean t
        → Kept s t set
    scan_set-Kept s t set e = set_keeps s t set e

    pub scan_one-Within :
        (s t : List Text) (x : Selection) → scan_one expand frags s x ≡ clean t → IsWithin s t
    scan_one-Within s t x e = (one_keeps s t x e).0

pub scan_walk-Kept :
    (fuel : ℕ) (frags : Fragments) (s t : List Text) (set : SelectionSet)
    → scan_walk fuel frags s set ≡ clean t
    → Kept frags s t set
unfolding scan_walk
scan_walk-Kept zero frags s t set e = absurd (cc)
scan_walk-Kept (suc fuel) frags s t set e =
    scan_set-Kept frags (scan_walk fuel frags) (scan_walk-Kept fuel frags) s t set e
