-- ===== src/Luimaerr/Chain.antt =====
-- The errors that an error wraps, and what `errors.AsType` finds among them.
use luima.Prelude.{◌⊎◌, inl, inr, Option, none, some, ◌≡◌, refl, Text}
use luima.Luimaerr.Errors.{
  GqlError, GoError, custom, gql, driver, no_rows, opaque, wrap, joined, Cause, no_cause, caused_by,
  Causes, nil, cons, as_type, as_type_cause, as_type_causes, or_else,
}

-- `x` is the error itself, or an error that it wraps at some depth.
mutual
  pub data InChain (x : GoError) : GoError → Type 0 where
    here : InChain x x
    of_custom : {m k : Text} {c : Cause} → InCause x c → InChain x (custom m c k)
    of_gql : {g : GqlError} {c : Cause} → InCause x c → InChain x (gql g c)
    of_wrap : {t : Text} {e : GoError} → InChain x e → InChain x (wrap t e)
    of_joined : {t : Text} {es : Causes} → InCauses x es → InChain x (joined t es)

  pub data InCause (x : GoError) : Cause → Type 0 where
    of_cause : {e : GoError} → InChain x e → InCause x (caused_by e)

  pub data InCauses (x : GoError) : Causes → Type 0 where
    first : {e : GoError} {es : Causes} → InChain x e → InCauses x (cons e es)
    later : {e : GoError} {es : Causes} → InCauses x es → InCauses x (cons e es)

module _ {ℓ} {A : Type ℓ} (p : GoError → Option A) where
  abbrev Found : (GoError → Type 0) → A → Type ℓ
  Found In a = (x : GoError) × In x × (p x ≡ some a)

  or_else-eq-some : (o o' : Option A) (a : A) → or_else o o' ≡ some a → (o ≡ some a) ⊎ (o' ≡ some a)
  or_else-eq-some none o' a h = inr h
  or_else-eq-some (some b) o' a h = inl h

  mutual
    unfolding as_type

    Found-In : (e : GoError) (a : A) → as_type p e ≡ some a → Found (λ x. InChain x e) a
    Found-In (custom m c k) a h = elim (or_else-eq-some (p (custom m c k)) _ a h) [
      | inl e ↦ (custom m c k, here, e)
      | inr e ↦ let (x, i, q) = Found-InCause c a e in (x, of_custom i, q)
    ]
    Found-In (gql g c) a h = elim (or_else-eq-some (p (gql g c)) _ a h) [
      | inl e ↦ (gql g c, here, e)
      | inr e ↦ let (x, i, q) = Found-InCause c a e in (x, of_gql i, q)
    ]
    Found-In (wrap t e) a h = elim (or_else-eq-some (p (wrap t e)) _ a h) [
      | inl q ↦ (wrap t e, here, q)
      | inr q ↦ let (x, i, q') = Found-In e a q in (x, of_wrap i, q')
    ]
    Found-In (joined t es) a h = elim (or_else-eq-some (p (joined t es)) _ a h) [
      | inl q ↦ (joined t es, here, q)
      | inr q ↦ let (x, i, q') = Found-InCauses es a q in (x, of_joined i, q')
    ]
    Found-In (driver fs) a h = (driver fs, here, h)
    Found-In no_rows a h = (no_rows, here, h)
    Found-In (opaque t) a h = (opaque t, here, h)

    Found-InCause : (c : Cause) (a : A) → as_type_cause p c ≡ some a → Found (λ x. InCause x c) a
    Found-InCause no_cause a h = absurd (cc)
    Found-InCause (caused_by e) a h = let (x, i, q) = Found-In e a h in (x, of_cause i, q)

    Found-InCauses :
        (es : Causes) (a : A) → as_type_causes p es ≡ some a → Found (λ x. InCauses x es) a
    Found-InCauses nil a h = absurd (cc)
    Found-InCauses (cons e es) a h = elim (or_else-eq-some (as_type p e) _ a h) [
      | inl q ↦ let (x, i, q') = Found-In e a q in (x, first i, q')
      | inr q ↦ let (x, i, q') = Found-InCauses es a q in (x, later i, q')
    ]

  pub as_type_sound :
      (e : GoError) (a : A) → as_type p e ≡ some a → (x : GoError) × InChain x e × (p x ≡ some a)
  as_type_sound e a h = Found-In e a h

  or_else-eq-none : (o o' : Option A) → or_else o o' ≡ none → (o ≡ none) × (o' ≡ none)
  or_else-eq-none none o' h = (refl, h)
  or_else-eq-none (some b) o' h = cc

  mutual
    unfolding as_type

    none_of : {x e : GoError} → InChain x e → as_type p e ≡ none → p x ≡ none
    none_of {x = custom m c k} here h = (or_else-eq-none (p (custom m c k)) _ h).0
    none_of {x = gql g c} here h = (or_else-eq-none (p (gql g c)) _ h).0
    none_of {x = wrap t e} here h = (or_else-eq-none (p (wrap t e)) _ h).0
    none_of {x = joined t es} here h = (or_else-eq-none (p (joined t es)) _ h).0
    none_of {x = driver fs} here h = h
    none_of {x = no_rows} here h = h
    none_of {x = opaque t} here h = h
    none_of (of_custom {m} {k} {c} i) h = none_of_cause i (or_else-eq-none (p (custom m c k)) _ h).1
    none_of (of_gql {g} {c} i) h = none_of_cause i (or_else-eq-none (p (gql g c)) _ h).1
    none_of (of_wrap {t} {e} i) h = none_of i (or_else-eq-none (p (wrap t e)) _ h).1
    none_of (of_joined {t} {es} i) h = none_of_causes i (or_else-eq-none (p (joined t es)) _ h).1

    none_of_cause : {x : GoError} {c : Cause} → InCause x c → as_type_cause p c ≡ none → p x ≡ none
    none_of_cause (of_cause i) h = none_of i h

    none_of_causes :
        {x : GoError} {es : Causes} → InCauses x es → as_type_causes p es ≡ none → p x ≡ none
    none_of_causes (first {e} i) h = none_of i (or_else-eq-none (as_type p e) _ h).0
    none_of_causes (later {e} i) h = none_of_causes i (or_else-eq-none (as_type p e) _ h).1

  pub as_type_complete : {x e : GoError} → InChain x e → as_type p e ≡ none → p x ≡ none
  as_type_complete i h = none_of i h
