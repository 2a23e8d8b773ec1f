-- ===== src/Cmd/RoundTrip.antt =====
-- cmd/luimagen/main.go: what `fields.Set` reads back of a field as it is typed.
use luima.Prelude.{
  Bool, true, false, ◌==◌, List, [], ◌∷◌, ◌++◌, ◌≡◌, refl, ◌≢◌, ap, ◌∙◌, arith, Text, codes,
  text_eq, join, All, All-append, Bool-cases, inl, inr, if◌then◌else◌,
}
use luima.Luimagen.Runes.{after_prefix}
use luima.Luimagen.Table.{Field}
use luima.Cmd.{refused, too_few, split, cons_first, Collected, collected, set_options, set}

abbrev pub IsPlain : Text → Type 0
IsPlain s = All (λ c. c ≢ b':') s

-- No part of the field has a colon.
abbrev pub IsPlainField : Field → Type 0
IsPlainField f = IsPlain f.name × (IsPlain f.go_type × IsPlain f.column)

abbrev pub column_option : Field → List Text
column_option f = if text_eq f.column [] then [] else (codes "column=" ++ f.column) ∷ []

abbrev pub pk_option : Field → List Text
pk_option f = if f.pk then codes "pk" ∷ [] else []

-- The options of a field, with the one of the key first or last.
abbrev pub options : Bool → Field → List Text
options pk_first f =
    if pk_first then pk_option f ++ column_option f else column_option f ++ pk_option f

-- The field as it is typed, with the option of the key first or last.
unfoldable pub typed : Bool → Field → Text
typed pk_first f = join (codes ":") (f.name ∷ (f.go_type ∷ options pk_first f))

split-plain : (s : Text) → IsPlain s → split s ≡ (s, [])
unfolding split
split-plain [] h = refl
split-plain (c ∷ s) (n, h) = elim (Bool-cases (c == b':')) [
  | inl e ↦ absurd (n (ground arith))
  | inr e ↦ rw e (ap (cons_first c) (split-plain s h))
]

split-cons :
    (s t : Text)
    → IsPlain s
    → split (s ++ b':' ∷ t) ≡ (let (part, parts) = split t in (s, part ∷ parts))
unfolding split
split-cons [] t h = refl
split-cons (c ∷ s) t (n, h) = elim (Bool-cases (c == b':')) [
  | inl e ↦ absurd (n (ground arith))
  | inr e ↦ rw e (ap (cons_first c) (split-cons s t h))
]

split-join :
    (s : Text) (ss : List Text) → All IsPlain (s ∷ ss) → split (join (codes ":") (s ∷ ss)) ≡ (s, ss)
unfolding join codes
split-join s [] (h, _) = split-plain s h
split-join s (t ∷ ss) (h, hs) =
    split-cons s (join (codes ":") (t ∷ ss)) h
    ∙ ap (λ p. let (part, parts) = p in (s, part ∷ parts)) (split-join t ss hs)

abbrev field_of : Text → Text → Bool → Text → Field
field_of name go_type pk column = record {
  name = name;
  go_type = go_type;
  pk = pk;
  column = column;
}

set_options-options :
    (fields : List Field) (v name go_type column : Text) (pk pk_first : Bool)
    → set_options fields v
        (field_of name go_type false [])
        (options pk_first (field_of name go_type pk column))
      ≡ collected (fields ++ field_of name go_type pk column ∷ [])
unfolding set_options text_eq codes after_prefix
set_options-options fields v name go_type [] true true = refl
set_options-options fields v name go_type [] true false = refl
set_options-options fields v name go_type [] false true = refl
set_options-options fields v name go_type [] false false = refl
set_options-options fields v name go_type (c ∷ column) true true = refl
set_options-options fields v name go_type (c ∷ column) true false = refl
set_options-options fields v name go_type (c ∷ column) false true = refl
set_options-options fields v name go_type (c ∷ column) false false = refl

pk-IsPlain : IsPlain (codes "pk")
unfolding codes
pk-IsPlain = omega arith

column-IsPlain : IsPlain (codes "column=")
unfolding codes
column-IsPlain = omega arith

pk_option-IsPlain : (f : Field) → All IsPlain (pk_option f)
pk_option-IsPlain f = elim (Bool-cases f.pk) [ inl e ↦ rw e (pk-IsPlain, tt) | inr e ↦ rw e tt ]

column_option-IsPlain : (f : Field) → IsPlain f.column → All IsPlain (column_option f)
column_option-IsPlain f h = elim (Bool-cases (text_eq f.column [])) [
  | inl e ↦ rw e tt
  | inr e ↦ rw e (All-append (λ c. c ≢ b':') (codes "column=") f.column column-IsPlain h, tt)
]

options-IsPlain :
    (pk_first : Bool) (f : Field) → IsPlain f.column → All IsPlain (options pk_first f)
options-IsPlain true f h =
    All-append IsPlain (pk_option f) (column_option f) (pk_option-IsPlain f)
      (column_option-IsPlain f h)
options-IsPlain false f h =
    All-append IsPlain (column_option f) (pk_option f) (column_option-IsPlain f h)
      (pk_option-IsPlain f)

-- What Set does with the segments.
abbrev read_parts : List Field → Text → Text × List Text → Collected
read_parts fields v segments =
    let (name, parts) = segments in
    elim parts as (λ _. Collected) [
      | [] ↦ refused (too_few v)
      | go_type ∷ opts ↦ set_options fields v (field_of name go_type false []) opts
    ]

-- A field none of whose parts has a colon, typed with its options in either order, is added as it is to
-- the fields that were there.
pub set-typed :
    (fields : List Field) (f : Field) (pk_first : Bool)
    → IsPlainField f
    → set fields (typed pk_first f) ≡ collected (fields ++ f ∷ [])
unfolding set typed
set-typed fields f pk_first (name, (go_type, column)) =
    ap (read_parts fields (typed pk_first f)) (
      split-join f.name (f.go_type ∷ options pk_first f)
        (name, (go_type, options-IsPlain pk_first f column)))
    ∙ set_options-options fields (typed pk_first f) f.name f.go_type f.column f.pk pk_first
