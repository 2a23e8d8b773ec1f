-- ===== src/Luimagen/Checks/Scalar.antt =====
-- luimagen/gen.go: the Go types that `scalarType` maps.
use luima.Prelude.{
  Bool, true, false, ◌++◌, none, some, ◌≡◌, refl, ◌↔◌, ap, sym, arith, Text, codes, text_eq,
  text_eq_iff, Bool-cases, Option-cases, inl, inr, ◌⊎◌, if◌then◌else◌,
}
use luima.Luimagen.Runes.{after_prefix, after_prefix-eq-some, after_prefix-append, cut_prefix}
use luima.Luimagen.Checks.{ok, scalar_of, scalar_type}

-- The four base types and their GraphQL scalars.
abbrev pub IsScalar : Text → Text → Type 0
IsScalar base gql =
    (base ≡ codes "string") × (gql ≡ codes "String")
    ⊎ ((base ≡ codes "int") × (gql ≡ codes "Int")
        ⊎ ((base ≡ codes "float64") × (gql ≡ codes "Float")
            ⊎ ((base ≡ codes "bool") × (gql ≡ codes "Boolean"))))

abbrev pub slice_of : Bool → Text → Text
slice_of array base = if array then codes "[]" ++ base else base

-- The type is a base type, or a slice of one.
abbrev pub IsTypeOf : Text → Text → Bool → Type 0
IsTypeOf go_type gql array = (base : Text) × IsScalar base gql × (go_type ≡ slice_of array base)

scalar_of-eq-some : (base gql : Text) → scalar_of base ≡ some gql → IsScalar base gql
unfolding scalar_of
scalar_of-eq-some base gql h = elim (Bool-cases (text_eq base (codes "string"))) [
  | inl e ↦ inl ((text_eq_iff _ _).0 e, ground arith)
  | inr not_string ↦ elim (Bool-cases (text_eq base (codes "int"))) [
    | inl e ↦ inr (inl ((text_eq_iff _ _).0 e, ground arith))
    | inr not_int ↦ elim (Bool-cases (text_eq base (codes "float64"))) [
      | inl e ↦ inr (inr (inl ((text_eq_iff _ _).0 e, ground arith)))
      | inr not_float ↦ elim (Bool-cases (text_eq base (codes "bool"))) [
        | inl e ↦ inr (inr (inr ((text_eq_iff _ _).0 e, ground arith)))
        | inr not_bool ↦ absurd (ground arith)
      ]
    ]
  ]
]

scalar_of-IsScalar : (base gql : Text) → IsScalar base gql → scalar_of base ≡ some gql
unfolding scalar_of text_eq codes
scalar_of-IsScalar base gql h = elim h [
  | inl (b, g) ↦ rw (b, g) refl
  | inr (inl (b, g)) ↦ rw (b, g) refl
  | inr (inr (inl (b, g))) ↦ rw (b, g) refl
  | inr (inr (inr (b, g))) ↦ rw (b, g) refl
]

-- No base type starts like a slice.
base_no_slice : (base gql : Text) → IsScalar base gql → after_prefix (codes "[]") base ≡ none
unfolding after_prefix codes
base_no_slice base gql h = elim h [
  | inl (b, g) ↦ rw b refl
  | inr (inl (b, g)) ↦ rw b refl
  | inr (inr (inl (b, g))) ↦ rw b refl
  | inr (inr (inr (b, g))) ↦ rw b refl
]

IsTypeOf-ok :
    (go_type gql : Text) (array : Bool)
    → scalar_type go_type ≡ ok (gql, array)
    → IsTypeOf go_type gql array
unfolding scalar_type cut_prefix
IsTypeOf-ok go_type gql array h = elim (Option-cases (after_prefix (codes "[]") go_type)) [
  | inl e ↦ elim (Option-cases (scalar_of go_type)) [
    | inl u ↦ absurd (cc)
    | inr (g, u) ↦
        let same : (g ≡ gql) × (false ≡ array) = (cc, cc) in
        (go_type, scalar_of-eq-some go_type gql cc, rw (sym (same.1)) refl)
  ]
  | inr (base, e) ↦ elim (Option-cases (scalar_of base)) [
    | inl u ↦ absurd (cc)
    | inr (g, u) ↦
        let same : (g ≡ gql) × (true ≡ array) = (cc, cc) in
        (
          base,
          scalar_of-eq-some base gql cc,
          rw (sym (same.1)) (after_prefix-eq-some (codes "[]") go_type base e),
        )
  ]
]

ok_of_cut :
    (go_type base gql : Text) (array : Bool)
    → cut_prefix (codes "[]") go_type ≡ (base, array)
    → scalar_of base ≡ some gql
    → scalar_type go_type ≡ ok (gql, array)
unfolding scalar_type
ok_of_cut go_type base gql array cut scalar = cc

ok_of_type :
    (go_type gql : Text) (array : Bool)
    → IsTypeOf go_type gql array
    → scalar_type go_type ≡ ok (gql, array)
unfolding cut_prefix
ok_of_type go_type gql true (base, h, e) =
    let found : after_prefix (codes "[]") go_type ≡ some base =
      rw e (after_prefix-append (codes "[]") base) in
    ok_of_cut go_type base gql true (rw (found, cut_prefix) refl) (scalar_of-IsScalar base gql h)
ok_of_type go_type gql false (base, h, e) =
    let same : go_type ≡ base = e in
    let plain : after_prefix (codes "[]") go_type ≡ none = rw same (base_no_slice base gql h) in
    ok_of_cut go_type base gql false (rw (plain, cut_prefix) (ap (λ t. (t, false)) same))
      (scalar_of-IsScalar base gql h)

-- `scalarType` accepts exactly the four base types and their slices, each with its scalar and with
-- whether it is a slice.
pub scalar_type_iff :
    (go_type gql : Text) (array : Bool)
    → (scalar_type go_type ≡ ok (gql, array)) ↔ IsTypeOf go_type gql array
scalar_type_iff go_type gql array = (IsTypeOf-ok go_type gql array, ok_of_type go_type gql array)
