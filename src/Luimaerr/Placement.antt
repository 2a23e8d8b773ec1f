-- ===== src/Luimaerr/Placement.antt =====
-- luimaerr/errors.go: `answeredAt` answers at this request's field, and never at another's.
use luima.Prelude.{
  true, List, [], ◌∷◌, ◌++◌, none, some, ◌≡◌, refl, ap, ◌⊎◌, inl, inr, arith, Text, text_eq_iff,
  has, Option-cases, Bool-cases,
}
use luima.Luimaerr.Errors.{PathElement, path_name, path_index, Location, GoError}
use luima.Luimaerr.Context.{
  AstField, Context, element_eq, rest_after, own_location, answered_at, recorded, names_argument,
  field_path, request_path,
}

element_eq-eq : (a b : PathElement) → element_eq a b ≡ true → a ≡ b
unfolding element_eq
element_eq-eq (path_name s) (path_name t) h = ap path_name ((text_eq_iff s t).0 h)
element_eq-eq (path_index i) (path_index j) h = ground arith
element_eq-eq (path_name s) (path_index j) h = absurd (cc)
element_eq-eq (path_index i) (path_name t) h = absurd (cc)

rest_after-append :
    (path p more : List PathElement) → rest_after path p ≡ some more → p ≡ path ++ more
unfolding rest_after
rest_after-append [] p more h = ground arith
rest_after-append (x ∷ path) [] more h = absurd (cc)
rest_after-append (x ∷ path) (y ∷ p) more h =
    ground (arith, element_eq-eq y x, rest_after-append path p more)

-- The path of the context, or that path and on through an argument of the field.
abbrev pub IsOwnPath : AstField → List PathElement → List PathElement → Type 0
IsOwnPath f path p =
    (p ≡ path)
    ⊎ ((arg : Text) × (more : List PathElement) × (has f.arguments arg ≡ true)
        × (p ≡ path ++ (path_name arg ∷ more)))

names_argument-eq :
    (args : List Text) (more : List PathElement)
    → names_argument args more ≡ true
    → (arg : Text) × (rest : List PathElement) × (has args arg ≡ true)
      × (more ≡ path_name arg ∷ rest)
unfolding names_argument
names_argument-eq args (path_name s ∷ rest) h = (s, rest, h, refl)
names_argument-eq args (path_index i ∷ rest) h = absurd (cc)
names_argument-eq args [] h = absurd (cc)

-- While a field resolves, whatever path and locations the error carries, it is answered at the field's
-- own path, or below it at an argument of that field, and the only location is the field's own.
pub answered_at_own :
    (ctx : Context) (f : AstField) (err : GoError)
    → ctx.field ≡ some (some f)
    → IsOwnPath f ctx.path (answered_at ctx err).0 × ((answered_at ctx err).1 ≡ own_location f)
unfolding answered_at
answered_at_own ctx f err h = elim (Option-cases (recorded err)) [
  | inl e ↦ (inl (rw (h, answered_at, e, field_path)), rw (h, answered_at))
  | inr ((p, ls), e) ↦ elim (Option-cases (rest_after ctx.path p)) [
    | inl q ↦ (inl (rw (h, answered_at, e, q, field_path)), rw (h, answered_at))
    | inr (more, q) ↦ elim (Bool-cases (names_argument f.arguments more)) [
      | inl y ↦
          let (arg, rest, g, eq) = names_argument-eq f.arguments more y in
          (
            inr (
              arg,
              rest,
              g,
              rw (h, answered_at, e, q, y, field_path)
                  (rw (← eq) (rest_after-append ctx.path p more q)),
            ),
            rw (h, answered_at),
          )
      | inr n ↦ (inl (rw (h, answered_at, e, q, n, field_path)), rw (h, answered_at))
    ]
  ]
]

-- Before any field runs the answer carries the error's own path and locations where that path extends
-- the context's, and otherwise the context's path and no location.
pub answered_at_request :
    (ctx : Context) (err : GoError)
    → ctx.field ≡ none
    → ((p : List PathElement) × (ls : List Location) × (more : List PathElement) × (recorded err
          ≡ some (p, ls))
        × (p ≡ ctx.path ++ more)
        × (answered_at ctx err ≡ (p, ls)))
      ⊎ (answered_at ctx err ≡ (ctx.path, []))
unfolding answered_at
answered_at_request ctx err h = elim (Option-cases (recorded err)) [
  | inl e ↦ inr (rw (h, answered_at, e, request_path))
  | inr ((p, ls), e) ↦ elim (Option-cases (rest_after ctx.path p)) [
    | inl q ↦ inr (rw (h, answered_at, e, q, request_path))
    | inr (more, q) ↦ inl (
      p,
      ls,
      more,
      e,
      rest_after-append ctx.path p more q,
      rw (h, answered_at, e, q, request_path),
    )
  ]
]
