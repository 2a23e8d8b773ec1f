-- ===== src/Luimagen/Table/Keyed.antt =====
-- luimagen/gen.go: the columns of a table that `tableFromFields` made, the key first.
use luima.Prelude.{
  ℕ, Bool, List, [], ◌∷◌, ◌++◌, ◌≡◌, refl, ◌≢◌, ap, ◌∙◌, sym, subst, inl, inr, Text, All,
  All-of_map, All-perm, AllPairs, AllPairs-perm, Bool-cases,
}
use mathlib.Core.List.{Permᴰ}
use mathlib.Core.List.Permᴰ
use luima.Luimagen.Names.{lower_first}
use luima.Luimagen.Checks.Scalar.{IsScalar}
use luima.Luimagen.Table.{Field, Column, ModelTable}
use luima.Luimagen.Table.Rows.{AreColumnsOf, keys, others, Distinct, gql_names}
use luima.Luimagen.Graphql.{IsBuiltIn}

-- Two columns of different names in GraphQL.
abbrev pub Differ : Column → Column → Type 0
Differ c d = lower_first c.field ≢ lower_first d.field

AllPairs-Differ : (cs : List Column) → Distinct (gql_names cs) → AllPairs Differ cs
AllPairs-Differ [] h = tt
AllPairs-Differ (c ∷ cs) (h, k) = (
  All-of_map (λ n. lower_first c.field ≢ n) (λ d. lower_first d.field) cs h,
  AllPairs-Differ cs k,
)

keys-others-perm :
    (prints : ℕ → Bool) (fs : List Field) (cs : List Column)
    → AreColumnsOf prints fs cs
    → Permᴰ cs (keys fs cs ++ others fs cs)
keys-others-perm prints [] [] h = Permᴰ.refl []
keys-others-perm prints [] (c ∷ cs) h = absurd h
keys-others-perm prints (f ∷ fs) [] h = absurd h
keys-others-perm prints (f ∷ fs) (c ∷ cs) (h, hs) =
    let rest = keys-others-perm prints fs cs hs in
    elim (Bool-cases f.pk) [
      | inl key ↦ rw key (Permᴰ.cons refl rest)
      | inr plain ↦ rw plain (
          Permᴰ.trans (Permᴰ.cons refl rest)
            (Permᴰ.symm (Permᴰ.middle c (keys fs cs) (others fs cs))))
    ]

abbrev pub IsMapped : Column → Type 0
IsMapped c = IsBuiltIn c.gql

IsScalar-IsBuiltIn : (base gql : Text) → IsScalar base gql → IsBuiltIn gql
IsScalar-IsBuiltIn base gql (inl h) = inl (h.1)
IsScalar-IsBuiltIn base gql (inr (inl h)) = inr (inl (h.1))
IsScalar-IsBuiltIn base gql (inr (inr (inl h))) = inr (inr (inl (h.1)))
IsScalar-IsBuiltIn base gql (inr (inr (inr h))) = inr (inr (inr (h.1)))

All-IsMapped :
    (prints : ℕ → Bool) (fs : List Field) (cs : List Column)
    → AreColumnsOf prints fs cs
    → All IsMapped cs
All-IsMapped prints [] [] h = tt
All-IsMapped prints [] (c ∷ cs) h = absurd h
All-IsMapped prints (f ∷ fs) [] h = absurd h
All-IsMapped prints (f ∷ fs) (c ∷ cs) (h, hs) =
    let (base, scalar, e) = h.mapped in
    (IsScalar-IsBuiltIn base c.gql scalar, All-IsMapped prints fs cs hs)

-- The columns of a table, the key first.
module _ (prints : ℕ → Bool) (fs : List Field) (cs : List Column) (t : ModelTable)
    (columns : AreColumnsOf prints fs cs) (one_key : keys fs cs ≡ t.pk ∷ [])
    (other_columns : t.cols ≡ others fs cs) where
  columns-perm : Permᴰ cs (t.pk ∷ t.cols)
  columns-perm =
      subst (Permᴰ cs)
        (ap (λ ks. ks ++ others fs cs) one_key ∙ ap (λ os. t.pk ∷ os) (sym other_columns))
        (keys-others-perm prints fs cs columns)

  pub table-IsMapped : All IsMapped (t.pk ∷ t.cols)
  table-IsMapped = All-perm IsMapped columns-perm (All-IsMapped prints fs cs columns)

  pub table-Differ : Distinct (gql_names cs) → AllPairs Differ (t.pk ∷ t.cols)
  table-Differ h = AllPairs-perm Differ (λ c d ne e. ne (sym e)) columns-perm (AllPairs-Differ cs h)
