-- ===== src/Luimagen/Generate/Validated.antt =====
-- luimagen/luimagen.go: what `Generate` has checked before it writes.
use luima.Prelude.{
  ℕ, Bool, List, [], some, ◌≡◌, refl, ap, ◌∙◌, ◌⊎◌, inl, inr, Text, text_eq, All, Bool-cases,
}
use luima.Luimagen.Checks as Checks
use luima.Luimagen.Checks.{Checked, check_ident, check_tag}
use luima.Luimagen.Checks.Ident.{IsFieldName, check_ident_iff}
use luima.Luimagen.Checks.Tag.{IsTagRune, check_tag_iff}
use luima.Luimagen.Table.{Column, ModelTable, table_from_fields}
use luima.Luimagen.Table.Accepted.{IsTableOf, table_from_fields_iff}
use luima.Luimagen.Patch as Patch
use luima.Luimagen.Patch.{Outcome, Tools}
use luima.Luimagen.Files.{Os}
use luima.Luimagen.Schema.{Gqlparser, plan_sdl}
use luima.Luimagen.Generate.{
  Options, with_defaults, GenerateFailure, type_required, building, checking_sdl, Ended,
  write_stages, checked_table, generate_with, generate,
}

-- An error of a stage that only reads.
abbrev pub IsCheck : GenerateFailure → Type 0
IsCheck type_required = Unit
IsCheck (building e) = Unit
IsCheck (checking_sdl e) = Unit
IsCheck _ = ⊥

Checked-cases {ℓ} :
    {A : Type ℓ} (m : Checked A)
    → ((a : A) × (m ≡ Checks.ok a)) ⊎ ((e : Checks.Failure) × (m ≡ Checks.failed e))
Checked-cases (Checks.ok a) = inl (a, refl)
Checked-cases (Checks.failed e) = inr (e, refl)

Outcome-cases {ℓ} :
    {A : Type ℓ} (m : Outcome A)
    → ((a : A) × (m ≡ Patch.ok a)) ⊎ ((e : Patch.Failure) × (m ≡ Patch.failed e))
Outcome-cases (Patch.ok a) = inl (a, refl)
Outcome-cases (Patch.failed e) = inr (e, refl)

module _ (os : Os) (go : Tools) (gql : Gqlparser) (wide_letter wide_digit : ℕ → Bool) where
  -- What holds of the options, with their defaults, of the table and of the fragment, once something may be written.
  abbrev pub IsChecked : Options → os.World → ModelTable → Text → Type 0
  IsChecked o w t frag =
      IsFieldName o.type_name
      × All (IsTagRune go.prints) o.table
      × ((cs : List Column) × IsTableOf go.prints o.type_name o.fields cs t)
      × (plan_sdl gql os o.schema_file t w ≡ Patch.ok frag)

  checked_table-eq-ok :
      (o : Options) (t : ModelTable)
      → checked_table os go gql wide_letter wide_digit o ≡ Checks.ok t
      → All (IsTagRune go.prints) o.table
        × ((cs : List Column) × IsTableOf go.prints o.type_name o.fields cs t)
  unfolding checked_table
  checked_table-eq-ok o t h =
      let (u, tag, table) =
        Checks.>>=-eq-ok (check_tag go.prints o.table)
          (λ _. table_from_fields wide_letter wide_digit go.prints o.type_name o.fields) t h in
      (
        (check_tag_iff go.prints o.table).0 tag,
        (table_from_fields_iff wide_letter wide_digit go.prints o.type_name o.fields t).0 table,
      )

  -- What running with checked options comes to: the error of a check, and the world as it was; or writing,
  -- with all that is checked holding.
  abbrev pub IsRun : Options → os.World → os.World × Ended → Type 0
  IsRun o w r =
      ((e : GenerateFailure) × IsCheck e × (r ≡ (w, some e)))
      ⊎ ((t : ModelTable) × (frag : Text) × IsChecked o w t frag
          × (r ≡ write_stages os go gql wide_letter wide_digit o t frag w))

  -- generate_with from the checks on, and from the plan on.
  abbrev ran_planned : Options → os.World → ModelTable → Outcome Text → os.World × Ended
  ran_planned o w t r = elim r as (λ _. os.World × Ended) [
    | Patch.ok frag ↦ write_stages os go gql wide_letter wide_digit o t frag w
    | Patch.failed e ↦ (w, some (checking_sdl e))
  ]

  abbrev ran_checked : Options → os.World → Checked ModelTable → os.World × Ended
  ran_checked o w r = elim r as (λ _. os.World × Ended) [
    | Checks.failed e ↦ (w, some (building e))
    | Checks.ok t ↦ ran_planned o w t (plan_sdl gql os o.schema_file t w)
  ]

  generate_with-IsRun :
      (o : Options) (w : os.World)
      → IsFieldName o.type_name
      → IsRun o w (generate_with os go gql wide_letter wide_digit o w)
  unfolding generate_with
  generate_with-IsRun o w named =
      elim (Checked-cases (checked_table os go gql wide_letter wide_digit o)) [
        | inr (f, a) ↦ inl (building f, tt, ap (ran_checked o w) a)
        | inl (t, a) ↦ elim (Outcome-cases (plan_sdl gql os o.schema_file t w)) [
          | inr (f, b) ↦ inl (checking_sdl f, tt, ap (ran_checked o w) a ∙ ap (ran_planned o w t) b)
          | inl (frag, b) ↦
              let (tag, table) = checked_table-eq-ok o t a in
              inr
                (t, frag, (named, tag, table, b), ap (ran_checked o w) a ∙ ap (ran_planned o w t) b)
        ]
      ]

  -- Generate ends with the error of a check, and with the world as it was; or the type is a name, every
  -- rune of the table name may stand in a tag, the table is the one of the fields, the fragment is planned
  -- against the schema as it is, and what Generate does is to run the stages that write.
  pub generate-IsRun :
      (o : Options) (w : os.World)
      → IsRun (with_defaults os o) w (generate os go gql wide_letter wide_digit o w)
  unfolding generate with_defaults
  generate-IsRun o w = elim (Bool-cases (text_eq o.type_name [])) [
    | inl e ↦ inl (type_required, tt, rw e refl)
    | inr e ↦ elim (Checked-cases (check_ident wide_letter wide_digit o.type_name)) [
      | inr (f, a) ↦ inl (building f, tt, rw (e, a) refl)
      | inl (u, a) ↦
          rw (e, a)
            (generate_with-IsRun (with_defaults os o) w
              ((check_ident_iff wide_letter wide_digit o.type_name).0 a))
    ]
  ]
