-- ===== src/Luimagen/Generate/Quiet.antt =====
-- luimagen/luimagen.go: the splices of a run of `Generate`.
use luima.Prelude.{
  ℕ, Bool, List, [], Option, none, some, ◌≡◌, ◌≢◌, refl, Text, codes, text_eq, ◌++◌, Bool-cases,
  inl, inr,
}
use luima.Luimagen.Splice.Sorted.{Sorts}
use luima.Luimagen.Table.{ModelTable}
use luima.Luimagen.Checks as Checks
use luima.Luimagen.Checks.{Checked, check_ident}
use luima.Luimagen.Patch.{Failure, out_of_range, Outcome, ok, failed, Tools}
use luima.Luimagen.Patch.Total.{PlacesDecls}
use luima.Luimagen.Files.{
  Os, write_model, append_sdl, run_gqlgen_generate, read_input_fields, patch_stubs,
}
use luima.Luimagen.Files.Quiet.{
  Quiet, reading-Quiet, write_model-Quiet, append_sdl-Quiet, run_gqlgen_generate-Quiet,
  read_input_fields-Quiet, patch_stubs-Quiet,
}
use luima.Luimagen.Schema.{Gqlparser, plan_sdl}
use luima.Luimagen.Schema.Quiet.{plan_sdl-NoPanic}
use luima.Luimagen.Generate.{
  Options, with_defaults, GenerateFailure, type_required, building, checking_sdl, writing_model,
  writing_sdl, running_gqlgen, reading_input, patching, Ended, stage, write_stages, checked_table,
  generate_with, generate,
}

-- The error that a stage wraps.
abbrev pub wrapped : GenerateFailure → Option Failure
wrapped type_required = none
wrapped (building e) = none
wrapped (checking_sdl e) = some e
wrapped (writing_model e) = some e
wrapped (writing_sdl e) = some e
wrapped (running_gqlgen e) = some e
wrapped (reading_input e) = some e
wrapped (patching e) = some e

-- The run did not end in the panic of a splice out of range.
abbrev pub IsInRange : Ended → Type 0
IsInRange none = Unit
IsInRange (some e) = wrapped e ≢ some out_of_range

module _ (os : Os) (go : Tools) (gql : Gqlparser) (wide_letter wide_digit : ℕ → Bool) where
  stage-IsInRange :
      {A : Type 0} (wrap : Failure → GenerateFailure) (m : os.World → os.World × Outcome A)
      (k : A → os.World → os.World × Ended) (w : os.World)
      → ((e : Failure) → wrapped (wrap e) ≡ some e)
      → Quiet os (m w)
      → ((a : A) (w : os.World) → IsInRange (k a w).1)
      → IsInRange (stage os go gql wide_letter wide_digit wrap m k w).1
  stage-IsInRange {A = A} wrap m k w wraps q h = of_result (m w) q
    where
      of_result :
          (r : os.World × Outcome A)
          → Quiet os r
          → IsInRange
              (let (w', x) = r in
                elim x as (λ _. os.World × Ended) [
                  | ok a ↦ k a w'
                  | failed e ↦ (w', some (wrap e))
                ]).1
      of_result (w', ok a) q = h a w'
      of_result (w', failed e) q = λ p. q (let s = wraps e in cc)

  module _ (sorts : Sorts go.sort_edits) (places : PlacesDecls go.parse) where
    write_stages-IsInRange :
        (o : Options) (t : ModelTable) (frag : Text) (w : os.World)
        → IsInRange (write_stages os go gql wide_letter wide_digit o t frag w).1
    unfolding write_stages
    write_stages-IsInRange o t frag w =
        let Step : Type 0 = os.World → os.World × Ended in
        let model = write_model os go o.model_dir o.model_pkg t o.table in
        let schema = append_sdl os go o.schema_file frag in
        let gqlgen = run_gqlgen_generate os go o.dir in
        let input = read_input_fields os go o.model_dir (o.type_name ++ codes "Input") in
        let patch : List (Text × Text) → os.World → os.World × Outcome (Unit {0}) =
          patch_stubs os go o.resolver_file t o.model_pkg in
        let k5 : Unit {0} → Step = λ _ w. (w, none) in
        let k4 : List (Text × Text) → Step =
          λ fields. stage os go gql wide_letter wide_digit patching (patch fields) k5 in
        let k3 : Unit {0} → Step =
          λ _. stage os go gql wide_letter wide_digit reading_input input k4 in
        let k2 : Unit {0} → Step =
          λ _. stage os go gql wide_letter wide_digit running_gqlgen gqlgen k3 in
        let k1 : Unit {0} → Step =
          λ _. stage os go gql wide_letter wide_digit writing_sdl schema k2 in
        stage-IsInRange writing_model model k1 w (λ e. refl)
          (write_model-Quiet os go o.model_dir o.model_pkg t o.table w)
          λ _ w1.
            stage-IsInRange writing_sdl schema k2 w1 (λ e. refl)
              (append_sdl-Quiet os go o.schema_file frag w1)
              λ _ w2.
                stage-IsInRange running_gqlgen gqlgen k3 w2 (λ e. refl)
                  (run_gqlgen_generate-Quiet os go o.dir w2)
                  λ _ w3.
                    stage-IsInRange reading_input input k4 w3 (λ e. refl)
                      (read_input_fields-Quiet os go o.model_dir (o.type_name ++ codes "Input") w3)
                      λ fields w4.
                        stage-IsInRange patching (patch fields) k5 w4 (λ e. refl)
                          (patch_stubs-Quiet os go sorts places o.resolver_file t o.model_pkg fields
                            w4)
                          λ _ w5. tt

    generate_with-IsInRange :
        (o : Options) (w : os.World)
        → IsInRange (generate_with os go gql wide_letter wide_digit o w).1
    unfolding generate_with
    generate_with-IsInRange o w = of_table (checked_table os go gql wide_letter wide_digit o)
      where
        plan : ModelTable → os.World → os.World × Outcome Text
        plan t w = (w, plan_sdl gql os o.schema_file t w)

        of_table :
            (r : Checked ModelTable)
            → IsInRange
                (elim r as (λ _. os.World × Ended) [
                  | Checks.failed e ↦ (w, some (building e))
                  | Checks.ok t ↦
                      stage os go gql wide_letter wide_digit checking_sdl
                        (plan t)
                        (write_stages os go gql wide_letter wide_digit o t)
                        w
                ]).1
        of_table (Checks.failed e) = λ h. cc
        of_table (Checks.ok t) =
            stage-IsInRange checking_sdl (plan t)
              (write_stages os go gql wide_letter wide_digit o t) w (λ e. refl)
              (reading-Quiet os w (plan_sdl gql os o.schema_file t w)
                (plan_sdl-NoPanic gql os o.schema_file t w))
              λ frag w'. write_stages-IsInRange o t frag w'

    -- Where slices.SortFunc sorts, and go/parser gives the imports and the bodies of the functions of a file their
    -- places, one behind the other: no run of Generate ends in the panic of a splice out of range, whatever the
    -- options, the world, and the other tools are.
    pub generate-IsInRange :
        (o : Options) (w : os.World) → IsInRange (generate os go gql wide_letter wide_digit o w).1
    unfolding generate
    generate-IsInRange o w = elim (Bool-cases (text_eq o.type_name [])) [
      | inl e ↦ rw e (λ h. cc)
      | inr e ↦ rw e (of_ident (check_ident wide_letter wide_digit o.type_name))
    ]
      where
        of_ident :
            (r : Checked (Unit {0}))
            → IsInRange
                (elim r as (λ _. os.World × Ended) [
                  | Checks.failed e ↦ (w, some (building e))
                  | Checks.ok _ ↦
                      generate_with os go gql wide_letter wide_digit (with_defaults os o) w
                ]).1
        of_ident (Checks.failed e) = λ h. cc
        of_ident (Checks.ok u) = generate_with-IsInRange (with_defaults os o) w
