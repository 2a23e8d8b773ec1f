-- ===== src/Luimagen/Generate.antt =====
-- luimagen/luimagen.go: `Options`, `withDefaults`, `rebase` and `Generate`.
pub mod Defaults
pub mod Validated
pub mod Complete
pub mod Quiet
use luima.Prelude.{
  ℕ, Bool, false, ◌==◌, List, [], ◌∷◌, ◌++◌, Option, none, some, Text, codes, text_eq,
  if◌then◌else◌,
}
use luima.Luimagen.Names.{snake_case}
use luima.Luimagen.Checks as Checks
use luima.Luimagen.Checks.{Checked, ◌>>=◌, ◌>>◌, check_ident, check_tag}
use luima.Luimagen.Table.{Field, ModelTable, table_from_fields}
use luima.Luimagen.Patch.{Failure, Outcome, Tools}
use luima.Luimagen.Patch as Patch
use luima.Luimagen.Files.{
  Os, join_path, write_model, append_sdl, run_gqlgen_generate, read_input_fields, patch_stubs,
}
use luima.Luimagen.Schema.{Gqlparser, plan_sdl}

pub record Options : Type 0 where
  pub type_name : Text
  pub fields : List Field
  pub table : Text
  pub dir : Text
  pub model_dir : Text
  pub schema_file : Text
  pub resolver_file : Text
  pub model_pkg : Text

abbrev pub or_default : Text → Text → Text
or_default [] def = def
or_default (c ∷ s) def = c ∷ s

-- `strings.TrimSuffix`.
unfoldable pub trim_suffix : Text → Text → Text
trim_suffix [] suffix = []
trim_suffix (c ∷ s) suffix = if text_eq (c ∷ s) suffix then [] else c ∷ trim_suffix s suffix

abbrev pub is_abs : Text → Bool
is_abs [] = false
is_abs (c ∷ path) = c == b'/'

module _ (os : Os) where
  -- `rebase`.
  unfoldable pub rebase : Text → Text → Text
  rebase dir path = if is_abs path then path else join_path os dir path

  abbrev pub default_schema : Options → Text
  default_schema o = or_default o.schema_file (codes "graph/schema.graphqls")

  abbrev pub default_dir : Options → Text
  default_dir o = or_default o.dir (codes ".")

  -- `withDefaults`.
  unfoldable pub with_defaults : Options → Options
  with_defaults o = record o {
    table = or_default o.table (snake_case o.type_name ++ codes "s");
    dir = default_dir o;
    model_dir = rebase (default_dir o) (or_default o.model_dir (codes "graph/model"));
    schema_file = rebase (default_dir o) (default_schema o);
    resolver_file = rebase (default_dir o) (
        or_default o.resolver_file
          (trim_suffix (default_schema o) (os.ext (default_schema o)) ++ codes ".resolvers.go"));
    model_pkg = or_default o.model_pkg (codes "model");
  }

-- The stage that failed, with its error.
pub data GenerateFailure : Type 0 where
  type_required : GenerateFailure
  building : Checks.Failure → GenerateFailure
  checking_sdl writing_model writing_sdl running_gqlgen reading_input patching :
      Failure → GenerateFailure

-- The error that Generate returns; none is nil.
abbrev pub Ended : Type 0
Ended = Option GenerateFailure

module _ (os : Os) (go : Tools) (gql : Gqlparser) (wide_letter wide_digit : ℕ → Bool) where
  -- What runs in the world, up to an error, which is wrapped by its stage.
  abbrev pub stage :
      {A : Type 0}
      → (Failure → GenerateFailure)
      → (os.World → os.World × Outcome A)
      → (A → os.World → os.World × Ended)
      → os.World
      → os.World × Ended
  stage wrap m k w =
      let (w', r) = m w in elim r [ Patch.ok a ↦ k a w' | Patch.failed e ↦ (w', some (wrap e)) ]

  -- The stages that write.
  unfoldable pub write_stages : Options → ModelTable → Text → os.World → os.World × Ended
  write_stages o t frag =
      stage writing_model (write_model os go o.model_dir o.model_pkg t o.table) λ _.
        stage writing_sdl (append_sdl os go o.schema_file frag) λ _.
          stage running_gqlgen (run_gqlgen_generate os go o.dir) λ _.
            stage reading_input (read_input_fields os go o.model_dir (o.type_name ++ codes "Input"))
              λ fields.
                stage patching (patch_stubs os go o.resolver_file t o.model_pkg fields)
                  λ _ w. (w, none)

  -- The stages that build the table and check the options, once Type is a name.
  unfoldable pub checked_table : Options → Checked ModelTable
  checked_table o = do
    check_tag go.prints o.table
    table_from_fields wide_letter wide_digit go.prints o.type_name o.fields

  unfoldable pub generate_with : Options → os.World → os.World × Ended
  generate_with o w = elim (checked_table o) as (λ _. os.World × Ended) [
    | Checks.failed e ↦ (w, some (building e))
    | Checks.ok t ↦
        stage checking_sdl (λ w. (w, plan_sdl gql os o.schema_file t w)) (write_stages o t) w
  ]

  -- `Generate`.
  unfoldable pub generate : Options → os.World → os.World × Ended
  generate o w =
      if text_eq o.type_name []
      then (w, some type_required)
      else elim (check_ident wide_letter wide_digit o.type_name) as (λ _. os.World × Ended) [
        | Checks.failed e ↦ (w, some (building e))
        | Checks.ok _ ↦ generate_with (with_defaults os o) w
      ]
