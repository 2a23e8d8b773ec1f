-- ===== src/Cmd.antt =====
-- cmd/luimagen/main.go: `fields.Set` and `main`. The package flag is modelled by what main asks of it: a
-- flag with its value is applied where it stands, and an error of Set ends the program.
pub mod RoundTrip
pub mod Resolves
mod Tests
use luima.Prelude.{
  ℕ, Bool, true, false, ◌==◌, List, [], ◌∷◌, ◌++◌, Option, none, some, Text, codes, text_eq,
  if◌then◌else◌,
}
use luima.Luimagen.Runes.{after_prefix}
use luima.Luimagen.Table.{Field}
use luima.Luimagen.Patch.{Tools}
use luima.Luimagen.Files.{Os}
use luima.Luimagen.Schema.{Gqlparser}
use luima.Luimagen.Generate.{Options, GenerateFailure, Ended, generate}

-- The error of Set: fewer than two segments, or a segment that is no option.
pub data SetFailure : Type 0 where
  too_few : Text → SetFailure
  unknown_option : Text → Text → SetFailure

pub data Collected : Type 0 where
  collected : List Field → Collected
  refused : SetFailure → Collected

-- The first segment of `strings.Split(v, ":")`, and the others.
abbrev pub cons_first : ℕ → Text × List Text → Text × List Text
cons_first c (part, parts) = (c ∷ part, parts)

unfoldable pub split : Text → Text × List Text
split [] = ([], [])
split (c ∷ s) =
    let (part, parts) = split s in
    if c == b':' then ([], part ∷ parts) else cons_first c (part, parts)

-- The loop over the options of a field.
unfoldable pub set_options : List Field → Text → Field → List Text → Collected
set_options fields v field [] = collected (fields ++ field ∷ [])
set_options fields v field (opt ∷ opts) =
    let with_pk = set_options fields v (record field { pk = true }) opts in
    if text_eq opt (codes "pk")
    then with_pk
    else elim (after_prefix (codes "column=") opt) as (λ _. Collected) [
      | some name ↦ set_options fields v (record field { column = name }) opts
      | none ↦ refused (unknown_option v opt)
    ]

-- `fields.Set`.
unfoldable pub set : List Field → Text → Collected
set fields v =
    let (name, parts) = split v in
    elim parts as (λ _. Collected) [
      | [] ↦ refused (too_few v)
      | go_type ∷ opts ↦
          set_options fields v (record { name = name; go_type = go_type; pk = false; column = [] })
            opts
    ]

-- The flags of main.
pub data Flag : Type 0 where
  type_flag field_flag table_flag dir_flag model_dir_flag schema_flag resolvers_flag
        model_pkg_flag :
      Flag

pub data Flags : Type 0 where
  parsed : Options → Flags
  bad_value : SetFailure → Flags

abbrev pub with_fields : Options → Collected → Flags
with_fields opts (collected fields) = parsed (record opts { fields = fields })
with_fields opts (refused e) = bad_value e

-- What one flag sets; the fields are collected in the options.
unfoldable pub set_flag : Options → Flag → Text → Flags
set_flag opts type_flag v = parsed (record opts { type_name = v })
set_flag opts field_flag v = with_fields opts (set opts.fields v)
set_flag opts table_flag v = parsed (record opts { table = v })
set_flag opts dir_flag v = parsed (record opts { dir = v })
set_flag opts model_dir_flag v = parsed (record opts { model_dir = v })
set_flag opts schema_flag v = parsed (record opts { schema_file = v })
set_flag opts resolvers_flag v = parsed (record opts { resolver_file = v })
set_flag opts model_pkg_flag v = parsed (record opts { model_pkg = v })

abbrev pub no_options : Options
no_options = record {
  type_name = [];
  fields = [];
  table = [];
  dir = [];
  model_dir = [];
  schema_file = [];
  resolver_file = [];
  model_pkg = [];
}

unfoldable pub parse_flags : Options → List (Flag × Text) → Flags
parse_flags opts [] = parsed opts
parse_flags opts ((flag, v) ∷ args) = elim (set_flag opts flag v) as (λ _. Flags) [
  | bad_value e ↦ bad_value e
  | parsed opts' ↦ parse_flags opts' args
]

-- How the program ends: with the line on stdout about the type, or with an error and a status that is not 0.
pub data Exit : Type 0 where
  resolves : Text → Exit
  no_type no_field : Exit
  bad_flag : SetFailure → Exit
  not_generated : GenerateFailure → Exit

module _ (os : Os) (go : Tools) (gql : Gqlparser) (wide_letter wide_digit : ℕ → Bool) where
  abbrev pub exit_of : Options → os.World × Ended → os.World × Exit
  exit_of opts (w, none) = (w, resolves opts.type_name)
  exit_of opts (w, some e) = (w, not_generated e)

  -- `main`, once the flags are parsed.
  unfoldable pub run : Options → os.World → os.World × Exit
  run opts w =
      if text_eq opts.type_name []
      then (w, no_type)
      else elim opts.fields as (λ _. os.World × Exit) [
        | [] ↦ (w, no_field)
        | _ ∷ _ ↦ exit_of opts (generate os go gql wide_letter wide_digit opts w)
      ]

  -- `main`.
  unfoldable pub main : List (Flag × Text) → os.World → os.World × Exit
  main args w = elim (parse_flags no_options args) as (λ _. os.World × Exit) [
    | bad_value e ↦ (w, bad_flag e)
    | parsed opts ↦ run opts w
  ]
