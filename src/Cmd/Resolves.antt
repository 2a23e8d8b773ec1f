-- ===== src/Cmd/Resolves.antt =====
-- cmd/luimagen/main.go: what has happened where `main` says that the methods resolve.
use luima.Prelude.{
  ℕ, Bool, List, [], ◌∷◌, none, some, ◌≡◌, refl, Text, text_eq, Bool-cases, inl, inr,
}
use luima.Luimagen.Table.{Field}
use luima.Luimagen.Patch.{Tools}
use luima.Luimagen.Files.{Os}
use luima.Luimagen.Schema.{Gqlparser}
use luima.Luimagen.Generate.{Options, Ended, with_defaults, generate}
use luima.Luimagen.Generate.Complete.{KeepsWrites, HasMethods, generate-HasMethods}
use luima.Cmd.{
  Flag, Flags, parsed, bad_value, parse_flags, no_options, Exit, resolves, no_field, bad_flag,
  not_generated, exit_of, run, main,
}

module _ (os : Os) (go : Tools) (gql : Gqlparser) (wide_letter wide_digit : ℕ → Bool) where
  -- What holds where main ends with a world and an exit, from the flags that it was given.
  abbrev pub IsEnd : Flags → os.World → os.World × Exit → Type 0
  IsEnd flags w (w', resolves name) =
      (opts : Options) × (flags ≡ parsed opts)
      × (opts.type_name ≡ name)
      × HasMethods os go gql wide_letter wide_digit (with_defaults os opts) (w', none)
  IsEnd flags w (w', not_generated e) = Unit
  IsEnd flags w (w', _) = w' ≡ w

  exit_of-IsEnd :
      (opts : Options) (w : os.World) (r : os.World × Ended)
      → HasMethods os go gql wide_letter wide_digit (with_defaults os opts) r
      → IsEnd (parsed opts) w (exit_of os go gql wide_letter wide_digit opts r)
  exit_of-IsEnd opts w (w', none) h = (opts, refl, refl, h)
  exit_of-IsEnd opts w (w', some e) h = tt

  run-IsEnd :
      (opts : Options) (w : os.World)
      → KeepsWrites os
      → IsEnd (parsed opts) w (run os go gql wide_letter wide_digit opts w)
  unfolding run
  run-IsEnd opts w keeps = elim (Bool-cases (text_eq opts.type_name [])) [
    | inl e ↦ rw e refl
    | inr e ↦ rw e (some_fields opts.fields)
  ]
    where
      some_fields :
          (fields : List Field)
          → IsEnd (parsed opts) w (elim fields as (λ _. os.World × Exit) [
            | [] ↦ (w, no_field)
            | _ ∷ _ ↦
                exit_of os go gql wide_letter wide_digit opts
                  (generate os go gql wide_letter wide_digit opts w)
          ])
      some_fields [] = refl
      some_fields (f ∷ fields) =
          exit_of-IsEnd opts w (generate os go gql wide_letter wide_digit opts w)
            (generate-HasMethods os go gql wide_letter wide_digit opts w keeps)

  -- Where a write that succeeds leaves its text in the file, main says that the methods of a type resolve
  -- only where the flags gave that type, and the resolver file then has the five methods of the table of
  -- the fields given, none with a call of panic; and where a flag has no value that can be read, or the
  -- type or the fields are not given, it ends with the world as it was.
  pub main-IsEnd :
      (args : List (Flag × Text)) (w : os.World)
      → KeepsWrites os
      → IsEnd (parse_flags no_options args) w (main os go gql wide_letter wide_digit args w)
  unfolding main
  main-IsEnd args w keeps = from_flags (parse_flags no_options args)
    where
      from_flags :
          (flags : Flags)
          → IsEnd flags w (elim flags as (λ _. os.World × Exit) [
            | bad_value e ↦ (w, bad_flag e)
            | parsed opts ↦ run os go gql wide_letter wide_digit opts w
          ])
      from_flags (parsed opts) = run-IsEnd opts w keeps
      from_flags (bad_value e) = refl
