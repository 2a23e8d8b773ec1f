-- ===== src/Luimagen/Files.antt =====
-- luimagen/: the file system and the other tools that Generate works with, as parameters, and the steps
-- that write: `patchStubs`, `writeModel`, `appendSDL` and `packageClause`.
pub mod Quiet
use luima.Prelude.{
  Bool, not, List, [], ◌∷◌, ◌++◌, Option, none, some, Text, codes, text_eq, if◌then◌else◌,
}
use luima.Luimagen.Runes.{has_suffix}
use luima.Luimagen.Syntax.{File}
use luima.Luimagen.Table.{ModelTable}
use luima.Luimagen.Targets.{lower}
use luima.Luimagen.Source.{model_text}
use luima.Luimagen.Patch.{
  Failure, unread, unwritten, no_stub, no_directory, model_exists, not_generated, unformatted,
  Outcome, ok, failed, option_or, Tools, patch_source, check_complete, input_field_names,
}

-- The world: files that are read, listed and written, each by its path, and the run of gqlgen. A write
-- says whether it succeeded. The last three are of the package filepath.
pub record Os : Type 1 where
  pub World : Type 0
  pub read_file : Text → World → Option Text
  pub exists_file : Text → World → Bool
  pub glob : Text → World → Option (List Text)
  pub write_file : Text → Text → World → World × Bool
  pub append_file : Text → Text → World → World × Bool
  pub mkdir_all : Text → World → World × Bool
  pub run_gqlgen : Text → World → World × Bool
  pub package_name : Text → Option Text
  pub clean : Text → Text
  pub dir_of : Text → Text
  pub ext : Text → Text

-- `filepath.Join` of two parts.
unfoldable pub join_path : Os → Text → Text → Text
join_path os [] [] = []
join_path os [] path = os.clean path
join_path os dir path = os.clean (dir ++ (codes "/" ++ path))

module _ (os : Os) where
  -- A computation that may fail and may change the world.
  abbrev pub Io {ℓ} : Type ℓ → Type ℓ
  Io A = os.World → os.World × Outcome A

  infixl 5 ◌>>=◌ ◌>>◌
  abbrev pub ◌>>=◌ : {A : Type 0} {B : Type 0} → Io A → (A → Io B) → Io B
  ◌>>=◌ m f w = let (w', r) = m w in elim r [ ok a ↦ f a w' | failed e ↦ (w', failed e) ]

  abbrev pub ◌>>◌ : {B : Type 0} → Io (Unit {0}) → Io B → Io B
  m >> k = m >>= λ _. k

  -- A result that looks at the world and leaves it.
  abbrev pub reading : {A : Type 0} → (os.World → Outcome A) → Io A
  reading f w = (w, f w)

  abbrev pub writing : Failure → (os.World → os.World × Bool) → Io (Unit {0})
  writing e f w = let (w', done) = f w in (w', (if done then ok tt else failed e))

  -- The loop of `packageClause` over the files of a directory.
  unfoldable pub first_package : List Text → Text → os.World → Text
  first_package [] fallback w = fallback
  first_package (p ∷ paths) fallback w =
      let rest = first_package paths fallback w in
      if has_suffix p (codes "_test.go") then rest else elim (os.read_file p w) as (λ _. Text) [
        | none ↦ rest
        | some src ↦ elim (os.package_name src) as (λ _. Text) [
          | none ↦ rest
          | some name ↦ if text_eq name [] then rest else name
        ]
      ]

  -- `packageClause`.
  unfoldable pub package_clause : Text → Text → os.World → Text
  package_clause dir fallback w =
      elim (os.glob (join_path os dir (codes "*.go")) w) as (λ _. Text) [
        | none ↦ fallback
        | some paths ↦ first_package paths fallback w
      ]

  module _ (go : Tools) where
    -- `writeModel`.
    unfoldable pub write_model : Text → Text → ModelTable → Text → Io (Unit {0})
    write_model dir pkg t table = do
      writing no_directory (os.mkdir_all dir)
      let path = join_path os dir (lower t.type_name ++ codes ".go")
      reading (λ w. if os.exists_file path w then failed (model_exists path) else ok tt)
      src ← reading (λ w.
          option_or unformatted
            (go.format (model_text go.prints (package_clause dir pkg w) t table)))
      writing unwritten (os.write_file path src)

    -- `appendSDL`.
    unfoldable pub append_sdl : Text → Text → Io (Unit {0})
    append_sdl path frag = writing unwritten (os.append_file path (codes "\n" ++ frag))

    -- `runGqlgenGenerate`.
    unfoldable pub run_gqlgen_generate : Text → Io (Unit {0})
    run_gqlgen_generate dir = writing not_generated (os.run_gqlgen dir)

    abbrev pub parse_file : os.World → Text → Option File
    parse_file w path = elim (os.read_file path w) [ none ↦ none | some src ↦ go.parse src ]

    abbrev pub parse_files : os.World → List Text → List (Option File)
    parse_files w [] = []
    parse_files w (p ∷ paths) = parse_file w p ∷ parse_files w paths

    -- `inputFieldNames`, of the files of a directory.
    unfoldable pub read_input_fields : Text → Text → Io (List (Text × Text))
    read_input_fields dir name = reading (λ w.
        elim (os.glob (join_path os dir (codes "*.go")) w) as (λ _. Outcome (List (Text × Text))) [
          | none ↦ failed unread
          | some paths ↦ input_field_names (parse_files w paths) name
        ])

    abbrev pub write_if : Bool → Text → Text → Io (Unit {0})
    write_if changed path src =
        if changed then writing unwritten (os.write_file path src) else reading (λ w. ok tt)

    -- `patchStubs`: what was patched is written before it is checked.
    unfoldable pub patch_stubs : Text → ModelTable → Text → List (Text × Text) → Io (Unit {0})
    patch_stubs path t model_pkg fields = do
      src ← reading (λ w. option_or unread (os.read_file path w))
      (patched, changed) ← reading (λ w. patch_source go src t model_pkg fields)
      write_if changed path patched
      reading (λ w. check_complete go patched t)
      reading (λ w. if not changed then failed (no_stub t.type_name) else ok tt)
