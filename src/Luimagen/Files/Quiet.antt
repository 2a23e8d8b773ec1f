-- ===== src/Luimagen/Files/Quiet.antt =====
-- luimagen/: the errors of the steps that read and write files.
use luima.Prelude.{
  Bool, true, false, not, List, [], ◌∷◌, ◌++◌, Option, none, some, ◌≢◌, Text, codes, Option-cases,
  inl, inr, if◌then◌else◌,
}
use luima.Luimagen.Syntax.{File}
use luima.Luimagen.Stubs.{find_struct}
use luima.Luimagen.Splice.Sorted.{Sorts}
use luima.Luimagen.Table.{ModelTable}
use luima.Luimagen.Targets.{lower}
use luima.Luimagen.Source.{model_text}
use luima.Luimagen.Patch.{
  Failure, unread, unwritten, no_stub, no_directory, model_exists, not_generated, out_of_range,
  unformatted, Outcome, ok, failed, option_or, Tools, patch_source, check_complete,
  input_field_names, names_of_fields, report, missing_of, panics_of,
}
use luima.Luimagen.Patch as Patch
use luima.Luimagen.Patch.Total.{
  NoPanic, >>=-NoPanic, option_or-NoPanic, PlacesDecls, patch_source-NoPanic,
}
use luima.Luimagen.Files as Files
use luima.Luimagen.Files.{
  Os, reading, writing, write_if, write_model, append_sdl, run_gqlgen_generate, read_input_fields,
  patch_stubs, parse_files, join_path, package_clause,
}

input_field_names-NoPanic :
    (files : List (Option File)) (name : Text) → NoPanic (input_field_names files name)
unfolding input_field_names
input_field_names-NoPanic [] name = λ h. cc
input_field_names-NoPanic (none ∷ files) name = input_field_names-NoPanic files name
input_field_names-NoPanic (some file ∷ files) name =
    elim (Option-cases (find_struct name file.decls)) [
      | inl e ↦ rw (e, NoPanic) (input_field_names-NoPanic files name)
      | inr (fields, e) ↦ rw (e, NoPanic) tt
    ]

report-NoPanic : (go : Tools) (ms ps : List Text) → NoPanic (report go ms ps)
report-NoPanic go [] [] = tt
report-NoPanic go [] (p ∷ ps) = λ h. cc
report-NoPanic go (m ∷ ms) ps = λ h. cc

check_complete-NoPanic :
    (go : Tools) (src : Text) (t : ModelTable) → NoPanic (check_complete go src t)
unfolding check_complete
check_complete-NoPanic go src t =
    >>=-NoPanic (option_or Patch.reparse (go.parse src)) _
      (option_or-NoPanic Patch.reparse (go.parse src) (λ h. cc)) λ file _. report-NoPanic go _ _

module _ (os : Os) where
  abbrev pub Quiet {ℓ} : {A : Type ℓ} → os.World × Outcome A → Type 0
  Quiet (w, ok a) = Unit
  Quiet (w, failed e) = e ≢ out_of_range

  pub reading-Quiet {ℓ} : {A : Type ℓ} (w : os.World) (r : Outcome A) → NoPanic r → Quiet (w, r)
  reading-Quiet w (ok a) h = tt
  reading-Quiet w (failed e) h = h

  >>=-Quiet :
      {A B : Type 0} (r : os.World × Outcome A) (f : A → os.World → os.World × Outcome B)
      → Quiet r
      → ((a : A) (w : os.World) → Quiet (f a w))
      → Quiet (
          let (w', x) = r in
          elim x as (λ _. os.World × Outcome B) [ ok a ↦ f a w' | failed e ↦ (w', failed e) ])
  >>=-Quiet (w, ok a) f q h = h a w
  >>=-Quiet (w, failed e) f q h = q

  writing-Quiet :
      (e : Failure) (r : os.World × Bool)
      → e ≢ out_of_range
      → Quiet {0} {A = Unit {0}} (let (w', done) = r in (w', (if done then ok tt else failed e)))
  writing-Quiet e (w', true) h = tt
  writing-Quiet e (w', false) h = h

  if-Quiet :
      (b : Bool) (e : Failure) (w : os.World)
      → e ≢ out_of_range
      → Quiet {0} {A = Unit {0}} (w, (if b then failed e else ok tt))
  if-Quiet true e w h = h
  if-Quiet false e w h = tt

  module _ (go : Tools) where
    write_if-Quiet :
        (changed : Bool) (path src : Text) (w : os.World)
        → Quiet (write_if os go changed path src w)
    write_if-Quiet true path src w = writing-Quiet unwritten (os.write_file path src w) (λ h. cc)
    write_if-Quiet false path src w = tt

    pub write_model-Quiet :
        (dir pkg : Text) (t : ModelTable) (table : Text) (w : os.World)
        → Quiet (write_model os go dir pkg t table w)
    unfolding write_model
    write_model-Quiet dir pkg t table w =
        let path = join_path os dir (lower t.type_name ++ codes ".go") in
        let source : os.World → Outcome Text = λ w.
          option_or unformatted
            (go.format (model_text go.prints (package_clause os dir pkg w) t table)) in
        let save : Text → os.World → os.World × Outcome (Unit {0}) =
          λ src. writing os unwritten (os.write_file path src) in
        let print : Unit {0} → os.World → os.World × Outcome (Unit {0}) =
          λ _. Files.◌>>=◌ os (reading os source) save in
        let test : os.World → Outcome (Unit {0}) =
          λ w. if os.exists_file path w then failed (model_exists path) else ok tt in
        >>=-Quiet (writing os no_directory (os.mkdir_all dir) w)
          (λ _. Files.◌>>=◌ os (reading os test) print)
          (writing-Quiet no_directory (os.mkdir_all dir w) (λ h. cc))
          λ _ w1.
            >>=-Quiet (w1, test w1) print
              (if-Quiet (os.exists_file path w1) (model_exists path) w1 (λ h. cc))
              λ _ w2.
                >>=-Quiet (w2, source w2) save
                  (reading-Quiet w2 (source w2) (
                    option_or-NoPanic unformatted
                      (go.format (model_text go.prints (package_clause os dir pkg w2) t table))
                      (λ h. cc)))
                  λ src w3. writing-Quiet unwritten (os.write_file path src w3) (λ h. cc)

    pub append_sdl-Quiet : (path frag : Text) (w : os.World) → Quiet (append_sdl os go path frag w)
    unfolding append_sdl
    append_sdl-Quiet path frag w = writing-Quiet unwritten (os.append_file path _ w) (λ h. cc)

    pub run_gqlgen_generate-Quiet :
        (dir : Text) (w : os.World) → Quiet (run_gqlgen_generate os go dir w)
    unfolding run_gqlgen_generate
    run_gqlgen_generate-Quiet dir w = writing-Quiet not_generated (os.run_gqlgen dir w) (λ h. cc)

    pub read_input_fields-Quiet :
        (dir name : Text) (w : os.World) → Quiet (read_input_fields os go dir name w)
    unfolding read_input_fields
    read_input_fields-Quiet dir name w =
        elim (Option-cases (os.glob (join_path os dir (codes "*.go")) w)) [
          | inl e ↦ rw (e, Quiet) (λ h. cc)
          | inr (paths, e) ↦ rw e (
              reading-Quiet w (input_field_names (parse_files os go w paths) name)
                (input_field_names-NoPanic (parse_files os go w paths) name))
        ]

    module _ (sorts : Sorts go.sort_edits) (places : PlacesDecls go.parse) where
      pub patch_stubs-Quiet :
          (path : Text) (t : ModelTable) (model_pkg : Text) (fields : List (Text × Text))
          (w : os.World)
          → Quiet (patch_stubs os go path t model_pkg fields w)
      unfolding patch_stubs
      patch_stubs-Quiet path t model_pkg fields w =
          let Step : Type 0 = os.World → os.World × Outcome (Unit {0}) in
          let told : Bool → Unit {0} → Step =
            λ changed _ w. (w, if not changed then failed (no_stub t.type_name) else ok tt) in
          let checked : Text → Bool → Unit {0} → Step = λ patched changed _.
            Files.◌>>=◌ os (reading os (λ w. check_complete go patched t)) (told changed) in
          let written : Text × Bool → Step = λ (patched, changed).
            Files.◌>>=◌ os (write_if os go changed path patched) (checked patched changed) in
          let read : Text → Step = λ src.
            Files.◌>>=◌ os (reading os (λ w. patch_source go src t model_pkg fields)) written in
          >>=-Quiet (w, option_or unread (os.read_file path w)) read
            (reading-Quiet w (option_or unread (os.read_file path w))
              (option_or-NoPanic unread (os.read_file path w) (λ h. cc)))
            λ src w1.
              >>=-Quiet (w1, patch_source go src t model_pkg fields) written
                (reading-Quiet w1 (patch_source go src t model_pkg fields)
                  (patch_source-NoPanic go sorts places src t model_pkg fields))
                λ (patched, changed) w2.
                  >>=-Quiet (write_if os go changed path patched w2) (checked patched changed)
                    (write_if-Quiet changed path patched w2)
                    λ _ w3.
                      >>=-Quiet (w3, check_complete go patched t) (told changed)
                        (reading-Quiet w3 (check_complete go patched t)
                          (check_complete-NoPanic go patched t))
                        λ _ w4. if-Quiet (not changed) (no_stub t.type_name) w4 (λ h. cc)
