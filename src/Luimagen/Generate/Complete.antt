-- ===== src/Luimagen/Generate/Complete.antt =====
-- luimagen/luimagen.go: what a run of `Generate` without an error has left on disk.
use luima.Prelude.{
  ℕ, Bool, true, false, not, List, none, some, ◌≡◌, refl, sym, inl, inr, subst, ◌++◌, codes, Text,
  if◌then◌else◌,
}
use luima.Luimagen.Table.{Column, ModelTable}
use luima.Luimagen.Table.Accepted.{IsTableOf}
use luima.Luimagen.Patch as Patch
use luima.Luimagen.Patch.{
  Failure, no_stub, Outcome, ok, failed, Tools, option_or, patch_source, check_complete,
}
use luima.Luimagen.Patch.Report.{IsComplete, check_complete_iff}
use luima.Luimagen.Files.{
  Os, writing, patch_stubs, write_if, write_model, append_sdl, run_gqlgen_generate,
  read_input_fields,
}
use luima.Luimagen.Schema.{Gqlparser}
use luima.Luimagen.Generate.{
  Options, with_defaults, GenerateFailure, writing_model, writing_sdl, running_gqlgen,
  reading_input, patching, Ended, stage, write_stages, generate,
}
use luima.Luimagen.Generate.Validated.{IsRun, generate-IsRun}

module _ (os : Os) where
  -- A write that succeeds leaves the text in the file.
  abbrev pub KeepsWrites : Type 0
  KeepsWrites =
      (path src : Text) (w w' : os.World)
      → os.write_file path src w ≡ (w', true)
      → os.read_file path w' ≡ some src

  -- What holds of the result and the world behind a computation that succeeds.
  abbrev pub Ends {ℓ} : {A : Type ℓ} → (A → os.World → Type 0) → os.World × Outcome A → Type 0
  Ends P (w, ok a) = P a w
  Ends P (w, failed e) = Unit

  >>=-Ends :
      {A B : Type 0} (Q : A → os.World → Type 0) (P : B → os.World → Type 0)
      (r : os.World × Outcome A) (f : A → os.World → os.World × Outcome B)
      → Ends Q r
      → ((a : A) (w : os.World) → Q a w → Ends P (f a w))
      → Ends P (
          let (w', x) = r in
          elim x as (λ _. os.World × Outcome B) [ ok a ↦ f a w' | failed e ↦ (w', failed e) ])
  >>=-Ends Q P (w, ok a) f q h = h a w q
  >>=-Ends Q P (w, failed e) f q h = tt

  Ends-map :
      {A : Type 0} (Q P : A → os.World → Type 0) (r : os.World × Outcome A)
      → ((a : A) (w : os.World) → Q a w → P a w)
      → Ends Q r
      → Ends P r
  Ends-map Q P (w, ok a) h q = h a w q
  Ends-map Q P (w, failed e) h q = tt

  anything-Ends : {A : Type 0} (r : os.World × Outcome A) → Ends (λ _ _. Unit) r
  anything-Ends (w, ok a) = tt
  anything-Ends (w, failed e) = tt

  reading-Ends :
      {A : Type 0} (r : Outcome A) (w : os.World) → Ends (λ a w'. (w' ≡ w) × (r ≡ ok a)) (w, r)
  reading-Ends (ok a) w = (refl, refl)
  reading-Ends (failed e) w = tt

  writing-Ends :
      (e : Failure) (r : os.World × Bool)
      → Ends {0} {A = Unit {0}}
          (λ _ w'. r ≡ (w', true))
          (let (w', done) = r in (w', (if done then ok tt else failed e)))
  writing-Ends e (w', true) = refl
  writing-Ends e (w', false) = tt

  must-Ends :
      (b : Bool) (e : Failure) (P : Unit {0} → os.World → Type 0) (w : os.World)
      → (b ≡ true → P tt w)
      → Ends P (w, (if not b then failed e else ok tt))
  must-Ends true e P w h = h refl
  must-Ends false e P w h = tt

  module _ (go : Tools) where
    -- The file at the path is complete.
    abbrev pub HasComplete : Text → ModelTable → os.World → Type 0
    HasComplete path t w = (src : Text) × (os.read_file path w ≡ some src) × IsComplete go src t

    write_if-Ends :
        (changed : Bool) (path src : Text) (w : os.World)
        → KeepsWrites
        → Ends
            (λ _ w'. changed ≡ true → os.read_file path w' ≡ some src)
            (write_if os go changed path src w)
    write_if-Ends true path src w keeps =
        Ends-map (λ _ w'. os.write_file path src w ≡ (w', true))
          (λ _ w'. true ≡ true → os.read_file path w' ≡ some src)
          (writing os Patch.unwritten (os.write_file path src) w)
          (λ _ w' e _. keeps path src w w' e)
          (writing-Ends Patch.unwritten (os.write_file path src w))
    write_if-Ends false path src w keeps = λ e. absurd (cc)

    patch_stubs-HasComplete :
        (path : Text) (t : ModelTable) (model_pkg : Text) (fields : List (Text × Text))
        (w : os.World)
        → KeepsWrites
        → Ends (λ _. HasComplete path t) (patch_stubs os go path t model_pkg fields w)
    unfolding patch_stubs
    patch_stubs-HasComplete path t model_pkg fields w keeps =
        let P : Unit {0} → os.World → Type 0 = λ _. HasComplete path t in
        >>=-Ends (λ _ _. Unit) P (w, option_or Patch.unread (os.read_file path w)) _
          (anything-Ends (w, option_or Patch.unread (os.read_file path w)))
          λ src w1 _.
            >>=-Ends (λ _ _. Unit) P (w1, patch_source go src t model_pkg fields) _
              (anything-Ends (w1, patch_source go src t model_pkg fields))
              λ (patched, changed) w2 _.
                >>=-Ends (λ _ w'. changed ≡ true → os.read_file path w' ≡ some patched) P
                  (write_if os go changed path patched w2) _
                  (write_if-Ends changed path patched w2 keeps)
                  λ _ w3 saved.
                    >>=-Ends (λ _ w'. (w' ≡ w3) × (check_complete go patched t ≡ ok tt)) P
                      (w3, check_complete go patched t) _
                      (reading-Ends (check_complete go patched t) w3)
                      λ _ w4 (same, complete). must-Ends changed (no_stub t.type_name) P w4 λ e. (
                        patched,
                        subst (λ w. os.read_file path w ≡ some patched) (sym same) (saved e),
                        (check_complete_iff go patched t).0 complete,
                      )

    module _ (gql : Gqlparser) (wide_letter wide_digit : ℕ → Bool) where
      -- The table that the options give has its five methods in the resolver file.
      abbrev pub HasMethods : Options → os.World × Ended → Type 0
      HasMethods o (w, none) =
          (t : ModelTable) × (cs : List Column) × IsTableOf go.prints o.type_name o.fields cs t
          × HasComplete o.resolver_file t w
      HasMethods o (w, some e) = Unit

      stage-HasMethods :
          {A : Type 0} (o : Options) (Q : A → os.World → Type 0) (wrap : Failure → GenerateFailure)
          (r : os.World × Outcome A) (k : A → os.World → os.World × Ended)
          → Ends Q r
          → ((a : A) (w : os.World) → Q a w → HasMethods o (k a w))
          → HasMethods o (
              let (w', x) = r in
              elim x as (λ _. os.World × Ended) [ ok a ↦ k a w' | failed e ↦ (w', some (wrap e)) ])
      stage-HasMethods o Q wrap (w, ok a) k q h = h a w q
      stage-HasMethods o Q wrap (w, failed e) k q h = tt

      -- A stage of which nothing is asked.
      stage-any :
          {A : Type 0} (o : Options) (wrap : Failure → GenerateFailure)
          (m : os.World → os.World × Outcome A) (k : A → os.World → os.World × Ended) (w : os.World)
          → ((a : A) (w : os.World) → HasMethods o (k a w))
          → HasMethods o (stage os go gql wide_letter wide_digit wrap m k w)
      stage-any o wrap m k w h =
          stage-HasMethods o (λ _ _. Unit) wrap (m w) k (anything-Ends (m w)) λ a w' _. h a w'

      write_stages-HasMethods :
          (o : Options) (t : ModelTable) (frag : Text) (w : os.World)
          → KeepsWrites
          → ((cs : List Column) × IsTableOf go.prints o.type_name o.fields cs t)
          → HasMethods o (write_stages os go gql wide_letter wide_digit o t frag w)
      unfolding write_stages
      write_stages-HasMethods o t frag w keeps (cs, table) =
          let k5 : Unit {0} → os.World → os.World × Ended = λ _ w. (w, none) in
          let k4 : List (Text × Text) → os.World → os.World × Ended = λ fields.
            stage os go gql wide_letter wide_digit patching
              (patch_stubs os go o.resolver_file t o.model_pkg fields) k5 in
          let k3 : Unit {0} → os.World → os.World × Ended = λ _.
            stage os go gql wide_letter wide_digit reading_input
              (read_input_fields os go o.model_dir (o.type_name ++ codes "Input")) k4 in
          let k2 : Unit {0} → os.World → os.World × Ended = λ _.
            stage os go gql wide_letter wide_digit running_gqlgen (run_gqlgen_generate os go o.dir)
              k3 in
          let k1 : Unit {0} → os.World → os.World × Ended = λ _.
            stage os go gql wide_letter wide_digit writing_sdl (append_sdl os go o.schema_file frag)
              k2 in
          let Q : Unit {0} → os.World → Type 0 = λ _. HasComplete o.resolver_file t in
          stage-any o writing_model (write_model os go o.model_dir o.model_pkg t o.table) k1 w
            λ _ w1. stage-any o writing_sdl (append_sdl os go o.schema_file frag) k2 w1 λ _ w2.
              stage-any o running_gqlgen (run_gqlgen_generate os go o.dir) k3 w2 λ _ w3.
                stage-any o reading_input
                  (read_input_fields os go o.model_dir (o.type_name ++ codes "Input")) k4 w3
                  λ fields w4.
                    stage-HasMethods o Q patching
                      (patch_stubs os go o.resolver_file t o.model_pkg fields w4) k5
                      (patch_stubs-HasComplete o.resolver_file t o.model_pkg fields w4 keeps)
                      λ _ w5 complete. (t, cs, table, complete)

      IsRun-HasMethods :
          (o : Options) (w : os.World) (r : os.World × Ended)
          → KeepsWrites
          → IsRun os go gql wide_letter wide_digit o w r
          → HasMethods o r
      IsRun-HasMethods o w r keeps (inl (e, check, same)) = subst (HasMethods o) (sym same) tt
      IsRun-HasMethods o w r keeps (inr (t, frag, (named, tag, table, plan), same)) =
          subst (HasMethods o) (sym same) (write_stages-HasMethods o t frag w keeps table)

      -- Where a write that succeeds leaves its text in the file, a run of Generate without an error ends with
      -- a resolver file that parses and has the five methods of the type's table, none with a call of panic.
      pub generate-HasMethods :
          (o : Options) (w : os.World)
          → KeepsWrites
          → HasMethods (with_defaults os o) (generate os go gql wide_letter wide_digit o w)
      generate-HasMethods o w keeps =
          IsRun-HasMethods (with_defaults os o) w (generate os go gql wide_letter wide_digit o w)
            keeps (generate-IsRun os go gql wide_letter wide_digit o w)
