-- ===== src/Luimagen/Patch/Total.antt =====
-- luimagen/patch.go: the errors of `patchSource`.
use luima.Prelude.{
  ◌+◌, Bool, false, ◌==◌, List, [], ◌∷◌, Option, none, some, ◌≡◌, refl, ◌≢◌, subst, sym, Text,
  length, AllPairs, Bool-cases, Option-cases, inl, inr,
}
use luima.Luimagen.Splice.{Edit, splice_all, apply_edits}
use luima.Luimagen.Splice.Replaced.{apply_edits-replaced}
use luima.Luimagen.Splice.Sorted.{Sorts, sort-IsBackToFront}
use luima.Luimagen.Syntax.{ImportDecl, Decl, File}
use luima.Luimagen.Table.{ModelTable}
use luima.Luimagen.Stubs.{find_func, is_stub, param_names}
use luima.Luimagen.Targets.{Target, targets}
use luima.Luimagen.Imports.{Added, added, bound, import_decls, final_imports}
use luima.Luimagen.Patch.{
  Outcome, ok, failed, Failure, unparsed, reparse, out_of_range, unformatted, option_or,
  option_or-eq-ok, stub_edits, Tools, edits_of_added, import_edits, splice_edits, patch_source,
  ◌>>=◌,
}
use luima.Luimagen.Patch.Apart.{IsPlaced, Clash}
use luima.Luimagen.Patch.Clashes.{targets-Clash}
use luima.Luimagen.Patch.Filled.{stub_edits-eq-ok}
use luima.Luimagen.Patch.Ranges.{AreSound, edits_of_decls, import_edits-AreSound}
use luima.Luimagen.Patch.Spliced.{All-Unit, edits-Within, edits-Apart}

-- No slice was out of range.
abbrev pub NoPanic {ℓ} : {A : Type ℓ} → Outcome A → Type 0
NoPanic (ok a) = Unit
NoPanic (failed e) = e ≢ out_of_range

pub >>=-NoPanic {ℓ κ} :
    {A : Type ℓ} {B : Type κ} (m : Outcome A) (f : A → Outcome B)
    → NoPanic m
    → ((a : A) → m ≡ ok a → NoPanic (f a))
    → NoPanic (m >>= f)
>>=-NoPanic (ok a) f h k = k a refl
>>=-NoPanic (failed e) f h k = h

pub option_or-NoPanic {ℓ} :
    {A : Type ℓ} (e : Failure) (o : Option A) → e ≢ out_of_range → NoPanic (option_or e o)
option_or-NoPanic e none h = h
option_or-NoPanic e (some a) h = tt

stub_edits-NoPanic : (decls : List Decl) (tgs : List Target) → NoPanic (stub_edits decls tgs)
unfolding stub_edits
stub_edits-NoPanic decls [] = tt
stub_edits-NoPanic decls (tg ∷ tgs) = elim (Option-cases (find_func decls tg.recv tg.name)) [
  | inl e ↦ rw (e, NoPanic) (stub_edits-NoPanic decls tgs)
  | inr (fn, e) ↦ elim (Bool-cases (is_stub fn)) [
    | inr a ↦ rw (e, a, NoPanic) (stub_edits-NoPanic decls tgs)
    | inl a ↦ elim (Bool-cases (length (param_names fn) == tg.arity)) [
      | inr n ↦ rw (e, a, n, NoPanic) (λ h. cc)
      | inl y ↦
          rw (e, a, y, NoPanic)
            (>>=-NoPanic (stub_edits decls tgs) _ (stub_edits-NoPanic decls tgs) (λ edits h. tt))
    ]
  ]
]

stub_edits-AreSound :
    (src : Text) (file : File) (tgs : List Target) (edits : List Edit)
    → IsPlaced (length src + 1) 0 file.decls
    → AllPairs Clash tgs
    → stub_edits file.decls tgs ≡ ok edits
    → AreSound src edits
stub_edits-AreSound src file tgs edits placed clash h =
    let filling = stub_edits-eq-ok file.decls tgs edits h in
    (
      edits-Within (length src) file.decls placed tgs edits (All-Unit tgs) filling,
      edits-Apart (length src) file.decls placed tgs edits clash filling,
    )

-- The parser gives the declarations of a file their places, one behind the other.
abbrev pub PlacesDecls : (Text → Option File) → Type 0
PlacesDecls parse =
    (src : Text) (file : File) → parse src ≡ some file → IsPlaced (length src + 1) 0 file.decls

module _ (go : Tools) where
  edits_of_added-NoPanic :
      (src : Text) (ds : List ImportDecl) (a : Added) → NoPanic (edits_of_added go src ds a)
  edits_of_added-NoPanic src ds (added imports) = tt
  edits_of_added-NoPanic src ds (bound name other path) = λ h. cc

  edits_of_decls-NoPanic :
      (src : Text) (a : Added) (ds : List ImportDecl) → NoPanic (edits_of_decls go src a ds)
  edits_of_decls-NoPanic src a [] = tt
  edits_of_decls-NoPanic src a (d ∷ ds) = edits_of_added-NoPanic src (d ∷ ds) a

  import_edits-NoPanic : (src : Text) (file : File) → NoPanic (import_edits go src file)
  unfolding import_edits
  import_edits-NoPanic src file =
      edits_of_decls-NoPanic src (final_imports file) (import_decls file.decls)

  module _ (sorts : Sorts go.sort_edits) (places : PlacesDecls go.parse) where
    sort-NoPanic :
        (src : Text) (edits : List Edit)
        → AreSound src edits
        → NoPanic (option_or out_of_range (splice_all (go.sort_edits edits) src))
    unfolding apply_edits
    sort-NoPanic src edits (within, apart) =
        subst (λ o. NoPanic (option_or out_of_range o))
          (sym (
            apply_edits-replaced go.sort_edits edits src
              (sort-IsBackToFront go.sort_edits edits (length src) sorts within apart)))
          tt

    splice_edits-NoPanic :
        (src : Text) (edits : List Edit) → AreSound src edits → NoPanic (splice_edits go src edits)
    unfolding splice_edits
    splice_edits-NoPanic src edits sound =
        >>=-NoPanic (option_or out_of_range (splice_all (go.sort_edits edits) src)) _
          (sort-NoPanic src edits sound)
          λ out _.
            >>=-NoPanic (option_or reparse (go.parse out)) _
              (option_or-NoPanic reparse (go.parse out) (λ h. cc))
              λ file parsed.
                >>=-NoPanic (import_edits go out file) _ (import_edits-NoPanic out file)
                  λ imports same.
                    >>=-NoPanic (option_or out_of_range (splice_all (go.sort_edits imports) out)) _
                      (sort-NoPanic out imports (
                        import_edits-AreSound go out file imports
                          (places out file (option_or-eq-ok reparse (go.parse out) file parsed))
                          same))
                      λ fixed _.
                        >>=-NoPanic (option_or unformatted (go.format fixed)) _
                          (option_or-NoPanic unformatted (go.format fixed) (λ h. cc)) λ _ _. tt

    pub patch_source-NoPanic :
        (src : Text) (t : ModelTable) (model_pkg : Text) (fields : List (Text × Text))
        → NoPanic (patch_source go src t model_pkg fields)
    unfolding patch_source
    patch_source-NoPanic src t model_pkg fields =
        let tgs = targets go.prints t model_pkg fields in
        >>=-NoPanic (option_or unparsed (go.parse src)) _
          (option_or-NoPanic unparsed (go.parse src) (λ h. cc))
          λ file parsed.
            >>=-NoPanic (stub_edits file.decls tgs) _ (stub_edits-NoPanic file.decls tgs)
              λ edits stubs. spliced-NoPanic edits (
                let placed =
                  places src file (option_or-eq-ok unparsed (go.parse src) file parsed) in
                stub_edits-AreSound src file tgs edits placed
                  (targets-Clash go.prints t model_pkg fields) stubs)
      where
        spliced-NoPanic :
            (edits : List Edit)
            → AreSound src edits
            → NoPanic (elim edits as (λ _. Outcome (Text × Bool)) [
              | [] ↦ ok (src, false)
              | e ∷ more ↦ splice_edits go src (e ∷ more)
            ])
        spliced-NoPanic [] sound = tt
        spliced-NoPanic (e ∷ more) sound = splice_edits-NoPanic src (e ∷ more) sound
