-- ===== src/Luimagen/Patch/Rewritten.antt =====
-- luimagen/patch.go: the source that `patchSource` returns.
use luima.Prelude.{
  Bool, true, false, List, [], ◌∷◌, some, ◌≡◌, ◌≢◌, refl, sym, subst, ◌⊎◌, inl, inr, Text, length,
}
use luima.Luimagen.Splice.{Edit, splice_all, apply_edits}
use luima.Luimagen.Splice.Replaced.{replaced, apply_edits-replaced}
use luima.Luimagen.Splice.Sorted.{Sorts, sort-IsBackToFront}
use luima.Luimagen.Syntax.{ImportDecl, Imp, File}
use luima.Luimagen.Table.{ModelTable}
use luima.Luimagen.Targets.{targets}
use luima.Luimagen.Imports.{Added, added, bound, import_decls, final_imports, block_edits}
use luima.Luimagen.Patch.{
  Outcome, ok, >>=-eq-ok, Tools, reparse, out_of_range, unformatted, option_or, option_or-eq-ok,
  import_edits, splice_edits, patch_source, ◌>>=◌,
}
use luima.Luimagen.Patch.Clashes.{targets-Clash}
use luima.Luimagen.Patch.Filled.{IsFilling, patch_source-IsPatched}
use luima.Luimagen.Patch.Ranges.{AreSound, edits_of_decls, import_edits-AreSound}
use luima.Luimagen.Patch.Spliced.{All-Unit, edits-Within, edits-Apart}
use luima.Luimagen.Patch.Total.{PlacesDecls}

module _ (go : Tools) where
  -- The edits of the imports: none where the file imports nothing, and else those of the block of its final imports.
  abbrev pub IsImportEdits : Text → File → List Edit → Type 0
  IsImportEdits src file edits =
      ((import_decls file.decls ≡ []) × (edits ≡ []))
      ⊎ ((imports : List Imp) × (final_imports file ≡ added imports)
          × (edits ≡ block_edits go.prints go.sort_imports src (import_decls file.decls) imports))

  edits_of_decls-eq-ok :
      (src : Text) (a : Added) (ds : List ImportDecl) (edits : List Edit)
      → edits_of_decls go src a ds ≡ ok edits
      → ((ds ≡ []) × (edits ≡ []))
        ⊎ ((imports : List Imp) × (a ≡ added imports)
            × (edits ≡ block_edits go.prints go.sort_imports src ds imports))
  edits_of_decls-eq-ok src a [] edits h = inl (refl, cc)
  edits_of_decls-eq-ok src (added imports) (d ∷ ds) edits h = inr (imports, refl, cc)
  edits_of_decls-eq-ok src (bound name other path) (d ∷ ds) edits h = absurd (cc)

  import_edits-eq-ok :
      (src : Text) (file : File) (edits : List Edit)
      → import_edits go src file ≡ ok edits
      → IsImportEdits src file edits
  unfolding import_edits
  import_edits-eq-ok src file edits h =
      edits_of_decls-eq-ok src (final_imports file) (import_decls file.decls) edits h

  -- The source with every range of the edits replaced by its text, at its offsets before any splice.
  abbrev pub edited : Text → List Edit → Text
  edited src edits = replaced src (length src) (go.sort_edits edits)

  -- What becomes of a source with stubs: their bodies are replaced, then the import block of the result, and the
  -- whole is formatted.
  pub record IsRewritten (src : Text) (edits : List Edit) (out : Text) : Type 0 where
    pub file : File
    pub parsed : go.parse (edited src edits) ≡ some file
    pub imports : List Edit
    pub import_block : IsImportEdits (edited src edits) file imports
    pub formatted : go.format (edited (edited src edits) imports) ≡ some out

  -- What patchSource returns for the edits of the stubs.
  abbrev pub IsReturned : Text → List Edit → Text → Bool → Type 0
  IsReturned src edits out changed =
      ((edits ≡ []) × (out ≡ src) × (changed ≡ false))
      ⊎ ((edits ≢ []) × (changed ≡ true) × IsRewritten src edits out)

  module _ (sorts : Sorts go.sort_edits) (places : PlacesDecls go.parse) where
    spliced-eq :
        (src : Text) (edits : List Edit) (out : Text)
        → AreSound src edits
        → option_or out_of_range (splice_all (go.sort_edits edits) src) ≡ ok out
        → edited src edits ≡ out
    unfolding apply_edits
    spliced-eq src edits out (within, apart) h =
        let same =
          apply_edits-replaced go.sort_edits edits src
            (sort-IsBackToFront go.sort_edits edits (length src) sorts within apart) in
        let done = option_or-eq-ok out_of_range (splice_all (go.sort_edits edits) src) out h in cc

    splice_edits-IsRewritten :
        (src : Text) (edits : List Edit) (out : Text) (changed : Bool)
        → AreSound src edits
        → splice_edits go src edits ≡ ok (out, changed)
        → IsRewritten src edits out
    unfolding splice_edits
    splice_edits-IsRewritten src edits out changed sound h =
        let print : Text → Outcome (Text × Bool) =
          λ fixed. option_or unformatted (go.format fixed) >>= λ formatted. ok (formatted, true) in
        let fix : Text → List Edit → Outcome (Text × Bool) = λ mid imports.
          option_or out_of_range (splice_all (go.sort_edits imports) mid) >>= print in
        let import : Text → File → Outcome (Text × Bool) =
          λ mid file. import_edits go mid file >>= fix mid in
        let (mid, h1, k1) =
          >>=-eq-ok (option_or out_of_range (splice_all (go.sort_edits edits) src))
            (λ mid. option_or reparse (go.parse mid) >>= import mid) (out, changed) h in
        let (file, h2, k2) =
          >>=-eq-ok (option_or reparse (go.parse mid)) (import mid) (out, changed) k1 in
        let (imports, h3, k3) = >>=-eq-ok (import_edits go mid file) (fix mid) (out, changed) k2 in
        let (fixed, h4, k4) =
          >>=-eq-ok (option_or out_of_range (splice_all (go.sort_edits imports) mid)) print
            (out, changed) k3 in
        let (formatted, h5, k5) =
          >>=-eq-ok (option_or unformatted (go.format fixed)) (λ formatted. ok (formatted, true))
            (out, changed) k4 in
        let first = spliced-eq src edits mid sound h1 in
        let parsed = option_or-eq-ok reparse (go.parse mid) file h2 in
        let second =
          spliced-eq mid imports fixed
            (import_edits-AreSound go mid file imports (places mid file parsed) h3) h4 in
        let printed = option_or-eq-ok unformatted (go.format fixed) formatted h5 in
        record {
          file = file;
          parsed = subst (λ s. go.parse s ≡ some file) (sym first) parsed;
          imports = imports;
          import_block =
              subst (λ s. IsImportEdits s file imports) (sym first)
                (import_edits-eq-ok mid file imports h3);
          formatted =
              subst (λ s. go.format (edited s imports) ≡ some out) (sym first)
                (subst (λ s. go.format s ≡ some out) (sym second) (cc));
        }

    -- Where slices.SortFunc sorts, and go/parser gives the imports and the bodies of the functions of a file their
    -- places, one behind the other: where patchSource succeeds, the source parses, and its edits are one for each of
    -- the five methods that is in it as a stub with the parameters of its target, in their order, and none for a
    -- method that is missing or whose body is no stub. Where there are none, the source is returned as it was and
    -- unchanged. Else it is changed: what stands between the braces of those stubs is replaced, in the result, which
    -- parses, the import block is replaced by that of its final imports, where it has imports, and the whole is
    -- formatted.
    pub patch_source-IsReturned :
        (src : Text) (t : ModelTable) (model_pkg : Text) (fields : List (Text × Text)) (out : Text)
        (changed : Bool)
        → patch_source go src t model_pkg fields ≡ ok (out, changed)
        → (file : File) × (edits : List Edit) × (go.parse src ≡ some file)
          × IsFilling file.decls (targets go.prints t model_pkg fields) edits
          × IsReturned src edits out changed
    patch_source-IsReturned src t model_pkg fields out changed h =
        let (file, edits, parsed, filling, patched) =
          patch_source-IsPatched go src t model_pkg fields out changed h in
        let tgs = targets go.prints t model_pkg fields in
        let placed = places src file parsed in
        let sound : AreSound src edits = (
          edits-Within (length src) file.decls placed tgs edits (All-Unit tgs) filling,
          edits-Apart (length src) file.decls placed tgs edits
              (targets-Clash go.prints t model_pkg fields) filling,
        ) in
        (
          file,
          edits,
          parsed,
          filling,
          elim patched [
            | inl (e, (same, unchanged)) ↦ inl (e, same, unchanged)
            | inr (e, (spliced, true_)) ↦
                inr (e, true_, splice_edits-IsRewritten src edits out true sound spliced)
          ],
        )
