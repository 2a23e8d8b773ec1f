-- ===== src/Luimagen/Patch/Filled.antt =====
-- luimagen/patch.go: the bodies that `patchSource` splices, and what it leaves alone.
use luima.Prelude.{
  Bool, true, false, ◌==◌, List, [], ◌∷◌, none, some, ◌≡◌, refl, ◌≢◌, subst, ◌⊎◌, inl, inr, arith,
  Text, length, Bool-cases, Option-cases,
}
use luima.Luimagen.Splice.{Edit, splice_all}
use luima.Luimagen.Syntax.{Decl, FuncDecl, File}
use luima.Luimagen.Table.{ModelTable}
use luima.Luimagen.Stubs.{find_func, is_stub, param_names}
use luima.Luimagen.Stubs.Shape.{IsStub, is_stub_iff}
use luima.Luimagen.Targets.{Target, targets}
use luima.Luimagen.Patch.{
  Outcome, ok, failed, >>=-eq-ok, stub_edit, stub_edits, Tools, unparsed, option_or,
  option_or-eq-ok, splice_edits, import_edits, out_of_range, reparse, unformatted, patch_source,
  ◌>>=◌,
}

-- The method of a target is not in the file, or somebody wrote its body.
abbrev pub IsLeft : List Decl → Target → Type 0
IsLeft decls tg =
    (find_func decls tg.recv tg.name ≡ none)
    ⊎ ((fn : FuncDecl) × (find_func decls tg.recv tg.name ≡ some fn) × (IsStub fn → ⊥))

-- The method of a target is a stub with that many parameters behind the context.
abbrev pub IsStubOf : List Decl → Target → FuncDecl → Type 0
IsStubOf decls tg fn =
    (find_func decls tg.recv tg.name ≡ some fn) × IsStub fn × (length (param_names fn) ≡ tg.arity)

-- The edits of the targets, in their order: one for each stub, and none for what is left.
abbrev pub IsFilling : List Decl → List Target → List Edit → Type 0
IsFilling decls [] edits = edits ≡ []
IsFilling decls (tg ∷ targets) edits =
    (IsLeft decls tg × IsFilling decls targets edits)
    ⊎ ((fn : FuncDecl) × (more : List Edit) × IsStubOf decls tg fn
        × (edits ≡ stub_edit tg fn ∷ more)
        × IsFilling decls targets more)

not_stub : (fn : FuncDecl) → is_stub fn ≡ false → IsStub fn → ⊥
not_stub fn h stub = let t = (is_stub_iff fn).1 stub in absurd (cc)

-- What is left for the targets behind a stub.
filled-eq-ok :
    (decls : List Decl) (tg : Target) (targets : List Target) (edits : List Edit) (fn : FuncDecl)
    → find_func decls tg.recv tg.name ≡ some fn
    → is_stub fn ≡ true
    → stub_edits decls (tg ∷ targets) ≡ ok edits
    → (length (param_names fn) ≡ tg.arity)
      × ((more : List Edit) × (stub_edits decls targets ≡ ok more)
          × (edits ≡ stub_edit tg fn ∷ more))
unfolding stub_edits
filled-eq-ok decls tg targets edits fn e a h =
    elim (Bool-cases (length (param_names fn) == tg.arity)) [
      | inr n ↦ absurd (cc)
      | inl y ↦
          let (more, rest, same) =
            >>=-eq-ok (stub_edits decls targets) (λ more. ok (stub_edit tg fn ∷ more)) edits (cc) in
          (ground arith, (more, rest, cc))
    ]

pub stub_edits-eq-ok :
    (decls : List Decl) (targets : List Target) (edits : List Edit)
    → stub_edits decls targets ≡ ok edits
    → IsFilling decls targets edits
unfolding stub_edits
stub_edits-eq-ok decls [] edits h = cc
stub_edits-eq-ok decls (tg ∷ targets) edits h =
    elim (Option-cases (find_func decls tg.recv tg.name)) [
      | inl e ↦ inl (inl e, stub_edits-eq-ok decls targets edits (cc))
      | inr (fn, e) ↦ elim (Bool-cases (is_stub fn)) [
        | inr a ↦ inl (inr (fn, e, not_stub fn a), stub_edits-eq-ok decls targets edits (cc))
        | inl a ↦
            let (arity, (more, rest, same)) = filled-eq-ok decls tg targets edits fn e a h in
            inr (
              fn,
              more,
              (e, (is_stub_iff fn).0 a, arity),
              same,
              stub_edits-eq-ok decls targets more rest,
            )
      ]
    ]

abbrev IsChanged : Outcome (Text × Bool) → Type 0
IsChanged (ok (out, changed)) = changed ≡ true
IsChanged (failed e) = Unit

>>=-IsChanged {ℓ} :
    {A : Type ℓ} (m : Outcome A) (f : A → Outcome (Text × Bool))
    → ((a : A) → IsChanged (f a))
    → IsChanged (m >>= f)
>>=-IsChanged (ok a) f h = h a
>>=-IsChanged (failed e) f h = tt

splice_edits-IsChanged :
    (go : Tools) (src : Text) (edits : List Edit) → IsChanged (splice_edits go src edits)
unfolding splice_edits
splice_edits-IsChanged go src edits =
    >>=-IsChanged (option_or out_of_range (splice_all (go.sort_edits edits) src)) _ λ out.
      >>=-IsChanged (option_or reparse (go.parse out)) _ λ file.
        >>=-IsChanged (import_edits go out file) _ λ imports.
          >>=-IsChanged (option_or out_of_range (splice_all (go.sort_edits imports) out)) _
            λ fixed. >>=-IsChanged (option_or unformatted (go.format fixed)) _ λ formatted. refl

module _ (go : Tools) where
  -- What patchSource makes of a source that parses and of the edits of its stubs.
  abbrev pub IsPatched : Text → List Edit → Text → Bool → Type 0
  IsPatched src edits out changed =
      ((edits ≡ []) × ((out ≡ src) × (changed ≡ false)))
      ⊎ ((edits ≢ []) × ((splice_edits go src edits ≡ ok (out, true)) × (changed ≡ true)))

  -- Where patchSource succeeds, the source parses, and its edits are one for each of the five methods that
  -- is in it as a stub with the parameters of its target, in their order, and none for a method that is
  -- missing or whose body is no stub. Where there are none, the source is returned as it was and
  -- unchanged; else the result is what splicing those edits leads to.
  pub patch_source-IsPatched :
      (src : Text) (t : ModelTable) (model_pkg : Text) (fields : List (Text × Text)) (out : Text)
      (changed : Bool)
      → patch_source go src t model_pkg fields ≡ ok (out, changed)
      → (file : File) × (edits : List Edit) × (go.parse src ≡ some file)
        × IsFilling file.decls (targets go.prints t model_pkg fields) edits
        × IsPatched src edits out changed
  unfolding patch_source
  patch_source-IsPatched src t model_pkg fields out changed h =
      let (file, parsed, h) = >>=-eq-ok (option_or unparsed (go.parse src)) k (out, changed) h in
      let (edits, stubs, h) =
        >>=-eq-ok (stub_edits file.decls (targets go.prints t model_pkg fields)) spliced
          (out, changed) h in
      (
        file,
        edits,
        option_or-eq-ok unparsed (go.parse src) file parsed,
        stub_edits-eq-ok file.decls (targets go.prints t model_pkg fields) edits stubs,
        IsPatched-eq edits h,
      )
    where
      spliced : List Edit → Outcome (Text × Bool)
      spliced edits = elim edits as (λ _. Outcome (Text × Bool)) [
        | [] ↦ ok (src, false)
        | e ∷ more ↦ splice_edits go src (e ∷ more)
      ]

      k : File → Outcome (Text × Bool)
      k file = stub_edits file.decls (targets go.prints t model_pkg fields) >>= spliced

      IsPatched-eq :
          (edits : List Edit) → spliced edits ≡ ok (out, changed) → IsPatched src edits out changed
      IsPatched-eq [] h = inl (refl, (cc, cc))
      IsPatched-eq (e ∷ more) h =
          let c = subst IsChanged h (splice_edits-IsChanged go src (e ∷ more)) in
          inr (λ n. absurd (cc), (subst (λ b. splice_edits go src (e ∷ more) ≡ ok (out, b)) c h, c))
