-- ===== src/Luimagen/Patch.antt =====
-- luimagen/patch.go: `patchSource`, `importEdits`, `checkComplete`, `patchStubs`, `inputFieldNames` and
-- `packageClause`. go/parser, go/format, slices.SortFunc and the file system are parameters.
pub mod Report
pub mod Filled
pub mod Apart
pub mod Spliced
pub mod Ranges
pub mod Total
pub mod Rewritten
pub mod Clashes
use luima.Prelude.{
  ℕ, zero, suc, ◌+◌, ◌==◌, Bool, true, false, not, List, [], ◌∷◌, ◌++◌, Option, none, some, Text,
  codes, length, if◌then◌else◌, ◌≡◌, refl,
}
use luima.Luimagen.Splice.{Edit, splice_all}
use luima.Luimagen.Syntax.{
  Body, FuncDecl, Imp, ImportDecl, Decl, File, Fields, no_field, struct_field,
}
use luima.Luimagen.Table.{ModelTable}
use luima.Luimagen.Stubs.{find_func, is_stub, param_names, panics_somewhere, find_struct}
use luima.Luimagen.Targets.{Target, targets, lower}
use luima.Luimagen.Imports.{Added, added, bound, import_decls, final_imports, block_edits}

pub data Failure : Type 0 where
  -- of patchSource: no parse, the arity of a method and the one wanted, no parse of the spliced source,
  -- a slice out of range, which panics, the binding that is in the way, and no format
  unparsed reparse out_of_range unformatted : Failure
  wrong_arity : Text → ℕ → ℕ → Failure
  name_bound : Text → Text → Text → Failure
  -- of checkComplete, with the methods
  missing panicking : List Text → Failure
  -- of patchStubs
  unread unwritten : Failure
  no_stub : Text → Failure
  -- of inputFieldNames
  no_struct : Text → Failure
  -- of writeModel and of the run of gqlgen
  no_directory not_generated : Failure
  model_exists : Text → Failure
  -- of planSDL, with the file
  no_schema : Failure
  extends_type declares_type : Text → Failure
  not_composed : Failure

pub data Outcome {ℓ} (A : Type ℓ) : Type ℓ where
  ok : A → Outcome A
  failed : Failure → Outcome A

infixl 5 ◌>>=◌ ◌>>◌
abbrev pub ◌>>=◌ {ℓ κ} : {A : Type ℓ} {B : Type κ} → Outcome A → (A → Outcome B) → Outcome B
ok a >>= f = f a
failed e >>= f = failed e

abbrev pub ◌>>◌ {ℓ} : {B : Type ℓ} → Outcome (Unit {0}) → Outcome B → Outcome B
m >> k = m >>= λ _. k

pub >>=-eq-ok {ℓ κ} :
    {A : Type ℓ} {B : Type κ} (m : Outcome A) (f : A → Outcome B) (b : B)
    → (m >>= f) ≡ ok b
    → (a : A) × (m ≡ ok a) × (f a ≡ ok b)
>>=-eq-ok (ok a) f b h = (a, refl, h)
>>=-eq-ok (failed e) f b h = absurd (cc)

abbrev pub option_or {ℓ} : {A : Type ℓ} → Failure → Option A → Outcome A
option_or e none = failed e
option_or e (some a) = ok a

abbrev pub rbrace_of : FuncDecl → ℕ
rbrace_of fn = elim fn.body [ none ↦ 0 | some body ↦ body.rbrace ]

pub option_or-eq-ok {ℓ} :
    {A : Type ℓ} (e : Failure) (o : Option A) (a : A) → option_or e o ≡ ok a → o ≡ some a
option_or-eq-ok e none a h = absurd (cc)
option_or-eq-ok e (some b) a h = cc

abbrev pub lbrace_of : FuncDecl → ℕ
lbrace_of fn = elim fn.body [ none ↦ 0 | some body ↦ body.lbrace ]

-- The edit that fills a stub.
unfoldable pub stub_edit : Target → FuncDecl → Edit
stub_edit tg fn = record {
  start = lbrace_of fn + 1;
  end = rbrace_of fn;
  text = codes "\n\t" ++ (tg.body (param_names fn) ++ codes "\n");
}

-- The loop of `patchSource` over the targets.
unfoldable pub stub_edits : List Decl → List Target → Outcome (List Edit)
stub_edits decls [] = ok []
stub_edits decls (tg ∷ targets) =
    let rest = stub_edits decls targets in
    elim (find_func decls tg.recv tg.name) as (λ _. Outcome (List Edit)) [
      | none ↦ rest
      | some fn ↦
          if not (is_stub fn)
          then rest
          else if not (length (param_names fn) == tg.arity)
          then failed (wrong_arity tg.name (length (param_names fn)) tg.arity)
          else (do edits ← rest; ok (stub_edit tg fn ∷ edits))
    ]

-- go/parser, go/format, the sorts, and which runes print.
pub record Tools : Type 0 where
  pub prints : ℕ → Bool
  pub parse : Text → Option File
  pub format : Text → Option Text
  pub sort_edits : List Edit → List Edit
  pub sort_imports : List Imp → List Imp

module _ (go : Tools) where
  abbrev pub edits_of_added : Text → List ImportDecl → Added → Outcome (List Edit)
  edits_of_added src decls (added imports) =
      ok (block_edits go.prints go.sort_imports src decls imports)
  edits_of_added src decls (bound name other path) = failed (name_bound name other path)

  -- `importEdits`.
  unfoldable pub import_edits : Text → File → Outcome (List Edit)
  import_edits src file = elim (import_decls file.decls) as (λ _. Outcome (List Edit)) [
    | [] ↦ ok []
    | d ∷ decls ↦ edits_of_added src (d ∷ decls) (final_imports file)
  ]

  -- `patchSource` from the first splice on.
  unfoldable pub splice_edits : Text → List Edit → Outcome (Text × Bool)
  splice_edits src edits = do
    out ← option_or out_of_range (splice_all (go.sort_edits edits) src)
    file ← option_or reparse (go.parse out)
    imports ← import_edits out file
    fixed ← option_or out_of_range (splice_all (go.sort_edits imports) out)
    formatted ← option_or unformatted (go.format fixed)
    ok (formatted, true)

  -- `patchSource`: the source, and whether it changed.
  unfoldable pub patch_source :
      Text → ModelTable → Text → List (Text × Text) → Outcome (Text × Bool)
  patch_source src t model_pkg fields = do
    file ← option_or unparsed (go.parse src)
    edits ← stub_edits file.decls (targets go.prints t model_pkg fields)
    elim edits as (λ _. Outcome (Text × Bool)) [
      | [] ↦ ok (src, false)
      | e ∷ more ↦ splice_edits src (e ∷ more)
    ]

  abbrev pub full_name : Target → Text
  full_name tg = tg.recv ++ (codes "." ++ tg.name)

  -- The loop of `checkComplete`: the methods that are missing, and those that panic.
  unfoldable pub missing_of : List Decl → List Target → List Text
  missing_of decls [] = []
  missing_of decls (tg ∷ targets) =
      let rest = missing_of decls targets in
      elim (find_func decls tg.recv tg.name) as (λ _. List Text) [
        | none ↦ full_name tg ∷ rest
        | some _ ↦ rest
      ]

  unfoldable pub panics_of : List Decl → List Target → List Text
  panics_of decls [] = []
  panics_of decls (tg ∷ targets) =
      let rest = panics_of decls targets in
      elim (find_func decls tg.recv tg.name) as (λ _. List Text) [
        | none ↦ rest
        | some fn ↦ if panics_somewhere fn then full_name tg ∷ rest else rest
      ]

  abbrev pub report : List Text → List Text → Outcome (Unit {0})
  report [] [] = ok tt
  report [] (p ∷ ps) = failed (panicking (p ∷ ps))
  report (m ∷ ms) _ = failed (missing (m ∷ ms))

  abbrev pub names_only : ModelTable → List Target
  names_only t = targets go.prints t (codes "model") []

  -- `checkComplete`.
  unfoldable pub check_complete : Text → ModelTable → Outcome (Unit {0})
  check_complete src t = do
    file ← option_or reparse (go.parse src)
    report (missing_of file.decls (names_only t)) (panics_of file.decls (names_only t))

-- The loop of `inputFieldNames` over a struct's fields: each name under its lower case.
unfoldable pub lower_names : List Text → List (Text × Text)
lower_names [] = []
lower_names (n ∷ ns) = (lower n, n) ∷ lower_names ns

unfoldable pub names_of_fields : Fields → List (Text × Text)
names_of_fields no_field = []
names_of_fields (struct_field names t fields) = lower_names names ++ names_of_fields fields

-- The loop over the sources of a directory, one that cannot be parsed being none.
unfoldable pub input_field_names : List (Option File) → Text → Outcome (List (Text × Text))
input_field_names [] name = failed (no_struct name)
input_field_names (none ∷ files) name = input_field_names files name
input_field_names (some file ∷ files) name =
    let rest = input_field_names files name in
    elim (find_struct name file.decls) as (λ _. Outcome (List (Text × Text))) [
      | none ↦ rest
      | some fields ↦ ok (names_of_fields fields)
    ]
