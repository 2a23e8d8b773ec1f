-- ===== src/Luimagen/Imports.antt =====
-- luimagen/patch.go: `importEdits`, with `boundPath`, `usesIdent` and `hasUnaliasedImport`.
pub mod Dropped
pub mod Final
use luima.Prelude.{
  ℕ, zero, suc, ◌+◌, Bool, true, false, not, ◌&&◌, ◌||◌, ◌==◌, List, [], ◌∷◌, ◌++◌, Option, none,
  some, Text, codes, text_eq, length, if◌then◌else◌,
}
use luima.Luimagen.Quote.{quote}
use luima.Luimagen.Splice.{Edit, take, drop}
use luima.Luimagen.Syntax.{
  Node, ident, string_lit, call_expr, star_expr, expr_stmt, type_spec, struct_type, other, Nodes,
  nil, cons, Fields, no_field, struct_field, FuncDecl, Imp, ImportDecl, Decl, func_decl,
  import_decl, other_decl, File,
}
use luima.Luimagen.Stubs.{decl_nodes, func_fields}
use luima.Luimagen.ImportBlock.{split_groups, render_import_block}

abbrev pub has_name : Text → List Text → Bool
has_name name [] = false
has_name name (n ∷ ns) = text_eq n name || has_name name ns

unfoldable mutual
  -- The walk of `usesIdent`.
  pub uses : Text → Node → Bool
  uses name (ident n) = text_eq n name
  uses name (string_lit s) = false
  uses name (call_expr f args) = uses name f || uses_in name args
  uses name (star_expr x) = uses name x
  uses name (expr_stmt x) = uses name x
  uses name (type_spec n params t) = text_eq n name || (uses_fields name params || uses name t)
  uses name (struct_type fields) = uses_fields name fields
  uses name (other children) = uses_in name children

  pub uses_in : Text → Nodes → Bool
  uses_in name nil = false
  uses_in name (cons n ns) = uses name n || uses_in name ns

  pub uses_fields : Text → Fields → Bool
  uses_fields name no_field = false
  uses_fields name (struct_field names t fields) =
      has_name name names || (uses name t || uses_fields name fields)

abbrev pub any_uses : Text → List Node → Bool
any_uses name [] = false
any_uses name (n ∷ ns) = uses name n || any_uses name ns

abbrev pub names_use : Text → List (List Text × Node) → Bool
names_use name [] = false
names_use name ((names, _) ∷ fields) = has_name name names || names_use name fields

-- The names that a declaration gives, its receivers, parameters and results included, and those in its nodes.
unfoldable pub decl_uses : Text → Decl → Bool
decl_uses name (func_decl fn) =
    text_eq fn.name name
    || (names_use name (func_fields fn) || any_uses name (decl_nodes (func_decl fn)))
decl_uses name (import_decl d) = false
decl_uses name (other_decl n) = uses name n

abbrev pub any_decl_uses : Text → List Decl → Bool
any_decl_uses name [] = false
any_decl_uses name (d ∷ decls) = decl_uses name d || any_decl_uses name decls

-- `usesIdent`: the name of the package is an identifier of the file too.
unfoldable pub uses_ident : File → Text → Bool
uses_ident file name = text_eq file.package_name name || any_decl_uses name file.decls

-- What follows the last "/".
unfoldable pub last_part : Text → Option Text
last_part [] = none
last_part (c ∷ s) = elim (last_part s) [
  | some rest ↦ some rest
  | none ↦ if c == b'/' then some s else none
]

-- The name that an import binds.
unfoldable pub binding : Imp → Text
binding im =
    if text_eq im.name []
    then elim (last_part im.path) as (λ _. Text) [ some rest ↦ rest | none ↦ im.path ]
    else im.name

-- `boundPath`.
unfoldable pub bound_path : List Imp → Text → Option Text
bound_path [] name = none
bound_path (im ∷ imports) name =
    if text_eq (binding im) name then some im.path else bound_path imports name

-- `hasUnaliasedImport`.
unfoldable pub has_unaliased_import : List Imp → Text → Bool
has_unaliased_import [] path = false
has_unaliased_import (im ∷ imports) path =
    text_eq im.path path && text_eq im.name [] || has_unaliased_import imports path

-- The collection of the import declarations, and of what they import.
unfoldable pub import_decls : List Decl → List ImportDecl
import_decls [] = []
import_decls (import_decl d ∷ decls) = d ∷ import_decls decls
import_decls (func_decl _ ∷ decls) = import_decls decls
import_decls (other_decl _ ∷ decls) = import_decls decls

unfoldable pub all_imports : List ImportDecl → List Imp
all_imports [] = []
all_imports (d ∷ decls) = d.specs ++ all_imports decls

abbrev pub fmt_path : Text
fmt_path = codes "fmt"

-- The name that the binding of a "fmt" import has.
abbrev pub fmt_name : Imp → Text
fmt_name im = if text_eq im.name [] then fmt_path else im.name

-- A "fmt" import that no identifier names.
unfoldable pub is_dead : File → Imp → Bool
is_dead file im = text_eq im.path fmt_path && not (uses_ident file (fmt_name im))

-- `append(imports[:i], imports[i+1:]...)`.
abbrev pub remove_at : {A : Type 0} → ℕ → List A → List A
remove_at i xs = take i xs ++ drop (suc i) xs

abbrev pub dead_at : File → ℕ → List Imp → Bool
dead_at file i [] = false
dead_at file zero (im ∷ imports) = is_dead file im
dead_at file (suc i) (im ∷ imports) = dead_at file i imports

-- The loop that drops them, backwards, with `i` rounds to go.
unfoldable pub drop_dead_from : ℕ → File → List Imp → List Imp
drop_dead_from zero file imports = imports
drop_dead_from (suc i) file imports =
    drop_dead_from i file (if dead_at file i imports then remove_at i imports else imports)

unfoldable pub drop_dead : File → List Imp → List Imp
drop_dead file imports = drop_dead_from (length imports) file imports

-- An import that the new bodies may need, and the name that they use it under.
pub record Need : Type 0 where
  pub path : Text
  pub name : Text

unfoldable pub needs : List Need
needs =
    record { path = fmt_path; name = fmt_path }
    ∷ (record { path = codes "github.com/ulas96/luima"; name = codes "luima" }
        ∷ (record { path = codes "github.com/uptrace/bun"; name = codes "bun" } ∷ []))

-- The imports, or the name that another path already binds, that path, and the path that was needed.
pub data Added : Type 0 where
  added : List Imp → Added
  bound : Text → Text → Text → Added

abbrev pub unaliased : Text → Imp
unaliased path = record { name = []; path = path }

-- The loop that adds what is used and not there.
unfoldable pub add_needs : File → List Need → List Imp → Added
add_needs file [] imports = added imports
add_needs file (n ∷ more) imports =
    let kept = add_needs file more imports in
    let extended = add_needs file more (imports ++ unaliased n.path ∷ []) in
    if has_unaliased_import imports n.path || not (uses_ident file n.name)
    then kept
    else elim (bound_path imports n.name) as (λ _. Added) [
      | some path ↦ bound n.name path n.path
      | none ↦ extended
    ]

-- The imports of the patched file.
unfoldable pub final_imports : File → Added
final_imports file = add_needs file needs (drop_dead file (all_imports (import_decls file.decls)))

-- The deletion of the declarations after the first.
unfoldable pub delete_decls : List ImportDecl → List Edit
delete_decls [] = []
delete_decls (d ∷ decls) = record { start = d.pos; end = d.end; text = [] } ∷ delete_decls decls

abbrev pub slice : Text → ℕ → ℕ → Text
slice src start end = drop start (take end src)

module _ (prints : ℕ → Bool) (sort : List Imp → List Imp) where
  unfoldable pub block_edits : Text → List ImportDecl → List Imp → List Edit
  block_edits src [] imports = []
  block_edits src (d ∷ decls) imports =
      let (std, third) = split_groups sort imports in
      let repl = render_import_block prints std third in
      (if not (text_eq repl (slice src d.pos d.end)) || not (length decls == 0)
        then record { start = d.pos; end = d.end; text = repl } ∷ []
        else [])
      ++ delete_decls decls
