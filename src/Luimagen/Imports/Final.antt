-- ===== src/Luimagen/Imports/Final.antt =====
-- luimagen/patch.go: the imports that `importEdits` leaves.
use luima.Prelude.{true, false, not, ◌||◌, List, [], ◌∷◌, ◌++◌, map, some, ◌≡◌, ◌≢◌, Text, All}
use luima.Luimagen.Syntax.{Imp, File}
use luima.Luimagen.Imports.{
  uses_ident, binding, bound_path, has_unaliased_import, Need, Added, added, bound, unaliased,
  import_decls, all_imports,
}
use luima.Luimagen.Imports.Dropped.{live}

abbrev pub bindings : List Imp → List Text
bindings imports = map binding imports

-- Imports added at the end: each is of a name that the file uses, and that no import before it binds.
abbrev pub IsFresh : File → List Imp → List Imp → Type 0
IsFresh file imports [] = Unit
IsFresh file imports (e ∷ extra) =
    (uses_ident file (binding e) ≡ true)
    × ((All (λ b. b ≢ binding e) (bindings imports)) × IsFresh file (imports ++ e ∷ []) extra)

-- What the file uses of the needs can be named.
abbrev pub IsProvided : File → List Imp → Need → Type 0
IsProvided file imports n =
    (not (uses_ident file n.name) || has_unaliased_import imports n.path) ≡ true

-- What adding the needs to the imports may come to.
abbrev pub IsExtended : File → List Need → List Imp → Added → Type 0
IsExtended file ns imports (added out) =
    (extra : List Imp) × (out ≡ imports ++ extra)
    × (IsFresh file imports extra × All (IsProvided file out) ns)
IsExtended file ns imports (bound name other path) =
    (extra : List Imp) × IsFresh file imports extra
    × ((bound_path (imports ++ extra) name ≡ some other)
        × ((uses_ident file name ≡ true) × (has_unaliased_import (imports ++ extra) path ≡ false)))

-- A need names its package as an unaliased import of its path binds it.
abbrev IsNeed : Need → Type 0
IsNeed n = binding (unaliased n.path) ≡ n.name

-- The imports that the patched file starts from, without a "fmt" that nothing names.
abbrev pub kept_imports : File → List Imp
kept_imports file = live file (all_imports (import_decls file.decls))
