-- ===== src/Luimagen/ImportTests.antt =====
-- luimagen/patch.go: the imports of a patched resolver file.
use luima.Prelude.{Bool, List, [], ◌∷◌, ◌≡◌, refl, codes, text_eq}
use luima.Luimagen.Syntax.{Imp, ident, call_expr, nil, cons, import_decl, File}
use luima.Luimagen.Stubs.{decl_nodes}
use luima.Luimagen.Imports.{
  decl_uses, uses_ident, last_part, binding, bound_path, has_unaliased_import, import_decls,
  all_imports, is_dead, drop_dead_from, drop_dead, needs, add_needs, final_imports, uses, uses_in,
  uses_fields,
}
use luima.Luimagen.ImportBlock.{
  is_stdlib, first_part, has_dot, stdlib_group, third_group, split_groups,
}
use luima.Luimagen.Imports.{added}
use luima.Luimagen.Sample.{method}
use luima.Luimagen.ImportBlock.Order.{path_le, path_le_total, path_le_trans}
use luima.Luimagen.Sample.Sorting.{sort_by, sort_by-perm, sort_by-sorted}
use luima.Luimagen.ImportBlock.Groups.{IsPartition, SortsImports, split_groups-IsPartition}

runs : Unit {0}
unfolding uses uses_in uses_fields decl_uses uses_ident last_part binding bound_path
    has_unaliased_import import_decls all_imports is_dead drop_dead_from drop_dead needs add_needs
    final_imports decl_nodes first_part has_dot is_stdlib stdlib_group third_group split_groups
    text_eq codes
runs = tt

-- A resolver file whose bodies name luima and bun, and whose fmt is an alias that nothing names.
abbrev imports_file : File
imports_file = record {
  package_name = codes "graph";
  decls =
      import_decl (record {
        pos = 0;
        end = 9;
        specs =
            record { name = codes "f"; path = codes "fmt" }
            ∷ (record { name = []; path = codes "context" } ∷ []);
      })
      ∷ (method (codes "queryResolver") (codes "Users") [] 10 11
            (call_expr (ident (codes "luima")) (cons (ident (codes "bun")) nil))
          ∷ []);
}

final_imports-users :
    final_imports imports_file
    ≡ added (
        record { name = []; path = codes "context" }
        ∷ (record { name = []; path = codes "github.com/ulas96/luima" }
            ∷ (record { name = []; path = codes "github.com/uptrace/bun" } ∷ [])))
unfolding runs
final_imports-users = refl

abbrev mixed : List Imp
mixed =
    record { name = []; path = codes "context" }
    ∷ (record { name = []; path = codes "github.com/uptrace/bun" }
        ∷ (record { name = []; path = codes "fmt" } ∷ []))

split_groups-mixed : split_groups (λ l. l) mixed ≡ (
  record { name = []; path = codes "context" } ∷ (record { name = []; path = codes "fmt" } ∷ []),
  record { name = []; path = codes "github.com/uptrace/bun" } ∷ [],
)
unfolding runs
split_groups-mixed = refl

abbrev path_first : Imp → Imp → Bool
path_first a b = path_le a.path b.path

abbrev by_path : List Imp → List Imp
by_path = sort_by path_first

by_path-SortsImports : SortsImports by_path
by_path-SortsImports = record {
  same = sort_by-perm path_first;
  rising =
      sort_by-sorted path_first (λ a b. path_le_total a.path b.path)
        λ a b c. path_le_trans a.path b.path c.path;
}

split_groups-IsPartition_example : IsPartition mixed (split_groups by_path mixed)
split_groups-IsPartition_example = split_groups-IsPartition by_path mixed by_path-SortsImports
