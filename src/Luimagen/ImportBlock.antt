-- ===== src/Luimagen/ImportBlock.antt =====
-- luimagen/patch.go: `splitGroups`, `isStdlib` and `renderImportBlock`. slices.SortFunc by the path is a
-- parameter.
pub mod Order
pub mod Groups
use luima.Prelude.{
  ℕ, zero, suc, ◌+◌, Bool, true, false, not, ◌&&◌, ◌||◌, ◌==◌, List, [], ◌∷◌, ◌++◌, Option, none,
  some, Text, codes, text_eq, length, if◌then◌else◌,
}
use luima.Luimagen.Quote.{quote}
use luima.Luimagen.Splice.{Edit, take, drop}
use luima.Luimagen.Syntax.{
  Node, ident, string_lit, call_expr, star_expr, expr_stmt, type_spec, struct_type, other, Nodes,
  nil, cons, Fields, no_field, struct_field, FuncDecl, Imp, ImportDecl, Decl, func_decl,
  import_decl, other_decl, File,
}

-- `isStdlib`: the first part of the path is not empty and has no dot.
unfoldable pub first_part : Text → Text
first_part [] = []
first_part (c ∷ s) = let rest = first_part s in if c == b'/' then [] else c ∷ rest

unfoldable pub has_dot : Text → Bool
has_dot [] = false
has_dot (c ∷ s) = c == b'.' || has_dot s

unfoldable pub is_stdlib : Text → Bool
is_stdlib path = not (text_eq (first_part path) []) && not (has_dot (first_part path))

-- The loop of `splitGroups`, and then the sorts.
unfoldable pub stdlib_group : List Imp → List Imp
stdlib_group [] = []
stdlib_group (im ∷ imports) =
    let rest = stdlib_group imports in if is_stdlib im.path then im ∷ rest else rest

unfoldable pub third_group : List Imp → List Imp
third_group [] = []
third_group (im ∷ imports) =
    let rest = third_group imports in if is_stdlib im.path then rest else im ∷ rest

unfoldable pub split_groups : (List Imp → List Imp) → List Imp → List Imp × List Imp
split_groups sort imports = (sort (stdlib_group imports), sort (third_group imports))

module _ (prints : ℕ → Bool) where
  -- `writeGroup`.
  unfoldable pub write_group : List Imp → Text
  write_group [] = []
  write_group (im ∷ group) =
      codes "\n\t"
      ++ ((if text_eq im.name [] then [] else im.name ++ codes " ")
          ++ (quote prints im.path ++ write_group group))

  -- `renderImportBlock`.
  unfoldable pub render_import_block : List Imp → List Imp → Text
  render_import_block std third =
      codes "import ("
      ++ (write_group std
          ++ ((if not (length std == 0) && not (length third == 0) then codes "\n" else [])
              ++ (write_group third ++ codes "\n)")))
