-- ===== src/Luimagen/PatchTests.antt =====
-- luimagen/: a run of the generator for a table of users.
use luima.Prelude.{
  Bool, true, false, List, [], ◌∷◌, Option, none, some, ◌≡◌, refl, Text, codes, text_eq,
}
use luima.Luimagen.Table.{
  ModelTable, user_of, column_name, place, field_column, add_field, add_fields, table_from_fields,
}
use luima.Luimagen.Syntax.{File}
use luima.Luimagen.Patch.{
  stub_edit, stub_edits, import_edits, splice_edits, patch_source, missing_of, panics_of,
  check_complete, lower_names, names_of_fields, input_field_names,
}
use luima.Luimagen.Files.{
  join_path, first_package, package_clause, write_model, append_sdl, run_gqlgen_generate,
  read_input_fields, patch_stubs,
}
use luima.Luimagen.Schema.{
  with_fragment, check_composes, scan_doc, scan_peer, scan_peers, peers_of, plan_clean, plan_sdl,
}
use luima.Luimagen.Generate.{
  with_defaults, generate, trim_suffix, rebase, write_stages, checked_table, generate_with,
}
use luima.Luimagen.Generate.Complete.{HasMethods, generate-HasMethods}
use luima.Luimagen.Generate.Validated.{IsRun, generate-IsRun}
use luima.Luimagen.Runes.{
  to_lower, to_upper, fold, equal_fold, has_suffix, after_prefix, cut_prefix, drop_last,
}
use luima.Luimagen.Names.{
  takes_underscore, snake_from, snake_case, fold_id, lower_first, upper_first,
}
use luima.Luimagen.Quote.{
  hex_digit, hex2, hex4, escaped, is_print, escape, quote_rune, quote_runes, quote,
}
use luima.Luimagen.Checks.{
  keywords, is_letter, is_letter_or_digit, is_identifier, is_exported, check_ident, first_separator,
  check_tag, scalar_of, scalar_type,
}
use luima.Luimagen.Splice.{splice, splice_all, apply_edits}
use luima.Luimagen.Stubs.{
  recv_type_name, is_method, find_func, panic_message, is_stub_stmt, is_stub, param_names,
  panics_somewhere, decl_nodes, find_struct, panics, panics_in, panics_fields, struct_in,
  struct_in_all, struct_in_fields, struct_fields,
}
use luima.Luimagen.Targets.{
  lower, field_of, input_field, assignments, label, get_body, list_body, write_body, delete_body,
  targets,
}
use luima.Luimagen.Imports.{
  decl_uses, uses_ident, last_part, binding, bound_path, has_unaliased_import, import_decls,
  all_imports, is_dead, drop_dead_from, drop_dead, needs, add_needs, final_imports, delete_decls,
  block_edits, uses, uses_in, uses_fields,
}
use luima.Luimagen.ImportBlock.{
  is_stdlib, first_part, has_dot, stdlib_group, third_group, split_groups, write_group,
  render_import_block,
}
use luima.Luimagen.Source.{
  gql_field_type, sdl_fields, sdl_type, sdl_input, sdl_query, sdl_mutation, sdl, model_comment,
  column_tag, struct_lines, model_text,
}
use luima.Prelude.{has, join}
use luima.Luimagen.Splice.{Edit}
use luima.Luimagen.Splice.Replaced.{replaced}
use luima.Luimagen.Patch.Apart.{IsPlaced}
use luima.Luimagen.Patch.Spliced.{stub_edits-replaced}
use luima.Prelude.{◌+◌, length, arith}
use luima.Luimagen.Targets.{targets}
use luima.Luimagen.Patch.{Outcome, ok, failed, missing}
use luima.Luimagen.Generate.{GenerateFailure, patching}
use luima.Luimagen.Patch.Filled.{IsFilling}
use luima.Luimagen.Patch.Rewritten.{IsReturned, patch_source-IsReturned}
use luima.Luimagen.PlaceTests.{users_tools, parse_users, parse_users-PlacesDecls}
use luima.Luimagen.Patch.Report.{IsComplete, check_complete_iff}
use luima.Luimagen.Schema.Planned.{IsPlanned, plan_sdl-IsPlanned}
use luima.Prelude.{◌↔◌}
use luima.Luimagen.Sample.{
  methods, stub_stmt, by_falling, by_falling-Sorts, disk, tools, gql, users, first_disk, nothing,
  disk-KeepsWrites,
}
use luima.Luimagen.Checks as Checks
use luima.Luimagen.Checks.{check_tag}
use luima.Luimagen.Checks.Ident.{IsFieldName}
use luima.Luimagen.Generate.Defaults.{with_defaults-tag}

generate-HasMethods_example :
    HasMethods disk tools gql nothing nothing
      (with_defaults disk users)
      (generate disk tools gql nothing nothing users first_disk)
generate-HasMethods_example =
    generate-HasMethods disk tools gql nothing nothing users first_disk disk-KeepsWrites

generate-IsRun_example :
    IsRun disk tools gql nothing nothing
      (with_defaults disk users)
      first_disk
      (generate disk tools gql nothing nothing users first_disk)
generate-IsRun_example = generate-IsRun disk tools gql nothing nothing users first_disk

runs : Unit {0}
unfolding to_lower to_upper fold equal_fold has_suffix after_prefix cut_prefix drop_last
    takes_underscore snake_from snake_case fold_id lower_first upper_first hex_digit hex2 hex4
    escaped is_print escape quote_rune quote_runes quote keywords is_letter is_letter_or_digit
    is_identifier is_exported check_ident first_separator check_tag scalar_of scalar_type user_of
    column_name place field_column add_field add_fields table_from_fields splice splice_all
    apply_edits recv_type_name is_method find_func panic_message is_stub_stmt is_stub param_names
    panics_somewhere decl_nodes find_struct panics panics_in panics_fields struct_in struct_in_all
    struct_in_fields struct_fields lower field_of input_field assignments label get_body list_body
    write_body delete_body targets decl_uses uses_ident last_part binding bound_path
    has_unaliased_import first_part has_dot is_stdlib stdlib_group third_group split_groups
    write_group render_import_block import_decls all_imports is_dead drop_dead_from drop_dead needs
    add_needs final_imports delete_decls block_edits uses uses_in uses_fields stub_edit stub_edits
    import_edits splice_edits patch_source missing_of panics_of check_complete lower_names
    names_of_fields input_field_names gql_field_type sdl_fields sdl_type sdl_input sdl_query
    sdl_mutation sdl model_comment column_tag struct_lines model_text join_path first_package
    package_clause write_model append_sdl run_gqlgen_generate read_input_fields patch_stubs
    with_fragment check_composes scan_doc scan_peer scan_peers peers_of plan_clean plan_sdl
    trim_suffix rebase with_defaults write_stages checked_table generate_with generate codes text_eq
    has join
runs = tt

-- The run ends without an error.
generate-user : (generate disk tools gql nothing nothing users first_disk).1 ≡ none
unfolding runs
generate-user = refl

abbrev users_table : ModelTable
users_table = record {
  type_name = codes "User";
  pk = record {
    field = codes "ID";
    go_type = codes "string";
    sql = codes "id";
    gql = codes "String";
    array = false;
  };
  cols =
      record {
        field = codes "Name";
        go_type = codes "string";
        sql = codes "name";
        gql = codes "String";
        array = false;
      }
      ∷ [];
}

-- The schema has a Query and no Mutation.
abbrev users_sdl : Text
users_sdl = sdl users_table false true

plan_sdl-users :
    plan_sdl gql disk (codes "./graph/schema.graphqls") users_table first_disk ≡ ok users_sdl
unfolding runs
plan_sdl-users = refl

plan_sdl-IsPlanned_example :
    IsPlanned gql disk (codes "./graph/schema.graphqls") users_table first_disk users_sdl
plan_sdl-IsPlanned_example =
    plan_sdl-IsPlanned gql disk (codes "./graph/schema.graphqls") users_table first_disk users_sdl
      plan_sdl-users

abbrev source_of_ok : Outcome (Text × Bool) → Text
source_of_ok (ok (src, changed)) = src
source_of_ok (failed e) = []

abbrev users_source : Text
users_source = source_of_ok (patch_source tools (codes "0123456789") users_table (codes "model") [])

patch_source-users :
    patch_source tools (codes "0123456789") users_table (codes "model") [] ≡ ok (users_source, true)
unfolding runs
patch_source-users = refl

patch_source-done :
    patch_source tools (codes "done") users_table (codes "model") [] ≡ ok (codes "done", false)
unfolding runs
patch_source-done = refl

abbrev listed_source : Text
listed_source =
    source_of_ok (patch_source users_tools (codes "0123456") users_table (codes "model") [])

-- The stub is filled, and the two imports become one block.
patch_source-listed :
    patch_source users_tools (codes "0123456") users_table (codes "model") []
    ≡ ok (listed_source, true)
unfolding runs
patch_source-listed = refl

patch_source-IsReturned_example :
    (file : File) × (edits : List Edit) × (parse_users (codes "0123456") ≡ some file)
    × IsFilling file.decls (targets users_tools.prints users_table (codes "model") []) edits
    × IsReturned users_tools (codes "0123456") edits listed_source true
patch_source-IsReturned_example =
    patch_source-IsReturned users_tools by_falling-Sorts parse_users-PlacesDecls (codes "0123456")
      users_table (codes "model") [] listed_source true patch_source-listed

check_complete_iff_example :
    (check_complete tools users_source users_table ≡ ok tt)
    ↔ IsComplete tools users_source users_table
check_complete_iff_example = check_complete_iff tools users_source users_table

users-IsFieldName : IsFieldName (codes "User")
unfolding codes
users-IsFieldName = (refl, (refl, (refl, (refl, tt))))

with_defaults-tag_example : check_tag nothing (with_defaults disk users).table ≡ Checks.ok tt
with_defaults-tag_example = with_defaults-tag nothing disk users users-IsFieldName refl

abbrev edits_of_ok : Outcome (List Edit) → List Edit
edits_of_ok (ok edits) = edits
edits_of_ok (failed e) = []

abbrev users_edits : List Edit
users_edits =
    edits_of_ok
      (stub_edits (methods stub_stmt).decls (targets tools.prints users_table (codes "model") []))

stub_edits-users :
    stub_edits (methods stub_stmt).decls (targets tools.prints users_table (codes "model") [])
    ≡ ok users_edits
unfolding runs
stub_edits-users = refl

methods-IsPlaced : IsPlaced (length (codes "0123456789") + 1) 0 (methods stub_stmt).decls
unfolding codes
methods-IsPlaced = (
  2,
  omega arith,
  (4, omega arith, (6, omega arith, (8, omega arith, (10, omega arith, omega arith)))),
)

stub_edits-replaced_example :
    splice_all (by_falling users_edits) (codes "0123456789")
    ≡ some (replaced (codes "0123456789") (length (codes "0123456789")) (by_falling users_edits))
stub_edits-replaced_example =
    stub_edits-replaced tools (codes "0123456789") (methods stub_stmt) users_table (codes "model")
      [] users_edits by_falling-Sorts methods-IsPlaced stub_edits-users

abbrev is_incomplete : Option GenerateFailure → Bool
is_incomplete (some (patching (missing names))) = true
is_incomplete _ = false

-- The run over the file with one of the methods splices both kinds of edits, and then finds the other methods
-- missing.
generate-incomplete :
    is_incomplete (generate disk users_tools gql nothing nothing users first_disk).1 ≡ true
unfolding runs
generate-incomplete = refl
