-- ===== src/Luimagen/Sample.antt =====
-- luimagen/: a disk that is a list of files, tools that know the files of one run, and the options of a table
-- of users, for the tests.
pub mod Sorting
use luima.Prelude.{
  ℕ, Bool, true, false, List, [], ◌∷◌, ◌++◌, Option, none, some, ◌≡◌, refl, ap, subst, Text, codes,
  text_eq, text_eq_self, leb, ◌≤◌, inl, inr, arith, Bool-cases, All, All-imp, All-perm, AllPairs,
  AllPairs-imp, if◌then◌else◌,
}
use luima.Luimagen.Splice.{Edit}
use luima.Luimagen.Splice.Sorted.{Sorts}
use luima.Luimagen.Sample.Sorting.{sort_by, sort_by-perm, sort_by-sorted}
use luima.Luimagen.Syntax.{
  Node, ident, string_lit, call_expr, expr_stmt, type_spec, struct_type, nil, cons, no_field,
  struct_field, Decl, func_decl, other_decl, File,
}
use luima.Luimagen.Patch.{Tools}
use luima.Luimagen.Files.{Os}
use luima.Luimagen.Schema.{Gqlparser}
use luima.Luimagen.Generate.{Options}
use luima.Luimagen.Generate.Complete.{KeepsWrites}

abbrev pub Disk : Type 0
Disk = List (Text × Text)

abbrev pub look_up : Text → Disk → Option Text
look_up path [] = none
look_up path ((p, s) ∷ files) = if text_eq p path then some s else look_up path files

abbrev pub stubs_path : Text
stubs_path = codes "./graph/schema.resolvers.go"

abbrev pub text_or_nil : Option Text → Text
text_or_nil none = []
text_or_nil (some s) = s

abbrev pub disk : Os
disk = record {
  World = Disk;
  read_file = look_up;
  exists_file =
      λ path files. elim (look_up path files) as (λ _. Bool) [ none ↦ false | some _ ↦ true ];
  glob = λ _ _. some (codes "input.go" ∷ []);
  write_file = λ path s files. ((path, s) ∷ files, true);
  append_file = λ path s files. ((path, text_or_nil (look_up path files) ++ s) ∷ files, true);
  mkdir_all = λ _ files. (files, true);
  run_gqlgen = λ _ files.
      ((stubs_path, codes "0123456789") ∷ ((codes "input.go", codes "input") ∷ files), true);
  package_name = λ _. some (codes "model");
  clean = λ path. path;
  dir_of = λ _. codes "graph";
  ext = λ _. codes ".graphqls";
}

abbrev pub stub_stmt : Node
stub_stmt =
    expr_stmt
      (call_expr (ident (codes "panic")) (cons (string_lit (codes "not implemented: User")) nil))

-- A method of the resolvers, with its braces from an offset on.
abbrev pub method : Text → Text → List Text → ℕ → ℕ → Node → Decl
method recv name params lbrace rbrace stmt = func_decl (record {
  name = name;
  recv = some ((codes "r" ∷ [], ident recv) ∷ []);
  type_params = [];
  params = (codes "ctx" ∷ [], ident (codes "Context")) ∷ ((params, ident (codes "string")) ∷ []);
  results = [];
  body = some (record { lbrace = lbrace; rbrace = rbrace; stmts = stmt ∷ [] });
})

-- The file of the five methods, each with the one statement.
abbrev pub methods : Node → File
methods stmt = record {
  package_name = codes "graph";
  decls =
      method (codes "queryResolver") (codes "User") (codes "id" ∷ []) 0 1 stmt
      ∷ (method (codes "queryResolver") (codes "Users") [] 2 3 stmt
          ∷ (method (codes "mutationResolver") (codes "CreateUser")
                (codes "id" ∷ (codes "input" ∷ [])) 4 5 stmt
              ∷ (method (codes "mutationResolver") (codes "UpdateUser")
                    (codes "id" ∷ (codes "input" ∷ [])) 6 7 stmt
                  ∷ (method (codes "mutationResolver") (codes "DeleteUser") (codes "id" ∷ []) 8 9
                        stmt
                      ∷ []))));
}

abbrev pub input_file : File
input_file = record {
  package_name = codes "model";
  decls =
      other_decl (
        type_spec (codes "UserInput") no_field
          (struct_type (struct_field (codes "Name" ∷ []) (ident (codes "string")) no_field)))
      ∷ [];
}

abbrev starts_later : Edit → Edit → Bool
starts_later e f = leb f.start e.start

abbrev pub by_falling : List Edit → List Edit
by_falling = sort_by starts_later

pub by_falling-Sorts : Sorts by_falling
by_falling-Sorts = record {
  same = sort_by-perm starts_later;
  falling = λ edits.
      AllPairs-imp (λ e f (h : leb f.start e.start ≡ true). ground arith) (by_falling edits)
        (sort_by-sorted starts_later (λ e f h. ground arith) (λ e f g h k. ground arith) edits);
}

-- A parser that knows the three files of the run.
abbrev pub tools : Tools
tools = record {
  prints = λ _. false;
  parse = λ src.
      if text_eq src (codes "input")
      then some input_file
      else if text_eq src (codes "0123456789")
      then some (methods stub_stmt)
      else some (methods (expr_stmt (ident (codes "done"))));
  format = some;
  sort_edits = by_falling;
  sort_imports = λ imports. imports;
}

abbrev pub gql : Gqlparser
gql = record {
  parse_schema = λ src.
      if text_eq src.input (codes "type Query")
      then some (record { extensions = []; definitions = codes "Query" ∷ [] })
      else none;
  load_schema = λ _. true;
}

abbrev pub users : Options
users = record {
  type_name = codes "User";
  fields =
      record { name = codes "ID"; go_type = codes "string"; pk = true; column = [] }
      ∷ (record { name = codes "Name"; go_type = codes "string"; pk = false; column = [] } ∷ []);
  table = [];
  dir = [];
  model_dir = [];
  schema_file = [];
  resolver_file = [];
  model_pkg = [];
}

abbrev pub first_disk : Disk
first_disk = (codes "./graph/schema.graphqls", codes "type Query") ∷ []

abbrev pub nothing : ℕ → Bool
nothing _ = false

pub disk-KeepsWrites : KeepsWrites disk
disk-KeepsWrites path src w w' e =
    subst (λ files. look_up path files ≡ some src) (ap (λ r. r.0) e) (rw (text_eq_self path) refl)
