-- ===== src/Luimagen/Stubs.antt =====
-- luimagen/patch.go: `findFunc`, `recvTypeName`, `isStub`, `panicMessage`, `paramNames`, `panicsSomewhere`
-- and `findStruct`.
pub mod Shape
use luima.Prelude.{
  Bool, true, false, ◌&&◌, ◌||◌, List, [], ◌∷◌, ◌++◌, Option, none, some, Text, codes, text_eq,
  if◌then◌else◌,
}
use luima.Luimagen.Runes.{equal_fold, after_prefix}
use luima.Luimagen.Syntax.{
  Node, ident, string_lit, call_expr, star_expr, expr_stmt, type_spec, struct_type, other, Nodes,
  nil, cons, Fields, no_field, struct_field, FuncDecl, Decl, func_decl, import_decl, other_decl,
}

abbrev pub ident_name : Node → Text
ident_name (ident n) = n
ident_name _ = []

-- `recvTypeName`: one star is looked through.
unfoldable pub recv_type_name : Node → Text
recv_type_name (star_expr x) = ident_name x
recv_type_name e = ident_name e

-- The receiver of a method; "" is none.
abbrev pub recv_of : FuncDecl → Text
recv_of fn = elim fn.recv [
  | none ↦ []
  | some fields ↦ elim fields [ [] ↦ [] | field ∷ _ ↦ recv_type_name field.1 ]
]

abbrev pub has_recv : FuncDecl → Bool
has_recv fn = elim fn.recv [
  | none ↦ false
  | some fields ↦ elim fields [ [] ↦ false | _ ∷ _ ↦ true ]
]

-- What findFunc asks of a method.
unfoldable pub is_method : Text → Text → FuncDecl → Bool
is_method recv name fn = equal_fold fn.name name && (has_recv fn && text_eq (recv_of fn) recv)

-- `findFunc`, over the declarations of the file.
unfoldable pub find_func : List Decl → Text → Text → Option FuncDecl
find_func [] recv name = none
find_func (func_decl fn ∷ decls) recv name =
    if is_method recv name fn then some fn else find_func decls recv name
find_func (import_decl _ ∷ decls) recv name = find_func decls recv name
find_func (other_decl _ ∷ decls) recv name = find_func decls recv name

abbrev pub literal : Node → Text
literal (string_lit s) = s
literal _ = []

-- `panicMessage`: one call is looked through.
unfoldable pub panic_message : Node → Text
panic_message (call_expr f nil) = []
panic_message (call_expr f (cons arg args)) = literal arg
panic_message e = literal e

abbrev pub not_implemented : Text
not_implemented = codes "not implemented"

abbrev pub has_prefix : Text → Text → Bool
has_prefix p s = elim (after_prefix p s) [ none ↦ false | some _ ↦ true ]

-- The one statement of a stub.
unfoldable pub is_stub_stmt : Node → Bool
is_stub_stmt (expr_stmt (call_expr (ident f) (cons arg nil))) =
    text_eq f (codes "panic") && has_prefix not_implemented (panic_message arg)
is_stub_stmt _ = false

-- `isStub`.
unfoldable pub is_stub : FuncDecl → Bool
is_stub fn = elim fn.body [
  | none ↦ false
  | some body ↦ elim body.stmts [
    | [] ↦ false
    | s ∷ more ↦ elim more [ [] ↦ is_stub_stmt s | _ ∷ _ ↦ false ]
  ]
]

abbrev pub all_names : List (List Text × Node) → List Text
all_names [] = []
all_names ((names, _) ∷ fields) = names ++ all_names fields

-- `paramNames`: the first field is the context.
unfoldable pub param_names : FuncDecl → List Text
param_names fn = elim fn.params [ [] ↦ [] | _ ∷ fields ↦ all_names fields ]

unfoldable mutual
  -- The walk of `panicsSomewhere`.
  pub panics : Node → Bool
  panics (ident n) = false
  panics (string_lit s) = false
  panics (call_expr f args) = text_eq (ident_name f) (codes "panic") || (panics f || panics_in args)
  panics (star_expr x) = panics x
  panics (expr_stmt x) = panics x
  panics (type_spec n params t) = panics_fields params || panics t
  panics (struct_type fields) = panics_fields fields
  panics (other children) = panics_in children

  pub panics_in : Nodes → Bool
  panics_in nil = false
  panics_in (cons n ns) = panics n || panics_in ns

  pub panics_fields : Fields → Bool
  panics_fields no_field = false
  panics_fields (struct_field names t fields) = panics t || panics_fields fields

abbrev pub any_panics : List Node → Bool
any_panics [] = false
any_panics (s ∷ stmts) = panics s || any_panics stmts

-- `panicsSomewhere`.
unfoldable pub panics_somewhere : FuncDecl → Bool
panics_somewhere fn = elim fn.body [ none ↦ false | some body ↦ any_panics body.stmts ]

abbrev pub or_else {ℓ} : {A : Type ℓ} → Option A → Option A → Option A
or_else none b = b
or_else (some a) _ = some a

unfoldable mutual
  -- The walk of `findStruct`: the first struct of that name; a match that is no struct is not entered.
  pub struct_in : Text → Node → Option Fields
  struct_in name (ident n) = none
  struct_in name (string_lit s) = none
  struct_in name (call_expr f args) = or_else (struct_in name f) (struct_in_all name args)
  struct_in name (star_expr x) = struct_in name x
  struct_in name (expr_stmt x) = struct_in name x
  struct_in name (type_spec n params t) =
      let inside = or_else (struct_in_fields name params) (struct_in name t) in
      if equal_fold n name then struct_fields t else inside
  struct_in name (struct_type fields) = struct_in_fields name fields
  struct_in name (other children) = struct_in_all name children

  pub struct_in_all : Text → Nodes → Option Fields
  struct_in_all name nil = none
  struct_in_all name (cons n ns) = or_else (struct_in name n) (struct_in_all name ns)

  pub struct_in_fields : Text → Fields → Option Fields
  struct_in_fields name no_field = none
  struct_in_fields name (struct_field names t fields) =
      or_else (struct_in name t) (struct_in_fields name fields)

  pub struct_fields : Node → Option Fields
  struct_fields (struct_type fields) = some fields
  struct_fields _ = none

abbrev pub struct_in_list : Text → List Node → Option Fields
struct_in_list name [] = none
struct_in_list name (n ∷ ns) = or_else (struct_in name n) (struct_in_list name ns)

abbrev pub types_of : List (List Text × Node) → List Node
types_of [] = []
types_of ((_, t) ∷ fields) = t ∷ types_of fields

-- The nodes of a declaration, apart from its names.
abbrev pub body_stmts : FuncDecl → List Node
body_stmts fn = elim fn.body [ none ↦ [] | some body ↦ body.stmts ]

abbrev pub recv_fields : FuncDecl → List (List Text × Node)
recv_fields fn = elim fn.recv [ none ↦ [] | some fields ↦ fields ]

-- The fields of a function: of its receivers, its type parameters, its parameters and its results.
abbrev pub func_fields : FuncDecl → List (List Text × Node)
func_fields fn = recv_fields fn ++ (fn.type_params ++ (fn.params ++ fn.results))

unfoldable pub decl_nodes : Decl → List Node
decl_nodes (func_decl fn) = types_of (func_fields fn) ++ body_stmts fn
decl_nodes (import_decl d) = []
decl_nodes (other_decl n) = n ∷ []

-- `findStruct`, over the declarations of the file.
unfoldable pub find_struct : Text → List Decl → Option Fields
find_struct name [] = none
find_struct name (d ∷ decls) = or_else (struct_in_list name (decl_nodes d)) (find_struct name decls)
