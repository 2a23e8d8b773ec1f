-- ===== src/Luimagen/Syntax.antt =====
-- The part of go/ast that luimagen/patch.go reads. A string literal stands for its unquoted value: the
-- parser accepts only literals that strconv.Unquote reads.
use luima.Prelude.{ℕ, List, Option, Text}

mutual
  -- A node that patch.go does not tell apart is `other`, with its children in the order of ast.Inspect.
  pub data Node : Type 0 where
    ident : Text → Node
    string_lit : Text → Node
    call_expr : Node → Nodes → Node
    star_expr : Node → Node
    expr_stmt : Node → Node
    type_spec : Text → Fields → Node → Node
    struct_type : Fields → Node
    other : Nodes → Node

  pub data Nodes : Type 0 where
    nil : Nodes
    cons : Node → Nodes → Nodes

  -- The fields of a struct, or the type parameters of a type: the names of each, and its type.
  pub data Fields : Type 0 where
    no_field : Fields
    struct_field : List Text → Node → Fields → Fields

-- A `*ast.BlockStmt` of a function, with the offsets of its braces.
pub record Body : Type 0 where
  pub lbrace : ℕ
  pub rbrace : ℕ
  pub stmts : List Node

-- A `*ast.FuncDecl`: its receivers, none where it is a function, its type parameters, its parameters and its
-- results, each field with its names and its type.
pub record FuncDecl : Type 0 where
  pub name : Text
  pub recv : Option (List (List Text × Node))
  pub type_params : List (List Text × Node)
  pub params : List (List Text × Node)
  pub results : List (List Text × Node)
  pub body : Option Body

-- One import: the name that it is given, "" where there is none, and its path.
pub record Imp : Type 0 where
  pub name : Text
  pub path : Text

-- A `*ast.GenDecl` of imports, with its offsets.
pub record ImportDecl : Type 0 where
  pub pos : ℕ
  pub end : ℕ
  pub specs : List Imp

pub data Decl : Type 0 where
  func_decl : FuncDecl → Decl
  import_decl : ImportDecl → Decl
  other_decl : Node → Decl

-- An `*ast.File`.
pub record File : Type 0 where
  pub package_name : Text
  pub decls : List Decl
