-- ===== src/Luimagen/PlaceTests.antt =====
-- luimagen/patch.go: the places of what stands in a resolver file.
use luima.Prelude.{
  ℕ, ◌+◌, ◌≤◌, false, [], ◌∷◌, Option, none, some, ◌≡◌, subst, arith, Text, codes, length, leb,
  Bool-cases, inl, inr, if◌then◌else◌,
}
use luima.Luimagen.Syntax.{ImportDecl, import_decl, File}
use luima.Luimagen.Patch.{Tools}
use luima.Luimagen.Patch.Apart.{IsPlaced}
use luima.Luimagen.Patch.Total.{PlacesDecls}
use luima.Luimagen.Generate.{generate}
use luima.Luimagen.Generate.Quiet.{IsInRange, generate-IsInRange}
use luima.Luimagen.Sample.{
  method, stub_stmt, input_file, by_falling, by_falling-Sorts, disk, gql, nothing, users,
  first_disk,
}

abbrev import_at : ℕ → ℕ → ImportDecl
import_at pos end = record { pos = pos; end = end; specs = [] }

-- Two imports, the stub of a list of users, and its input.
abbrev pub users_file : File
users_file = record {
  package_name = codes "graph";
  decls =
      import_decl (import_at 0 1)
      ∷ (import_decl (import_at 2 3)
          ∷ (method (codes "queryResolver") (codes "Users") [] 4 5 stub_stmt ∷ input_file.decls));
}

abbrev pub parse_users : Text → Option File
parse_users src = if leb 5 (length src) then some users_file else none

pub parse_users-PlacesDecls : PlacesDecls parse_users
parse_users-PlacesDecls src file h = elim (Bool-cases (leb 5 (length src))) [
  | inl long ↦
      let big : 5 ≤ length src = ground arith in
      let e : users_file ≡ file = cc in
      subst (λ f. IsPlaced (length src + 1) 0 f.decls) e
        (
          2,
          omega arith,
          omega arith,
          omega arith,
          (4, omega arith, omega arith, omega arith, (6, omega arith, omega arith)),
        )
  | inr short ↦ absurd (cc)
]

abbrev pub users_tools : Tools
users_tools = record {
  prints = λ _. false;
  parse = parse_users;
  format = some;
  sort_edits = by_falling;
  sort_imports = λ imports. imports;
}

generate-IsInRange_example :
    IsInRange (generate disk users_tools gql nothing nothing users first_disk).1
generate-IsInRange_example =
    generate-IsInRange disk users_tools gql nothing nothing by_falling-Sorts parse_users-PlacesDecls
      users first_disk
