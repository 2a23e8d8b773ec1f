-- ===== src/Luimagen/Schema.antt =====
-- luimagen/gen.go: `planSDL` and `checkComposes`. gqlparser is a parameter: what a parse of one file
-- declares, and whether a set of files is a schema.
pub mod Peers
pub mod Planned
pub mod Quiet
use luima.Prelude.{
  Bool, false, not, ◌||◌, List, [], ◌∷◌, ◌++◌, Option, none, some, Text, codes, text_eq, has,
  if◌then◌else◌,
}
use luima.Luimagen.Table.{ModelTable}
use luima.Luimagen.Source.{sdl}
use luima.Luimagen.Patch.{
  unread, no_schema, extends_type, declares_type, not_composed, Outcome, ok, failed, option_or,
  ◌>>=◌, ◌>>◌,
}
use luima.Luimagen.Files.{Os, join_path}

-- A `*gqlast.Source`.
pub record Source : Type 0 where
  pub name : Text
  pub input : Text

-- The names that a parsed document extends, and those that it declares.
pub record SchemaDoc : Type 0 where
  pub extensions : List Text
  pub definitions : List Text

pub record Gqlparser : Type 0 where
  pub parse_schema : Source → Option SchemaDoc
  pub load_schema : List Source → Bool

-- What the loop over the peers has found.
pub record Scanned : Type 0 where
  pub sources : List Source
  pub has_query : Bool
  pub has_mutation : Bool

-- The source of `path` with the fragment behind it.
unfoldable pub with_fragment : List Source → Text → Text → List Source
with_fragment [] path frag = []
with_fragment (s ∷ sources) path frag =
    let rest = with_fragment sources path frag in
    (if text_eq s.name path
      then record { name = s.name; input = s.input ++ (codes "\n" ++ frag) }
      else s)
    ∷ rest

module _ (gql : Gqlparser) where
  -- `checkComposes`.
  unfoldable pub check_composes : List Source → Text → Text → Outcome (Unit {0})
  check_composes sources path frag =
      if not (gql.load_schema sources)
      then ok tt
      else if gql.load_schema (with_fragment sources path frag)
      then ok tt
      else failed not_composed

  -- What one parsed peer adds, unless it takes the name of the type.
  unfoldable pub scan_doc : Text → Source → SchemaDoc → Scanned → Outcome Scanned
  scan_doc type_name src doc found =
      if has doc.extensions type_name
      then failed (extends_type src.name)
      else if has doc.definitions type_name
      then failed (declares_type src.name)
      else ok (record {
        sources = found.sources ++ src ∷ [];
        has_query = found.has_query || has doc.definitions (codes "Query");
        has_mutation = found.has_mutation || has doc.definitions (codes "Mutation");
      })

  module _ (os : Os) where
    -- A peer that cannot be read or parsed is passed over, but not `path` itself.
    unfoldable pub scan_peer : Text → Text → os.World → Text → Scanned → Outcome Scanned
    scan_peer path type_name w p found = elim (os.read_file p w) as (λ _. Outcome Scanned) [
      | none ↦ if text_eq p path then failed unread else ok found
      | some input ↦
          let src : Source = record { name = p; input = input } in
          elim (gql.parse_schema src) as (λ _. Outcome Scanned) [
            | none ↦ if text_eq p path then failed no_schema else ok found
            | some doc ↦ scan_doc type_name src doc found
          ]
    ]

    -- The loop over the peers.
    unfoldable pub scan_peers : Text → Text → os.World → List Text → Scanned → Outcome Scanned
    scan_peers path type_name w [] found = ok found
    scan_peers path type_name w (p ∷ peers) found = do
      found' ← scan_peer path type_name w p found
      scan_peers path type_name w peers found'

    -- The files beside `path` of its extension, and `path` itself.
    unfoldable pub peers_of : Text → os.World → Outcome (List Text)
    peers_of path w =
        let matched = os.glob (join_path os (os.dir_of path) (codes "*" ++ os.ext path)) w in
        if text_eq (os.ext path) []
        then ok (path ∷ [])
        else elim matched as (λ _. Outcome (List Text)) [
          | none ↦ failed unread
          | some paths ↦ ok (if has paths path then paths else paths ++ path ∷ [])
        ]

    abbrev pub nothing_found : Scanned
    nothing_found = record { sources = []; has_query = false; has_mutation = false }

    unfoldable pub plan_clean : Text → ModelTable → os.World → Outcome Text
    plan_clean path t w = do
      option_or unread (if os.exists_file path w then some tt else none)
      peers ← peers_of path w
      found ← scan_peers path t.type_name w peers nothing_found
      let frag = sdl t (not found.has_query) (not found.has_mutation)
      check_composes found.sources path frag
      ok frag

    -- `planSDL`.
    unfoldable pub plan_sdl : Text → ModelTable → os.World → Outcome Text
    plan_sdl path t w = plan_clean (os.clean path) t w
