-- ===== src/Luimagen/Schema/Peers.antt =====
-- luimagen/gen.go: what the loop of `planSDL` over the schema files has found.
use luima.Prelude.{
  Bool, true, false, ◌||◌, List, [], ◌∷◌, ◌++◌, map, Option, none, some, ◌≡◌, refl, sym, ap, ◌∙◌,
  subst, ◌⊎◌, inl, inr, Text, codes, text_eq, has, All, Bool-cases, Option-cases,
}
use mathlib.Core.List.{append_assoc, append-nil}
use luima.Luimagen.Patch.{ok, >>=-eq-ok}
use luima.Luimagen.Files.{Os}
use luima.Luimagen.Schema.{Source, SchemaDoc, Gqlparser, Scanned, scan_doc, scan_peer, scan_peers}

abbrev pub source_of : Source × SchemaDoc → Source
source_of (src, doc) = src

abbrev pub name_of : Source × SchemaDoc → Text
name_of (src, doc) = src.name

-- Neither declared nor extended by a file.
abbrev pub IsFreeIn : Text → Source × SchemaDoc → Type 0
IsFreeIn type_name (src, doc) =
    (has doc.extensions type_name ≡ false) × (has doc.definitions type_name ≡ false)

abbrev pub any_defines : Text → List (Source × SchemaDoc) → Bool
any_defines name [] = false
any_defines name ((src, doc) ∷ docs) = has doc.definitions name || any_defines name docs

abbrev pub with_doc :
    Option (Source × SchemaDoc) → List (Source × SchemaDoc) → List (Source × SchemaDoc)
with_doc none docs = docs
with_doc (some d) docs = d ∷ docs

or_join : (a b c d : Bool) → a ≡ (b || (c || false)) → (a || d) ≡ (b || (c || d))
or_join a true c d h = rw h refl
or_join a false true d h = rw h refl
or_join a false false d h = rw h refl

or_false : (b : Bool) → (b || false) ≡ b
or_false true = refl
or_false false = refl

module _ (gql : Gqlparser) (os : Os) where
  -- The files that can be read and parsed, in their order.
  abbrev pub parsed_at : os.World → Text → Option (Source × SchemaDoc)
  parsed_at w p = elim (os.read_file p w) [
    | none ↦ none
    | some input ↦
        let src : Source = record { name = p; input = input } in
        elim (gql.parse_schema src) [ none ↦ none | some doc ↦ some (src, doc) ]
  ]

  abbrev pub docs_of : os.World → List Text → List (Source × SchemaDoc)
  docs_of w [] = []
  docs_of w (p ∷ peers) = let rest = docs_of w peers in with_doc (parsed_at w p) rest

  -- What the loop has found behind what it had found.
  abbrev pub IsFound : List (Source × SchemaDoc) → Scanned → Scanned → Type 0
  IsFound docs before after =
      (after.sources ≡ before.sources ++ map source_of docs)
      × ((after.has_query ≡ (before.has_query || any_defines (codes "Query") docs))
          × (after.has_mutation ≡ (before.has_mutation || any_defines (codes "Mutation") docs)))

  found_eq : {a b : Scanned} → ok a ≡ ok b → a ≡ b
  found_eq h = cc

  scan_doc-eq-ok :
      (type_name : Text) (src : Source) (doc : SchemaDoc) (before after : Scanned)
      → scan_doc gql type_name src doc before ≡ ok after
      → IsFreeIn type_name (src, doc) × IsFound ((src, doc) ∷ []) before after
  unfolding scan_doc
  scan_doc-eq-ok type_name src doc before after h =
      elim (Bool-cases (has doc.extensions type_name)) [
        | inl e ↦ absurd (cc)
        | inr e ↦ elim (Bool-cases (has doc.definitions type_name)) [
          | inl d ↦ absurd (cc)
          | inr d ↦ (
            (e, d),
            subst (IsFound ((src, doc) ∷ []) before) (found_eq (cc)) (
              refl,
              (
                ap (◌||◌ before.has_query) (sym (or_false (has doc.definitions (codes "Query")))),
                ap (◌||◌ before.has_mutation)
                    (sym (or_false (has doc.definitions (codes "Mutation")))),
              ),
            ),
          )
        ]
      ]

  -- What one peer comes to.
  scan_peer-eq-ok :
      (path type_name : Text) (w : os.World) (p : Text) (before after : Scanned)
      → scan_peer gql os path type_name w p before ≡ ok after
      → ((parsed_at w p ≡ none) × ((text_eq p path ≡ false) × (after ≡ before)))
        ⊎ ((d : Source × SchemaDoc) × (parsed_at w p ≡ some d)
            × (name_of d ≡ p)
            × IsFreeIn type_name d
            × IsFound (d ∷ []) before after)
  unfolding scan_peer
  scan_peer-eq-ok path type_name w p before after h = elim (Option-cases (os.read_file p w)) [
    | inl e ↦ elim (Bool-cases (text_eq p path)) [
      | inl a ↦ absurd (cc)
      | inr a ↦ inl (rw (parsed_at, e) refl, (a, cc))
    ]
    | inr (input, e) ↦
        let src : Source = record { name = p; input = input } in
        elim (Option-cases (gql.parse_schema src)) [
          | inl b ↦ elim (Bool-cases (text_eq p path)) [
            | inl a ↦ absurd (cc)
            | inr a ↦ inl (rw (parsed_at, e, b) refl, (a, cc))
          ]
          | inr (doc, b) ↦
              let (free, found) = scan_doc-eq-ok type_name src doc before after (cc) in
              inr ((src, doc), rw (parsed_at, e, b) refl, refl, free, found)
        ]
  ]

  IsFound-append :
      (d : Source × SchemaDoc) (docs : List (Source × SchemaDoc)) (before mid after : Scanned)
      → IsFound (d ∷ []) before mid
      → IsFound docs mid after
      → IsFound (d ∷ docs) before after
  IsFound-append (src, doc) docs before mid after (s, (q, m)) (s', (q', m')) = (
    s'
        ∙ ap (λ l. l ++ map source_of docs) s
        ∙ append_assoc before.sources (src ∷ []) (map source_of docs),
    (
      q'
          ∙ or_join mid.has_query before.has_query (has doc.definitions (codes "Query"))
              (any_defines (codes "Query") docs) q,
      m'
          ∙ or_join mid.has_mutation before.has_mutation (has doc.definitions (codes "Mutation"))
              (any_defines (codes "Mutation") docs) m,
    ),
  )

  -- The peers that can be read and parsed are all free, and are what the loop has found; the one at `path`
  -- is among them.
  abbrev pub IsScanned :
      Text → Text → List Text → Scanned → Scanned → List (Source × SchemaDoc) → Type 0
  IsScanned path type_name peers before after docs =
      All (IsFreeIn type_name) docs
      × (IsFound docs before after × (has peers path ≡ has (map name_of docs) path))

  pub scan_peers-eq-ok :
      (path type_name : Text) (w : os.World) (peers : List Text) (before after : Scanned)
      → scan_peers gql os path type_name w peers before ≡ ok after
      → IsScanned path type_name peers before after (docs_of w peers)
  unfolding scan_peers has
  scan_peers-eq-ok path type_name w [] before after h = (
    tt,
    (
      subst (IsFound [] before) (found_eq (cc)) (
        sym (append-nil before.sources),
        (sym (or_false before.has_query), sym (or_false before.has_mutation)),
      ),
      refl,
    ),
  )
  scan_peers-eq-ok path type_name w (p ∷ peers) before after h =
      let (mid, one, rest) =
        >>=-eq-ok (scan_peer gql os path type_name w p before)
          (scan_peers gql os path type_name w peers) after h in
      let (free, (found, same)) = scan_peers-eq-ok path type_name w peers mid after rest in
      let docs = docs_of w peers in
      elim (scan_peer-eq-ok path type_name w p before mid one) [
        | inl (gone, (off, still)) ↦
            subst (λ o. IsScanned path type_name (p ∷ peers) before after (with_doc o docs))
              (sym gone) (free, (subst (λ x. IsFound docs x after) still found, rw off same))
        | inr (d, e, named, free_d, found_d) ↦
            subst (λ o. IsScanned path type_name (p ∷ peers) before after (with_doc o docs)) (sym e)
              (
                (free_d, free),
                (
                  IsFound-append d docs before mid after found_d found,
                  rw named (ap (◌||◌ (text_eq p path)) same),
                ),
              )
      ]
