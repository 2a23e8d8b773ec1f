-- ===== src/Luimagen/Schema/Quiet.antt =====
-- luimagen/gen.go: the errors of `planSDL`.
use luima.Prelude.{
  not, List, [], ◌∷◌, ◌++◌, none, some, Text, codes, text_eq, has, Bool-cases, Option-cases, inl,
  inr, if◌then◌else◌,
}
use luima.Luimagen.Table.{ModelTable}
use luima.Luimagen.Schema.{
  Source, SchemaDoc, Gqlparser, Scanned, scan_doc, scan_peer, scan_peers, peers_of, with_fragment,
  check_composes, plan_clean, plan_sdl, nothing_found,
}
use luima.Luimagen.Source.{sdl}
use luima.Luimagen.Patch.{unread, Outcome, option_or}
use luima.Luimagen.Patch.Total.{NoPanic, >>=-NoPanic, option_or-NoPanic}
use luima.Luimagen.Files.{Os, join_path}

check_composes-NoPanic :
    (gql : Gqlparser) (sources : List Source) (path frag : Text)
    → NoPanic (check_composes gql sources path frag)
unfolding check_composes
check_composes-NoPanic gql sources path frag = elim (Bool-cases (gql.load_schema sources)) [
  | inr e ↦ rw (e, NoPanic) tt
  | inl e ↦ elim (Bool-cases (gql.load_schema (with_fragment sources path frag))) [
    | inl f ↦ rw (e, f, NoPanic) tt
    | inr f ↦ rw (e, f, NoPanic) (λ h. cc)
  ]
]

scan_doc-NoPanic :
    (gql : Gqlparser) (type_name : Text) (src : Source) (doc : SchemaDoc) (found : Scanned)
    → NoPanic (scan_doc gql type_name src doc found)
unfolding scan_doc
scan_doc-NoPanic gql type_name src doc found = elim (Bool-cases (has doc.extensions type_name)) [
  | inl e ↦ rw (e, NoPanic) (λ h. cc)
  | inr e ↦ elim (Bool-cases (has doc.definitions type_name)) [
    | inl f ↦ rw (e, f, NoPanic) (λ h. cc)
    | inr f ↦ rw (e, f, NoPanic) tt
  ]
]

module _ (gql : Gqlparser) (os : Os) where
  scan_peer-NoPanic :
      (path type_name : Text) (w : os.World) (p : Text) (found : Scanned)
      → NoPanic (scan_peer gql os path type_name w p found)
  unfolding scan_peer
  scan_peer-NoPanic path type_name w p found = elim (Option-cases (os.read_file p w)) [
    | inl e ↦ elim (Bool-cases (text_eq p path)) [
      | inl f ↦ rw (e, f, NoPanic) (λ h. cc)
      | inr f ↦ rw (e, f, NoPanic) tt
    ]
    | inr (input, e) ↦
        let src : Source = record { name = p; input = input } in
        elim (Option-cases (gql.parse_schema src)) [
          | inl g ↦ elim (Bool-cases (text_eq p path)) [
            | inl f ↦ rw (e, g, f, NoPanic) (λ h. cc)
            | inr f ↦ rw (e, g, f, NoPanic) tt
          ]
          | inr (doc, g) ↦ rw (e, g, NoPanic) (scan_doc-NoPanic gql type_name src doc found)
        ]
  ]

  scan_peers-NoPanic :
      (path type_name : Text) (w : os.World) (peers : List Text) (found : Scanned)
      → NoPanic (scan_peers gql os path type_name w peers found)
  unfolding scan_peers
  scan_peers-NoPanic path type_name w [] found = tt
  scan_peers-NoPanic path type_name w (p ∷ peers) found =
      >>=-NoPanic (scan_peer gql os path type_name w p found)
        (scan_peers gql os path type_name w peers) (scan_peer-NoPanic path type_name w p found)
        λ found' _. scan_peers-NoPanic path type_name w peers found'

  peers_of-NoPanic : (path : Text) (w : os.World) → NoPanic (peers_of gql os path w)
  unfolding peers_of
  peers_of-NoPanic path w = elim (Bool-cases (text_eq (os.ext path) [])) [
    | inl e ↦ rw (e, NoPanic) tt
    | inr e ↦
        elim (Option-cases (os.glob (join_path os (os.dir_of path) (codes "*" ++ os.ext path)) w)) [
          | inl g ↦ rw (e, g, NoPanic) (λ h. cc)
          | inr (paths, g) ↦ rw (e, g, NoPanic) tt
        ]
  ]

  plan_clean-NoPanic :
      (path : Text) (t : ModelTable) (w : os.World) → NoPanic (plan_clean gql os path t w)
  unfolding plan_clean
  plan_clean-NoPanic path t w =
      let there : Outcome (Unit {0}) =
        option_or unread (if os.exists_file path w then some tt else none) in
      >>=-NoPanic there _
        (option_or-NoPanic unread (if os.exists_file path w then some tt else none) (λ h. cc))
        λ _ _. >>=-NoPanic (peers_of gql os path w) _ (peers_of-NoPanic path w) λ peers _.
          >>=-NoPanic (scan_peers gql os path t.type_name w peers (nothing_found gql os)) _
            (scan_peers-NoPanic path t.type_name w peers (nothing_found gql os))
            λ found _.
              let frag = sdl t (not found.has_query) (not found.has_mutation) in
              >>=-NoPanic (check_composes gql found.sources path frag) _
                (check_composes-NoPanic gql found.sources path frag) λ _ _. tt

  pub plan_sdl-NoPanic :
      (path : Text) (t : ModelTable) (w : os.World) → NoPanic (plan_sdl gql os path t w)
  unfolding plan_sdl
  plan_sdl-NoPanic path t w = plan_clean-NoPanic (os.clean path) t w
