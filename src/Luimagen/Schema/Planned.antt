-- ===== src/Luimagen/Schema/Planned.antt =====
-- luimagen/gen.go: what a fragment that `planSDL` returns has been checked against.
use luima.Prelude.{
  true, false, not, List, [], ◌∷◌, ◌++◌, map, none, some, ◌≡◌, refl, sym, ◌∙◌, ◌⊎◌, inl, inr, Text,
  codes, text_eq, text_eq_self, has, All, Bool-cases, Option-cases, arith, if◌then◌else◌,
}
use luima.Luimagen.Table.{ModelTable}
use luima.Luimagen.Source.{sdl}
use luima.Luimagen.Patch.{unread, Outcome, ok, option_or, ◌>>=◌, ◌>>◌, >>=-eq-ok}
use luima.Luimagen.Files.{Os, join_path}
use luima.Luimagen.Schema.{
  Source, Gqlparser, Scanned, with_fragment, check_composes, scan_peers, peers_of, nothing_found,
  plan_clean, plan_sdl,
}
use luima.Luimagen.Schema.Peers.{
  source_of, name_of, IsFreeIn, any_defines, docs_of, scan_peers-eq-ok,
}

module _ (gql : Gqlparser) (os : Os) where
  check_composes-eq-ok :
      (sources : List Source) (path frag : Text)
      → check_composes gql sources path frag ≡ ok tt
      → (gql.load_schema sources ≡ false)
        ⊎ (gql.load_schema (with_fragment sources path frag) ≡ true)
  unfolding check_composes
  check_composes-eq-ok sources path frag h = elim (Bool-cases (gql.load_schema sources)) [
    | inr e ↦ inl e
    | inl e ↦ elim (Bool-cases (gql.load_schema (with_fragment sources path frag))) [
      | inl a ↦ inr a
      | inr a ↦ absurd (cc)
    ]
  ]

  has-snoc : (xs : List Text) (x : Text) → has (xs ++ x ∷ []) x ≡ true
  unfolding has
  has-snoc [] x = rw (text_eq_self x) refl
  has-snoc (y ∷ xs) x = rw (has-snoc xs x) (ground arith)

  peers_of-HasPath :
      (path : Text) (w : os.World) (peers : List Text)
      → peers_of gql os path w ≡ ok peers
      → has peers path ≡ true
  unfolding peers_of has
  peers_of-HasPath path w peers h = elim (Bool-cases (text_eq (os.ext path) [])) [
    | inl e ↦ let same : peers ≡ path ∷ [] = cc in rw (same, text_eq_self path) refl
    | inr e ↦
        elim (Option-cases (os.glob (join_path os (os.dir_of path) (codes "*" ++ os.ext path)) w)) [
          | inl a ↦ absurd (cc)
          | inr (paths, a) ↦ elim (Bool-cases (has paths path)) [
            | inl b ↦ let same : peers ≡ paths = cc in rw same b
            | inr b ↦ let same : peers ≡ paths ++ path ∷ [] = cc in rw same (has-snoc paths path)
          ]
        ]
  ]

  -- What a planned fragment has been checked against, for the cleaned path.
  pub record IsPlanned (path : Text) (t : ModelTable) (w : os.World) (frag : Text) : Type 0 where
    pub peers : List Text
    pub same_peers : peers_of gql os path w ≡ ok peers
    pub free : All (IsFreeIn t.type_name) (docs_of gql os w peers)
    pub parsed : has (map name_of (docs_of gql os w peers)) path ≡ true
    pub fragment :
        frag
        ≡ sdl t
            (not (any_defines (codes "Query") (docs_of gql os w peers)))
            (not (any_defines (codes "Mutation") (docs_of gql os w peers)))
    pub composes :
        (gql.load_schema (map source_of (docs_of gql os w peers)) ≡ false)
        ⊎ (gql.load_schema (with_fragment (map source_of (docs_of gql os w peers)) path frag)
            ≡ true)

  -- Where planSDL returns a fragment, no file that it read beside the schema file declares or extends the
  -- type, the schema file is one of those that it read and parsed, the fragment declares Query exactly where
  -- none of them does, and Mutation likewise, and either those files were no schema on their own, or they
  -- are one with the fragment behind the schema file.
  pub plan_sdl-IsPlanned :
      (path : Text) (t : ModelTable) (w : os.World) (frag : Text)
      → plan_sdl gql os path t w ≡ ok frag
      → IsPlanned (os.clean path) t w frag
  unfolding plan_sdl plan_clean
  plan_sdl-IsPlanned path t w frag h =
      let clean = os.clean path in
      let frag_of : Scanned → Text =
        λ found. sdl t (not found.has_query) (not found.has_mutation) in
      let composed : Scanned → Outcome Text =
        λ found. check_composes gql found.sources clean (frag_of found) >> ok (frag_of found) in
      let scanned : List Text → Outcome Text =
        λ peers. scan_peers gql os clean t.type_name w peers (nothing_found gql os) >>= composed in
      let (u, there, h1) =
        >>=-eq-ok (option_or unread (if os.exists_file clean w then some tt else none))
          (λ _. peers_of gql os clean w >>= scanned) frag h in
      let (peers, same_peers, h2) = >>=-eq-ok (peers_of gql os clean w) scanned frag h1 in
      let (found, scan, h3) =
        >>=-eq-ok (scan_peers gql os clean t.type_name w peers (nothing_found gql os)) composed frag
          h2 in
      let (v, check, h4) =
        >>=-eq-ok (check_composes gql found.sources clean (frag_of found)) (λ _. ok (frag_of found))
          frag h3 in
      let (free, ((sources, (query, mutation)), parsed)) =
        scan_peers-eq-ok gql os clean t.type_name w peers (nothing_found gql os) found scan in
      let same : frag ≡ frag_of found = cc in
      let checked : check_composes gql (map source_of (docs_of gql os w peers)) clean frag ≡ ok tt =
        rw (same, sym sources) check in
      record {
        peers = peers;
        same_peers = same_peers;
        free = free;
        parsed = sym parsed ∙ peers_of-HasPath clean w peers same_peers;
        fragment = same ∙ rw (query, mutation) refl;
        composes = check_composes-eq-ok (map source_of (docs_of gql os w peers)) clean frag checked;
      }
