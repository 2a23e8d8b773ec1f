-- ===== src/Luimagen/Patch/Report.antt =====
-- luimagen/patch.go: what it says of a file that `checkComplete` has no error for it.
use luima.Prelude.{
  false, List, [], ◌∷◌, some, ◌≡◌, refl, ◌↔◌, Text, All, Bool-cases, Option-cases, inl, inr,
}
use luima.Luimagen.Syntax.{Decl, FuncDecl, File}
use luima.Luimagen.Table.{ModelTable}
use luima.Luimagen.Stubs.{find_func, panics_somewhere}
use luima.Luimagen.Targets.{Target}
use luima.Luimagen.Patch.{ok, Tools, missing_of, panics_of, report, names_only, check_complete}

-- The method of a target is in the file, and no call of panic is in its body.
abbrev pub IsLive : List Decl → Target → Type 0
IsLive decls tg =
    (fn : FuncDecl) × (find_func decls tg.recv tg.name ≡ some fn) × (panics_somewhere fn ≡ false)

module _ (go : Tools) where
  -- A source whose five methods are all live.
  abbrev pub IsComplete : Text → ModelTable → Type 0
  IsComplete src t =
      (file : File) × (go.parse src ≡ some file) × All (IsLive file.decls) (names_only go t)

  report-IsLive :
      (decls : List Decl) (targets : List Target)
      → missing_of go decls targets ≡ []
      → panics_of go decls targets ≡ []
      → All (IsLive decls) targets
  unfolding missing_of panics_of
  report-IsLive decls [] m p = tt
  report-IsLive decls (tg ∷ targets) m p = elim (Option-cases (find_func decls tg.recv tg.name)) [
    | inl e ↦ absurd (cc)
    | inr (fn, e) ↦ elim (Bool-cases (panics_somewhere fn)) [
      | inl a ↦ absurd (cc)
      | inr a ↦ ((fn, e, a), report-IsLive decls targets (cc) (cc))
    ]
  ]

  IsLive-reported :
      (decls : List Decl) (targets : List Target)
      → All (IsLive decls) targets
      → (missing_of go decls targets ≡ []) × (panics_of go decls targets ≡ [])
  unfolding missing_of panics_of
  IsLive-reported decls [] h = (refl, refl)
  IsLive-reported decls (tg ∷ targets) ((fn, e, a), h) =
      let (m, p) = IsLive-reported decls targets h in (rw (missing_of, e) m, rw (panics_of, e, a) p)

  report-eq-ok : (ms ps : List Text) → report go ms ps ≡ ok tt → (ms ≡ []) × (ps ≡ [])
  report-eq-ok [] [] h = (refl, refl)
  report-eq-ok [] (p ∷ ps) h = absurd (cc)
  report-eq-ok (m ∷ ms) ps h = absurd (cc)

  -- checkComplete has no error for a source exactly where it parses, and each of the five methods is in
  -- it with no call of panic in its body.
  pub check_complete_iff :
      (src : Text) (t : ModelTable) → (check_complete go src t ≡ ok tt) ↔ IsComplete src t
  unfolding check_complete
  check_complete_iff src t = (forward, backward)
    where
      forward : check_complete go src t ≡ ok tt → IsComplete src t
      forward h = elim (Option-cases (go.parse src)) [
        | inl e ↦ absurd (cc)
        | inr (file, e) ↦
            let (m, p) =
              report-eq-ok (missing_of go file.decls (names_only go t))
                (panics_of go file.decls (names_only go t)) (cc) in
            (file, e, report-IsLive file.decls (names_only go t) m p)
      ]

      backward : IsComplete src t → check_complete go src t ≡ ok tt
      backward (file, e, h) =
          let (m, p) = IsLive-reported file.decls (names_only go t) h in rw (e, m, p) refl
