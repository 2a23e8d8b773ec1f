-- ===== src/Luimagen/Patch/Ranges.antt =====
-- luimagen/patch.go: the ranges of the edits that `importEdits` makes.
use luima.Prelude.{
  ℕ, ◌+◌, ◌≤◌, Bool, true, false, List, [], ◌∷◌, ◌++◌, ◌≡◌, subst, arith, Text, length, All,
  All-imp, AllPairs, inl, if◌then◌else◌,
}
use luima.Luimagen.Splice.{Edit}
use luima.Luimagen.Splice.Sorted.{Apart, Within}
use luima.Luimagen.Syntax.{ImportDecl, Decl, func_decl, import_decl, other_decl, File, Imp}
use luima.Luimagen.Imports.{
  Added, added, bound, import_decls, final_imports, delete_decls, block_edits,
}
use luima.Luimagen.Patch.{Outcome, ok, Tools, edits_of_added, import_edits}
use luima.Luimagen.Patch.Apart.{IsPlaced, IsPlaced-le, InBody-le}

-- The range of an import declaration.
abbrev From : ℕ → ℕ → Edit → Type 0
From lo size e = (lo ≤ e.start) × (e.start ≤ e.end) × (e.end ≤ size)

delete_decls-From :
    (size lo : ℕ) (decls : List Decl)
    → IsPlaced (size + 1) lo decls
    → All (From lo size) (delete_decls (import_decls decls))
unfolding delete_decls import_decls
delete_decls-From size lo [] h = tt
delete_decls-From size lo (func_decl fn ∷ decls) (mid, b, h) =
    let le = InBody-le lo mid fn.body b in
    All-imp (λ e (f : From mid size e). omega arith) _ (delete_decls-From size mid decls h)
delete_decls-From size lo (other_decl d ∷ decls) h = delete_decls-From size lo decls h
delete_decls-From size lo (import_decl d ∷ decls) (mid, a, b, c, h) =
    let le = IsPlaced-le (size + 1) mid decls h in
    (
      (a, omega arith, omega arith),
      All-imp (λ e (f : From mid size e). omega arith) _ (delete_decls-From size mid decls h),
    )

delete_decls-Apart :
    (size lo : ℕ) (decls : List Decl)
    → IsPlaced (size + 1) lo decls
    → AllPairs Apart (delete_decls (import_decls decls))
unfolding delete_decls import_decls
delete_decls-Apart size lo [] h = tt
delete_decls-Apart size lo (func_decl fn ∷ decls) (mid, b, h) = delete_decls-Apart size mid decls h
delete_decls-Apart size lo (other_decl d ∷ decls) h = delete_decls-Apart size lo decls h
delete_decls-Apart size lo (import_decl d ∷ decls) (mid, a, b, c, h) = (
  All-imp (λ e (f : From mid size e). inl (omega arith)) _ (delete_decls-From size mid decls h),
  delete_decls-Apart size mid decls h,
)

module _ {ℓ} (P : Edit → Type ℓ) where
  one_more :
      (b : Bool) (r : Edit) (es : List Edit)
      → P r
      → All P es
      → All P ((if b then r ∷ [] else []) ++ es)
  one_more true r es p h = (p, h)
  one_more false r es p h = h

one_more-Apart :
    (b : Bool) (r : Edit) (es : List Edit)
    → All (Apart r) es
    → AllPairs Apart es
    → AllPairs Apart ((if b then r ∷ [] else []) ++ es)
one_more-Apart true r es h k = (h, k)
one_more-Apart false r es h k = k

module _ (prints : ℕ → Bool) (sort : List Imp → List Imp) (src : Text) (imports : List Imp)
    (size : ℕ) where
  block_edits-Within :
      (ds : List ImportDecl)
      → All (From 0 size) (delete_decls ds)
      → All (Within size) (block_edits prints sort src ds imports)
  unfolding block_edits delete_decls
  block_edits-Within [] h = tt
  block_edits-Within (d ∷ ds) ((_, a, b), h) =
      one_more (Within size) _ _ _ (a, b) (All-imp (λ e (f : From 0 size e). (f.1, f.2)) _ h)

  block_edits-Apart :
      (ds : List ImportDecl)
      → AllPairs Apart (delete_decls ds)
      → AllPairs Apart (block_edits prints sort src ds imports)
  unfolding block_edits delete_decls
  block_edits-Apart [] h = tt
  block_edits-Apart (d ∷ ds) (h, k) = one_more-Apart _ _ _ h k

-- The edits are apart, and inside the source.
abbrev pub AreSound : Text → List Edit → Type 0
AreSound src edits = All (Within (length src)) edits × AllPairs Apart edits

module _ (go : Tools) where
  edits_of_added-AreSound :
      (src : Text) (ds : List ImportDecl) (a : Added) (edits : List Edit)
      → All (From 0 (length src)) (delete_decls ds)
      → AllPairs Apart (delete_decls ds)
      → edits_of_added go src ds a ≡ ok edits
      → AreSound src edits
  edits_of_added-AreSound src ds (added imports) edits within apart h =
      let e : block_edits go.prints go.sort_imports src ds imports ≡ edits = cc in
      subst (AreSound src) e (
        block_edits-Within go.prints go.sort_imports src imports (length src) ds within,
        block_edits-Apart go.prints go.sort_imports src imports (length src) ds apart,
      )
  edits_of_added-AreSound src ds (bound name other path) edits within apart h = absurd (cc)

  abbrev pub edits_of_decls : Text → Added → List ImportDecl → Outcome (List Edit)
  edits_of_decls src a ds = elim ds as (λ _. Outcome (List Edit)) [
    | [] ↦ ok []
    | d ∷ decls ↦ edits_of_added go src (d ∷ decls) a
  ]

  edits_of_decls-AreSound :
      (src : Text) (a : Added) (ds : List ImportDecl) (edits : List Edit)
      → All (From 0 (length src)) (delete_decls ds)
      → AllPairs Apart (delete_decls ds)
      → edits_of_decls src a ds ≡ ok edits
      → AreSound src edits
  edits_of_decls-AreSound src a [] edits within apart h =
      let e : [] ≡ edits = cc in subst (AreSound src) e (tt, tt)
  edits_of_decls-AreSound src a (d ∷ ds) edits within apart h =
      edits_of_added-AreSound src (d ∷ ds) a edits within apart h

  pub import_edits-AreSound :
      (src : Text) (file : File) (edits : List Edit)
      → IsPlaced (length src + 1) 0 file.decls
      → import_edits go src file ≡ ok edits
      → AreSound src edits
  unfolding import_edits
  import_edits-AreSound src file edits placed h =
      edits_of_decls-AreSound src (final_imports file) (import_decls file.decls) edits
        (delete_decls-From (length src) 0 file.decls placed)
        (delete_decls-Apart (length src) 0 file.decls placed) h
