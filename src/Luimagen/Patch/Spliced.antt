-- ===== src/Luimagen/Patch/Spliced.antt =====
-- luimagen/patch.go: the first splice of `patchSource`, over the edits of the stubs.
use luima.Prelude.{
  ℕ, ◌+◌, List, [], ◌∷◌, none, some, ◌≡◌, ap, subst, sym, inl, inr, arith, Text, length, All,
  All-imp, AllPairs,
}
use luima.Luimagen.Splice.{Edit, splice_all, apply_edits}
use luima.Luimagen.Splice.Replaced.{replaced, apply_edits-replaced}
use luima.Luimagen.Splice.Sorted.{Apart, Within, Sorts, sort-IsBackToFront}
use luima.Luimagen.Syntax.{Body, FuncDecl, Decl, File}
use luima.Luimagen.Table.{ModelTable}
use luima.Luimagen.Targets.{Target, targets}
use luima.Luimagen.Patch.{ok, stub_edit, stub_edits, Tools}
use luima.Luimagen.Patch.Filled.{IsFilling, IsStubOf, stub_edits-eq-ok}
use luima.Luimagen.Patch.Apart.{IsPlaced, Found, Found-Stands, Found-Before, Clash}
use luima.Luimagen.Patch.Clashes.{targets-Clash}

-- The edit of a target: what stands between the braces of its body is replaced.
abbrev Fills : List Decl → Target → Edit → Type 0
Fills decls tg e =
    (b : Body) × Found decls tg.recv tg.name b × (e.start ≡ b.lbrace + 1) × (e.end ≡ b.rbrace)

stub_edit-Fills :
    (decls : List Decl) (tg : Target) (fn : FuncDecl)
    → IsStubOf decls tg fn
    → Fills decls tg (stub_edit tg fn)
unfolding stub_edit
stub_edit-Fills decls tg fn (found, (b, s, body, stmts, stub), arity) = (
  b,
  (fn, found, body),
  ap (λ o. elim o [ none ↦ 0 | some b ↦ b.lbrace ] + 1) body,
  ap (λ o. elim o [ none ↦ 0 | some b ↦ b.rbrace ]) body,
)

-- Each edit is that of a target, where all of them have a property.
All-Fills :
    (P : Target → Type 0) (decls : List Decl) (tgs : List Target) (edits : List Edit)
    → All P tgs
    → IsFilling decls tgs edits
    → All (λ e. (tg : Target) × P tg × Fills decls tg e) edits
All-Fills P decls [] edits all h = subst (All _) (sym h) tt
All-Fills P decls (tg ∷ tgs) edits (p, all) (inl (left, h)) = All-Fills P decls tgs edits all h
All-Fills P decls (tg ∷ tgs) edits (p, all) (inr (fn, more, stub, same, h)) =
    subst (All _) (sym same)
      ((tg, p, stub_edit-Fills decls tg fn stub), All-Fills P decls tgs more all h)

pub All-Unit : (tgs : List Target) → All (λ _. Unit {0}) tgs
All-Unit [] = tt
All-Unit (tg ∷ tgs) = (tt, All-Unit tgs)

module _ (size : ℕ) (decls : List Decl) (placed : IsPlaced (size + 1) 0 decls) where
  Fills-Within : (tg : Target) (e : Edit) → Fills decls tg e → Within size e
  Fills-Within tg e (b, found, starts, ends) =
      let (x, y, z) = Found-Stands (size + 1) 0 decls tg.recv tg.name b placed found in omega arith

  Fills-Apart :
      (tg tg' : Target) (e e' : Edit)
      → Clash tg tg'
      → Fills decls tg e
      → Fills decls tg' e'
      → Apart e e'
  Fills-Apart tg tg' e e' clash (b, found, starts, ends) (b', found', starts', ends') =
      elim (Found-Before (size + 1) 0 decls tg tg' b b' clash placed found found') [
        | inl h ↦ inl (omega arith)
        | inr h ↦ inr (omega arith)
      ]

  pub edits-Within :
      (tgs : List Target) (edits : List Edit)
      → All (λ _. Unit {0}) tgs
      → IsFilling decls tgs edits
      → All (Within size) edits
  edits-Within tgs edits all h =
      All-imp (λ e (f : (tg : Target) × Unit {0} × Fills decls tg e). Fills-Within f.0 e f.2) edits
        (All-Fills (λ _. Unit {0}) decls tgs edits all h)

  pub edits-Apart :
      (tgs : List Target) (edits : List Edit)
      → AllPairs Clash tgs
      → IsFilling decls tgs edits
      → AllPairs Apart edits
  edits-Apart [] edits clash h = subst (AllPairs Apart) (sym h) tt
  edits-Apart (tg ∷ tgs) edits (c, clash) (inl (left, h)) = edits-Apart tgs edits clash h
  edits-Apart (tg ∷ tgs) edits (c, clash) (inr (fn, more, stub, same, h)) =
      subst (AllPairs Apart) (sym same) (
        All-imp
            (λ e (f : (tg' : Target) × Clash tg tg' × Fills decls tg' e).
              Fills-Apart tg f.0 (stub_edit tg fn) e f.1 (stub_edit-Fills decls tg fn stub) f.2)
            more (All-Fills (Clash tg) decls tgs more c h),
        edits-Apart tgs more clash h,
      )

-- Where slices.SortFunc sorts, and go/parser gives the bodies of a file their places, one behind the other: the
-- edits of the stubs splice without a slice out of range, and the result is the source with what stands
-- between the braces of each stub, at its offsets before any splice, replaced by the text for it.
pub stub_edits-replaced :
    (go : Tools) (src : Text) (file : File) (t : ModelTable) (model_pkg : Text)
    (fields : List (Text × Text)) (edits : List Edit)
    → Sorts go.sort_edits
    → IsPlaced (length src + 1) 0 file.decls
    → stub_edits file.decls (targets go.prints t model_pkg fields) ≡ ok edits
    → splice_all (go.sort_edits edits) src ≡ some (replaced src (length src) (go.sort_edits edits))
unfolding apply_edits
stub_edits-replaced go src file t model_pkg fields edits sorts placed h =
    let tgs = targets go.prints t model_pkg fields in
    let filling = stub_edits-eq-ok file.decls tgs edits h in
    apply_edits-replaced go.sort_edits edits src (
      sort-IsBackToFront go.sort_edits edits (length src) sorts
        (edits-Within (length src) file.decls placed tgs edits (All-Unit tgs) filling)
        (edits-Apart (length src) file.decls placed tgs edits
          (targets-Clash go.prints t model_pkg fields) filling))
