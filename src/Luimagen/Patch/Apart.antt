-- ===== src/Luimagen/Patch/Apart.antt =====
-- luimagen/patch.go: the bodies that `patchSource` fills are bodies of different methods, so their ranges are
-- apart.
use luima.Prelude.{
  ℕ, ◌≤◌, ◌<◌, true, List, [], ◌∷◌, Option, none, some, ◌≡◌, ap, ◌∙◌, subst, ◌⊎◌, inl, inr, arith,
  Text, Bool-cases,
}
use luima.Luimagen.Syntax.{Body, FuncDecl, Decl, func_decl, import_decl, other_decl}
use luima.Luimagen.Stubs.{is_method, find_func}
use luima.Luimagen.Targets.{Target}

-- The body of a function stands from `lo` on, and ends before `mid`.
abbrev pub InBody : ℕ → Option Body → ℕ → Type 0
InBody lo none mid = mid ≡ lo
InBody lo (some b) mid = (lo ≤ b.lbrace) × (b.lbrace < b.rbrace) × (b.rbrace < mid)

-- The imports and the bodies of the functions stand one behind the other, with something between any two,
-- and end before `size`.
abbrev pub IsPlaced : ℕ → ℕ → List Decl → Type 0
IsPlaced size lo [] = lo ≤ size
IsPlaced size lo (func_decl fn ∷ decls) =
    (mid : ℕ) × InBody lo fn.body mid × IsPlaced size mid decls
IsPlaced size lo (import_decl d ∷ decls) =
    (mid : ℕ) × (lo ≤ d.pos) × (d.pos < d.end) × (d.end < mid) × IsPlaced size mid decls
IsPlaced size lo (other_decl d ∷ decls) = IsPlaced size lo decls

pub InBody-le : (lo mid : ℕ) (o : Option Body) → InBody lo o mid → lo ≤ mid
InBody-le lo mid none h = omega arith
InBody-le lo mid (some b) (x, y, z) = omega arith

pub IsPlaced-le : (size lo : ℕ) (decls : List Decl) → IsPlaced size lo decls → lo ≤ size
IsPlaced-le size lo [] h = h
IsPlaced-le size lo (func_decl fn ∷ decls) (mid, b, h) =
    let first = InBody-le lo mid fn.body b in let rest = IsPlaced-le size mid decls h in omega arith
IsPlaced-le size lo (import_decl d ∷ decls) (mid, a, b, c, h) =
    let rest = IsPlaced-le size mid decls h in omega arith
IsPlaced-le size lo (other_decl d ∷ decls) h = IsPlaced-le size lo decls h

-- The body of a method that is found.
abbrev pub Found : List Decl → Text → Text → Body → Type 0
Found decls recv name b =
    (fn : FuncDecl) × (find_func decls recv name ≡ some fn) × (fn.body ≡ some b)

abbrev pub Stands : ℕ → ℕ → Body → Type 0
Stands lo size b = (lo ≤ b.lbrace) × (b.lbrace < b.rbrace) × (b.rbrace < size)

here-Stands :
    (size lo mid : ℕ) (o : Option Body) (b : Body)
    → o ≡ some b
    → InBody lo o mid
    → mid ≤ size
    → Stands lo size b × (b.rbrace < mid)
here-Stands size lo mid o b e h le =
    let (x, y, z) : InBody lo (some b) mid = subst (λ o. InBody lo o mid) e h in
    ((x, y, omega arith), z)

pub Found-Stands :
    (size lo : ℕ) (decls : List Decl) (recv name : Text) (b : Body)
    → IsPlaced size lo decls
    → Found decls recv name b
    → Stands lo size b
unfolding find_func
Found-Stands size lo [] recv name b placed (fn, found, e) = absurd (cc)
Found-Stands size lo (func_decl fn ∷ decls) recv name b (mid, body, placed) (found, same, e) =
    elim (Bool-cases (is_method recv name fn)) [
      | inl is ↦
          let eq : fn ≡ found = cc in
          (here-Stands size lo mid fn.body b (ap FuncDecl.body eq ∙ e) body
            (IsPlaced-le size mid decls placed)).0
      | inr not ↦
          let (x, y, z) = Found-Stands size mid decls recv name b placed (found, cc, e) in
          let le = InBody-le lo mid fn.body body in (omega arith, y, z)
    ]
Found-Stands size lo (import_decl d ∷ decls) recv name b (mid, p, q, r, placed) found =
    let (x, y, z) = Found-Stands size mid decls recv name b placed found in (omega arith, y, z)
Found-Stands size lo (other_decl d ∷ decls) recv name b placed found =
    Found-Stands size lo decls recv name b placed found

-- No function is the method of both targets.
abbrev pub Clash : Target → Target → Type 0
Clash tg tg' =
    (fn : FuncDecl)
    → is_method tg.recv tg.name fn ≡ true
    → is_method tg'.recv tg'.name fn ≡ true
    → ⊥

abbrev pub Before : Body → Body → Type 0
Before b b' = (b.rbrace < b'.lbrace) ⊎ (b'.rbrace < b.lbrace)

pub Found-Before :
    (size lo : ℕ) (decls : List Decl) (tg tg' : Target) (b b' : Body)
    → Clash tg tg'
    → IsPlaced size lo decls
    → Found decls tg.recv tg.name b
    → Found decls tg'.recv tg'.name b'
    → Before b b'
unfolding find_func
Found-Before size lo [] tg tg' b b' clash placed (fn, found, e) other = absurd (cc)
Found-Before size lo (func_decl fn ∷ decls) tg tg' b b' clash (mid, body, placed) (f, same, e)
      (f', same', e') =
    elim (Bool-cases (is_method tg.recv tg.name fn)) [
      | inl is ↦ elim (Bool-cases (is_method tg'.recv tg'.name fn)) [
        | inl is' ↦ absurd (clash fn is is')
        | inr not' ↦
            let eq : fn ≡ f = cc in
            let (_, ends) =
              here-Stands size lo mid fn.body b (ap FuncDecl.body eq ∙ e) body
                (IsPlaced-le size mid decls placed) in
            let (x, _, _) = Found-Stands size mid decls tg'.recv tg'.name b' placed (f', cc, e') in
            inl (omega arith)
      ]
      | inr not ↦ elim (Bool-cases (is_method tg'.recv tg'.name fn)) [
        | inl is' ↦
            let eq : fn ≡ f' = cc in
            let (_, ends) =
              here-Stands size lo mid fn.body b' (ap FuncDecl.body eq ∙ e') body
                (IsPlaced-le size mid decls placed) in
            let (x, _, _) = Found-Stands size mid decls tg.recv tg.name b placed (f, cc, e) in
            inr (omega arith)
        | inr not' ↦ Found-Before size mid decls tg tg' b b' clash placed (f, cc, e) (f', cc, e')
      ]
    ]
Found-Before size lo (import_decl d ∷ decls) tg tg' b b' clash (mid, p, q, r, placed) x y =
    Found-Before size mid decls tg tg' b b' clash placed x y
Found-Before size lo (other_decl d ∷ decls) tg tg' b b' clash placed x y =
    Found-Before size lo decls tg tg' b b' clash placed x y
