-- ===== src/Luimagen/Patch/Clashes.antt =====
-- luimagen/patch.go: no function is the method of two of the five targets.
use luima.Prelude.{
  ℕ, suc, Bool, true, false, ◌&&◌, List, [], ◌∷◌, ◌++◌, map, ◌≡◌, refl, sym, ap, ◌∙◌, arith, Text,
  codes, text_eq, text_eq_iff, length, length-append, AllPairs,
}
use luima.Luimagen.Runes.{fold, to_lower, equal_fold}
use luima.Luimagen.Syntax.{FuncDecl}
use luima.Luimagen.Table.{ModelTable}
use luima.Luimagen.Stubs.{is_method, recv_of, has_recv}
use luima.Luimagen.Targets.{targets}
use luima.Luimagen.Patch.Apart.{Clash}

and-parts : (a b : Bool) → a && b ≡ true → (a ≡ true) × (b ≡ true)
and-parts true true h = (refl, refl)
and-parts true false h = absurd (cc)
and-parts false b h = absurd (cc)

-- A method's name folds to the one asked for, and its receiver is the one asked for.
is_method-parts :
    (recv name : Text) (fn : FuncDecl)
    → is_method recv name fn ≡ true
    → (map fold fn.name ≡ map fold name) × (recv_of fn ≡ recv)
unfolding is_method equal_fold
is_method-parts recv name fn h =
    let (a, b) =
      and-parts (text_eq (map fold fn.name) (map fold name))
        (has_recv fn && text_eq (recv_of fn) recv) h in
    let (c, d) = and-parts (has_recv fn) (text_eq (recv_of fn) recv) b in
    ((text_eq_iff _ _).0 a, (text_eq_iff _ _).0 d)

module _ (recv name recv' name' : Text) (fn : FuncDecl) where
  recvs_apart :
      text_eq recv recv' ≡ false
      → is_method recv name fn ≡ true
      → is_method recv' name' fn ≡ true
      → ⊥
  recvs_apart differ h h' =
      let (_, r) = is_method-parts recv name fn h in
      let (_, r') = is_method-parts recv' name' fn h' in
      let same : text_eq recv recv' ≡ true = (text_eq_iff recv recv').1 (sym r ∙ r') in absurd (cc)

  names_apart :
      (map fold name ≡ map fold name' → ⊥)
      → is_method recv name fn ≡ true
      → is_method recv' name' fn ≡ true
      → ⊥
  names_apart differ h h' =
      differ (sym (is_method-parts recv name fn h).0 ∙ (is_method-parts recv' name' fn h').0)

length-map-fold : (s : Text) → length (map fold s) ≡ length s
length-map-fold [] = refl
length-map-fold (c ∷ s) = ap suc (length-map-fold s)

plural_differs : (name : Text) → map fold name ≡ map fold (name ++ codes "s") → ⊥
unfolding codes
plural_differs name h =
    let e = ap length h in
    let a = length-map-fold name in
    let b = length-map-fold (name ++ codes "s") in
    let c = length-append name (codes "s") in absurd (omega arith)

recvs_differ : text_eq (codes "queryResolver") (codes "mutationResolver") ≡ false
unfolding text_eq codes
recvs_differ = refl

abbrev first : Text → ℕ
first [] = 0
first (c ∷ s) = c

create_update :
    (name : Text) → map fold (codes "Create" ++ name) ≡ map fold (codes "Update" ++ name) → ⊥
unfolding codes fold to_lower
create_update name h = let e : ◌≡◌ {A = ℕ} b'c' b'u' = ap first h in absurd (omega arith)

create_delete :
    (name : Text) → map fold (codes "Create" ++ name) ≡ map fold (codes "Delete" ++ name) → ⊥
unfolding codes fold to_lower
create_delete name h = let e : ◌≡◌ {A = ℕ} b'c' b'd' = ap first h in absurd (omega arith)

update_delete :
    (name : Text) → map fold (codes "Update" ++ name) ≡ map fold (codes "Delete" ++ name) → ⊥
unfolding codes fold to_lower
update_delete name h = let e : ◌≡◌ {A = ℕ} b'u' b'd' = ap first h in absurd (omega arith)

pub targets-Clash :
    (prints : ℕ → Bool) (t : ModelTable) (model_pkg : Text) (fields : List (Text × Text))
    → AllPairs Clash (targets prints t model_pkg fields)
unfolding targets
targets-Clash prints t model_pkg fields =
    let apart = λ (name name' : Text).
      recvs_apart (codes "queryResolver") name (codes "mutationResolver") name' in
    let get = apart t.type_name in
    let list = apart (t.type_name ++ codes "s") in
    let create = codes "Create" ++ t.type_name in
    let update = codes "Update" ++ t.type_name in
    let delete = codes "Delete" ++ t.type_name in
    (
      (
        (λ fn. names_apart _ _ _ _ fn (plural_differs t.type_name)),
        (
          (λ fn. get create fn recvs_differ),
          ((λ fn. get update fn recvs_differ), ((λ fn. get delete fn recvs_differ), tt)),
        ),
      ),
      (
        (
          (λ fn. list create fn recvs_differ),
          ((λ fn. list update fn recvs_differ), ((λ fn. list delete fn recvs_differ), tt)),
        ),
        (
          (
            (λ fn. names_apart _ _ _ _ fn (create_update t.type_name)),
            ((λ fn. names_apart _ _ _ _ fn (create_delete t.type_name)), tt),
          ),
          (((λ fn. names_apart _ _ _ _ fn (update_delete t.type_name)), tt), (tt, tt)),
        ),
      ),
    )
