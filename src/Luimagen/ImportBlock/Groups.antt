-- ===== src/Luimagen/ImportBlock/Groups.antt =====
-- luimagen/patch.go: the paths of `isStdlib`, and the two groups of `splitGroups`.
use luima.Prelude.{
  Bool, true, false, not, ◌&&◌, ◌==◌, List, [], ◌∷◌, ◌++◌, ◌≡◌, ◌≢◌, refl, ap, ◌∙◌, All, AllPairs,
  All-perm, Bool-cases, inl, inr, Text, text_eq, text_eq-false_iff, arith, ◌↔◌,
}
use mathlib.Core.List.Permᴰ as Permᴰ
use mathlib.Core.List.{Permᴰ}
use luima.Luimagen.Syntax.{Imp}
use luima.Luimagen.ImportBlock.Order.{path_le}
use luima.Luimagen.ImportBlock.{
  first_part, has_dot, is_stdlib, stdlib_group, third_group, split_groups,
}

-- The text ends, or goes on with a "/".
abbrev pub IsPartEnd : Text → Type 0
IsPartEnd [] = Unit
IsPartEnd (c ∷ s) = c ≡ b'/'

-- A path whose first part, up to the first "/" or the end, is not empty and has no ".".
abbrev pub IsStdlibPath : Text → Type 0
IsStdlibPath path =
    (first : Text) × (rest : Text) × (path ≡ first ++ rest)
    × (first ≢ [])
    × All (λ c. (c ≢ b'/') × (c ≢ b'.')) first
    × IsPartEnd rest

has_dot-false : (s : Text) → has_dot s ≡ false → All (λ c. c ≢ b'.') s
unfolding has_dot
has_dot-false [] h = tt
has_dot-false (c ∷ s) h = (ground arith, has_dot-false s (ground arith))

dotless : (s : Text) → All (λ c. (c ≢ b'/') × (c ≢ b'.')) s → has_dot s ≡ false
unfolding has_dot
dotless [] h = refl
dotless (c ∷ s) ((a, b), h) = let rest = dotless s h in ground arith

first_part-cut :
    (path : Text)
    → (rest : Text) × (path ≡ first_part path ++ rest)
      × All (λ c. c ≢ b'/') (first_part path)
      × IsPartEnd rest
unfolding first_part
first_part-cut [] = ([], refl, tt, tt)
first_part-cut (c ∷ s) = elim (Bool-cases (c == b'/')) [
  | inl e ↦ rw e (c ∷ s, refl, tt, ground arith)
  | inr e ↦
      let (rest, same, free, ends) = first_part-cut s in
      rw e (rest, ap (◌∷◌ c) same, (ground arith, free), ends)
]

first_part-append :
    (first rest : Text)
    → All (λ c. (c ≢ b'/') × (c ≢ b'.')) first
    → IsPartEnd rest
    → first_part (first ++ rest) ≡ first
unfolding first_part
first_part-append [] [] h ends = refl
first_part-append [] (c ∷ rest) h ends = rw ends refl
first_part-append (c ∷ first) rest ((a, b), h) ends =
    let differ : (c == b'/') ≡ false = ground arith in
    rw differ (ap (◌∷◌ c) (first_part-append first rest h ends))

both : (a b : Bool) → not a && not b ≡ true → (a ≡ false) × (b ≡ false)
both true b h = absurd (cc)
both false true h = absurd (cc)
both false false h = (refl, refl)

All-both :
    (s : Text)
    → All (λ c. c ≢ b'/') s
    → All (λ c. c ≢ b'.') s
    → All (λ c. (c ≢ b'/') × (c ≢ b'.')) s
All-both [] h k = tt
All-both (c ∷ s) (a, h) (b, k) = ((a, b), All-both s h k)

is_stdlib_iff : (path : Text) → (is_stdlib path ≡ true) ↔ IsStdlibPath path
unfolding is_stdlib
is_stdlib_iff path = (of_true, to_true)
  where
    of_true : is_stdlib path ≡ true → IsStdlibPath path
    of_true h =
        let (some_text, no_dot) =
          both (text_eq (first_part path) []) (has_dot (first_part path)) h in
        let (rest, same, no_slash, ends) = first_part-cut path in
        (
          first_part path,
          rest,
          same,
          (text_eq-false_iff (first_part path) []).0 some_text,
          All-both (first_part path) no_slash (has_dot-false (first_part path) no_dot),
          ends,
        )

    to_true : IsStdlibPath path → is_stdlib path ≡ true
    to_true (first, rest, same, nonempty, plain, ends) =
        let cut : first_part path ≡ first =
          ap first_part same ∙ first_part-append first rest plain ends in
        rw (cut, (text_eq-false_iff first []).1 nonempty, dotless first plain) refl

abbrev pub IsStdlib : Imp → Type 0
IsStdlib im = IsStdlibPath im.path

stdlib_group-IsStdlib : (imports : List Imp) → All IsStdlib (stdlib_group imports)
unfolding stdlib_group
stdlib_group-IsStdlib [] = tt
stdlib_group-IsStdlib (im ∷ imports) = elim (Bool-cases (is_stdlib im.path)) [
  | inl e ↦ rw e ((is_stdlib_iff im.path).0 e, stdlib_group-IsStdlib imports)
  | inr e ↦ rw e (stdlib_group-IsStdlib imports)
]

third_group-IsStdlib : (imports : List Imp) → All (λ im. ¬ IsStdlib im) (third_group imports)
unfolding third_group
third_group-IsStdlib [] = tt
third_group-IsStdlib (im ∷ imports) = elim (Bool-cases (is_stdlib im.path)) [
  | inl e ↦ rw e (third_group-IsStdlib imports)
  | inr e ↦
      rw e ((λ h. let t = (is_stdlib_iff im.path).1 h in absurd (cc)), third_group-IsStdlib imports)
]

groups-permuted : (imports : List Imp) → Permᴰ (stdlib_group imports ++ third_group imports) imports
unfolding stdlib_group third_group
groups-permuted [] = Permᴰ.nil
groups-permuted (im ∷ imports) = elim (Bool-cases (is_stdlib im.path)) [
  | inl e ↦ rw e (Permᴰ.cons refl (groups-permuted imports))
  | inr e ↦ rw e (
      Permᴰ.trans (Permᴰ.middle im (stdlib_group imports) (third_group imports))
        (Permᴰ.cons refl (groups-permuted imports)))
]

-- slices.SortFunc by cmp.Compare of the paths: the same imports, with no path behind a greater one.
pub record SortsImports (sort : List Imp → List Imp) : Type 0 where
  pub same : (imports : List Imp) → Permᴰ imports (sort imports)
  pub rising : (imports : List Imp) → AllPairs (λ a b. path_le a.path b.path ≡ true) (sort imports)

-- The two groups of imports.
pub record IsPartition (imports : List Imp) (groups : List Imp × List Imp) : Type 0 where
  pub every : Permᴰ (groups.0 ++ groups.1) imports
  pub std : All IsStdlib groups.0
  pub third : All (λ im. ¬ IsStdlib im) groups.1
  pub std_rising : AllPairs (λ a b. path_le a.path b.path ≡ true) groups.0
  pub third_rising : AllPairs (λ a b. path_le a.path b.path ≡ true) groups.1

-- Where slices.SortFunc sorts by the path, splitGroups keeps each import once, those in the first group whose
-- path has a first part, up to its first "/" or its end, that is not empty and has no ".", the others in the
-- second, and each group by rising paths.
pub split_groups-IsPartition :
    (sort : List Imp → List Imp) (imports : List Imp)
    → SortsImports sort
    → IsPartition imports (split_groups sort imports)
unfolding split_groups
split_groups-IsPartition sort imports sorts =
    let std = stdlib_group imports in
    let third = third_group imports in
    record {
      every = Permᴰ.trans (Permᴰ.append_right (sort third) (Permᴰ.symm (sorts.same std))) (
          Permᴰ.trans (Permᴰ.append_left std (Permᴰ.symm (sorts.same third)))
            (groups-permuted imports));
      std = All-perm IsStdlib (sorts.same std) (stdlib_group-IsStdlib imports);
      third = All-perm (λ im. ¬ IsStdlib im) (sorts.same third) (third_group-IsStdlib imports);
      std_rising = sorts.rising std;
      third_rising = sorts.rising third;
    }
