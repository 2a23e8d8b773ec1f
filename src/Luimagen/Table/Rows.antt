-- ===== src/Luimagen/Table/Rows.antt =====
-- luimagen/gen.go: the loop of `tableFromFields`, over the columns that its fields have.
use luima.Prelude.{
  ℕ, Bool, true, false, List, [], ◌∷◌, ◌++◌, map, none, ◌≡◌, refl, ◌≢◌, ◌↔◌, ap, sym, ◌∙◌, subst,
  Text, text_eq, text_eq_iff, text_eq-false_iff, All, Bool-cases, inl, inr, if◌then◌else◌,
}
use mathlib.Core.List.{append_assoc, append-nil}
use luima.Luimagen.Names.{lower_first}
use luima.Luimagen.Checks.{ok, >>=-eq-ok}
use luima.Luimagen.Table.{Field, Column, Builder, user_of, add_field, add_fields}
use luima.Luimagen.Table.Columns.{IsColumnOf}
use luima.Luimagen.Table.Steps.{after, IsAddable, IsAddable-of_ok, ok_of_addable}

-- The columns of the fields, in order.
abbrev pub AreColumnsOf : (ℕ → Bool) → List Field → List Column → Type 0
AreColumnsOf prints [] [] = Unit {0}
AreColumnsOf prints (f ∷ fs) (c ∷ cs) = IsColumnOf prints f c × AreColumnsOf prints fs cs
AreColumnsOf prints _ _ = ⊥

-- The columns of the primary keys, and the other columns, in order.
abbrev pub keys : List Field → List Column → List Column
keys (f ∷ fs) (c ∷ cs) = let more = keys fs cs in if f.pk then c ∷ more else more
keys _ _ = []

abbrev pub others : List Field → List Column → List Column
others (f ∷ fs) (c ∷ cs) = let more = others fs cs in if f.pk then more else c ∷ more
others _ _ = []

abbrev pub Distinct : List Text → Type 0
Distinct [] = Unit {0}
Distinct (x ∷ xs) = All (λ y. x ≢ y) xs × Distinct xs

abbrev pub sql_names : List Column → List Text
sql_names cs = map (λ c. c.sql) cs

abbrev pub gql_names : List Column → List Text
gql_names cs = map (λ c. lower_first c.field) cs

-- The names that the map does not have.
abbrev pub AreNew : List (Text × Text) → List Text → Type 0
AreNew seen names = All (λ x. user_of seen x ≡ none) names

-- From the key `p` to the key `q`, through the keys that the loop finds on its way.
abbrev pub Key : Column → List Column → Column → Type 0
Key p [] q = q ≡ p
Key p (k ∷ ks) q = (k.array ≡ false) × (p.field ≡ []) × Key k ks q

new_iff :
    (name user : Text) (seen : List (Text × Text)) (x : Text)
    → (user_of ((name, user) ∷ seen) x ≡ none) ↔ ((name ≢ x) × (user_of seen x ≡ none))
unfolding user_of
new_iff name user seen x = elim (Bool-cases (text_eq name x)) [
  | inl e ↦ (λ h. absurd (cc), λ h. absurd (h.0 ((text_eq_iff name x).0 e)))
  | inr e ↦ (λ h. ((text_eq-false_iff name x).0 e, cc), λ h. cc)
]

AreNew-iff :
    (name user : Text) (seen : List (Text × Text)) (xs : List Text)
    → AreNew ((name, user) ∷ seen) xs ↔ (All (λ x. name ≢ x) xs × AreNew seen xs)
AreNew-iff name user seen [] = (λ _. (tt, tt), λ _. tt)
AreNew-iff name user seen (x ∷ xs) =
    let here = new_iff name user seen x in
    let more = AreNew-iff name user seen xs in
    (
      (λ h. let (a, b) = here.0 h.0 in let (c, d) = more.0 h.1 in ((a, c), (b, d))),
      λ h. let ((a, c), (b, d)) = h in (here.1 (a, b), more.1 (c, d)),
    )

Key-step_iff :
    (is_key : Bool) (p c : Column) (ks : List Column) (q : Column)
    → ((is_key ≡ true → (c.array ≡ false) × (p.field ≡ [])) × Key (if is_key then c else p) ks q)
      ↔ Key p (if is_key then c ∷ ks else ks) q
Key-step_iff true p c ks q =
    ((λ h. let (a, b) = h.0 refl in (a, b, h.1)), λ h. ((λ _. (h.0, h.1)), h.2))
Key-step_iff false p c ks q = ((λ h. h.1), λ h. ((λ e. absurd (cc)), h))

others_step :
    (is_key : Bool) (xs : List Column) (c : Column) (ys : List Column)
    → (if is_key then xs else xs ++ c ∷ []) ++ ys ≡ xs ++ (if is_key then ys else c ∷ ys)
others_step true xs c ys = refl
others_step false xs c ys = append_assoc xs (c ∷ []) ys

-- What the loop, begun at `b`, asks of the fields.
pub record AreAddable (prints : ℕ → Bool) (fs : List Field) (cs : List Column) (b : Builder)
    (q : Column) : Type 0 where
  pub columns : AreColumnsOf prints fs cs
  pub distinct_sql : Distinct (sql_names cs)
  pub distinct_gql : Distinct (gql_names cs)
  pub new_sql : AreNew b.seen_col (sql_names cs)
  pub new_gql : AreNew b.seen_gql (gql_names cs)
  pub one_key : Key b.pk (keys fs cs) q

AreAddable-cons :
    {prints : ℕ → Bool} (f : Field) (fs : List Field) (c : Column) (cs : List Column) (b : Builder)
    (q : Column)
    → IsAddable prints f c b
    → AreAddable prints fs cs (after f c b) q
    → AreAddable prints (f ∷ fs) (c ∷ cs) b q
AreAddable-cons f fs c cs b q (col, new_col, new_gql, placeable) h =
    let same : lower_first f.name ≡ lower_first c.field = ap lower_first (sym col.same_field) in
    let (far_sql, old_sql) = (AreNew-iff c.sql f.name b.seen_col (sql_names cs)).0 h.new_sql in
    let (far_gql, old_gql) =
      (AreNew-iff (lower_first f.name) f.name b.seen_gql (gql_names cs)).0 h.new_gql in
    record {
      columns = (col, h.columns);
      distinct_sql = (far_sql, h.distinct_sql);
      distinct_gql = (subst (λ n. All (λ x. n ≢ x) (gql_names cs)) same far_gql, h.distinct_gql);
      new_sql = (new_col, old_sql);
      new_gql = (subst (λ n. user_of b.seen_gql n ≡ none) same new_gql, old_gql);
      one_key = (Key-step_iff f.pk b.pk c (keys fs cs) q).0 (placeable, h.one_key);
    }

IsAddable-head :
    {prints : ℕ → Bool} (f : Field) (fs : List Field) (c : Column) (cs : List Column) (b : Builder)
    (q : Column)
    → AreAddable prints (f ∷ fs) (c ∷ cs) b q
    → IsAddable prints f c b × AreAddable prints fs cs (after f c b) q
IsAddable-head f fs c cs b q h =
    let same : lower_first c.field ≡ lower_first f.name = ap lower_first h.columns.0.same_field in
    let (placeable, one_key) = (Key-step_iff f.pk b.pk c (keys fs cs) q).1 h.one_key in
    let far_gql = subst (λ n. All (λ x. n ≢ x) (gql_names cs)) same h.distinct_gql.0 in
    let new_gql = subst (λ n. user_of b.seen_gql n ≡ none) same h.new_gql.0 in
    (
      (h.columns.0, h.new_sql.0, new_gql, placeable),
      record {
        columns = h.columns.1;
        distinct_sql = h.distinct_sql.1;
        distinct_gql = h.distinct_gql.1;
        new_sql =
            (AreNew-iff c.sql f.name b.seen_col (sql_names cs)).1 (h.distinct_sql.0, h.new_sql.1);
        new_gql =
            (AreNew-iff (lower_first f.name) f.name b.seen_gql (gql_names cs)).1
              (far_gql, h.new_gql.1);
        one_key = one_key;
      },
    )

module _ (wide_letter wide_digit prints : ℕ → Bool) (type_name : Text) where
  -- The loop goes through only where it may, and then holds the key and the other columns.
  pub AreAddable-of_fields :
      (fs : List Field) (b b' : Builder)
      → add_fields wide_letter wide_digit prints type_name fs b ≡ ok b'
      → (cs : List Column) × AreAddable prints fs cs b b'.pk × (b'.cols ≡ b.cols ++ others fs cs)
  unfolding add_fields
  AreAddable-of_fields [] b b' h =
      let same : b ≡ b' = cc in
      (
        [],
        record {
          columns = tt;
          distinct_sql = tt;
          distinct_gql = tt;
          new_sql = tt;
          new_gql = tt;
          one_key = ap (λ b. b.pk) (sym same);
        },
        ap (λ b. b.cols) (sym same) ∙ sym (append-nil b.cols),
      )
  AreAddable-of_fields (f ∷ fs) b b' h =
      let (b1, h1, h2) =
        >>=-eq-ok (add_field wide_letter wide_digit prints type_name f b)
          (add_fields wide_letter wide_digit prints type_name fs) b' h in
      let (c, addable, e) = IsAddable-of_ok wide_letter wide_digit prints type_name f b b1 h1 in
      let rest : add_fields wide_letter wide_digit prints type_name fs (after f c b) ≡ ok b' =
        subst (λ b. add_fields wide_letter wide_digit prints type_name fs b ≡ ok b') e h2 in
      let (cs, more, cols) = AreAddable-of_fields fs (after f c b) b' rest in
      (
        c ∷ cs,
        AreAddable-cons f fs c cs b b'.pk addable more,
        cols ∙ others_step f.pk b.cols c (others fs cs),
      )

  pub fields_of_addable :
      (fs : List Field) (cs : List Column) (b : Builder) (q : Column)
      → AreAddable prints fs cs b q
      → (b' : Builder) × (add_fields wide_letter wide_digit prints type_name fs b ≡ ok b')
        × (b'.pk ≡ q)
        × (b'.cols ≡ b.cols ++ others fs cs)
  unfolding add_fields
  fields_of_addable [] [] b q h = (b, refl, sym h.one_key, sym (append-nil b.cols))
  fields_of_addable [] (c ∷ cs) b q h = absurd (h.columns)
  fields_of_addable (f ∷ fs) [] b q h = absurd (h.columns)
  fields_of_addable (f ∷ fs) (c ∷ cs) b q h =
      let (addable, more) = IsAddable-head f fs c cs b q h in
      let (b', done, key, cols) = fields_of_addable fs cs (after f c b) q more in
      let step = ok_of_addable wide_letter wide_digit prints type_name f c b addable in
      (b', (rw step done), key, cols ∙ others_step f.pk b.cols c (others fs cs))
