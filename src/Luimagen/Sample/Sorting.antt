-- ===== src/Luimagen/Sample/Sorting.antt =====
-- slices.SortFunc for the tests: an insertion sort by a total order.
use luima.Prelude.{
  Bool, true, false, List, [], ◌∷◌, ◌≡◌, refl, All-imp, All-perm, AllPairs, Bool-cases, inl, inr,
  if◌then◌else◌,
}
use mathlib.Core.List.{Permᴰ}
use mathlib.Core.List.Permᴰ

module _ {A : Type 0} (le : A → A → Bool) where
  abbrev pub insert_by : A → List A → List A
  insert_by x [] = x ∷ []
  insert_by x (y ∷ ys) = if le x y then x ∷ (y ∷ ys) else y ∷ insert_by x ys

  abbrev pub sort_by : List A → List A
  sort_by [] = []
  sort_by (x ∷ xs) = insert_by x (sort_by xs)

  abbrev pub IsBefore : A → A → Type 0
  IsBefore x y = le x y ≡ true

  insert_by-perm : (x : A) (ys : List A) → Permᴰ (x ∷ ys) (insert_by x ys)
  insert_by-perm x [] = Permᴰ.refl (x ∷ [])
  insert_by-perm x (y ∷ ys) = elim (Bool-cases (le x y)) [
    | inl h ↦ rw h (Permᴰ.refl (x ∷ (y ∷ ys)))
    | inr h ↦ rw h (Permᴰ.trans (Permᴰ.swap refl refl) (Permᴰ.cons refl (insert_by-perm x ys)))
  ]

  pub sort_by-perm : (xs : List A) → Permᴰ xs (sort_by xs)
  sort_by-perm [] = Permᴰ.refl []
  sort_by-perm (x ∷ xs) =
      Permᴰ.trans (Permᴰ.cons refl (sort_by-perm xs)) (insert_by-perm x (sort_by xs))

  module _ (total : (x y : A) → le x y ≡ false → le y x ≡ true)
      (trans : (x y z : A) → le x y ≡ true → le y z ≡ true → le x z ≡ true) where
    insert_by-sorted :
        (x : A) (ys : List A) → AllPairs IsBefore ys → AllPairs IsBefore (insert_by x ys)
    insert_by-sorted x [] h = (tt, tt)
    insert_by-sorted x (y ∷ ys) (h, k) = elim (Bool-cases (le x y)) [
      | inl e ↦ rw e ((e, All-imp (λ z (g : IsBefore y z). trans x y z e g) ys h), (h, k))
      | inr e ↦
          rw e
            (All-perm (IsBefore y) (insert_by-perm x ys) (total x y e, h), insert_by-sorted x ys k)
    ]

    pub sort_by-sorted : (xs : List A) → AllPairs IsBefore (sort_by xs)
    sort_by-sorted [] = tt
    sort_by-sorted (x ∷ xs) = insert_by-sorted x (sort_by xs) (sort_by-sorted xs)
