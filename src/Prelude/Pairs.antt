-- ===== src/Prelude/Pairs.antt =====
-- Relations between the members of a list, and predicates on them, under a permutation.
use mathlib.Core.Path.{subst}
use mathlib.Core.List.{List, [], ◌∷◌, map}
use mathlib.Core.List.{Permᴰ}
use luima.Prelude.Lists.{All}

module _ {ℓ κ} {A : Type ℓ} (R : A → A → Type κ) where
  -- Each member is related to all that stand behind it.
  abbrev pub AllPairs : List A → Type κ
  AllPairs [] = Unit
  AllPairs (x ∷ xs) = All (R x) xs × AllPairs xs

module _ {ℓ κ μ} {A : Type ℓ} {P : A → Type κ} {Q : A → Type μ} where
  pub All-imp : ((a : A) → P a → Q a) → (xs : List A) → All P xs → All Q xs
  All-imp f [] h = tt
  All-imp f (x ∷ xs) (p, h) = (f x p, All-imp f xs h)

module _ {ℓ κ} {A : Type ℓ} (P : A → Type κ) where
  pub All-perm : {xs ys : List A} → Permᴰ xs ys → All P xs → All P ys
  All-perm Permᴰ.nil h = tt
  All-perm (Permᴰ.cons e d) (p, h) = (subst P e p, All-perm d h)
  All-perm (Permᴰ.swap e f) (p, (q, h)) = (subst P f q, (subst P e p, h))
  All-perm (Permᴰ.trans d e) h = All-perm e (All-perm d h)

module _ {ℓ κ} {A : Type ℓ} (R : A → A → Type κ) (R_symm : (x y : A) → R x y → R y x) where
  pub AllPairs-perm : {xs ys : List A} → Permᴰ xs ys → AllPairs R xs → AllPairs R ys
  AllPairs-perm Permᴰ.nil h = tt
  AllPairs-perm (Permᴰ.cons {l₂} e d) (r, h) =
      (subst (λ x. All (R x) l₂) e (All-perm (R _) d r), AllPairs-perm d h)
  AllPairs-perm (Permᴰ.swap {a} {b} {a'} {b'} {l} e f) ((r, ra), (rb, h)) = (
    (subst (λ x. R x b') f (subst (λ y. R b y) e (R_symm a b r)), subst (λ x. All (R x) l) f rb),
    (subst (λ x. All (R x) l) e ra, h),
  )
  AllPairs-perm (Permᴰ.trans d e) h = AllPairs-perm e (AllPairs-perm d h)

module _ {ℓ κ μ} {A : Type ℓ} {B : Type κ} (P : B → Type μ) (g : A → B) where
  pub All-of_map : (xs : List A) → All P (map g xs) → All (λ x. P (g x)) xs
  All-of_map [] h = tt
  All-of_map (x ∷ xs) (p, h) = (p, All-of_map xs h)

  pub All-map : (xs : List A) → All (λ x. P (g x)) xs → All P (map g xs)
  All-map [] h = tt
  All-map (x ∷ xs) (p, h) = (p, All-map xs h)

module _ {ℓ κ μ} {A : Type ℓ} {R : A → A → Type κ} {S : A → A → Type μ} where
  pub AllPairs-imp : ((a b : A) → R a b → S a b) → (xs : List A) → AllPairs R xs → AllPairs S xs
  AllPairs-imp f [] h = tt
  AllPairs-imp f (x ∷ xs) (r, h) = (All-imp (f x) xs r, AllPairs-imp f xs h)
