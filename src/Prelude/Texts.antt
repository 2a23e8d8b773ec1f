-- ===== src/Prelude/Texts.antt =====
-- Go strings as lists of code points. A text is walked rune by rune where the source ranges over
-- it, and its slices at ASCII positions are the slices of the bytes.
use Prim.Native.Char.{code}
use Prim.Native.Nat.{ℕ}
use Prim.Native.String.{String}
use mathlib.Core.Path.{◌≡◌, refl}
use mathlib.Core.Logic.{◌↔◌, ◌≢◌, inl, inr}
use mathlib.Core.Bool.{Bool, true, false, ◌&&◌, ◌||◌}
use mathlib.Core.List.{List, [], ◌∷◌, ◌++◌}
use native.Mathlib.Omega.{arith}
use luima.Prelude.Tests.{◌==◌, Bool-cases}

abbrev pub Text : Type 0
Text = List ℕ

-- The text that a literal of the source stands for.
unfoldable pub codes : String → Text
codes String.[] = []
codes (String.◌∷◌ c s) = code c ∷ codes s

-- Go's `==` on strings.
unfoldable pub text_eq : Text → Text → Bool
text_eq [] [] = true
text_eq (x ∷ xs) (y ∷ ys) = x == y && text_eq xs ys
text_eq _ _ = false

pub text_eq_iff : (s t : Text) → (text_eq s t ≡ true) ↔ (s ≡ t)
unfolding text_eq
text_eq_iff [] [] = ground arith
text_eq_iff [] (y ∷ ys) = ground arith
text_eq_iff (x ∷ xs) [] = ground arith
text_eq_iff (x ∷ xs) (y ∷ ys) = ground (arith, text_eq_iff xs ys)

pub text_eq_self : (s : Text) → text_eq s s ≡ true
text_eq_self s = (text_eq_iff s s).1 refl

pub text_eq-false_iff : (s t : Text) → (text_eq s t ≡ false) ↔ (s ≢ t)
text_eq-false_iff s t = (
  (λ h e. let t = (text_eq_iff s t).1 e in cc),
  λ n. elim (Bool-cases (text_eq s t)) [ inl e ↦ absurd (n ((text_eq_iff s t).0 e)) | inr e ↦ e ],
)

-- Membership in a set of names, such as a `map[string]bool` whose keys are the list.
unfoldable pub has : List Text → Text → Bool
has [] k = false
has (x ∷ xs) k = text_eq x k || has xs k

-- Go's `strings.Join`.
unfoldable pub join : Text → List Text → Text
join sep [] = []
join sep (s ∷ []) = s
join sep (s ∷ (t ∷ ts)) = s ++ (sep ++ join sep (t ∷ ts))
