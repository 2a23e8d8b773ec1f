-- ===== src/Luimagen/Splice/Sorted.antt =====
-- luimagen/patch.go: what slices.SortFunc makes of edits whose ranges are apart.
use luima.Prelude.{
  ℕ, ◌≤◌, ◌<◌, List, [], ◌∷◌, All, All-perm, AllPairs, AllPairs-perm, ◌⊎◌, inl, inr, arith,
}
use mathlib.Core.List.{Permᴰ}
use luima.Luimagen.Splice.{Edit}
use luima.Luimagen.Splice.Replaced.{IsBackToFront}

-- One range ends before the other begins.
abbrev pub Apart : Edit → Edit → Type 0
Apart e f = (e.end < f.start) ⊎ (f.end < e.start)

-- The range is one of a source of that size.
abbrev pub Within : ℕ → Edit → Type 0
Within size e = (e.start ≤ e.end) × (e.end ≤ size)

-- The sort of patchSource: the same edits, by falling start.
pub record Sorts (sort : List Edit → List Edit) : Type 0 where
  pub same : (edits : List Edit) → Permᴰ edits (sort edits)
  pub falling : (edits : List Edit) → AllPairs (λ e f. f.start ≤ e.start) (sort edits)

Apart-symm : (e f : Edit) → Apart e f → Apart f e
Apart-symm e f (inl h) = inr h
Apart-symm e f (inr h) = inl h

-- What stands behind an edit ends before it starts.
end-le-start :
    (e f : Edit) (size : ℕ)
    → Within size e
    → Within size f
    → Apart e f
    → f.start ≤ e.start
    → Within e.start f
end-le-start e f size (a, b) (c, d) (inl h) falls = absurd (omega arith)
end-le-start e f size (a, b) (c, d) (inr h) falls = (c, omega arith)

All-Within :
    (e : Edit) (size : ℕ) (es : List Edit)
    → Within size e
    → All (Within size) es
    → All (Apart e) es
    → All (λ f. f.start ≤ e.start) es
    → All (Within e.start) es
All-Within e size [] we h k l = tt
All-Within e size (f ∷ es) we (w, h) (a, k) (s, l) =
    (end-le-start e f size we w a s, All-Within e size es we h k l)

IsBackToFront-of :
    (size : ℕ) (es : List Edit)
    → All (Within size) es
    → AllPairs Apart es
    → AllPairs (λ e f. f.start ≤ e.start) es
    → IsBackToFront size es
IsBackToFront-of size [] within apart falling = tt
IsBackToFront-of size (e ∷ es) (w, within) (a, apart) (f, falling) =
    (w.0, w.1, IsBackToFront-of e.start es (All-Within e size es w within a f) apart falling)

-- Edits that are apart and inside the source stand back to front, once they are sorted.
pub sort-IsBackToFront :
    (sort : List Edit → List Edit) (edits : List Edit) (size : ℕ)
    → Sorts sort
    → All (Within size) edits
    → AllPairs Apart edits
    → IsBackToFront size (sort edits)
sort-IsBackToFront sort edits size sorts within apart =
    IsBackToFront-of size (sort edits) (All-perm (Within size) (sorts.same edits) within)
      (AllPairs-perm Apart Apart-symm (sorts.same edits) apart) (sorts.falling edits)
