-- ===== src/Luimagen/Splice.antt =====
-- luimagen/patch.go: `edit`, and the two loops of `patchSource` that splice edits into the source. The
-- source is a list of bytes, and slices.SortFunc is a parameter.
pub mod Replaced
pub mod Sorted
use luima.Prelude.{
  ℕ, zero, suc, Bool, ◌&&◌, List, [], ◌∷◌, ◌++◌, Option, none, some, Text, length, leb,
  if◌then◌else◌, ◌>>=◌,
}

pub record Edit : Type 0 where
  pub start : ℕ
  pub end : ℕ
  pub text : Text

-- `s[:n]` and `s[n:]`, inside the slice.
abbrev pub take : {A : Type 0} → ℕ → List A → List A
take zero xs = []
take (suc n) [] = []
take (suc n) (x ∷ xs) = x ∷ take n xs

abbrev pub drop : {A : Type 0} → ℕ → List A → List A
drop zero xs = xs
drop (suc n) [] = []
drop (suc n) (x ∷ xs) = drop n xs

-- `out[:e.start] + e.text + out[e.end:]`; none is the panic of a slice out of range.
unfoldable pub splice : Text → Edit → Option Text
splice out e =
    if leb e.start (length out) && leb e.end (length out)
    then some (take e.start out ++ (e.text ++ drop e.end out))
    else none

unfoldable pub splice_all : List Edit → Text → Option Text
splice_all [] out = some out
splice_all (e ∷ es) out = do out' ← splice out e; splice_all es out'

-- The edits are sorted by falling start, and then spliced.
unfoldable pub apply_edits : (List Edit → List Edit) → List Edit → Text → Option Text
apply_edits sort edits out = splice_all (sort edits) out
