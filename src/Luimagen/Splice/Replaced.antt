-- ===== src/Luimagen/Splice/Replaced.antt =====
-- luimagen/patch.go: edits spliced from the back, against the offsets of the source before any.
use luima.Prelude.{
  ℕ, zero, suc, ◌≤◌, true, List, [], ◌∷◌, ◌++◌, some, ◌≡◌, refl, ap, ◌∙◌, subst, arith, Text,
  length, length-append, leb,
}
use mathlib.Core.List.{append_assoc, append-nil}
use luima.Luimagen.Splice.{Edit, take, drop, splice, splice_all, apply_edits}

-- Each edit ends where the one before begins, or earlier, and the first ends inside the source.
abbrev pub IsBackToFront : ℕ → List Edit → Type 0
IsBackToFront bound [] = Unit {0}
IsBackToFront bound (e ∷ es) = (e.start ≤ e.end) × (e.end ≤ bound) × IsBackToFront e.start es

-- The source up to `bound`, with the text of each edit in place of what stands in its range: every
-- offset is one of the source.
abbrev pub replaced : Text → ℕ → List Edit → Text
replaced src bound [] = take bound src
replaced src bound (e ∷ es) = replaced src e.start es ++ (e.text ++ drop e.end (take bound src))

module _ {A : Type 0} where
  length-take : (n : ℕ) (xs : List A) → n ≤ length xs → length (take n xs) ≡ n
  length-take zero xs h = refl
  length-take (suc n) [] h = absurd (omega arith)
  length-take (suc n) (x ∷ xs) h = ap suc (length-take n xs (omega arith))

  take-append : (n : ℕ) (xs ys : List A) → n ≤ length xs → take n (xs ++ ys) ≡ take n xs
  take-append zero xs ys h = refl
  take-append (suc n) [] ys h = absurd (omega arith)
  take-append (suc n) (x ∷ xs) ys h = ap (◌∷◌ x) (take-append n xs ys (omega arith))

  drop-append : (n : ℕ) (xs ys : List A) → n ≤ length xs → drop n (xs ++ ys) ≡ drop n xs ++ ys
  drop-append zero xs ys h = refl
  drop-append (suc n) [] ys h = absurd (omega arith)
  drop-append (suc n) (x ∷ xs) ys h = drop-append n xs ys (omega arith)

  take-take : (m n : ℕ) (xs : List A) → m ≤ n → take m (take n xs) ≡ take m xs
  take-take zero n xs h = refl
  take-take (suc m) zero xs h = absurd (omega arith)
  take-take (suc m) (suc n) [] h = refl
  take-take (suc m) (suc n) (x ∷ xs) h = ap (◌∷◌ x) (take-take m n xs (omega arith))

  take-length : (xs : List A) → take (length xs) xs ≡ xs
  take-length [] = refl
  take-length (x ∷ xs) = ap (◌∷◌ x) (take-length xs)

reassoc : (a b c d : Text) → a ++ (b ++ (c ++ d)) ≡ (a ++ (b ++ c)) ++ d
reassoc a b c d = simp (append_assoc)

-- A splice before `bound` leaves what follows `bound` as it is.
splice-take :
    (src : Text) (bound : ℕ) (e : Edit) (tail : Text)
    → bound ≤ length src
    → e.start ≤ e.end
    → e.end ≤ bound
    → splice (take bound src ++ tail) e
      ≡ some (take e.start src ++ (e.text ++ (drop e.end (take bound src) ++ tail)))
unfolding splice
splice-take src bound e tail inside ordered below =
    let size = length-take bound src inside in
    let whole = length-append (take bound src) tail in
    let left : take e.start (take bound src ++ tail) ≡ take e.start src =
      take-append e.start (take bound src) tail (omega arith)
      ∙ take-take e.start bound src (omega arith) in
    let right : drop e.end (take bound src ++ tail) ≡ drop e.end (take bound src) ++ tail =
      drop-append e.end (take bound src) tail (omega arith) in
    let starts : leb e.start (length (take bound src ++ tail)) ≡ true = ground arith in
    let ends : leb e.end (length (take bound src ++ tail)) ≡ true = ground arith in
    rw (starts, ends) (λ i. some (left i ++ (e.text ++ right i)))

splice_all-replaced :
    (src : Text) (bound : ℕ) (es : List Edit) (tail : Text)
    → bound ≤ length src
    → IsBackToFront bound es
    → splice_all es (take bound src ++ tail) ≡ some (replaced src bound es ++ tail)
unfolding splice_all
splice_all-replaced src bound [] tail inside h = refl
splice_all-replaced src bound (e ∷ es) tail inside (ordered, below, more) =
    rw (splice-take src bound e tail inside ordered below) (
      splice_all-replaced src e.start es (e.text ++ (drop e.end (take bound src) ++ tail))
        (omega arith) more
      ∙ ap some (reassoc (replaced src e.start es) e.text (drop e.end (take bound src)) tail))

-- Where sorting leaves the edits back to front, ranges apart and inside the source, no splice is out of
-- range, and the result is the source with the range of each edit, at its offsets in the source before
-- any splice, replaced by the text of the edit.
pub apply_edits-replaced :
    (sort : List Edit → List Edit) (edits : List Edit) (src : Text)
    → IsBackToFront (length src) (sort edits)
    → apply_edits sort edits src ≡ some (replaced src (length src) (sort edits))
unfolding apply_edits
apply_edits-replaced sort edits src h =
    subst (λ t. splice_all (sort edits) t ≡ some (replaced src (length src) (sort edits)))
      (append-nil (take (length src) src) ∙ take-length src)
      (splice_all-replaced src (length src) (sort edits) [] (omega arith) h
        ∙ ap some (append-nil (replaced src (length src) (sort edits))))
