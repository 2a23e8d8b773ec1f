-- ===== src/Luimagen/Imports/Dropped.antt =====
-- luimagen/patch.go: the loop that drops each "fmt" import that nothing names.
use luima.Prelude.{
  ℕ, zero, suc, List, [], ◌∷◌, ◌≡◌, refl, ap, ◌∙◌, length, Bool-cases, inl, inr, if◌then◌else◌,
}
use luima.Luimagen.Syntax.{Imp, File}
use luima.Luimagen.Imports.{is_dead, remove_at, dead_at, drop_dead_from, drop_dead}

-- The imports that are not dead, in their order.
abbrev pub live : File → List Imp → List Imp
live file [] = []
live file (im ∷ imports) =
    let rest = live file imports in if is_dead file im then rest else im ∷ rest

-- What the last round of the loop does, on its last index.
abbrev drop_at : File → ℕ → List Imp → List Imp
drop_at file i imports = if dead_at file i imports then remove_at i imports else imports

drop_at-cons :
    (file : File) (i : ℕ) (im : Imp) (imports : List Imp)
    → drop_at file (suc i) (im ∷ imports) ≡ im ∷ drop_at file i imports
drop_at-cons file i im imports = elim (Bool-cases (dead_at file i imports)) [
  | inl e ↦ rw e refl
  | inr e ↦ rw e refl
]

drop_dead_from-cons :
    (file : File) (i : ℕ) (im : Imp) (imports : List Imp)
    → drop_dead_from (suc i) file (im ∷ imports) ≡ (
        if is_dead file im
        then drop_dead_from i file imports
        else im ∷ drop_dead_from i file imports)
unfolding drop_dead_from
drop_dead_from-cons file zero im imports = refl
drop_dead_from-cons file (suc i) im imports =
    ap (drop_dead_from (suc i) file) (drop_at-cons file i im imports)
    ∙ drop_dead_from-cons file i im (drop_at file i imports)

-- The backward loop by index drops the dead imports and keeps the others, in their order.
pub drop_dead-live : (file : File) (imports : List Imp) → drop_dead file imports ≡ live file imports
unfolding drop_dead drop_dead_from
drop_dead-live file [] = refl
drop_dead-live file (im ∷ imports) =
    drop_dead_from-cons file (length imports) im imports
    ∙ ap (λ rest. if is_dead file im then rest else im ∷ rest) (drop_dead-live file imports)
