-- ===== src/Server/Http/Values.antt =====
-- The values of a header under Add, Del and Set.
use luima.Prelude.{
  Bool, true, false, List, [], ◌∷◌, ◌++◌, ◌≡◌, refl, arith, Text, text_eq, text_eq_iff,
  if◌then◌else◌, Bool-cases, inl, inr,
}
use mathlib.Core.List.{append-nil}
use luima.Server.Http.{Header, header_values, header_add, header_del, header_set}

header_values-concat :
    (name m v : Text) (h : Header)
    → header_values name (h ++ (m, v) ∷ [])
      ≡ header_values name h ++ (if text_eq m name then v ∷ [] else [])
unfolding header_values
header_values-concat name m v [] = ground arith
header_values-concat name m v ((k, w) ∷ h) = elim (Bool-cases (text_eq k name)) [
  | inl same ↦ rw (same, header_values-concat name m v h)
  | inr other ↦ rw (other, header_values-concat name m v h)
]

pub header_values-add :
    (name m v : Text) (h : Header)
    → header_values name (header_add m v h)
      ≡ header_values name h ++ (if text_eq m name then v ∷ [] else [])
unfolding header_add
header_values-add name m v h = header_values-concat name m v h

pub header_values-del :
    (name m : Text) (h : Header)
    → header_values name (header_del m h) ≡ (if text_eq m name then [] else header_values name h)
unfolding header_values header_del
header_values-del name m [] = ground arith
header_values-del name m ((k, w) ∷ h) =
    ground
      (arith, text_eq_iff k m, text_eq_iff k name, text_eq_iff m name, header_values-del name m h)

pub header_values-set :
    (name m v : Text) (h : Header)
    → header_values name (header_set m v h)
      ≡ (if text_eq m name then v ∷ [] else header_values name h)
unfolding header_set
header_values-set name m v h =
    rw (header_values-add, header_values-del) (finish (text_eq m name) (header_values name h))
  where
    finish :
        (b : Bool) (vs : List Text)
        → (if b then [] else vs) ++ (if b then v ∷ [] else []) ≡ (if b then v ∷ [] else vs)
    finish true vs = refl
    finish false vs = append-nil vs
