-- ===== src/Luimagen/Checks.antt =====
-- luimagen/gen.go: `checkIdent`, `checkTag` and `scalarType`. An error is what the message of the source
-- names, without its wording.
pub mod Ident
pub mod Tag
pub mod Scalar
use luima.Prelude.{
  ℕ, Bool, true, false, not, ◌&&◌, ◌||◌, List, [], ◌∷◌, ◌++◌, Option, none, some, Text, codes,
  text_eq, has, ◌≡◌, refl, ltb, ◌==◌, if◌then◌else◌,
}
use luima.Luimagen.Runes.{is_upper, is_lower, is_digit, cut_prefix}
use luima.Luimagen.Names.{upper_first}
use luima.Luimagen.Quote.{quote}

pub data Failure : Type 0 where
  -- of checkIdent, with the name, and the spelling that the message suggests
  not_identifier not_ascii has_underscore : Text → Failure
  not_exported : Text → Text → Failure
  -- of checkTag, with the name, and the separator
  needs_escape : Text → Failure
  has_separator : Text → ℕ → Failure
  -- of scalarType, with the type, and its base
  unsupported : Text → Text → Failure
  -- of tableFromFields: another error and the field it is about, and what the other messages name
  in_field : Text → Failure → Failure
  taken : Text → Failure
  same_column same_field array_key two_keys : Text → Text → Text → Failure
  no_key only_key : Text → Failure

pub data Checked {ℓ} (A : Type ℓ) : Type ℓ where
  ok : A → Checked A
  failed : Failure → Checked A

infixl 5 ◌>>=◌ ◌>>◌
abbrev pub ◌>>=◌ {ℓ κ} : {A : Type ℓ} {B : Type κ} → Checked A → (A → Checked B) → Checked B
ok a >>= f = f a
failed e >>= f = failed e

abbrev pub ◌>>◌ {ℓ} : {B : Type ℓ} → Checked (Unit {0}) → Checked B → Checked B
m >> k = m >>= λ _. k

-- `return err` where the test holds.
abbrev pub refuse_if : Bool → Failure → Checked (Unit {0})
refuse_if true e = failed e
refuse_if false e = ok tt

pub >>=-eq-ok {ℓ κ} :
    {A : Type ℓ} {B : Type κ} (m : Checked A) (k : A → Checked B) (b : B)
    → (m >>= k) ≡ ok b
    → (a : A) × (m ≡ ok a) × (k a ≡ ok b)
>>=-eq-ok (ok a) k b h = (a, refl, h)
>>=-eq-ok (failed e) k b h = absurd (cc)

pub refuse_if-eq-ok {ℓ} :
    {B : Type ℓ} (b : Bool) (e : Failure) (m : Checked B) (x : B)
    → (refuse_if b e >> m) ≡ ok x
    → (b ≡ false) × (m ≡ ok x)
refuse_if-eq-ok true e m x h = absurd (cc)
refuse_if-eq-ok false e m x h = (refl, h)

unfoldable pub keywords : List Text
keywords =
    codes "break"
    ∷ (codes "case"
        ∷ (codes "chan"
            ∷ (codes "const"
                ∷ (codes "continue"
                    ∷ (codes "default"
                        ∷ (codes "defer"
                            ∷ (codes "else"
                                ∷ (codes "fallthrough"
                                    ∷ (codes "for"
                                        ∷ (codes "func"
                                            ∷ (codes "go"
                                                ∷ (codes "goto"
                                                    ∷ (codes "if"
                                                        ∷ (codes "import"
                                                            ∷ (codes "interface"
                                                            ∷ (codes "map"
                                                            ∷ (codes "package"
                                                            ∷ (codes "range"
                                                            ∷ (codes "return"
                                                            ∷ (codes "select"
                                                            ∷ (codes "struct"
                                                            ∷ (codes "switch"
                                                            ∷ (codes "type"
                                                            ∷ (codes "var"
                                                            ∷ []))))))))))))))))))))))))

abbrev pub any_of : (ℕ → Bool) → Text → Bool
any_of p [] = false
any_of p (c ∷ s) = p c || any_of p s

abbrev pub all_of : (ℕ → Bool) → Text → Bool
all_of p [] = true
all_of p (c ∷ s) = p c && all_of p s

-- The letters and digits past ASCII are parameters: the tables of the package unicode.
module _ (wide_letter wide_digit : ℕ → Bool) where
  unfoldable pub is_letter : ℕ → Bool
  is_letter c = if ltb c 128 then is_upper c || is_lower c || c == b'_' else wide_letter c

  unfoldable pub is_letter_or_digit : ℕ → Bool
  is_letter_or_digit c =
      if ltb c 128 then is_letter c || is_digit c else is_letter c || wide_digit c

  -- `token.IsIdentifier`.
  unfoldable pub is_identifier : Text → Bool
  is_identifier [] = false
  is_identifier (c ∷ s) = not (has keywords (c ∷ s)) && (is_letter c && all_of is_letter_or_digit s)

  -- `ast.IsExported`, of an ASCII name.
  unfoldable pub is_exported : Text → Bool
  is_exported [] = false
  is_exported (c ∷ s) = is_upper c

  -- `checkIdent`.
  unfoldable pub check_ident : Text → Checked (Unit {0})
  check_ident name = do
    refuse_if (not (is_identifier name)) (not_identifier name)
    refuse_if (any_of (λ c. not (ltb c 128)) name) (not_ascii name)
    refuse_if (any_of (λ c. c == b'_') name) (has_underscore name)
    refuse_if (not (is_exported name)) (not_exported name (upper_first name))

-- `strings.IndexAny(v, ",:")`, and the rune found.
unfoldable pub first_separator : Text → Option ℕ
first_separator [] = none
first_separator (c ∷ s) = if c == b',' || c == b':' then some c else first_separator s

module _ (prints : ℕ → Bool) where
  -- `checkTag`.
  unfoldable pub check_tag : Text → Checked (Unit {0})
  check_tag v = do
    refuse_if
        (any_of (λ c. c == b'`') v || not (text_eq (quote prints v) (b'"' ∷ (v ++ b'"' ∷ []))))
        (needs_escape v)
    elim (first_separator v) [ none ↦ ok tt | some c ↦ failed (has_separator v c) ]

-- The switch of `scalarType` on the base type.
unfoldable pub scalar_of : Text → Option Text
scalar_of base =
    if text_eq base (codes "string")
    then some (codes "String")
    else if text_eq base (codes "int")
    then some (codes "Int")
    else if text_eq base (codes "float64")
    then some (codes "Float")
    else if text_eq base (codes "bool")
    then some (codes "Boolean")
    else none

-- `scalarType`: the GraphQL scalar, and whether the type is a slice.
unfoldable pub scalar_type : Text → Checked (Text × Bool)
scalar_type go_type =
    let (base, array) = cut_prefix (codes "[]") go_type in
    elim (scalar_of base) [ some gql ↦ ok (gql, array) | none ↦ failed (unsupported go_type base) ]
