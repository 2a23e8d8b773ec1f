-- ===== src/Db/Redact.antt =====
-- db/db.go: `redact`, on the text of an error, and the functions of Go's strings and regexp that it uses.
pub mod Quoted
use luima.Prelude.{
  ℕ, zero, suc, Bool, true, false, not, ◌&&◌, ◌||◌, ◌==◌, ◌-◌, [], ◌∷◌, ◌++◌, Option, none, some,
  Text, codes, text_eq, length, if◌then◌else◌,
}

-- An error of pgdriver: its text, and the Op and the text of the cause of the `*url.Error` in its chain.
pub record DriverError : Type 0 where
  pub text : Text
  pub url_error : Option (Text × Text)

abbrev pub redacted : Text
redacted = codes "[redacted]"

unfoldable pub starts_with : Text → Text → Bool
starts_with [] s = true
starts_with (p ∷ ps) [] = false
starts_with (p ∷ ps) (c ∷ s) = p == c && starts_with ps s

-- `strings.Contains(s, part)`.
unfoldable pub contains : Text → Text → Bool
contains part [] = starts_with part []
contains part (c ∷ s) = starts_with part (c ∷ s) || contains part s

-- `strings.ReplaceAll(s, old, new)`, of an `old` that is not empty: `skip` runes are those of the last
-- match.
unfoldable pub replace_from : ℕ → Text → Text → Text → Text
replace_from skip old new [] = []
replace_from (suc skip) old new (c ∷ s) = replace_from skip old new s
replace_from zero old new (c ∷ s) =
    let found = starts_with old (c ∷ s) in
    let rest = replace_from (if found then length old - 1 else 0) old new s in
    if found then new ++ rest else c ∷ rest

abbrev pub one_more : Option ℕ → Option ℕ
one_more none = none
one_more (some n) = some (suc n)

-- What is left of `"(?:[^"\\]|\\.)*"` past its first quote, behind a backslash or not: how many runes it
-- takes.
unfoldable pub quoted_length : Bool → Text → Option ℕ
quoted_length escaped [] = none
quoted_length true (c ∷ s) =
    let rest = quoted_length false s in if c == b'\n' then none else one_more rest
quoted_length false (c ∷ s) =
    let rest = quoted_length (c == b'\\') s in if c == b'"' then some 1 else one_more rest

-- `ReplaceAllLiteralString` of that pattern.
unfoldable pub mask_from : ℕ → Text → Text
mask_from skip [] = []
mask_from (suc skip) (c ∷ s) = mask_from skip s
mask_from zero (c ∷ s) = elim (if c == b'"' then quoted_length false s else none) as (λ _. Text) [
  | none ↦ c ∷ mask_from zero s
  | some n ↦ redacted ++ mask_from n s
]

abbrev pub url_message : Text → Text
url_message reason =
    let msg = mask_from 0 reason in
    if text_eq msg reason
    then msg
    else msg ++ codes " (percent-encode any / ? # or % in the user or password)"

abbrev pub without_url : Text → Text → Text
without_url [] msg = msg
without_url url msg = replace_from 0 url redacted msg

-- `password` is that of the user info, where the URL parses and has one.
abbrev pub without_password : Option Text → Text → Text
without_password none msg = msg
without_password (some pw) msg =
    if not (text_eq pw []) && contains pw msg
    then codes "pgdriver's error is withheld because it contains the password"
    else msg

-- `redact`.
unfoldable pub redact : (Text → Option Text) → Text → DriverError → Text
redact password url err = codes "parse database url: " ++ (elim err.url_error as (λ _. Text) [
  | some (op, reason) ↦ op ++ (codes ": " ++ url_message reason)
  | none ↦ without_password (password url) (without_url url err.text)
])
