-- ===== src/Db/Redact/Quoted.antt =====
-- db/db.go: `redact` of an error of net/url, which quotes the part of the URL that it is about.
use luima.Prelude.{
  ℕ, suc, ◌+◌, ◌/◌, ◌%◌, Bool, true, false, ◌||◌, ◌==◌, [], ◌∷◌, ◌++◌, Option, none, some, ◌≡◌,
  refl, ◌≢◌, sym, ap, ◌∙◌, arith, Text, codes, text_eq, length, length-append, All, All-append,
  Bool-cases, inl, inr, if◌then◌else◌, ltb,
}
use mathlib.Core.List.{append_assoc}
use luima.Luimagen.Quote.{
  hex_digit, hex2, hex4, escaped, is_print, escape, quote_rune, quote_runes, quote,
}
use luima.Db.Redact.{redacted, one_more, quoted_length, mask_from, url_message, redact}

-- Neither a quote nor a backslash.
abbrev IsBare : ℕ → Type 0
IsBare c = (c ≢ b'"') × (c ≢ b'\\')

abbrev more : ℕ → Option ℕ → Option ℕ
more n none = none
more n (some m) = some (n + m)

-- A piece of a quoted text, as far as the pattern goes over it.
abbrev IsPiece : Text → Type 0
IsPiece p = (t : Text) → quoted_length false (p ++ t) ≡ more (length p) (quoted_length false t)

more-one_more : (n : ℕ) (o : Option ℕ) → one_more (more n o) ≡ more (suc n) o
more-one_more n none = refl
more-one_more n (some m) = ap some (omega arith)

more-zero : (o : Option ℕ) → more 0 o ≡ o
more-zero none = refl
more-zero (some m) = ap some (omega arith)

differs : (c d : ℕ) → c ≢ d → (c == d) ≡ false
differs c d h = ground arith

bare-IsPiece : (p : Text) → All IsBare p → IsPiece p
unfolding quoted_length
bare-IsPiece [] h t = sym (more-zero (quoted_length false t))
bare-IsPiece (c ∷ p) ((q, b), h) t =
    rw (differs c b'"' q, differs c b'\\' b)
      (ap one_more (bare-IsPiece p h t) ∙ more-one_more (length p) (quoted_length false t))

-- A backslash and what it escapes.
escaped-IsPiece : (c : ℕ) (p : Text) → c ≢ b'\n' → All IsBare p → IsPiece (b'\\' ∷ (c ∷ p))
unfolding quoted_length
escaped-IsPiece c p n h t = rw (differs c b'\n' n) (
    ap (λ o. one_more (one_more o)) (bare-IsPiece p h t)
    ∙ (ap one_more (more-one_more (length p) (quoted_length false t))
        ∙ more-one_more (suc (length p)) (quoted_length false t)))

hex_digit-IsBare : (d : ℕ) → IsBare (hex_digit d)
unfolding hex_digit
hex_digit-IsBare d = ground arith

hex4-IsBare : (c : ℕ) → All IsBare (hex4 c)
unfolding hex4 hex2
hex4-IsBare c = (
  hex_digit-IsBare (c / 256 / 16 % 16),
  (
    hex_digit-IsBare (c / 256 % 16),
    (hex_digit-IsBare (c / 16 % 16), (hex_digit-IsBare (c % 16), tt)),
  ),
)

hex2-IsBare : (c : ℕ) → All IsBare (hex2 c)
unfolding hex2
hex2-IsBare c = (hex_digit-IsBare (c / 16 % 16), (hex_digit-IsBare (c % 16), tt))

if-IsPiece : (b : Bool) (p q : Text) → IsPiece p → IsPiece q → IsPiece (if b then p else q)
if-IsPiece true p q h k = h
if-IsPiece false p q h k = k

more-more : (n m k : ℕ) (o : Option ℕ) → k ≡ n + m → more n (more m o) ≡ more k o
more-more n m k none h = refl
more-more n m k (some i) h = ap some (omega arith)

append-IsPiece : (p q : Text) → IsPiece p → IsPiece q → IsPiece (p ++ q)
append-IsPiece p q h k t =
    ap (quoted_length false) (append_assoc p q t)
    ∙ (h (q ++ t)
        ∙ (ap (more (length p)) (k t)
            ∙ more-more (length p) (length q) (length (p ++ q)) (quoted_length false t)
                (length-append p q)))

mask_from-append : (p t : Text) → mask_from (length p) (p ++ t) ≡ mask_from 0 t
unfolding mask_from
mask_from-append [] t = refl
mask_from-append (c ∷ p) t = mask_from-append p t

mask_from-before : (a t : Text) → All (λ c. c ≢ b'"') a → mask_from 0 (a ++ t) ≡ a ++ mask_from 0 t
unfolding mask_from
mask_from-before [] t h = refl
mask_from-before (c ∷ a) t (n, h) =
    rw (mask_from, differs c b'"' n) (ap (◌∷◌ c) (mask_from-before a t h))

text_eq-append : (a s t : Text) → text_eq (a ++ s) (a ++ t) ≡ text_eq s t
unfolding text_eq
text_eq-append [] s t = refl
text_eq-append (c ∷ a) s t = ground (arith, text_eq-append a s t)

url_message-masked :
    (reason masked : Text)
    → mask_from 0 reason ≡ masked
    → text_eq masked reason ≡ false
    → url_message reason
      ≡ masked ++ codes " (percent-encode any / ? # or % in the user or password)"
url_message-masked reason masked e n = rw (e, n) refl

module _ (prints : ℕ → Bool) where
  escape-IsPiece : (c : ℕ) → IsPiece (escape prints c)
  unfolding escape escaped
  escape-IsPiece c = if-IsPiece (c == 7) _ _ (escaped-IsPiece b'a' [] (omega arith) tt) (
      if-IsPiece (c == 8) _ _ (escaped-IsPiece b'b' [] (omega arith) tt) (
        if-IsPiece (c == 12) _ _ (escaped-IsPiece b'f' [] (omega arith) tt) (
          if-IsPiece (c == 10) _ _ (escaped-IsPiece b'n' [] (omega arith) tt) (
            if-IsPiece (c == 13) _ _ (escaped-IsPiece b'r' [] (omega arith) tt) (
              if-IsPiece (c == 9) _ _ (escaped-IsPiece b't' [] (omega arith) tt) (
                if-IsPiece (c == 11) _ _ (escaped-IsPiece b'v' [] (omega arith) tt) (
                  if-IsPiece (ltb c 32 || c == 127) _ _
                    (escaped-IsPiece b'x' (hex2 c) (omega arith) (hex2-IsBare c))
                    (if-IsPiece (ltb c 65536) _ _
                      (escaped-IsPiece b'u' (hex4 c) (omega arith) (hex4-IsBare c))
                      (escaped-IsPiece b'U' (hex4 (c / 65536) ++ hex4 c) (omega arith) (
                        All-append IsBare (hex4 (c / 65536)) (hex4 c) (hex4-IsBare (c / 65536))
                          (hex4-IsBare c)))))))))))

  quote_rune-IsPiece : (c : ℕ) → IsPiece (quote_rune prints c)
  unfolding quote_rune escaped
  quote_rune-IsPiece c = elim (Bool-cases (c == b'"' || c == b'\\')) [
    | inl e ↦ rw e (escaped-IsPiece c [] (ground arith) tt)
    | inr e ↦ elim (Bool-cases (is_print prints c)) [
      | inl a ↦ rw (e, a) (bare-IsPiece (c ∷ []) (ground arith))
      | inr a ↦ rw (e, a) (escape-IsPiece c)
    ]
  ]

  quote_runes-IsPiece : (s : Text) → IsPiece (quote_runes prints s)
  unfolding quote_runes
  quote_runes-IsPiece [] = λ t. sym (more-zero (quoted_length false t))
  quote_runes-IsPiece (c ∷ s) =
      append-IsPiece (quote_rune prints c) (quote_runes prints s) (quote_rune-IsPiece c)
        (quote_runes-IsPiece s)

  -- mask_from behind a quote, by how far the pattern goes.
  abbrev after_quote : Text → Option ℕ → Text
  after_quote t reach = elim reach as (λ _. Text) [
    | none ↦ b'"' ∷ mask_from 0 t
    | some n ↦ redacted ++ mask_from n t
  ]

  mask_from-quote : (s b : Text) → mask_from 0 (quote prints s ++ b) ≡ redacted ++ mask_from 0 b
  unfolding mask_from quote quoted_length
  mask_from-quote s b =
      let runes = quote_runes prints s in
      let whole = runes ++ b'"' ∷ [] in
      let reaches : quoted_length false (whole ++ b) ≡ some (length whole) =
        ap (quoted_length false) (append_assoc runes (b'"' ∷ []) b)
        ∙ (quote_runes-IsPiece s (b'"' ∷ b) ∙ ap some (sym (length-append runes (b'"' ∷ [])))) in
      ap (after_quote (whole ++ b)) reaches ∙ ap (◌++◌ redacted) (mask_from-append whole b)

  marker_not_quote :
      (s b : Text) → text_eq (redacted ++ mask_from 0 b) (quote prints s ++ b) ≡ false
  unfolding quote text_eq codes
  marker_not_quote s b = refl

  -- What an error of net/url quotes, behind a part that has no quote itself, is not in the message: that
  -- has the part, the marker and what is behind, masked likewise, and the hint, whatever was quoted.
  pub redact-quoted :
      (password : Text → Option Text) (url text op a s b : Text)
      → All (λ c. c ≢ b'"') a
      → redact password url
          (record { text = text; url_error = some (op, a ++ (quote prints s ++ b)) })
        ≡ codes "parse database url: "
          ++ (op
              ++ (codes ": "
                  ++ ((a ++ (redacted ++ mask_from 0 b))
                      ++ codes " (percent-encode any / ? # or % in the user or password)")))
  unfolding redact
  redact-quoted password url text op a s b h =
      let reason = a ++ (quote prints s ++ b) in
      let masked = a ++ (redacted ++ mask_from 0 b) in
      let same : mask_from 0 reason ≡ masked =
        mask_from-before a (quote prints s ++ b) h ∙ ap (◌++◌ a) (mask_from-quote s b) in
      ap (λ m. codes "parse database url: " ++ (op ++ (codes ": " ++ m)))
        (url_message-masked reason masked same (
          text_eq-append a (redacted ++ mask_from 0 b) (quote prints s ++ b)
          ∙ marker_not_quote s b))
