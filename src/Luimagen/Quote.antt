-- ===== src/Luimagen/Quote.antt =====
-- Go's `strconv.Quote`, on the runes of a text. Which runes past ASCII print is a parameter.
use luima.Prelude.{
  ℕ, ◌+◌, ◌-◌, ◌/◌, ◌%◌, Bool, ◌&&◌, ◌||◌, [], ◌∷◌, ◌++◌, Text, ltb, leb, ◌==◌, if◌then◌else◌,
}

unfoldable pub hex_digit : ℕ → ℕ
hex_digit d = if ltb d 10 then b'0' + d else b'a' + (d - 10)

unfoldable pub hex2 : ℕ → Text
hex2 c = hex_digit (c / 16 % 16) ∷ (hex_digit (c % 16) ∷ [])

unfoldable pub hex4 : ℕ → Text
hex4 c = hex2 (c / 256) ++ hex2 c

unfoldable pub escaped : ℕ → Text
escaped c = b'\\' ∷ (c ∷ [])

module _ (prints : ℕ → Bool) where
  -- `strconv.IsPrint`.
  unfoldable pub is_print : ℕ → Bool
  is_print c = if ltb c 128 then leb b' ' c && leb c b'~' else prints c

  -- The escape of a rune that does not print.
  unfoldable pub escape : ℕ → Text
  escape c =
      if c == 7
      then escaped b'a'
      else if c == 8
      then escaped b'b'
      else if c == 12
      then escaped b'f'
      else if c == 10
      then escaped b'n'
      else if c == 13
      then escaped b'r'
      else if c == 9
      then escaped b't'
      else if c == 11
      then escaped b'v'
      else if ltb c 32 || c == 127
      then b'\\' ∷ (b'x' ∷ hex2 c)
      else if ltb c 65536
      then b'\\' ∷ (b'u' ∷ hex4 c)
      else b'\\' ∷ (b'U' ∷ (hex4 (c / 65536) ++ hex4 c))

  unfoldable pub quote_rune : ℕ → Text
  quote_rune c =
      if c == b'"' || c == b'\\' then escaped c else if is_print c then c ∷ [] else escape c

  unfoldable pub quote_runes : Text → Text
  quote_runes [] = []
  quote_runes (c ∷ s) = quote_rune c ++ quote_runes s

  unfoldable pub quote : Text → Text
  quote s = b'"' ∷ (quote_runes s ++ b'"' ∷ [])
