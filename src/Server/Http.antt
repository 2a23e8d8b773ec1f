-- ===== src/Server/Http.antt =====
-- The part of net/http that the middleware uses: a request, the header of a response, and handlers. A
-- handler takes the header that is set so far, and answers with the response it writes.
pub mod Values
use luima.Prelude.{ℕ, List, [], ◌∷◌, ◌++◌, Text, codes, text_eq, if◌then◌else◌}

-- `headers` holds a value for each name that the request sends, under its canonical name.
pub record HttpRequest : Type 0 where
  pub method : Text
  pub remote_addr : Text
  pub headers : List (Text × Text)

abbrev pub Header : Type 0
Header = List (Text × Text)

pub record Response : Type 0 where
  pub status : ℕ
  pub header : Header
  pub body : Text

abbrev pub Handler : Type 0
Handler = HttpRequest → Header → Response

-- `Header.Get`: the first value, "" where there is none.
unfoldable pub header_get : Text → Header → Text
header_get name [] = []
header_get name ((k, v) ∷ h) = if text_eq k name then v else header_get name h

-- `Header.Values`.
unfoldable pub header_values : Text → Header → List Text
header_values name [] = []
header_values name ((k, v) ∷ h) =
    let rest = header_values name h in if text_eq k name then v ∷ rest else rest

-- `Header.Add`.
unfoldable pub header_add : Text → Text → Header → Header
header_add name value h = h ++ (name, value) ∷ []

unfoldable pub header_del : Text → Header → Header
header_del name [] = []
header_del name ((k, v) ∷ h) =
    let rest = header_del name h in if text_eq k name then rest else (k, v) ∷ rest

-- `Header.Set`: the values that were there are replaced.
unfoldable pub header_set : Text → Text → Header → Header
header_set name value h = header_add name value (header_del name h)

-- `http.Error`.
unfoldable pub http_error : Text → ℕ → Header → Response
http_error text code h = record {
  status = code;
  header = header_set (codes "X-Content-Type-Options") (codes "nosniff") (
      header_set (codes "Content-Type") (codes "text/plain; charset=utf-8")
        (header_del (codes "Content-Length") h));
  body = text ++ codes "\n";
}
