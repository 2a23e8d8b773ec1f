-- ===== src/Server/Cors/Grants.antt =====
-- Which origins the CORS middleware lets read a response.
use luima.Prelude.{
  true, false, List, [], ◌∷◌, ◌++◌, ◌≡◌, refl, ◌≢◌, Text, codes, text_eq, text_eq_iff, has,
  Bool-cases, inl, inr,
}
use mathlib.Core.List.{append-nil}
use luima.Server.Http.{HttpRequest, Header, Handler, header_get, header_values, header_add}
use luima.Server.Http.Values.{header_values-add, header_values-set}
use luima.Server.Cors.{
  CorsConfig, vary, allow_origin_name, age, allowed_headers, allow_origin, grant, cors,
}

-- The names of the header are different texts.
names_differ :
    (text_eq (codes "Access-Control-Max-Age") allow_origin_name ≡ false)
    × (text_eq (codes "Access-Control-Allow-Headers") allow_origin_name ≡ false)
    × (text_eq (codes "Access-Control-Allow-Methods") allow_origin_name ≡ false)
    × (text_eq allow_origin_name allow_origin_name ≡ true)
    × (text_eq vary allow_origin_name ≡ false)
unfolding codes text_eq
names_differ = (refl, refl, refl, refl, refl)

allow_origin-values :
    (origin headers age : Text) (h : Header)
    → header_values allow_origin_name (allow_origin origin headers age h) ≡ origin ∷ []
unfolding allow_origin
allow_origin-values origin headers age h =
    let (a, b, c, d, _) = names_differ in simp (header_values-set, a, b, c, d)

-- The four names that `allowOrigin` sets.
abbrev IsOther : Text → Type 0
IsOther name =
    (text_eq (codes "Access-Control-Max-Age") name ≡ false)
    × (text_eq (codes "Access-Control-Allow-Headers") name ≡ false)
    × (text_eq (codes "Access-Control-Allow-Methods") name ≡ false)
    × (text_eq allow_origin_name name ≡ false)

abbrev pub credentials : Text
credentials = codes "Access-Control-Allow-Credentials"

vary-IsOther : IsOther vary
unfolding codes text_eq
vary-IsOther = (refl, refl, refl, refl)

credentials-IsOther : IsOther credentials
unfolding codes text_eq
credentials-IsOther = (refl, refl, refl, refl)

grant_other :
    (name : Text) (c : CorsConfig) (origin : Text) (h : Header)
    → IsOther name
    → header_values name (grant c origin h) ≡ header_values name h
unfolding grant allow_origin
grant_other name c origin h (x, y, z, w) = elim (Bool-cases (text_eq origin [])) [
  | inl empty ↦ rw empty
  | inr some_origin ↦ elim (Bool-cases (has c.origins (codes "*"))) [
    | inl wild ↦ rw (some_origin, wild) (simp (header_values-set, x, y, z, w))
    | inr strict ↦ elim (Bool-cases (has c.origins origin)) [
      | inl listed ↦ rw (some_origin, strict, listed) (simp (header_values-set, x, y, z, w))
      | inr unlisted ↦ rw (some_origin, strict, unlisted)
    ]
  ]
]

-- What the middleware does to the header that the handler behind it starts from.
pub record IsGranted (c : CorsConfig) (origin : Text) (h g : Header) : Type 0 where
  pub varies : header_values vary g ≡ header_values vary h ++ codes "Origin" ∷ []
  pub any_origin :
      origin ≢ []
      → has c.origins (codes "*") ≡ true
      → header_values allow_origin_name g ≡ codes "*" ∷ []
  pub listed_origin :
      origin ≢ []
      → has c.origins (codes "*") ≡ false
      → has c.origins origin ≡ true
      → header_values allow_origin_name g ≡ origin ∷ []
  pub no_origin :
      origin ≡ [] → header_values allow_origin_name g ≡ header_values allow_origin_name h
  pub unlisted_origin :
      has c.origins (codes "*") ≡ false
      → has c.origins origin ≡ false
      → header_values allow_origin_name g ≡ header_values allow_origin_name h
  pub no_credentials : header_values credentials g ≡ header_values credentials h

not_empty : (s : Text) → s ≢ [] → text_eq s [] ≡ false
not_empty s ne = elim (Bool-cases (text_eq s [])) [
  | inl e ↦ absurd (ne ((text_eq_iff s []).0 e))
  | inr e ↦ e
]

credentials_differ : text_eq vary credentials ≡ false
unfolding codes text_eq
credentials_differ = refl

vary_self : text_eq vary vary ≡ true
unfolding codes text_eq
vary_self = refl

append-none : (vs : List Text) → vs ++ [] ≡ vs
append-none vs = append-nil vs

abbrev varied : Header → Header
varied h = header_add vary (codes "Origin") h

varied_origin :
    (h : Header) → header_values allow_origin_name (varied h) ≡ header_values allow_origin_name h
varied_origin h = let (_, _, _, _, v) = names_differ in rw (header_values-add, v) (append-none _)

module _ (c : CorsConfig) (origin : Text) (h : Header) where
  grant_wild :
      origin ≢ []
      → has c.origins (codes "*") ≡ true
      → header_values allow_origin_name (grant c origin h) ≡ codes "*" ∷ []
  unfolding grant
  grant_wild ne wild =
      rw (not_empty origin ne, wild)
        (allow_origin-values (codes "*") (allowed_headers c.headers) (age c.max_age) h)

  grant_listed :
      origin ≢ []
      → has c.origins (codes "*") ≡ false
      → has c.origins origin ≡ true
      → header_values allow_origin_name (grant c origin h) ≡ origin ∷ []
  unfolding grant
  grant_listed ne strict listed =
      rw (not_empty origin ne, strict, listed)
        (allow_origin-values origin (allowed_headers c.headers) (age c.max_age) h)

  grant_empty : origin ≡ [] → grant c origin h ≡ h
  unfolding grant
  grant_empty e = let q : text_eq origin [] ≡ true = (text_eq_iff origin []).1 e in rw q

  grant_unlisted :
      has c.origins (codes "*") ≡ false → has c.origins origin ≡ false → grant c origin h ≡ h
  unfolding grant
  grant_unlisted strict unlisted = elim (Bool-cases (text_eq origin [])) [
    | inl empty ↦ rw empty
    | inr some_origin ↦ rw (some_origin, strict, unlisted)
  ]

grant-IsGranted :
    (c : CorsConfig) (origin : Text) (h : Header) → IsGranted c origin h (grant c origin (varied h))
grant-IsGranted c origin h = record {
  varies =
      rw (grant_other vary c origin (varied h) vary-IsOther) (rw (header_values-add, vary_self));
  any_origin = λ ne wild. grant_wild c origin (varied h) ne wild;
  listed_origin = λ ne strict listed. grant_listed c origin (varied h) ne strict listed;
  no_origin = λ e. rw (grant_empty c origin (varied h) e) (varied_origin h);
  unlisted_origin =
      λ strict unlisted. rw (grant_unlisted c origin (varied h) strict unlisted) (varied_origin h);
  no_credentials =
      rw (grant_other credentials c origin (varied h) credentials-IsOther)
        (rw (header_values-add, credentials_differ) (append-none _));
}

-- The handler behind the middleware runs on the same request, with a header that always varies by
-- Origin, names an origin only for a request with one that is listed, or any where "*" is, and never
-- allows credentials.
pub cors-IsGranted :
    (c : CorsConfig) (next : Handler) (r : HttpRequest) (h : Header)
    → (g : Header) × (cors c next r h ≡ next r g)
      × IsGranted c (header_get (codes "Origin") r.headers) h g
unfolding cors
cors-IsGranted c next r h =
    let origin = header_get (codes "Origin") r.headers in
    (grant c origin (varied h), refl, grant-IsGranted c origin h)
