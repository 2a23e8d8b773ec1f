-- ===== src/Luimaerr/Tests.antt =====
-- Runs of the error contract, and each of its theorems at an input.
use luima.Prelude.{[], ◌∷◌, none, some, ◌≡◌, refl, inl, codes, has, text_eq}
use luima.Luimaerr.Errors.{
  path_name, GqlError, GoError, custom, gql, driver, wrap, no_cause, caused_by, string, is_custom,
  sql_state, driver_field, as_type,
}
use luima.Luimaerr.Context.{
  AstField, Context, own_location, answered_at, recorded, rest_after, element_eq, names_argument,
}
use luima.Luimaerr.Present.{present_error, redacted, heard, code_extension}
use luima.Luimaerr.Chain.{InChain, of_gql, of_cause, here}
use luima.Luimaerr.Redaction.{IsRedacted, present_error-IsRedacted}
use luima.Luimaerr.Placement.{IsOwnPath, answered_at_own}

-- What the runs below compute with.
contract : Unit {0}
unfolding present_error redacted heard answered_at has text_eq codes as_type recorded own_location
    code_extension rest_after element_eq names_argument
contract = tt

-- A driver error as gqlgen wraps it, with another request's path in the wrapper.
abbrev duplicate : GoError
duplicate = driver ((b'C', codes "23505") ∷ [])

abbrev stale : GqlError
stale = record {
  message = codes "duplicate key";
  path = path_name (codes "ping") ∷ (path_name (codes "secret") ∷ []);
  locations = record { line = 9; column = 9 } ∷ [];
  extensions = [];
}

abbrev wrapped : GoError
wrapped = gql stale (caused_by duplicate)

abbrev ping : AstField
ping = record { arguments = codes "at" ∷ []; position = some (record { line = 1; column = 2 }) }

abbrev resolving : Context
resolving = record { path = path_name (codes "ping") ∷ []; field = some (some ping) }

abbrev parsing : Context
parsing = record { path = []; field = none }

wrapped-ping : (present_error resolving wrapped).response ≡ record {
  message = codes "internal server error";
  path = path_name (codes "ping") ∷ [];
  locations = record { line = 1; column = 2 } ∷ [];
  extensions = (codes "code", string (codes "INTERNAL_SERVER_ERROR")) ∷ [];
}
unfolding contract
wrapped-ping = refl

conflict_heard :
    (present_error resolving
      (wrap (codes "x") (custom (codes "taken") no_cause (codes "CONFLICT")))).response
    ≡ record {
      message = codes "taken";
      path = path_name (codes "ping") ∷ [];
      locations = record { line = 1; column = 2 } ∷ [];
      extensions = (codes "code", string (codes "CONFLICT")) ∷ [];
    }
unfolding contract
conflict_heard = refl

sql_state-wrapped : sql_state wrapped ≡ codes "23505"
unfolding sql_state as_type driver_field codes
sql_state-wrapped = refl

no_custom : (x : GoError) → InChain x wrapped → is_custom x ≡ none
no_custom x (of_gql (of_cause here)) = refl
no_custom x here = refl

present_error-IsRedacted_example : IsRedacted wrapped (present_error resolving wrapped)
present_error-IsRedacted_example =
    present_error-IsRedacted resolving wrapped no_custom (inl (λ e. absurd (cc e)))

answered_at_own_example :
    IsOwnPath ping resolving.path (answered_at resolving wrapped).0
    × ((answered_at resolving wrapped).1 ≡ own_location ping)
answered_at_own_example = answered_at_own resolving ping wrapped refl
