-- ===== src/Luimaerr/Present.antt =====
-- luimaerr/errors.go: `PresentError`. The answer holds what the client receives, and the errors that
-- `log.Printf` wrote in full.
use luima.Prelude.{Bool, true, false, List, [], ◌∷◌, Option, none, some, Text, codes, if◌then◌else◌}
use luima.Luimaerr.Errors.{
  Value, string, GqlError, GoError, gql, no_cause, CustomError, as_type, is_custom,
}
use luima.Luimaerr.Context.{Context, answered_at}

pub record Answer : Type 0 where
  pub response : GqlError
  pub log : List GoError

-- `map[string]any{"code": code}`.
unfoldable pub code_extension : Text → List (Text × Value)
code_extension code = (codes "code", string code) ∷ []

abbrev pub is_empty : Text → Bool
is_empty [] = true
is_empty _ = false

-- The answer to a `*CustomError` found in the chain.
unfoldable pub heard : Context → GoError → CustomError → Answer
heard ctx err ce = record {
  response = record {
    message = ce.user_message;
    path = (answered_at ctx err).0;
    locations = (answered_at ctx err).1;
    extensions = if is_empty ce.code then [] else code_extension ce.code;
  };
  log = [];
}

abbrev pub redacted_message : Text
redacted_message = codes "internal server error"

unfoldable pub redacted : Context → GoError → Answer
redacted ctx err = record {
  response = record {
    message = redacted_message;
    path = (answered_at ctx err).0;
    locations = (answered_at ctx err).1;
    extensions = code_extension (codes "INTERNAL_SERVER_ERROR");
  };
  log = err ∷ [];
}

-- `isGQL && ge.Unwrap() == nil && graphql.GetFieldContext(ctx) == nil`.
abbrev pub about_request : Context → GoError → Option GqlError
about_request ctx (gql ge no_cause) = elim ctx.field [ none ↦ some ge | some _ ↦ none ]
about_request ctx _ = none

-- `PresentError`.
unfoldable pub present_error : Context → GoError → Answer
present_error ctx err = elim (as_type is_custom err) [
  | some ce ↦ heard ctx err ce
  | none ↦ elim (about_request ctx err) [
    | some ge ↦ record { response = ge; log = [] }
    | none ↦ redacted ctx err
  ]
]
