-- ===== src/Luimaerr/Redaction.antt =====
-- luimaerr/errors.go: what `PresentError` lets out, what it withholds, and where it answers.
use luima.Prelude.{
  ℕ, List, [], ◌∷◌, none, some, ◌≡◌, refl, ◌≢◌, ◌⊎◌, inl, inr, arith, Text, Option-cases, codes,
}
use luima.Luimaerr.Errors.{
  GqlError, GoError, custom, gql, driver, no_cause, CustomError, as_type, is_custom, is_driver,
  sql_state, driver_field,
}
use luima.Luimaerr.Context.{Context}
use luima.Luimaerr.Present.{
  Answer, present_error, about_request, redacted_message, redacted, code_extension, heard,
}
use luima.Luimaerr.Chain.{InChain, as_type_sound, as_type_complete}

-- The answer to a `*CustomError`: its message, its code if it has one, and no log line.
pub record IsHeard (err : GoError) (answer : Answer) : Type 0 where
  pub found : CustomError
  pub in_chain : InChain (custom found.user_message found.internal_error found.code) err
  pub message : answer.response.message ≡ found.user_message
  pub no_code : found.code ≡ [] → answer.response.extensions ≡ []
  pub code : found.code ≢ [] → answer.response.extensions ≡ code_extension found.code
  pub silent : answer.log ≡ []

-- The answer that says nothing of the error, which is logged.
pub record IsRedacted (err : GoError) (answer : Answer) : Type 0 where
  pub message : answer.response.message ≡ redacted_message
  pub code : answer.response.extensions ≡ code_extension (codes "INTERNAL_SERVER_ERROR")
  pub logged : answer.log ≡ err ∷ []

-- The answer that is gqlgen's own error about the request.
pub record IsPassed (ctx : Context) (err : GoError) (answer : Answer) : Type 0 where
  pub found : GqlError
  pub no_cause : err ≡ gql found no_cause
  pub no_field : ctx.field ≡ none
  pub response : answer.response ≡ found
  pub silent : answer.log ≡ []

is_custom-eq-some :
    (x : GoError) (c : CustomError)
    → is_custom x ≡ some c
    → x ≡ custom c.user_message c.internal_error c.code
is_custom-eq-some (custom m c k) ce h = cc
is_custom-eq-some _ ce h = absurd (cc)

heard-IsHeard :
    (ctx : Context) (err : GoError) (ce : CustomError)
    → as_type is_custom err ≡ some ce
    → IsHeard err (heard ctx err ce)
unfolding heard
heard-IsHeard ctx err ce h =
    let (x, i, q) = as_type_sound is_custom err ce h in
    record {
      found = ce;
      in_chain = rw (is_custom-eq-some x ce q) at i;
      message = refl;
      no_code = λ e. rw e;
      code = λ ne. ground arith;
      silent = refl;
    }

about_request-eq-some :
    (ctx : Context) (err : GoError) (ge : GqlError)
    → about_request ctx err ≡ some ge
    → (err ≡ gql ge no_cause) × (ctx.field ≡ none)
about_request-eq-some ctx (gql g no_cause) ge h = ground arith
about_request-eq-some ctx _ ge h = absurd (cc)

-- Every error is answered in one of three ways: a CustomError in the chain is heard, an error about
-- the request itself is passed on, and any other is redacted and logged.
pub present_error_cases :
    (ctx : Context) (err : GoError)
    → IsHeard err (present_error ctx err)
      ⊎ IsPassed ctx err (present_error ctx err)
      ⊎ IsRedacted err (present_error ctx err)
unfolding present_error redacted
present_error_cases ctx err = elim (Option-cases (as_type is_custom err)) [
  | inr (ce, e) ↦ inl (rw (e, present_error) (heard-IsHeard ctx err ce e))
  | inl e ↦ elim (Option-cases (about_request ctx err)) [
    | inr (ge, q) ↦ inr (
        inl (
          rw (e, q, present_error)
            (record {
              found = ge;
              no_cause = (about_request-eq-some ctx err ge q).0;
              no_field = (about_request-eq-some ctx err ge q).1;
              response = refl;
              silent = refl;
            })))
    | inl q ↦
        inr (inr (rw (e, q, present_error) (record { message = refl; code = refl; logged = refl })))
  ]
]

as_type-eq-none :
    (err : GoError)
    → ((x : GoError) → InChain x err → is_custom x ≡ none)
    → as_type is_custom err ≡ none
as_type-eq-none err none_in = elim (Option-cases (as_type is_custom err)) [
  | inl e ↦ e
  | inr (ce, e) ↦
      let (x, i, q) = as_type_sound is_custom err ce e in let n = none_in x i in absurd (cc)
]

about_request-eq-none :
    (ctx : Context) (err : GoError)
    → (ctx.field ≢ none) ⊎ ((ge : GqlError) → err ≢ gql ge no_cause)
    → about_request ctx err ≡ none
about_request-eq-none ctx err h = elim (Option-cases (about_request ctx err)) [
  | inl e ↦ e
  | inr (ge, e) ↦ elim h [
    | inl f ↦ absurd (f (about_request-eq-some ctx err ge e).1)
    | inr g ↦ absurd (g ge (about_request-eq-some ctx err ge e).0)
  ]
]

-- With no CustomError in the chain, an error is redacted and logged while a field resolves, and so is
-- any error that is not itself a cause-less gqlerror.Error.
pub present_error-IsRedacted :
    (ctx : Context) (err : GoError)
    → ((x : GoError) → InChain x err → is_custom x ≡ none)
    → (ctx.field ≢ none) ⊎ ((ge : GqlError) → err ≢ gql ge no_cause)
    → IsRedacted err (present_error ctx err)
unfolding present_error redacted
present_error-IsRedacted ctx err none_in h =
    rw (as_type-eq-none err none_in, about_request-eq-none ctx err h, present_error)
      (record { message = refl; code = refl; logged = refl })

is_driver-eq-some : (x : GoError) (fs : List (ℕ × Text)) → is_driver x ≡ some fs → x ≡ driver fs
is_driver-eq-some (driver gs) fs h = cc
is_driver-eq-some _ fs h = absurd (cc)

-- `SQLState` is the code field of a driver error in the chain, or "" where there is none.
pub sql_state_cases :
    (err : GoError)
    → ((fs : List (ℕ × Text)) × InChain (driver fs) err × (sql_state err ≡ driver_field fs b'C'))
      ⊎ (((x : GoError) → InChain x err → is_driver x ≡ none) × (sql_state err ≡ []))
unfolding sql_state
sql_state_cases err = elim (Option-cases (as_type is_driver err)) [
  | inl e ↦ inr (λ x i. as_type_complete is_driver i e, rw e)
  | inr (fs, e) ↦
      let (x, i, q) = as_type_sound is_driver err fs e in
      inl (fs, rw (is_driver-eq-some x fs q) at i, rw e)
]
