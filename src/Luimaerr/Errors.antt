-- ===== src/Luimaerr/Errors.antt =====
-- luimaerr/errors.go: `CustomError`, its methods, and `SQLState`. Go's `error` is one data type: the
-- error types that the library tells apart, and the ways in which an error wraps others.
use luima.Prelude.{ℕ, List, [], ◌∷◌, ◌++◌, Option, none, some, Text, codes, ◌==◌, if◌then◌else◌}

pub data PathElement : Type 0 where
  path_name : Text → PathElement
  path_index : ℕ → PathElement

pub record Location : Type 0 where
  pub line : ℕ
  pub column : ℕ

-- A value of an extensions map: a string, or any other value.
pub data Value : Type 0 where
  string : Text → Value
  other : ℕ → Value

-- The exported fields of a `*gqlerror.Error`, apart from its cause.
pub record GqlError : Type 0 where
  pub message : Text
  pub path : List PathElement
  pub locations : List Location
  pub extensions : List (Text × Value)

mutual
  -- `custom` is a `*CustomError`, `gql` a `*gqlerror.Error`, `driver` a `pgdriver.Error` with its
  -- fields, `no_rows` is `sql.ErrNoRows`, `opaque` any error that wraps none, `wrap` one that
  -- `fmt.Errorf` made with %w, and `joined` one that wraps several. The text is that of `Error()`.
  pub data GoError : Type 0 where
    custom : Text → Cause → Text → GoError
    gql : GqlError → Cause → GoError
    driver : List (ℕ × Text) → GoError
    no_rows : GoError
    opaque : Text → GoError
    wrap : Text → GoError → GoError
    joined : Text → Causes → GoError

  -- An `error` that may be nil.
  pub data Cause : Type 0 where
    no_cause : Cause
    caused_by : GoError → Cause

  pub data Causes : Type 0 where
    nil : Causes
    cons : GoError → Causes → Causes

-- The fields of a `*CustomError`.
pub record CustomError : Type 0 where
  pub user_message : Text
  pub internal_error : Cause
  pub code : Text

abbrev pub or_else {ℓ} : {A : Type ℓ} → Option A → Option A → Option A
or_else none o = o
or_else (some a) o = some a

module _ {ℓ} {A : Type ℓ} where
  -- `errors.AsType`: the first match, the error before what it wraps, and that in order.
  unfoldable mutual
    pub as_type : (GoError → Option A) → GoError → Option A
    as_type p (custom m c k) = or_else (p (custom m c k)) (as_type_cause p c)
    as_type p (gql g c) = or_else (p (gql g c)) (as_type_cause p c)
    as_type p (wrap t e) = or_else (p (wrap t e)) (as_type p e)
    as_type p (joined t es) = or_else (p (joined t es)) (as_type_causes p es)
    as_type p (driver fs) = p (driver fs)
    as_type p no_rows = p no_rows
    as_type p (opaque t) = p (opaque t)

    pub as_type_cause : (GoError → Option A) → Cause → Option A
    as_type_cause p no_cause = none
    as_type_cause p (caused_by e) = as_type p e

    pub as_type_causes : (GoError → Option A) → Causes → Option A
    as_type_causes p nil = none
    as_type_causes p (cons e es) = or_else (as_type p e) (as_type_causes p es)

abbrev pub is_custom : GoError → Option CustomError
is_custom (custom m c k) = some (record { user_message = m; internal_error = c; code = k })
is_custom _ = none

abbrev pub is_driver : GoError → Option (List (ℕ × Text))
is_driver (driver fs) = some fs
is_driver _ = none

abbrev pub is_no_rows : GoError → Option (Unit {0})
is_no_rows no_rows = some tt
is_no_rows _ = none

-- `(pgdriver.Error).Field`: the value of a field of the server's message, "" if it is not there.
unfoldable pub driver_field : List (ℕ × Text) → ℕ → Text
driver_field [] k = []
driver_field ((j, v) ∷ fs) k = if j == k then v else driver_field fs k

abbrev pub state_of : Option (List (ℕ × Text)) → Text
state_of (some fs) = driver_field fs b'C'
state_of none = []

-- `SQLState`.
unfoldable pub sql_state : GoError → Text
sql_state err = state_of (as_type is_driver err)

-- `(*CustomError).Unwrap`.
unfoldable pub unwrap : CustomError → Cause
unwrap e = e.internal_error

module _ (gql_text : GqlError → Cause → Text) (driver_text : List (ℕ × Text) → Text) where
  -- `Error()` of each error; that of a `*CustomError` is luimaerr's, those of gqlparser and
  -- pgdriver are parameters.
  unfoldable mutual
    pub error_text : GoError → Text
    error_text (custom m c k) = custom_text m c
    error_text (gql g c) = gql_text g c
    error_text (driver fs) = driver_text fs
    error_text no_rows = codes "sql: no rows in result set"
    error_text (opaque t) = t
    error_text (wrap t e) = t
    error_text (joined t es) = t

    pub custom_text : Text → Cause → Text
    custom_text m no_cause = m
    custom_text m (caused_by e) = m ++ (codes ": " ++ error_text e)
