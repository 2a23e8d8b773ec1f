-- ===== src/Luimagen/Tests.antt =====
-- luimagen/: the generator's checks on the names and fields of the quickstart's tables.
use luima.Prelude.{
  ℕ, Bool, true, false, List, [], ◌∷◌, ◌≡◌, refl, ◌≢◌, arith, codes, All, has, text_eq, ◌++◌, some,
}
use luima.Luimagen.Runes.{
  to_lower, to_upper, fold, equal_fold, has_suffix, after_prefix, cut_prefix, drop_last,
}
use luima.Luimagen.Names.{
  takes_underscore, snake_from, snake_case, fold_id, lower_first, upper_first,
}
use luima.Luimagen.Quote.{
  hex_digit, hex2, hex4, escaped, is_print, escape, quote_rune, quote_runes, quote,
}
use luima.Luimagen.Checks.{
  ok, failed, not_identifier, has_underscore, not_exported, has_separator, unsupported, same_column,
  two_keys, only_key, keywords, is_letter, is_letter_or_digit, is_identifier, is_exported,
  check_ident, first_separator, check_tag, scalar_of, scalar_type,
}
use luima.Luimagen.Table.{
  Field, Column, ModelTable, user_of, column_name, place, field_column, add_field, add_fields,
  table_from_fields,
}
use luima.Luimagen.Table.Accepted.{IsTableOf, table_from_fields_iff}
use luima.Luimagen.Source.{sdl}
use luima.Luimagen.Source.Typed.{document_of}
use luima.Luimagen.Source.Closed.{sdl-IsTyped}
use luima.Luimagen.Graphql.{IsTyped, print_document}
use luima.Luimagen.Splice.{Edit, splice, splice_all, apply_edits}

-- No rune past ASCII is a letter, is a digit or prints.
abbrev nothing_wide : ℕ → Bool
nothing_wide _ = false

runs : Unit {0}
unfolding to_lower to_upper fold equal_fold has_suffix after_prefix cut_prefix drop_last
    takes_underscore snake_from snake_case fold_id lower_first upper_first hex_digit hex2 hex4
    escaped is_print escape quote_rune quote_runes quote keywords is_letter is_letter_or_digit
    is_identifier is_exported check_ident first_separator check_tag scalar_of scalar_type user_of
    column_name place field_column add_field add_fields table_from_fields has text_eq codes
runs = tt

snake_case-initialism : snake_case (codes "URLValue") ≡ codes "url_value"
unfolding runs
snake_case-initialism = refl

snake_case-capitals : snake_case (codes "URLID") ≡ codes "urlid"
unfolding runs
snake_case-capitals = refl

lower_first-id : lower_first (codes "PersonalID") ≡ codes "personalId"
unfolding runs
lower_first-id = refl

check_ident-small :
    check_ident nothing_wide nothing_wide (codes "name")
    ≡ failed (not_exported (codes "name") (codes "Name"))
unfolding runs
check_ident-small = refl

check_ident-underscore :
    check_ident nothing_wide nothing_wide (codes "Owner_Name")
    ≡ failed (has_underscore (codes "Owner_Name"))
unfolding runs
check_ident-underscore = refl

check_ident-hyphen :
    check_ident nothing_wide nothing_wide (codes "Owner-Name")
    ≡ failed (not_identifier (codes "Owner-Name"))
unfolding runs
check_ident-hyphen = refl

check_tag-schema : check_tag nothing_wide (codes "tenant.users") ≡ ok tt
unfolding runs
check_tag-schema = refl

check_tag-comma :
    check_tag nothing_wide (codes "pro,jects") ≡ failed (has_separator (codes "pro,jects") b',')
unfolding runs
check_tag-comma = refl

scalar_type-slice : scalar_type (codes "[]float64") ≡ ok (codes "Float", true)
unfolding runs
scalar_type-slice = refl

scalar_type-width :
    scalar_type (codes "int64") ≡ failed (unsupported (codes "int64") (codes "int64"))
unfolding runs
scalar_type-width = refl

abbrev personal_id : Field
personal_id = record { name = codes "PersonalID"; go_type = codes "string"; pk = true; column = [] }

abbrev projects : Field
projects = record { name = codes "Projects"; go_type = codes "[]string"; pk = false; column = [] }

abbrev url_value : Field
url_value = record { name = codes "URLValue"; go_type = codes "int"; pk = false; column = [] }

abbrev again : Field
again = record { name = codes "UrlValue"; go_type = codes "int"; pk = false; column = [] }

abbrev users : ModelTable
users = record {
  type_name = codes "User";
  pk = record {
    field = codes "PersonalID";
    go_type = codes "string";
    sql = codes "personal_id";
    gql = codes "String";
    array = false;
  };
  cols =
      record {
        field = codes "Projects";
        go_type = codes "[]string";
        sql = codes "projects";
        gql = codes "String";
        array = true;
      }
      ∷ [];
}

users_accepted :
    table_from_fields nothing_wide nothing_wide nothing_wide
      (codes "User")
      (projects ∷ (personal_id ∷ []))
    ≡ ok users
unfolding runs
users_accepted = refl

same_column_refused :
    table_from_fields nothing_wide nothing_wide nothing_wide
      (codes "User")
      (personal_id ∷ (url_value ∷ (again ∷ [])))
    ≡ failed (same_column (codes "URLValue") (codes "UrlValue") (codes "url_value"))
unfolding runs
same_column_refused = refl

-- Two stub bodies, given in the order of the targets; the sorted list is written out.
abbrev two_edits : List Edit
two_edits =
    record { start = 2; end = 3; text = codes "get" }
    ∷ (record { start = 6; end = 7; text = codes "list" } ∷ [])

abbrev from_back : List Edit → List Edit
from_back [] = []
from_back (e ∷ es) = from_back es ++ e ∷ []

two_spliced : apply_edits from_back two_edits (codes "a{x}b{y}") ≡ some (codes "a{get}b{list}")
unfolding apply_edits splice_all splice codes
two_spliced = refl

two_keys_refused :
    table_from_fields nothing_wide nothing_wide nothing_wide
      (codes "User")
      (personal_id ∷ (record url_value { pk = true } ∷ []))
    ≡ failed (two_keys (codes "User") (codes "PersonalID") (codes "URLValue"))
unfolding runs
two_keys_refused = refl

only_key_refused :
    table_from_fields nothing_wide nothing_wide nothing_wide (codes "User") (personal_id ∷ [])
    ≡ failed (only_key (codes "User"))
unfolding runs
only_key_refused = refl

table_from_fields_iff_example :
    (cs : List Column) × IsTableOf nothing_wide
      (codes "User")
      (projects ∷ (personal_id ∷ []))
      cs
      users
table_from_fields_iff_example =
    (table_from_fields_iff nothing_wide nothing_wide nothing_wide (codes "User")
        (projects ∷ (personal_id ∷ [])) users).0
      users_accepted

no_underscore : All (λ c. c ≢ b'_') (codes "URLValue")
unfolding codes
no_underscore = omega arith

not_nil : codes "URLValue" ≢ []
unfolding codes
not_nil e = cc

sdl-IsTyped_example :
    (sdl users true false ≡ print_document (document_of users true false))
    × All (IsTyped (document_of users true false)) (document_of users true false)
sdl-IsTyped_example =
    sdl-IsTyped nothing_wide nothing_wide nothing_wide (codes "User")
      (projects ∷ (personal_id ∷ [])) users true false users_accepted
