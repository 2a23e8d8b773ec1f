-- ===== src/Crud/Memory.antt =====
-- A table in memory, whose rows are models by a key that is a text, to run the helpers on.
use luima.Prelude.{ℕ, [], ◌∷◌, Option, none, some, ◌≡◌, refl, ap, Text, codes, text_eq, text_eq_iff}
use luima.Prelude.Int.{pos}
use luima.Luimaerr.Errors.{GoError, driver, no_rows, wrap, sql_state, as_type, driver_field}
use luima.Luimaerr.Chain.{here, of_wrap}
use luima.Crud.{Result, ok, err, Bun}
use luima.Crud.Outcomes.{unique_violation}
use luima.Crud.Keyed.{Keyed, set_at}

abbrev pub missing : GoError
missing = wrap (codes "scan") no_rows

abbrev pub duplicate : GoError
duplicate = driver ((b'C', codes "23505") ∷ [])

pub duplicate_state : sql_state duplicate ≡ unique_violation
unfolding sql_state as_type driver_field
duplicate_state = refl

module _ {T : Type 0} (key : T → Text) (blank : T) where
  abbrev pub Memory : Type 0
  Memory = Text → Option T

  abbrev pub put : Text → Option T → Memory → Memory
  put k entry db = set_at text_eq k entry db

  abbrev pub found : Option T → Result T
  found none = err missing
  found (some row) = ok row

  abbrev pub inserted : T → Memory → Option T → Memory × Result (ℕ × T)
  inserted m db none = (put (key m) (some m) db, ok (1, m))
  inserted m db (some row) = (db, err duplicate)

  abbrev pub rewritten : T → Memory → Option T → Memory × Result (ℕ × T)
  rewritten m db none = (db, ok (0, m))
  rewritten m db (some row) = (put (key m) (some m) db, ok (1, m))

  abbrev pub removed : T → Memory → Option T → Memory × Result ℕ
  removed m db none = (db, ok 0)
  removed m db (some row) = (put (key m) none db, ok 1)

  abbrev pub memory : Bun T
  memory = record {
    Database = Memory;
    SelectQuery = T;
    InsertQuery = T;
    UpdateQuery = T;
    DeleteQuery = T;
    SqlResult = ℕ;
    select_model = λ m. m;
    select_models = λ ms. blank;
    select_where_pk = λ q. q;
    insert_model = λ m. m;
    insert_returning = λ t q. q;
    update_model = λ m. m;
    update_where_pk = λ q. q;
    update_returning = λ t q. q;
    delete_model = λ m. m;
    delete_where_pk = λ q. q;
    scan_model = λ q m db. (db, found (db (key q)));
    scan_models = λ q s db. (db, ok s);
    exec_insert = λ q m db. inserted q db (db (key q));
    exec_update = λ q m db. rewritten q db (db (key q));
    exec_delete = λ q db. removed q db (db (key q));
    rows_affected = λ n. ok (pos n);
  }

  abbrev pub table : Keyed memory
  table = record {
    K = Text;
    key = key;
    same = text_eq;
    same_iff = text_eq_iff;
    rows = λ db. db;
    stored = λ m. m;
    selects = λ m row db e. (refl, ap found e);
    selects_none = λ m db e. (refl, (missing, ap found e, of_wrap here));
    inserts =
        λ m db e. (ap (λ o. (inserted m db o).0) e, (1, ap (λ o. (inserted m db o).1) e, refl));
    inserts_none = λ m row db e. (
      ap (λ o. (inserted m db o).0) e,
      (duplicate, ap (λ o. (inserted m db o).1) e, duplicate_state),
    );
    updates = λ m row db e.
        (ap (λ o. (rewritten m db o).0) e, (1, ap (λ o. (rewritten m db o).1) e, refl));
    updates_none = λ m db e.
        (ap (λ o. (rewritten m db o).0) e, (0, m, ap (λ o. (rewritten m db o).1) e, refl));
    deletes =
        λ m row db e. (ap (λ o. (removed m db o).0) e, (1, ap (λ o. (removed m db o).1) e, refl));
    deletes_none =
        λ m db e. (ap (λ o. (removed m db o).0) e, (0, ap (λ o. (removed m db o).1) e, refl));
  }
