-- ===== src/Crud/Tests.antt =====
-- The helpers over a table in memory, and each of their theorems there.
use luima.Prelude.{
  ℕ, zero, suc, Bool, true, false, Bool-cases, List, [], ◌∷◌, none, some, refl, inl, inr, Text,
  codes, ◌==◌, ◌||◌, if◌then◌else◌,
}
use luima.Prelude.Int.{pos}
use luima.Luimaerr.Errors.{GoError, driver, no_rows, wrap}
use luima.Luimaerr.Context.{Context}
use luima.Luimaerr.Chain.{here, of_wrap}
use luima.Crud.{Result, ok, err, Slice, slice, Bun}
use luima.Crud.Disclosure.{IsPlain, IsPlainResult, PlainBun, AreDiscreet, helpers-AreDiscreet}

abbrev stored : ℕ → List ℕ → Bool
stored k [] = false
stored k (x ∷ xs) = x == k || stored k xs

abbrev violation : Text → GoError
violation state = driver ((b'C', state) ∷ [])

-- Rows are their keys; a row 0 breaks a check constraint.
abbrev insert_row : ℕ → List ℕ → List ℕ × Result (ℕ × ℕ)
insert_row zero db = (db, err (violation (codes "23514")))
insert_row (suc k) db =
    if stored (suc k) db
    then (db, err (violation (codes "23505")))
    else ((suc k) ∷ db, ok (1, suc k))

abbrev rows_slice : List ℕ → Slice ℕ → Slice ℕ
rows_slice [] s = s
rows_slice (x ∷ xs) s = slice (x ∷ xs)

abbrev memory : Bun ℕ
memory = record {
  Database = List ℕ;
  SelectQuery = ℕ;
  InsertQuery = ℕ;
  UpdateQuery = ℕ;
  DeleteQuery = ℕ;
  SqlResult = ℕ;
  select_model = λ k. k;
  select_models = λ ks. 0;
  select_where_pk = λ q. q;
  insert_model = λ k. k;
  insert_returning = λ t q. q;
  update_model = λ k. k;
  update_where_pk = λ q. q;
  update_returning = λ t q. q;
  delete_model = λ k. k;
  delete_where_pk = λ q. q;
  scan_model = λ q k db. (db, (if stored q db then ok k else err (wrap (codes "scan") no_rows)));
  scan_models = λ q s db. (db, ok (rows_slice db s));
  exec_insert = λ q k db. insert_row q db;
  exec_update = λ q k db. (db, ok ((if stored q db then 1 else 0), k));
  exec_delete = λ q db. (db, ok (if stored q db then 1 else 0));
  rows_affected = λ n. ok (pos n);
}

abbrev resolving : Context
resolving = record { path = []; field = some none }

violation-IsPlain : (state : Text) → IsPlain (violation state)
violation-IsPlain state x here = refl

missing-IsPlain : IsPlain (wrap (codes "scan") no_rows)
missing-IsPlain x here = refl
missing-IsPlain x (of_wrap here) = refl

plain_either :
    {A : Type 0} (b : Bool) (r s : Result A)
    → IsPlainResult r
    → IsPlainResult s
    → IsPlainResult (if b then r else s)
plain_either true r s h k = h
plain_either false r s h k = k

plain_insert : (q m : ℕ) (db : List ℕ) → IsPlainResult (memory.exec_insert q m db).1
plain_insert zero m db = violation-IsPlain (codes "23514")
plain_insert (suc q) m db = elim (Bool-cases (stored (suc q) db)) [
  | inl e ↦ rw (e, IsPlainResult) (violation-IsPlain (codes "23505"))
  | inr e ↦ rw (e, IsPlainResult) tt
]

memory-PlainBun : PlainBun memory
memory-PlainBun = record {
  scan_model = λ q m db.
      plain_either (stored q db) (ok m) (err (wrap (codes "scan") no_rows)) tt missing-IsPlain;
  scan_models = λ q s db. tt;
  exec_insert = plain_insert;
  exec_update = λ q m db. tt;
  exec_delete = λ q db. tt;
  rows_affected = λ res. tt;
}

helpers-AreDiscreet_example : AreDiscreet memory resolving (7 ∷ []) 7 7 (codes "user 7") [] [] [] []
helpers-AreDiscreet_example =
    helpers-AreDiscreet memory resolving (7 ∷ []) 7 7 (codes "user 7") [] [] [] [] (cc)
      memory-PlainBun
