-- ===== src/Storage/Engine.antt =====
-- SQLite, as src/server/storage.c uses it. SQLite is not part of the repository: whether it prepares
-- a statement, whether a step fails, the order of the rows and the ids that it skips are parameters.
use mathlib.Core.List.{Perm}
use mo_t.Base.{ℕ, Bool, true, false, Option, none, some, List, [], take, if◌then◌else◌}
use mo_t.Storage.Tables.{Db}
use mo_t.Storage.Statements.{Update, Query, exec}

pub record Sqlite : Type 1 where
  -- sqlite3_prepare_v2 returns SQLITE_OK.
  pub update_prepares : Update → Db → Bool
  pub query_prepares : Query → Db → Bool
  -- sqlite3_step meets no I/O error, lock or full disk.
  pub update_runs : Update → Db → Bool
  -- After how many rows sqlite3_step fails, if it does.
  pub interrupted : Query → Db → Option ℕ
  -- The ids that AUTOINCREMENT skips.
  pub skipped : Update → Db → ℕ
  -- The order of the rows, where the statement does not fix it.
  pub arrange : (A : Type 0) → Query → Db → List A → List A
  pub arrange-perm :
      (A : Type 0) (q : Query) (db : Db) (rows : List A) → Perm (arrange A q db rows) rows

module _ (sqlite : Sqlite) where
  open sqlite use {
    update_prepares, query_prepares, update_runs, interrupted, skipped, arrange, arrange-perm,
  }

  -- sqlite3_step of a prepared statement: the tables after it, and whether it returns SQLITE_DONE.
  unfoldable pub step : Update → Db → Db × Bool
  step u db = elim (if update_runs u db then exec (skipped u db) u db else none) [
    | none ↦ (db, false)
    | some db' ↦ (db', true)
  ]

  -- Prepare, bind, step and finalize: whether it was prepared, and SQLITE_DONE.
  unfoldable pub perform : Update → Db → Db × Bool × Bool
  perform u db =
      if update_prepares u db
      then (let (db', done) = step u db in (db', true, done))
      else (db, false, false)

  -- The rows that repeated calls of sqlite3_step deliver; `finish` is the statement's ORDER BY and
  -- LIMIT. Where the statement is not prepared there are none, and every reader of the file then
  -- takes the way that it takes on an empty result.
  unfoldable pub fetch_by : {A : Type 0} → (List A → List A) → Query → Db → List A → List A
  fetch_by {A} finish q db rows =
      if query_prepares q db
      then elim (interrupted q db) [
        | none ↦ finish (arrange A q db rows)
        | some n ↦ take n (finish (arrange A q db rows))
      ]
      else []

  unfoldable pub fetch : {A : Type 0} → Query → Db → List A → List A
  unfolding fetch_by
  fetch = fetch_by (λ rows. rows)
