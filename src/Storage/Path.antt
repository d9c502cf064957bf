-- ===== src/Storage/Path.antt =====
-- The statements that a function of src/server/storage.c issues, as a path of databases: each step
-- is a statement that went through, and that an owner-given predicate allows.
pub mod Operations
use mo_t.Base.{
  ℕ, ◌≡◌, refl, Bool, true, false, Option, none, some, if◌then◌else◌, Option-cases, Bool-cases, inl,
  inr, Holds, arith,
}
use mo_t.Storage.Tables.{Db}
use mo_t.Storage.Statements.{Update, exec}
use mo_t.Storage.Engine.{Sqlite, step, perform}

pub data DbPath (Allowed : Update → Type 0) (db : Db) : Db → Type 0 where
  here : DbPath Allowed db db
  next :
      {d e : Db} (u : Update) (skipped : ℕ)
      → DbPath Allowed db d
      → Allowed u
      → exec skipped u d ≡ some e
      → DbPath Allowed db e

module _ {Allowed : Update → Type 0} where
  pub DbPath-trans : {a b c : Db} → DbPath Allowed a b → DbPath Allowed b c → DbPath Allowed a c
  DbPath-trans p here = p
  DbPath-trans p (next u skipped q ok e) = next u skipped (DbPath-trans p q) ok e

  -- What every allowed statement keeps holds at the end, if it holds at the start.
  pub DbPath-keeps :
      (P : Db → Type 0)
      → ((skipped : ℕ) (u : Update) (d : Db) → Allowed u → P d → Holds P (exec skipped u d))
      → {a b : Db} → DbPath Allowed a b
      → P a
      → P b
  DbPath-keeps P keep here h = h
  DbPath-keeps P keep (next u skipped p ok e) h =
      rw e at (keep skipped u _ ok (DbPath-keeps P keep p h))

-- A larger predicate allows as much.
pub DbPath-weaken :
    {A B : Update → Type 0} → ((u : Update) → A u → B u) → {a b : Db} → DbPath A a b → DbPath B a b
DbPath-weaken f here = here
DbPath-weaken f (next u skipped p ok e) = next u skipped (DbPath-weaken f p) (f u ok) e

module _ (sqlite : Sqlite) (Allowed : Update → Type 0) where
  step-DbPath : (u : Update) (db : Db) → Allowed u → DbPath Allowed db (step sqlite u db).0
  unfolding step
  step-DbPath u db ok =
      elim (Option-cases
        (if sqlite.update_runs u db then exec (sqlite.skipped u db) u db else none)) [
          | inl e ↦ rw (e, step) here
          | inr (d, e) ↦ rw (e, step) (next u (sqlite.skipped u db) here ok (ground arith))
        ]

  pub perform-DbPath :
      (u : Update) (db : Db) → Allowed u → DbPath Allowed db (perform sqlite u db).0
  unfolding perform
  perform-DbPath u db ok = elim (Bool-cases (sqlite.update_prepares u db)) [
    | inl e ↦ rw e (step-DbPath u db ok)
    | inr e ↦ rw e here
  ]

module _ (sqlite : Sqlite) where
  step_done :
      (u : Update) (db : Db)
      → (step sqlite u db).1 ≡ true
      → exec (sqlite.skipped u db) u db ≡ some (step sqlite u db).0
  unfolding step
  step_done u db h = ground arith

  -- SQLITE_DONE says that the statement went through.
  pub perform_done :
      (u : Update) (db : Db)
      → (perform sqlite u db).2 ≡ true
      → exec (sqlite.skipped u db) u db ≡ some (perform sqlite u db).0
  unfolding perform
  perform_done u db h = elim (Bool-cases (sqlite.update_prepares u db)) [
    | inl e ↦ rw e (step_done u db (rw e at h))
    | inr e ↦ cc (rw e at h)
  ]
