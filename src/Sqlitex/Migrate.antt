-- ===== src/Sqlitex/Migrate.antt =====
-- sqlitex/migrate.go: MigrateContext and applyStep. A database is its PRAGMA user_version and its
-- contents `W`; what database/sql and a step answer at a run is the script `Trouble`, and an error
-- is a value of `E`. SQLite's transactions are taken as documented: what a transaction wrote is
-- there once its Commit succeeded, and gone where it did not. A crash of the process is an answer
-- too. One migrator runs at a time, as the package demands.
pub mod Versions
pub mod History
use neokit.Base.{
  ℕ, suc, ℤ, pos, negsuc, ltb, Option, none, some, List, [], ◌∷◌, String, if◌then◌else◌, length,
  drop,
}

pub record Db (W : Type 0) : Type 0 where
  pub version : ℤ
  pub contents : W

-- What a step's Up does where it succeeds; none is a nil Up.
pub record Migration (W : Type 0) : Type 0 where
  pub name : String
  pub up : Option (W → W)

-- How one step goes. A failing Up may have written to the transaction before.
pub data Trouble (W E : Type 0) : Type 0 where
  smooth : Trouble W E
  begin_fails : E → Trouble W E
  up_fails : W → E → Trouble W E
  stamp_fails : E → Trouble W E
  commit_fails : E → Trouble W E
  crash_before_commit crash_after_commit : Trouble W E

pub data StepError (E : Type 0) : Type 0 where
  nil_up : StepError E
  begin_error up_error stamp_error commit_error : E → StepError E

pub data StepResult (E : Type 0) : Type 0 where
  applied : StepResult E
  step_failed : StepError E → StepResult E
  step_crashed : StepResult E

pub data Result (E : Type 0) : Type 0 where
  done : Result E
  read_failed : E → Result E
  from_the_future : Result E
  failed : ℕ → StepError E → Result E
  crashed : Result E
  index_panic : Result E

-- The stamp of the step with the index `i`, inside its transaction.
abbrev pub stamp : {W : Type 0} → ℕ → Db W → Db W
stamp i tx = record tx { version = pos (suc i) }

module _ {W E : Type 0} where
  -- applyStep: the transaction works on a copy, which Commit makes the database.
  unfoldable pub apply_step : Trouble W E → ℕ → Migration W → Db W → Db W × StepResult E
  apply_step trouble i m db = elim m.up [
    | none ↦ (db, step_failed nil_up)
    | some up ↦
        let tx : Db W = record db { contents = up db.contents } in
        elim trouble [
          | begin_fails e ↦ (db, step_failed (begin_error e))
          | up_fails w e ↦ (db, step_failed (up_error e))
          | stamp_fails e ↦ (db, step_failed (stamp_error e))
          | commit_fails e ↦ (db, step_failed (commit_error e))
          | crash_before_commit ↦ (db, step_crashed)
          | crash_after_commit ↦ (stamp i tx, step_crashed)
          | smooth ↦ (stamp i tx, applied)
        ]
  ]

  -- The loop of MigrateContext, from the index `i` on.
  unfoldable pub apply_steps : (ℕ → Trouble W E) → ℕ → List (Migration W) → Db W → Db W × Result E
  apply_steps t i [] db = (db, done)
  apply_steps t i (m ∷ ms) db =
      let (db', r) = apply_step (t i) i m db in
      let rest = apply_steps t (suc i) ms db' in
      elim r [ applied ↦ rest | step_failed e ↦ (db', failed i e) | step_crashed ↦ (db', crashed) ]

  -- MigrateContext; `reads` is the error of the read of user_version. A negative version is an
  -- index that no slice has.
  unfoldable pub migrate :
      Option E → (ℕ → Trouble W E) → List (Migration W) → Db W → Db W × Result E
  migrate (some e) t ms db = (db, read_failed e)
  migrate none t ms db = elim db.version [
    | negsuc n ↦ (db, index_panic)
    | pos v ↦ if ltb (length ms) v then (db, from_the_future) else apply_steps t v (drop v ms) db
  ]
