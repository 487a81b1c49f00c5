-- ===== src/Sql/Transactions.antt =====
-- db.go, DB.Begin, and Rollback and Commit of database/sql. The statements of a transaction stand
-- with the repository that runs them.
use flynn_controller.Prelude.{◌≡◌, Bool, true, false}

-- a true flag is an error
pub record Transaction (W : Type 0) : Type 0 where
  pub begin : W → Bool × W
  pub rollback : W → W
  pub commit : W → Bool × W

-- What Postgres documents of a transaction that no other one disturbs: it works on what was
-- committed before, and only a COMMIT that succeeds commits what it did.
pub record IsTransaction {W D : Type 0} (tx : Transaction W) (committed working : W → D)
    : Type 0 where
  pub begin_keeps : (w : W) → committed (tx.begin w).1 ≡ committed w
  pub begin_copies : (w after : W) → tx.begin w ≡ (false, after) → working after ≡ committed w
  pub rollback_keeps : (w : W) → committed (tx.rollback w) ≡ committed w
  pub commit_publishes : (w after : W) → tx.commit w ≡ (false, after) → committed after ≡ working w
  pub commit_fails : (w after : W) → tx.commit w ≡ (true, after) → committed after ≡ committed w
