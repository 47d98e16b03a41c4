-- ===== src/Db/Migrations.antt =====
-- crates/cloudsync-db/src/migrations.rs: the migrator. Versions count from 1 upwards, as its doc
-- asks for, and a new database has version 0.
pub mod Versions
pub mod Outcomes
pub mod Tests
use uni_cloud_file_sync_thin.Prelude.{
  Text, ℕ, Bool, true, false, List, [], ◌∷◌, keep, ltb, not, Result, ok, err, ◌≡◌,
}
use uni_cloud_file_sync_thin.Db.Error.{DbError}
use uni_cloud_file_sync_thin.Db.Sqlite.{SqlError}

pub record Migration : Type 0 where
  pub version : ℕ
  pub description : Text
  pub sql : Text

-- The schema of a database behind a connection, and a transaction on it. A transaction that is
-- dropped is rolled back; `version` and `tx_version` are what the pragma `user_version` is there.
pub record Schema (Conn Tx : Type 0) : Type 0 where
  pub version : Conn → ℕ
  pub tx_version : Tx → ℕ
  pub rollback : Tx → Conn
  pub user_version : Conn → Result SqlError ℕ
  pub begin : Conn → Result SqlError Tx
  pub execute_batch : Text → Tx → Result SqlError (Unit {0}) × Tx
  pub set_user_version : ℕ → Tx → Result SqlError (Unit {0}) × Tx
  -- The connection after the commit, or after a commit that fails.
  pub commit : Tx → Result SqlError (Unit {0}) × Conn

module _ {Conn Tx : Type 0} (schema : Schema Conn Tx) (migrations : List Migration) where
  versioned : Result SqlError ℕ → Result DbError ℕ
  versioned (ok version) = ok version
  versioned (err e) = err (DbError.sqlite e)

  -- `Migrator::current_version`
  unfoldable pub current_version : Conn → Result DbError ℕ
  unfolding versioned
  current_version conn = versioned (schema.user_version conn)

  -- The filter of `pending_migrations`.
  unfoldable pub after_version : ℕ → List Migration
  unfolding keep
  after_version current = keep (λ m. ltb current m.version) migrations

  pending_after : Result DbError ℕ → Result DbError (List Migration)
  unfolding after_version
  pending_after (ok current) = ok (after_version current)
  pending_after (err e) = err e

  -- `Migrator::pending_migrations`
  unfoldable pub pending_migrations : Conn → Result DbError (List Migration)
  unfolding pending_after current_version
  pending_migrations conn = pending_after (current_version conn)

  some_pending : Result DbError (List Migration) → Result DbError Bool
  some_pending (ok []) = ok false
  some_pending (ok (m ∷ ms)) = ok true
  some_pending (err e) = err e

  -- `Migrator::has_pending_migrations`
  unfoldable pub has_pending_migrations : Conn → Result DbError Bool
  unfolding some_pending pending_migrations
  has_pending_migrations conn = some_pending (pending_migrations conn)

  -- `?` in the loop, and the rest of it.
  and_then :
      (Tx → Result SqlError (Unit {0}) × Tx)
      → Result SqlError (Unit {0}) × Tx
      → Result SqlError (Unit {0}) × Tx
  and_then next (ok _, tx) = next tx
  and_then next (err e, tx) = (err e, tx)

  -- `for migration in pending`
  unfoldable pub apply_all : List Migration → Tx → Result SqlError (Unit {0}) × Tx
  unfolding and_then
  apply_all [] tx = (ok tt, tx)
  apply_all (m ∷ ms) tx =
      and_then (λ t. and_then (apply_all ms) (schema.set_user_version m.version t))
        (schema.execute_batch m.sql tx)

  committed : Result SqlError (Unit {0}) × Conn → Result DbError ℕ × Conn
  unfolding current_version
  committed (ok _, conn) = (current_version conn, conn)
  committed (err e, conn) = (err (DbError.sqlite e), conn)

  applied : Result SqlError (Unit {0}) × Tx → Result DbError ℕ × Conn
  unfolding committed
  applied (ok _, tx) = committed (schema.commit tx)
  applied (err e, tx) = (err (DbError.sqlite e), schema.rollback tx)

  begun : List Migration → Conn → Result SqlError Tx → Result DbError ℕ × Conn
  unfolding applied apply_all
  begun pending conn (ok tx) = applied (apply_all pending tx)
  begun pending conn (err e) = (err (DbError.sqlite e), conn)

  with_pending : ℕ → Conn → Result DbError (List Migration) → Result DbError ℕ × Conn
  unfolding begun
  with_pending current conn (ok []) = (ok current, conn)
  with_pending current conn (ok (m ∷ ms)) = begun (m ∷ ms) conn (schema.begin conn)
  with_pending current conn (err e) = (err e, conn)

  with_current : Conn → Result DbError ℕ → Result DbError ℕ × Conn
  unfolding with_pending pending_migrations
  with_current conn (ok current) = with_pending current conn (pending_migrations conn)
  with_current conn (err e) = (err e, conn)

  -- `Migrator::migrate`
  unfoldable pub migrate : Conn → Result DbError ℕ × Conn
  unfolding with_current current_version
  migrate conn = with_current conn (current_version conn)
