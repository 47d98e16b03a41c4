-- ===== src/Db/Cursors.antt =====
-- crates/cloudsync-db/src/sync_cursors.rs: the table of change cursors, one row for an account.
pub mod RoundTrip
pub mod Tests
use uni_cloud_file_sync_thin.Prelude.{
  Text, ℕ, Bool, true, false, Option, none, some, ltb, dec_text, ite, Result, ok, err,
}
use uni_cloud_file_sync_thin.Db.Error.{DbError}
use uni_cloud_file_sync_thin.Db.Sqlite.{SqlError, Table}

pub record CursorRow : Type 0 where
  pub account_id : Text
  pub cursor : Text
  pub updated_at : ℕ

unfoldable pub by_account_id : Text → CursorRow → Bool
unfolding dec_text
by_account_id account_id row = ite (dec_text row.account_id account_id) true false

-- `account_id TEXT PRIMARY KEY NOT NULL`
unfoldable pub clash : CursorRow → CursorRow → Bool
unfolding by_account_id
clash a b = by_account_id b.account_id a

module _ {Conn : Type 0} (table : Table clash Conn) where
  unfoldable pub upserted : Result SqlError (Unit {0}) × Conn → Result DbError (Unit {0}) × Conn
  upserted (ok _, conn) = (ok tt, conn)
  upserted (err e, conn) = (err (DbError.sqlite e), conn)

  unfoldable pub updated : Result SqlError ℕ × Conn → Result DbError (Unit {0}) × Conn
  updated (ok n, conn) = (ok tt, conn)
  updated (err e, conn) = (err (DbError.sqlite e), conn)

  unfoldable pub upsert_at :
      ℕ → Text → Text → Conn → Result SqlError (Option CursorRow) → Result DbError (Unit {0}) × Conn
  unfolding upserted updated by_account_id
  upsert_at now account_id cursor conn (ok none) =
      upserted
        (table.insert (record { account_id = account_id; cursor = cursor; updated_at = now }) conn)
  upsert_at now account_id cursor conn (ok (some row)) = updated (
      table.update (by_account_id account_id) (λ r. record r { cursor = cursor; updated_at = now })
        conn)
  upsert_at now account_id cursor conn (err e) = (err (DbError.sqlite e), conn)

  -- `upsert_cursor`, at the given instant: `INSERT … ON CONFLICT DO UPDATE` is an update where there
  -- is a row, and else an insertion.
  unfoldable pub upsert_cursor : ℕ → Text → Text → Conn → Result DbError (Unit {0}) × Conn
  unfolding upsert_at by_account_id
  upsert_cursor now account_id cursor conn =
      upsert_at now account_id cursor conn (table.query_row (by_account_id account_id) conn)

  read_cursor : Result SqlError (Option CursorRow) → Result DbError (Option Text)
  read_cursor (ok none) = ok none
  read_cursor (ok (some row)) = ok (some row.cursor)
  read_cursor (err e) = err (DbError.sqlite e)

  -- `get_cursor`
  unfoldable pub get_cursor : Text → Conn → Result DbError (Option Text)
  unfolding read_cursor by_account_id
  get_cursor account_id conn = read_cursor (table.query_row (by_account_id account_id) conn)

  deleted : Result SqlError ℕ × Conn → Result DbError Bool × Conn
  deleted (ok n, conn) = (ok (ltb 0 n), conn)
  deleted (err e, conn) = (err (DbError.sqlite e), conn)

  -- `delete_cursor`
  unfoldable pub delete_cursor : Text → Conn → Result DbError Bool × Conn
  unfolding deleted by_account_id
  delete_cursor account_id conn = deleted (table.delete (by_account_id account_id) conn)
