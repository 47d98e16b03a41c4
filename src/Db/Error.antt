-- ===== src/Db/Error.antt =====
-- crates/cloudsync-db/src/error.rs.
use uni_cloud_file_sync_thin.Prelude.{Text}
use uni_cloud_file_sync_thin.Db.Sqlite.{SqlError}

pub data DbError : Type 0 where
  not_found : Text → DbError
  conflict : Text → DbError
  query : Text → DbError
  sqlite : SqlError → DbError
  migration : Text → DbError
