-- ===== src/Db/Files.antt =====
-- crates/cloudsync-db/src/files.rs: the table of files. A column of a time holds whole seconds,
-- here counted from the earliest instant of chrono, as instants are; a size is the 64 bits of a
-- `u64`, which the column holds as an `i64`. The instants are those of chrono's range, in which
-- `from_timestamp` has a value.
pub mod Rows
pub mod Updates
pub mod Selection
pub mod Listing
use uni_cloud_file_sync_thin.Prelude.{
  Text, text, ℕ, ◌*◌, ◌/◌, ◌^◌, Bool, true, false, Option, none, some, List, [], ◌∷◌, leb_text,
  ◌==◌, ◌&&◌, ltb, not, ite, dec_text, if◌then◌else◌, Result, ok, err,
}
use mathlib.Core.Option
use uni_cloud_file_sync_thin.Core.CloudPath.{CloudPath}
use uni_cloud_file_sync_thin.Core.CloudPath
use uni_cloud_file_sync_thin.Core.FileState.{FileState}
use uni_cloud_file_sync_thin.Core.Types.{AccountId, FileId, DateTime}
use uni_cloud_file_sync_thin.Db.Error.{DbError}
use uni_cloud_file_sync_thin.Db.Sqlite.{SqlError, constraint_violation, failure, Table}

pub record File : Type 0 where
  pub id : ℕ
  pub account_id : AccountId
  pub provider_file_id : FileId
  pub path : CloudPath
  pub name : Text
  pub size : Option ℕ
  pub content_hash : Option Text
  pub is_folder : Bool
  pub state : FileState
  pub modified_at : DateTime
  pub synced_at : Option DateTime
  pub created_at : DateTime
  pub updated_at : DateTime

-- The columns of `FILES_MIGRATION`.
pub record FileRow : Type 0 where
  pub id : ℕ
  pub account_id : Text
  pub provider_file_id : Text
  pub path : Text
  pub name : Text
  pub size : Option ℕ
  pub content_hash : Option Text
  pub is_folder : ℕ
  pub state : Text
  pub modified_at : ℕ
  pub synced_at : Option ℕ
  pub created_at : ℕ
  pub updated_at : ℕ

-- `File::new`, at the given instant.
unfoldable pub new :
    AccountId
    → FileId
    → CloudPath
    → Text
    → Option ℕ
    → Option Text
    → Bool
    → DateTime
    → DateTime
    → File
new account_id provider_file_id path name size content_hash is_folder modified_at now = record {
  id = 0;
  account_id = account_id;
  provider_file_id = provider_file_id;
  path = path;
  name = name;
  size = size;
  content_hash = content_hash;
  is_folder = is_folder;
  state = FileState.pending;
  modified_at = modified_at;
  synced_at = none;
  created_at = now;
  updated_at = now;
}

-- `DateTime::timestamp` and `DateTime::from_timestamp(_, 0)`
abbrev pub timestamp : DateTime → ℕ
timestamp instant = instant / 1000000000

abbrev pub from_timestamp : ℕ → DateTime
from_timestamp seconds = seconds * 1000000000

-- The names of the states in the column.
unfoldable pub state_name : FileState → Text
state_name FileState.synced = text "synced"
state_name FileState.cloud_only = text "cloud_only"
state_name FileState.syncing = text "syncing"
state_name FileState.pending = text "pending"
state_name FileState.error = text "error"
state_name FileState.excluded = text "excluded"
state_name FileState.offline_modified = text "offline_modified"
state_name FileState.conflict = text "conflict"

-- The `match` on the column of the state.
unfoldable pub parse_state : Text → Option FileState
unfolding dec_text
parse_state name = ite (dec_text name (text "synced")) (some FileState.synced) (
    ite (dec_text name (text "cloud_only")) (some FileState.cloud_only) (
      ite (dec_text name (text "syncing")) (some FileState.syncing) (
        ite (dec_text name (text "pending")) (some FileState.pending) (
          ite (dec_text name (text "error")) (some FileState.error) (
            ite (dec_text name (text "excluded")) (some FileState.excluded) (
              ite (dec_text name (text "offline_modified")) (some FileState.offline_modified)
                (ite (dec_text name (text "conflict")) (some FileState.conflict) none)))))))

-- What is written of a file, with the identifier of its row.
unfoldable pub to_row : ℕ → File → FileRow
unfolding state_name
to_row id file = record {
  id = id;
  account_id = file.account_id;
  provider_file_id = file.provider_file_id;
  path = file.path;
  name = file.name;
  size = file.size;
  content_hash = file.content_hash;
  is_folder = if file.is_folder then 1 else 0;
  state = state_name file.state;
  modified_at = timestamp file.modified_at;
  synced_at = Option.map timestamp file.synced_at;
  created_at = timestamp file.created_at;
  updated_at = timestamp file.updated_at;
}

unfoldable pub file_of : FileRow → Option FileState → Result SqlError File
file_of row none = err (failure (text "Query is not read-only"))
file_of row (some state) = ok record {
  id = row.id;
  account_id = row.account_id;
  provider_file_id = row.provider_file_id;
  path = CloudPath.new row.path;
  name = row.name;
  size = row.size;
  content_hash = row.content_hash;
  is_folder = not (row.is_folder == 0);
  state = state;
  modified_at = from_timestamp row.modified_at;
  synced_at = Option.map from_timestamp row.synced_at;
  created_at = from_timestamp row.created_at;
  updated_at = from_timestamp row.updated_at;
}

-- `File::from_row`. `InvalidQuery` is the error for a state that has no name.
unfoldable pub from_row : FileRow → Result SqlError File
unfolding file_of parse_state CloudPath.new
from_row row = file_of row (parse_state row.state)

-- The conditions of the statements.
unfoldable pub by_id : ℕ → FileRow → Bool
by_id id row = row.id == id

unfoldable pub by_provider_id : AccountId → FileId → FileRow → Bool
unfolding dec_text
by_provider_id account_id provider_file_id row =
    ite (dec_text row.account_id account_id) true false
    && ite (dec_text row.provider_file_id provider_file_id) true false

unfoldable pub by_cloud_path : AccountId → CloudPath → FileRow → Bool
unfolding dec_text
by_cloud_path account_id cloud_path row =
    ite (dec_text row.account_id account_id) true false
    && ite (dec_text row.path cloud_path) true false

-- `id INTEGER PRIMARY KEY` and `UNIQUE(account_id, provider_file_id)`
unfoldable pub clash : FileRow → FileRow → Bool
unfolding by_provider_id by_id
clash a b = if by_id a.id b then true else by_provider_id a.account_id a.provider_file_id b

-- The columns that `update_file` sets: all but the identifier and the time of creation.
unfoldable pub set_columns : FileRow → FileRow → FileRow
set_columns new_row row = record new_row { id = row.id; created_at = row.created_at }

-- `assigned` is the identifier that SQLite gives to the next row that is inserted.
module _ {Conn : Type 0} (table : Table clash Conn) (assigned : Conn → ℕ) where
  unfoldable pub created : ℕ → Result SqlError (Unit {0}) × Conn → Result DbError ℕ × Conn
  created id (ok _, conn) = (ok id, conn)
  created id (err constraint_violation, conn) = (
    err (DbError.conflict (text "File with this account and provider_file_id already exists")),
    conn,
  )
  created id (err (failure message), conn) = (err (DbError.sqlite (failure message)), conn)

  -- `create_file`
  unfoldable pub create_file : File → Conn → Result DbError ℕ × Conn
  unfolding created to_row
  create_file file conn = created (assigned conn) (table.insert (to_row (assigned conn) file) conn)

module _ {Conn : Type 0} (table : Table clash Conn) where
  read_file : Result SqlError File → Result DbError (Option File)
  read_file (ok file) = ok (some file)
  read_file (err e) = err (DbError.sqlite e)

  unfoldable pub read_row : Result SqlError (Option FileRow) → Result DbError (Option File)
  unfolding read_file from_row
  read_row (ok none) = ok none
  read_row (ok (some row)) = read_file (from_row row)
  read_row (err e) = err (DbError.sqlite e)

  -- `get_file_by_id`
  unfoldable pub get_file_by_id : ℕ → Conn → Result DbError (Option File)
  unfolding read_row by_id
  get_file_by_id id conn = read_row (table.query_row (by_id id) conn)

  -- `get_file_by_provider_id`
  unfoldable pub get_file_by_provider_id : AccountId → FileId → Conn → Result DbError (Option File)
  unfolding read_row by_provider_id
  get_file_by_provider_id account_id provider_file_id conn =
      read_row (table.query_row (by_provider_id account_id provider_file_id) conn)

  -- `get_file_by_cloud_path`
  unfoldable pub get_file_by_cloud_path :
      AccountId → CloudPath → Conn → Result DbError (Option File)
  unfolding read_row by_cloud_path
  get_file_by_cloud_path account_id cloud_path conn =
      read_row (table.query_row (by_cloud_path account_id cloud_path) conn)

  -- `rows_affected > 0`
  unfoldable pub affected : Result SqlError ℕ × Conn → Result DbError Bool × Conn
  affected (ok n, conn) = (ok (ltb 0 n), conn)
  affected (err e, conn) = (err (DbError.sqlite e), conn)

  -- `update_file`, at the given instant.
  unfoldable pub update_file : DateTime → File → Conn → Result DbError Bool × Conn
  unfolding affected to_row by_id set_columns
  update_file now file conn = affected (
      table.update (by_id file.id) (set_columns (to_row file.id (record file { updated_at = now })))
        conn)

  -- `delete_file`
  unfoldable pub delete_file : ℕ → Conn → Result DbError Bool × Conn
  unfolding affected by_id
  delete_file id conn = affected (table.delete (by_id id) conn)

  counted : Result SqlError ℕ × Conn → Result DbError ℕ × Conn
  counted (ok n, conn) = (ok n, conn)
  counted (err e, conn) = (err (DbError.sqlite e), conn)

  -- `delete_files_by_account`
  unfoldable pub delete_files_by_account : AccountId → Conn → Result DbError ℕ × Conn
  unfolding counted dec_text
  delete_files_by_account account_id conn =
      counted (table.delete (λ row. ite (dec_text row.account_id account_id) true false) conn)
