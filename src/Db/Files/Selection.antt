-- ===== src/Db/Files/Selection.antt =====
-- crates/cloudsync-db/src/files.rs: the list of the files of an account.
use uni_cloud_file_sync_thin.Prelude.{
  Bool, true, false, Option, none, some, List, [], ◌∷◌, leb_text, ◌&&◌, ite, dec_text, Result, ok,
  err,
}
use uni_cloud_file_sync_thin.Core.FileState.{FileState}
use uni_cloud_file_sync_thin.Core.Types.{AccountId}
use uni_cloud_file_sync_thin.Db.Error.{DbError}
use uni_cloud_file_sync_thin.Db.Sqlite.{SqlError, Table}
use uni_cloud_file_sync_thin.Db.Files.{File, FileRow, clash, from_row, state_name}

-- `AND state = '…'`, where a state is given.
unfoldable pub in_state : Option FileState → FileRow → Bool
unfolding state_name dec_text
in_state none row = true
in_state (some state) row = ite (dec_text row.state (state_name state)) true false

unfoldable pub of_account : AccountId → FileRow → Bool
unfolding dec_text
of_account account_id row = ite (dec_text row.account_id account_id) true false

-- `ORDER BY path ASC`
unfoldable pub path_order : FileRow → FileRow → Bool
unfolding leb_text
path_order a b = leb_text a.path b.path

unfoldable pub push_file :
    Result SqlError File → Result SqlError (List File) → Result SqlError (List File)
push_file (ok file) (ok files) = ok (file ∷ files)
push_file (ok file) (err e) = err e
push_file (err e) files = err e

-- `query_map(_, File::from_row)?.collect::<Result<Vec<_>, _>>()`
unfoldable pub collect_files : List FileRow → Result SqlError (List File)
unfolding push_file from_row
collect_files [] = ok []
collect_files (row ∷ rows) = push_file (from_row row) (collect_files rows)

unfoldable pub listed : Result SqlError (List File) → Result DbError (List File)
listed (ok files) = ok files
listed (err e) = err (DbError.sqlite e)

unfoldable pub selected : Result SqlError (List FileRow) → Result SqlError (List File)
unfolding collect_files
selected (ok rows) = collect_files rows
selected (err e) = err e

module _ {Conn : Type 0} (table : Table clash Conn) where
  -- `list_files`
  unfoldable pub list_files : AccountId → Option FileState → Conn → Result DbError (List File)
  unfolding listed selected of_account in_state path_order
  list_files account_id state_filter conn = listed (
      selected (
        table.query_ordered (λ row. of_account account_id row && in_state state_filter row)
          path_order conn))
