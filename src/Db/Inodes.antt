-- ===== src/Db/Inodes.antt =====
-- crates/cloudsync-db/src/vfs_inodes.rs: the table that maps inodes to file identifiers. An inode is
-- a `u64`; the column holds it as an `i64`, that is, as the same 64 bits.
pub mod Mapping
use uni_cloud_file_sync_thin.Prelude.{
  Text, text, ℕ, ◌+◌, ◌<◌, ◌%◌, ◌^◌, Bool, true, false, Option, none, some, List, ◌++◌, ◌==◌, ◌||◌,
  ltb, dec_text, ite, Result, ok, err,
}
use uni_cloud_file_sync_thin.Core.Display.{decimal}
use uni_cloud_file_sync_thin.Db.Error.{DbError}
use uni_cloud_file_sync_thin.Db.Error
use uni_cloud_file_sync_thin.Db.Sqlite.{SqlError, constraint_violation, failure, Table}

pub record InodeRow : Type 0 where
  pub inode : ℕ
  pub file_id : Text
  pub created_at : ℕ

-- `file_id = ?1` and `inode = ?1`
unfoldable pub by_file_id : Text → InodeRow → Bool
unfolding dec_text
by_file_id file_id row = ite (dec_text row.file_id file_id) true false

unfoldable pub by_inode : ℕ → InodeRow → Bool
by_inode inode row = row.inode == inode

-- `inode INTEGER PRIMARY KEY, file_id TEXT NOT NULL UNIQUE`
unfoldable pub clash : InodeRow → InodeRow → Bool
unfolding by_file_id by_inode
clash a b = by_inode b.inode a || by_file_id b.file_id a

-- The order of `i64` on 64 bits is the order of the bits moved by half their range.
abbrev pub moved : ℕ → ℕ
moved bits = (bits + 2 ^ 63) % 2 ^ 64

abbrev pub conflicting : ℕ → Text → DbError
conflicting inode file_id = DbError.conflict (
    text "Inode mapping already exists for inode "
    ++ decimal inode
    ++ text " or file_id "
    ++ file_id)

insert_error : ℕ → Text → SqlError → DbError
insert_error inode file_id constraint_violation = conflicting inode file_id
insert_error inode file_id (failure message) = DbError.sqlite (failure message)

module _ {Conn : Type 0} (table : Table clash Conn) where
  inserted : ℕ → Text → Result SqlError (Unit {0}) × Conn → Result DbError (Unit {0}) × Conn
  unfolding insert_error
  inserted inode file_id (ok _, conn) = (ok tt, conn)
  inserted inode file_id (err e, conn) = (err (insert_error inode file_id e), conn)

  -- `insert_inode`, at the given instant.
  unfoldable pub insert_inode : ℕ → ℕ → Text → Conn → Result DbError (Unit {0}) × Conn
  unfolding inserted
  insert_inode now inode file_id conn =
      inserted inode file_id
        (table.insert (record { inode = inode; file_id = file_id; created_at = now }) conn)

  read_column :
      {A : Type 0} → (InodeRow → A) → Result SqlError (Option InodeRow) → Result DbError (Option A)
  read_column column (ok none) = ok none
  read_column column (ok (some row)) = ok (some (column row))
  read_column column (err e) = err (DbError.sqlite e)

  -- `get_inode_by_file_id`
  unfoldable pub get_inode_by_file_id : Text → Conn → Result DbError (Option ℕ)
  unfolding read_column by_file_id
  get_inode_by_file_id file_id conn =
      read_column (λ row. row.inode) (table.query_row (by_file_id file_id) conn)

  -- `get_file_id_by_inode`
  unfoldable pub get_file_id_by_inode : ℕ → Conn → Result DbError (Option Text)
  unfolding read_column by_inode
  get_file_id_by_inode inode conn =
      read_column (λ row. row.file_id) (table.query_row (by_inode inode) conn)

  -- What the caller's closure keeps beside the connection: here the counter.
  insert_new : ℕ → Result DbError (Unit {0}) × Conn → ℕ → Result DbError ℕ × (Conn × ℕ)
  insert_new inode (ok _, conn) counter = (ok inode, (conn, counter))
  insert_new inode (err e, conn) counter = (err e, (conn, counter))

  get_or_insert :
      ℕ → Text → (ℕ → ℕ × ℕ) → Conn → ℕ → Result DbError (Option ℕ) → Result DbError ℕ × (Conn × ℕ)
  unfolding insert_new insert_inode
  get_or_insert now file_id next conn counter (ok (some inode)) = (ok inode, (conn, counter))
  get_or_insert now file_id next conn counter (ok none) =
      let (inode, counter') = next counter in
      insert_new inode (insert_inode now inode file_id conn) counter'
  get_or_insert now file_id next conn counter (err e) = (err e, (conn, counter))

  -- `get_or_insert_inode`. The closure `next_inode` maps the counter to an inode and the counter
  -- after the call.
  unfoldable pub get_or_insert_inode :
      ℕ → Text → (ℕ → ℕ × ℕ) → Conn → ℕ → Result DbError ℕ × (Conn × ℕ)
  unfolding get_or_insert get_inode_by_file_id
  get_or_insert_inode now file_id next conn counter =
      get_or_insert now file_id next conn counter (get_inode_by_file_id file_id conn)

  read_max : Result SqlError (Option ℕ) → Result DbError ℕ
  read_max (ok none) = ok 0
  read_max (ok (some m)) = ok (moved m)
  read_max (err e) = err (DbError.sqlite e)

  -- `get_max_inode`
  unfoldable pub get_max_inode : Conn → Result DbError ℕ
  unfolding read_max
  get_max_inode conn = read_max (table.query_max (λ row. moved row.inode) conn)

  removed : Result SqlError ℕ × Conn → Result DbError Bool × Conn
  removed (ok n, conn) = (ok (ltb 0 n), conn)
  removed (err e, conn) = (err (DbError.sqlite e), conn)

  -- `remove_inode`
  unfoldable pub remove_inode : Text → Conn → Result DbError Bool × Conn
  unfolding removed by_file_id
  remove_inode file_id conn = removed (table.delete (by_file_id file_id) conn)
