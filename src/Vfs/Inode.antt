-- ===== src/Vfs/Inode.antt =====
-- crates/cloudsync-vfs/src/inode.rs: the manager of inodes. Its state is the connection and the
-- counter of the next inode; each method holds the lock of the connection from start to end.
pub mod Allocation
pub mod Keeping
pub mod Session
pub mod Start
use uni_cloud_file_sync_thin.Prelude.{
  Text, text, ℕ, suc, ◌+◌, ◌%◌, ◌^◌, Bool, Option, List, ◌==◌, if◌then◌else◌, Result, ok, err,
}
use uni_cloud_file_sync_thin.Db.Error.{DbError}
use uni_cloud_file_sync_thin.Db.Sqlite.{Table}
use uni_cloud_file_sync_thin.Db.Inodes.{
  clash, get_inode_by_file_id, get_file_id_by_inode, get_or_insert_inode, get_max_inode,
  remove_inode,
}

-- `FUSE_ROOT_INODE` and `ROOT_FILE_ID`
abbrev pub fuse_root_inode : ℕ
fuse_root_inode = 1

abbrev pub root_file_id : Text
root_file_id = text "root"

pub record InodeManager (Conn : Type 0) : Type 0 where
  pub conn : Conn
  pub next_inode : ℕ

-- The closure of `get_or_allocate`: the counter's value, and the counter raised by one, as a `u64`
-- wraps in a release build.
abbrev pub take_next : ℕ → ℕ × ℕ
take_next counter = (counter, (counter + 1) % 2 ^ 64)

module _ {Conn : Type 0} (table : Table clash Conn) where
  with_root : Result DbError ℕ × (Conn × ℕ) → Result DbError (InodeManager Conn) × Conn
  with_root (ok inode, (conn, counter)) = (ok (record { conn = conn; next_inode = counter }), conn)
  with_root (err e, (conn, counter)) = (err e, conn)

  new_from : ℕ → Conn → Result DbError ℕ → Result DbError (InodeManager Conn) × Conn
  unfolding with_root get_or_insert_inode
  new_from now conn (ok max_inode) = with_root (
      get_or_insert_inode table now root_file_id (λ counter. (fuse_root_inode, counter)) conn
        (if max_inode == 0 then fuse_root_inode + 1 else (max_inode + 1) % 2 ^ 64))
  new_from now conn (err e) = (err e, conn)

  -- `InodeManager::new`, at the given instant.
  unfoldable pub new : ℕ → Conn → Result DbError (InodeManager Conn) × Conn
  unfolding new_from get_max_inode
  new now conn = new_from now conn (get_max_inode table conn)

  allocated : Result DbError ℕ × (Conn × ℕ) → Result DbError ℕ × InodeManager Conn
  allocated (r, (conn, counter)) = (r, record { conn = conn; next_inode = counter })

  -- `InodeManager::get_or_allocate`, at the given instant.
  unfoldable pub get_or_allocate :
      ℕ → Text → InodeManager Conn → Result DbError ℕ × InodeManager Conn
  unfolding allocated get_or_insert_inode
  get_or_allocate now file_id s =
      allocated (get_or_insert_inode table now file_id take_next s.conn s.next_inode)

  -- `InodeManager::get_file_id`
  unfoldable pub get_file_id : ℕ → InodeManager Conn → Result DbError (Option Text)
  unfolding get_file_id_by_inode
  get_file_id inode s = get_file_id_by_inode table inode s.conn

  -- `InodeManager::get_inode`
  unfoldable pub get_inode : Text → InodeManager Conn → Result DbError (Option ℕ)
  unfolding get_inode_by_file_id
  get_inode file_id s = get_inode_by_file_id table file_id s.conn

  after_remove : ℕ → Result DbError Bool × Conn → Result DbError (Unit {0}) × InodeManager Conn
  after_remove counter (ok _, conn) = (ok tt, record { conn = conn; next_inode = counter })
  after_remove counter (err e, conn) = (err e, record { conn = conn; next_inode = counter })

  -- `InodeManager::remove`
  unfoldable pub remove : Text → InodeManager Conn → Result DbError (Unit {0}) × InodeManager Conn
  unfolding after_remove remove_inode
  remove file_id s = after_remove s.next_inode (remove_inode table file_id s.conn)
