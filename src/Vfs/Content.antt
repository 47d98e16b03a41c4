-- ===== src/Vfs/Content.antt =====
-- crates/cloudsync-vfs/src/content_cache.rs: files are downloaded once and read from the local
-- disk. Here one call runs from start to end; in Threads, the steps of several threads on one file
-- interleave. A mutex is not poisoned, since no thread panics while it holds one.
pub mod Threads
pub mod Invariant
pub mod Progress
pub mod Outcomes
pub mod Reads
pub mod Tests
use uni_cloud_file_sync_thin.Prelude.{
  Text, text, ℕ, Bool, true, false, Option, none, some, List, [], ◌∷◌, take, find, ite, dec_text,
  if◌then◌else◌, Result, ok, err,
}
use uni_cloud_file_sync_thin.Core.FileState.{FileState}
use uni_cloud_file_sync_thin.Core.LocalPath as LocalPath
use uni_cloud_file_sync_thin.Core.Provider.{CloudProvider}
use uni_cloud_file_sync_thin.Core.Types.{AccountId, FileId, DateTime, Error, cloud_native_file}
use uni_cloud_file_sync_thin.Db.Error.{DbError}
use uni_cloud_file_sync_thin.Db.Files.{File, clash, get_file_by_provider_id, update_file}
use uni_cloud_file_sync_thin.Db.Sqlite.{Table}

pub data DownloadStatus : Type 0 where
  in_progress complete : DownloadStatus
  failed : Text → DownloadStatus

-- The codes of libc that the file system replies with.
pub data Errno : Type 0 where
  enotsup eio enoent eisdir enosys ebadf einval : Errno

-- `match &*status`: whether the thread returns at once or downloads.
unfoldable pub must_download : DownloadStatus → Bool
must_download DownloadStatus.in_progress = true
must_download DownloadStatus.complete = false
must_download (DownloadStatus.failed message) = true

-- The `match result` after the download: the status that is stored, with the error's text;
unfoldable pub status_after : (Error → Text) → Result Error (Unit {0}) → DownloadStatus
status_after to_string (ok _) = DownloadStatus.complete
status_after to_string (err (Error.cloud_native_file url)) =
    DownloadStatus.failed (text "cloud-native file")
status_after to_string (err e) = DownloadStatus.failed (to_string e)

-- the state that is written to the table of files, if any;
unfoldable pub state_after : Result Error (Unit {0}) → Option FileState
state_after (ok _) = some FileState.synced
state_after (err (Error.cloud_native_file url)) = none
state_after (err e) = some FileState.error

-- and what the call returns.
unfoldable pub returned_after : Text → Result Error (Unit {0}) → Result Errno Text
returned_after path (ok _) = ok path
returned_after path (err (Error.cloud_native_file url)) = err Errno.enotsup
returned_after path (err e) = err Errno.eio

-- `self.download_locks`, the last entry for an identifier first.
abbrev pub Locks : Type 0
Locks = List (FileId × DownloadStatus)

unfoldable pub lock_of : FileId → Locks → Option DownloadStatus
unfolding dec_text
lock_of file_id [] = none
lock_of file_id (lock ∷ locks) =
    let rest = lock_of file_id locks in ite (dec_text lock.0 file_id) (some lock.1) rest

-- `or_insert_with`, and the status that the lock then has.
unfoldable pub entry_or_insert : FileId → Locks → Option DownloadStatus → DownloadStatus × Locks
entry_or_insert file_id locks (some status) = (status, locks)
entry_or_insert file_id locks none =
    (DownloadStatus.in_progress, (file_id, DownloadStatus.in_progress) ∷ locks)

-- `*status = …`
unfoldable pub set_status : FileId → DownloadStatus → Locks → Locks
set_status file_id status locks = (file_id, status) ∷ locks

-- `ContentCache::cached_path`
unfoldable pub cached_path : Text → FileId → Text
unfolding LocalPath.join
cached_path cache_root file_id = LocalPath.join cache_root file_id

pub record State (World Conn : Type 0) : Type 0 where
  pub world : World
  pub conn : Conn
  pub locks : Locks

module _ {Conn : Type 0} (files : Table clash Conn) (account_id : AccountId) (now : DateTime) where
  keep_conn : Result DbError Bool × Conn → Conn
  keep_conn (_, conn) = conn

  update_found : (File → File) → Conn → Result DbError (Option File) → Conn
  unfolding keep_conn update_file
  update_found change conn (ok (some file)) = keep_conn (update_file files now (change file) conn)
  update_found change conn (ok none) = conn
  update_found change conn (err e) = conn

  -- `update_file_state`: an error is only logged.
  unfoldable pub update_file_state : FileId → FileState → Conn → Conn
  unfolding update_found get_file_by_provider_id
  update_file_state file_id state conn =
      update_found (λ file. record file { state = state }) conn
        (get_file_by_provider_id files account_id file_id conn)

  -- `update_synced_at`
  unfoldable pub update_synced_at : FileId → Conn → Conn
  unfolding update_found get_file_by_provider_id
  update_synced_at file_id conn =
      update_found (λ file. record file { synced_at = some now }) conn
        (get_file_by_provider_id files account_id file_id conn)

  -- The calls on the database in the `match result`.
  unfoldable pub record_outcome : FileId → Result Error (Unit {0}) → Conn → Conn
  unfolding update_file_state update_synced_at
  record_outcome file_id (ok _) conn =
      update_synced_at file_id (update_file_state file_id FileState.synced conn)
  record_outcome file_id (err (Error.cloud_native_file url)) conn = conn
  record_outcome file_id (err e) conn = update_file_state file_id FileState.error conn

  -- `exists` is `Path::exists`; `to_string` is the text of an error.
  module _ {World : Type 0} (exists : Text → World → Bool) (remote : CloudProvider World)
      (to_string : Error → Text) (cache_root : Text) where
    -- From the end of the download on.
    settle :
        FileId
        → Conn
        → Locks
        → Result Error (Unit {0}) × World
        → Result Errno Text × State World Conn
    unfolding cached_path status_after returned_after set_status record_outcome
    settle file_id conn locks (r, w) = (
      returned_after (cached_path cache_root file_id) r,
      record {
        world = w;
        conn = record_outcome file_id r conn;
        locks = set_status file_id (status_after to_string r) locks;
      },
    )

    -- With the status of the lock held.
    locked : FileId → World → Conn → DownloadStatus × Locks → Result Errno Text × State World Conn
    unfolding settle must_download cached_path update_file_state set_status
    locked file_id w conn (status, locks) =
        if exists (cached_path cache_root file_id) w
        then (ok (cached_path cache_root file_id), record { world = w; conn = conn; locks = locks })
        else if must_download status
        then settle file_id (update_file_state file_id FileState.syncing conn)
            (set_status file_id DownloadStatus.in_progress locks)
            (remote.download file_id (cached_path cache_root file_id) w)
        else (ok (cached_path cache_root file_id), record { world = w; conn = conn; locks = locks })

    -- `ContentCache::ensure_downloaded`
    unfoldable pub ensure_downloaded :
        FileId → State World Conn → Result Errno Text × State World Conn
    unfolding locked cached_path entry_or_insert lock_of
    ensure_downloaded file_id s =
        if exists (cached_path cache_root file_id) s.world
        then (ok (cached_path cache_root file_id), s)
        else locked file_id s.world s.conn
            (entry_or_insert file_id s.locks (lock_of file_id s.locks))

-- `std::fs::File` opened for reading. `contents` are the bytes of the file at a path, and `whole`
-- and `position` the bytes and the place of an open file. A read may be short, but is empty only
-- at the end of the file or for an empty buffer.
pub record LocalFiles (World Handle : Type 0) : Type 0 where
  pub contents : Text → World → Option (List ℕ)
  pub whole : Handle → List ℕ
  pub position : Handle → ℕ
  pub open_file : Text → World → Result Text Handle
  pub seek : ℕ → Handle → Result Text Handle
  -- the number of bytes read, and the buffer after the read
  pub read : Handle → List ℕ → Result Text (ℕ × List ℕ)

-- `vec![0u8; size]`
unfoldable pub zeros : ℕ → List ℕ
zeros ℕ.zero = []
zeros (ℕ.suc n) = 0 ∷ zeros n

module _ {World Handle : Type 0} (disk : LocalFiles World Handle) where
  -- `buf.truncate(bytes_read)`
  truncated : Result Text (ℕ × List ℕ) → Result Errno (List ℕ)
  unfolding take
  truncated (ok (n, buf)) = ok (take n buf)
  truncated (err e) = err Errno.eio

  sought : ℕ → Result Text Handle → Result Errno (List ℕ)
  unfolding truncated zeros
  sought size (ok file) = truncated (disk.read file (zeros size))
  sought size (err e) = err Errno.eio

  opened : ℕ → ℕ → Result Text Handle → Result Errno (List ℕ)
  unfolding sought
  opened offset size (ok file) = sought size (disk.seek offset file)
  opened offset size (err e) = err Errno.eio

  -- `ContentCache::read_file_at`; the offset is the 64 bits of an `i64`, read as a `u64`.
  unfoldable pub read_file_at : Text → ℕ → ℕ → World → Result Errno (List ℕ)
  unfolding opened
  read_file_at path offset size w = opened offset size (disk.open_file path w)
