-- ===== src/Vfs/Filesystem.antt =====
-- crates/cloudsync-vfs/src/filesystem.rs: the callbacks of the mounted file system. A callback maps
-- the state to its reply and the state after it. A callback that panics sends no reply, and is the
-- last one, since the panic ends the session. The mutex of the open files is not poisoned, since
-- no thread panics while it holds it.
pub mod Replies
pub mod Attributes
pub mod Paging
pub mod Handles
pub mod Quiet
pub mod Opens
pub mod Runs
pub mod Tests
use uni_cloud_file_sync_thin.Prelude.{
  Text, text, ℕ, zero, suc, ◌+◌, ◌-◌, ◌/◌, ◌%◌, ◌^◌, Bool, true, false, Option, none, some, List,
  [], ◌∷◌, ◌++◌, drop, keep, ite, dec_text, ◌==◌, not, if◌then◌else◌, Result, ok, err,
}
use uni_cloud_file_sync_thin.Core.CloudPath.{root}
use uni_cloud_file_sync_thin.Core.Provider.{CloudProvider}
use uni_cloud_file_sync_thin.Core.Types.{AccountId, DateTime, Error}
use uni_cloud_file_sync_thin.Db.Error.{DbError}
use uni_cloud_file_sync_thin.Db.Files as Files
use uni_cloud_file_sync_thin.Db.Files.{timestamp}
use uni_cloud_file_sync_thin.Db.Inodes as Inodes
use uni_cloud_file_sync_thin.Db.Sqlite.{Table}
use uni_cloud_file_sync_thin.Vfs.Cache.{CachedFile, get, get_children}
use uni_cloud_file_sync_thin.Vfs.Content.{
  Errno, einval, enoent, eio, eisdir, enosys, ebadf, Locks, State, ensure_downloaded, LocalFiles,
  read_file_at,
}
use uni_cloud_file_sync_thin.Vfs.Inode.{InodeManager, fuse_root_inode, get_or_allocate, get_file_id}
use uni_cloud_file_sync_thin.Vfs.Filesystem.Replies.{
  FileType, FileAttr, kind_of, div_ceil, cached_file_to_attr, attr_reply, get_root_attr, Entry,
  Added, Reply, dot_entries, add_entries, page, error, entry, attr, listing, opened, bytes, done,
}

-- `HashMap<u64, OpenFile>`
abbrev pub OpenFiles : Type 0
OpenFiles = List (ℕ × Text)

unfoldable pub path_of : ℕ → OpenFiles → Option Text
path_of fh [] = none
path_of fh (file ∷ files) =
    let rest = path_of fh files in if file.0 == fh then some file.1 else rest

unfoldable pub without : ℕ → OpenFiles → OpenFiles
unfolding keep
without fh = keep (λ file. not (file.0 == fh))

pub record CloudSyncFs (World Conn : Type 0) : Type 0 where
  pub inode_manager : InodeManager Conn
  pub world : World
  pub locks : Locks
  pub open_files : OpenFiles
  pub next_fh : ℕ

-- `content_cache` is the root of the cache, where there is one; `now` is the instant of the call.
module _ {World Conn Handle : Type 0} (inodes : Table Inodes.clash Conn)
    (files : Table Files.clash Conn) (account_id : AccountId) (disk : LocalFiles World Handle)
    (exists : Text → World → Bool) (remote : CloudProvider World) (to_string : Error → Text)
    (content_cache : Option Text) (epoch : ℕ) (room : List Added → Added → Bool)
    (now : DateTime) where
  abbrev pub Fs : Type 0
  Fs = CloudSyncFs World Conn

  -- `open` and `getattr`: the file of an inode.
  file_found : Result DbError (Option CachedFile) → Result Errno CachedFile
  file_found (ok (some file)) = ok file
  file_found (ok none) = err Errno.enoent
  file_found (err e) = err Errno.enoent

  file_id_found : Result DbError (Option Text) → Result Errno Text
  file_id_found (ok (some id)) = ok id
  file_id_found (ok none) = err Errno.enoent
  file_id_found (err e) = err Errno.enoent

  file_of : Conn → Result Errno Text → Result Errno (Text × CachedFile)
  unfolding file_found get
  file_of conn (err e) = err e
  file_of conn (ok id) = with_id id (file_found (get files account_id id conn))
    where
      with_id : Text → Result Errno CachedFile → Result Errno (Text × CachedFile)
      with_id id (ok file) = ok (id, file)
      with_id id (err e) = err e

  inode_file : ℕ → Fs → Result Errno (Text × CachedFile)
  unfolding file_of file_id_found get_file_id
  inode_file ino s =
      file_of s.inode_manager.conn (file_id_found (get_file_id inodes ino s.inode_manager))

  -- `getattr`
  attr_of : ℕ → Result Errno (Text × CachedFile) → Reply
  unfolding attr_reply cached_file_to_attr
  attr_of ino (ok (id, file)) = attr_reply attr (cached_file_to_attr epoch file ino)
  attr_of ino (err e) = error e

  unfoldable pub getattr : ℕ → Fs → Reply × Fs
  unfolding attr_of inode_file get_root_attr
  getattr ino s =
      if ino == fuse_root_inode
      then (attr (get_root_attr (timestamp now - epoch)), s)
      else (attr_of ino (inode_file ino s), s)

  -- `lookup`
  looked_up : CachedFile → Fs → Result DbError ℕ × InodeManager Conn → Reply × Fs
  unfolding attr_reply cached_file_to_attr
  looked_up child s (ok inode, manager) = (
    attr_reply entry (cached_file_to_attr epoch child inode),
    record s { inode_manager = manager },
  )
  looked_up child s (err e, manager) = (error Errno.eio, record s { inode_manager = manager })

  search_children : Text → Fs → List CachedFile → Reply × Fs
  unfolding looked_up get_or_allocate dec_text
  search_children name s [] = (error Errno.enoent, s)
  search_children name s (child ∷ children) =
      let rest = search_children name s children in
      ite (dec_text child.name name)
        (looked_up child s (get_or_allocate inodes (timestamp now) child.file_id s.inode_manager))
        rest

  search_in : Text → Fs → Result DbError (List CachedFile) → Reply × Fs
  unfolding search_children
  search_in name s (ok children) = search_children name s children
  search_in name s (err e) = (error Errno.eio, s)

  parent_path : ℕ → Result DbError (Option CachedFile) → Option Text
  unfolding root
  parent_path parent (ok (some file)) = some file.path
  parent_path parent (ok none) = if parent == fuse_root_inode then some root else none
  parent_path parent (err e) = if parent == fuse_root_inode then some root else none

  below_parent : Text → Fs → Option Text → Reply × Fs
  unfolding search_in get_children
  below_parent name s none = (error Errno.enoent, s)
  below_parent name s (some path) =
      search_in name s (get_children files account_id path s.inode_manager.conn)

  from_parent : ℕ → Text → Fs → Result Errno Text → Reply × Fs
  unfolding below_parent parent_path get
  from_parent parent name s (ok id) =
      below_parent name s (parent_path parent (get files account_id id s.inode_manager.conn))
  from_parent parent name s (err e) = (error e, s)

  -- `name.to_str()` is none for a name that is not UTF-8.
  unfoldable pub lookup : ℕ → Option Text → Fs → Reply × Fs
  unfolding from_parent file_id_found get_file_id
  lookup parent none s = (error Errno.einval, s)
  lookup parent (some name) s =
      from_parent parent name s (file_id_found (get_file_id inodes parent s.inode_manager))

  -- `readdir`: the inodes of the children; a child that gets none is left out.
  numbered : CachedFile → Result DbError ℕ × InodeManager Conn → List Entry → List Entry
  unfolding kind_of
  numbered child (ok inode, manager) rest =
      record { ino = inode; kind = kind_of child.is_directory; name = child.name } ∷ rest
  numbered child (err e, manager) rest = rest

  unfoldable pub child_entries :
      List CachedFile → InodeManager Conn → List Entry × InodeManager Conn
  unfolding numbered get_or_allocate
  child_entries [] manager = ([], manager)
  child_entries (child ∷ children) manager =
      let made = get_or_allocate inodes (timestamp now) child.file_id manager in
      let rest = child_entries children made.1 in (numbered child made rest.0, rest.1)

  list_children : ℕ → ℕ → Fs → Result DbError (List CachedFile) → Reply × Fs
  unfolding child_entries page dot_entries
  list_children ino offset s (err e) = (error Errno.eio, s)
  list_children ino offset s (ok children) =
      let made = child_entries children s.inode_manager in
      (listing (page room offset (dot_entries ino ++ made.0)), record s { inode_manager = made.1 })

  list_path : ℕ → ℕ → Fs → Result Errno Text → Reply × Fs
  unfolding list_children get_children
  list_path ino offset s (ok path) =
      list_children ino offset s (get_children files account_id path s.inode_manager.conn)
  list_path ino offset s (err e) = (error e, s)

  dir_path : Result Errno (Text × CachedFile) → Result Errno Text
  dir_path (ok (id, file)) = ok file.path
  dir_path (err e) = err e

  unfoldable pub readdir : ℕ → ℕ → Fs → Reply × Fs
  unfolding list_path dir_path inode_file root
  readdir ino offset s =
      list_path ino offset s
        (if ino == fuse_root_inode then ok root else dir_path (inode_file ino s))

  -- `open`
  opened_at : Fs → Result Errno Text × State World Conn → Reply × Fs
  opened_at s (ok path, t) = (
    opened s.next_fh,
    record {
      inode_manager = record s.inode_manager { conn = t.conn };
      world = t.world;
      locks = t.locks;
      open_files = (s.next_fh, path) ∷ s.open_files;
      next_fh = (s.next_fh + 1) % 2 ^ 64;
    },
  )
  opened_at s (err e, t) = (
    error e,
    record s {
      inode_manager = record s.inode_manager { conn = t.conn };
      world = t.world;
      locks = t.locks;
    },
  )

  open_file : Text → Fs → Option Text → Reply × Fs
  unfolding opened_at ensure_downloaded
  open_file id s none = (error Errno.enosys, s)
  open_file id s (some cache_root) = opened_at s (
      ensure_downloaded files account_id now exists remote to_string cache_root id
        record { world = s.world; conn = s.inode_manager.conn; locks = s.locks })

  open_found : Fs → Result Errno (Text × CachedFile) → Reply × Fs
  unfolding open_file
  open_found s (ok (id, file)) =
      if file.is_directory then (error Errno.eisdir, s) else open_file id s content_cache
  open_found s (err e) = (error e, s)

  unfoldable pub open_inode : ℕ → Fs → Reply × Fs
  unfolding open_found inode_file
  open_inode ino s = open_found s (inode_file ino s)

  -- `read`
  unfoldable pub replied : Result Errno (List ℕ) → Reply
  replied (ok found) = bytes found
  replied (err e) = error e

  read_from : ℕ → ℕ → World → Option Text → Option Text → Reply
  unfolding replied read_file_at
  read_from offset size w none cache = error Errno.ebadf
  read_from offset size w (some path) none = error Errno.enosys
  read_from offset size w (some path) (some cache_root) =
      replied (read_file_at disk path offset size w)

  unfoldable pub read : ℕ → ℕ → ℕ → Fs → Reply × Fs
  unfolding read_from path_of
  read fh offset size s = (read_from offset size s.world (path_of fh s.open_files) content_cache, s)

  -- `release`
  unfoldable pub release : ℕ → Fs → Reply × Fs
  unfolding without
  release fh s = (Reply.done, record s { open_files = without fh s.open_files })
