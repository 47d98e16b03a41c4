-- ===== src/Vfs/Filesystem/Replies.antt =====
-- crates/cloudsync-vfs/src/filesystem.rs: what the callbacks reply, with the attributes of a file
-- and the pages of a directory.
use uni_cloud_file_sync_thin.Prelude.{
  Text, text, ℕ, zero, suc, ◌+◌, ◌-◌, ◌/◌, ◌%◌, Bool, true, false, Option, none, some, List, [],
  ◌∷◌, ◌++◌, drop, ltb, ◌==◌, if◌then◌else◌,
}
use uni_cloud_file_sync_thin.Db.Files.{timestamp}
use uni_cloud_file_sync_thin.Vfs.Cache.{CachedFile}
use uni_cloud_file_sync_thin.Vfs.Content.{Errno}
use uni_cloud_file_sync_thin.Vfs.Inode.{fuse_root_inode}

pub data FileType : Type 0 where
  directory regular_file : FileType

-- `fuser::FileAttr`; a time is in seconds since the epoch of Unix.
pub record FileAttr : Type 0 where
  pub ino : ℕ
  pub size : ℕ
  pub blocks : ℕ
  pub atime : ℕ
  pub mtime : ℕ
  pub ctime : ℕ
  pub crtime : ℕ
  pub kind : FileType
  pub perm : ℕ
  pub nlink : ℕ
  pub uid : ℕ
  pub gid : ℕ
  pub rdev : ℕ
  pub blksize : ℕ
  pub flags : ℕ

unfoldable pub kind_of : Bool → FileType
kind_of true = FileType.directory
kind_of false = FileType.regular_file

-- `u64::div_ceil`
unfoldable pub div_ceil : ℕ → ℕ → ℕ
div_ceil a zero = 0
div_ceil a (suc b) = let rest = a % suc b in if rest == 0 then a / suc b else a / suc b + 1

-- The attributes of a file whose time is in whole seconds since the epoch of Unix.
unfoldable pub attr_at : ℕ → CachedFile → ℕ → FileAttr
unfolding kind_of div_ceil
attr_at mtime file inode = record {
  ino = inode;
  size = file.size;
  blocks = div_ceil file.size 512;
  atime = mtime;
  mtime = mtime;
  ctime = mtime;
  crtime = mtime;
  kind = kind_of file.is_directory;
  perm = if file.is_directory then 493 else 420;
  nlink = 1;
  uid = 1000;
  gid = 1000;
  rdev = 0;
  blksize = 4096;
  flags = 0;
}

-- `cached_file_to_attr`. `epoch` are the seconds from the earliest instant of chrono to the epoch of
-- Unix. The number of seconds of an earlier time is negative: as a `u64` it is too large to be added
-- to `UNIX_EPOCH`, and the addition panics, which is none here.
unfoldable pub cached_file_to_attr : ℕ → CachedFile → ℕ → Option FileAttr
unfolding attr_at
cached_file_to_attr epoch file inode =
    if ltb (timestamp file.modified_time) epoch
    then none
    else some (attr_at (timestamp file.modified_time - epoch) file inode)

-- `get_root_attr`, at the given second.
unfoldable pub get_root_attr : ℕ → FileAttr
get_root_attr now = record {
  ino = fuse_root_inode;
  size = 0;
  blocks = 0;
  atime = now;
  mtime = now;
  ctime = now;
  crtime = now;
  kind = FileType.directory;
  perm = 493;
  nlink = 2;
  uid = 1000;
  gid = 1000;
  rdev = 0;
  blksize = 4096;
  flags = 0;
}

-- An entry before and after it is added to the reply, with the offset of the next one.
pub record Entry : Type 0 where
  pub ino : ℕ
  pub kind : FileType
  pub name : Text

pub record Added : Type 0 where
  pub offset : ℕ
  pub entry : Entry

pub data Reply : Type 0 where
  error : Errno → Reply
  entry : FileAttr → Reply
  attr : FileAttr → Reply
  listing : List Added → Reply
  opened : ℕ → Reply
  bytes : List ℕ → Reply
  done : Reply
  -- A callback that panics sends no reply.
  no_reply : Reply

-- A reply with the attributes of a file, where they can be made.
unfoldable pub attr_reply : (FileAttr → Reply) → Option FileAttr → Reply
attr_reply reply (some found) = reply found
attr_reply reply none = no_reply

-- The two entries that every directory has.
unfoldable pub dot_entries : ℕ → List Entry
dot_entries ino =
    record { ino = ino; kind = FileType.directory; name = text "." }
    ∷ record { ino = fuse_root_inode; kind = FileType.directory; name = text ".." }
    ∷ []

-- `reply.add` does not add an entry for which the reply has no room, and then returns true; `room`
-- tells whether there is room behind the entries that were added.
module _ (room : List Added → Added → Bool) where
  -- The loop over the entries, with the index of the first one.
  unfoldable pub add_entries : List Added → ℕ → List Entry → List Added
  add_entries added i [] = added
  add_entries added i (e ∷ entries) =
      let rest = add_entries (added ++ record { offset = i + 1; entry = e } ∷ []) (i + 1) entries in
      if room added (record { offset = i + 1; entry = e }) then rest else added

  -- `enumerate().skip(offset)`
  unfoldable pub page : ℕ → List Entry → List Added
  unfolding add_entries drop
  page offset entries = add_entries [] offset (drop offset entries)
