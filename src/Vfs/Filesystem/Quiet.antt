-- ===== src/Vfs/Filesystem/Quiet.antt =====
-- The callbacks that leave the handles of open files as they are.
use uni_cloud_file_sync_thin.Prelude.{
  Text, ℕ, Bool, Option, none, some, List, [], ◌∷◌, Result, ok, err, ◌≡◌, inl, inr, refl,
  Bool-cases, ◌==◌, dec_text,
}
use uni_cloud_file_sync_thin.Core.Provider.{CloudProvider}
use uni_cloud_file_sync_thin.Core.Types.{AccountId, DateTime, Error}
use uni_cloud_file_sync_thin.Db.Error.{DbError}
use uni_cloud_file_sync_thin.Db.Files as Files
use uni_cloud_file_sync_thin.Db.Inodes as Inodes
use uni_cloud_file_sync_thin.Db.Sqlite.{Table}
use uni_cloud_file_sync_thin.Vfs.Cache.{CachedFile}
use uni_cloud_file_sync_thin.Vfs.Content.{Errno, LocalFiles}
use uni_cloud_file_sync_thin.Vfs.Filesystem.{
  CloudSyncFs, getattr, lookup, readdir, read, looked_up, search_children, search_in, below_parent,
  from_parent, list_children, list_path, attr_of, replied, read_from, inode_file,
}
use uni_cloud_file_sync_thin.Vfs.Filesystem.Replies.{
  Reply, FileAttr, attr, entry, attr_reply, Added, error,
}
use uni_cloud_file_sync_thin.Vfs.Inode.{InodeManager, fuse_root_inode}
use uni_cloud_file_sync_thin.Vfs.Filesystem.Handles.{Quiet, given, same-Quiet, ite-Quiet}

attr_reply-given :
    (reply : FileAttr → Reply)
    → ((found : FileAttr) → given (reply found) ≡ none)
    → (o : Option FileAttr) → given (attr_reply reply o) ≡ none
unfolding attr_reply given
attr_reply-given reply h (some found) = h found
attr_reply-given reply h none = refl

module _ {World Conn Handle : Type 0} (inodes : Table Inodes.clash Conn)
    (files : Table Files.clash Conn) (account_id : AccountId) (disk : LocalFiles World Handle)
    (exists : Text → World → Bool) (remote : CloudProvider World) (to_string : Error → Text)
    (content_cache : Option Text) (epoch : ℕ) (room : List Added → Added → Bool)
    (now : DateTime) where
  abbrev pub System : Type 0
  System = CloudSyncFs World Conn

  looked_up-Quiet :
      (child : CachedFile) (s : System) (r : Result DbError ℕ × InodeManager Conn)
      → Quiet s (
          looked_up inodes files account_id disk exists remote to_string content_cache epoch room
            now child s r)
  unfolding looked_up given
  looked_up-Quiet child s (ok inode, manager) = record {
    files = refl;
    counter = refl;
    none_given = attr_reply-given entry (λ found. refl) _;
  }
  looked_up-Quiet child s (err e, manager) = record {
    files = refl;
    counter = refl;
    none_given = refl;
  }

  search_children-Quiet :
      (name : Text) (s : System) (children : List CachedFile)
      → Quiet s (
          search_children inodes files account_id disk exists remote to_string content_cache epoch
            room now name s children)
  unfolding search_children given
  search_children-Quiet name s [] = same-Quiet s _ refl
  search_children-Quiet name s (child ∷ children) =
      ite-Quiet s (dec_text child.name name) _ _ (looked_up-Quiet child s _)
        (search_children-Quiet name s children)

  search_in-Quiet :
      (name : Text) (s : System) (r : Result DbError (List CachedFile))
      → Quiet s (
          search_in inodes files account_id disk exists remote to_string content_cache epoch room
            now name s r)
  unfolding search_in given
  search_in-Quiet name s (ok children) = search_children-Quiet name s children
  search_in-Quiet name s (err e) = same-Quiet s _ refl

  below_parent-Quiet :
      (name : Text) (s : System) (path : Option Text)
      → Quiet s (
          below_parent inodes files account_id disk exists remote to_string content_cache epoch room
            now name s path)
  unfolding below_parent given
  below_parent-Quiet name s none = same-Quiet s _ refl
  below_parent-Quiet name s (some path) = search_in-Quiet name s _

  from_parent-Quiet :
      (parent : ℕ) (name : Text) (s : System) (r : Result Errno Text)
      → Quiet s (
          from_parent inodes files account_id disk exists remote to_string content_cache epoch room
            now parent name s r)
  unfolding from_parent given
  from_parent-Quiet parent name s (ok id) = below_parent-Quiet name s _
  from_parent-Quiet parent name s (err e) = same-Quiet s _ refl

  pub lookup-Quiet :
      (parent : ℕ) (name : Option Text) (s : System)
      → Quiet s (
          lookup inodes files account_id disk exists remote to_string content_cache epoch room now
            parent name s)
  unfolding lookup given
  lookup-Quiet parent none s = same-Quiet s _ refl
  lookup-Quiet parent (some name) s = from_parent-Quiet parent name s _

  attr_of-given :
      (ino : ℕ) (r : Result Errno (Text × CachedFile))
      → given (
          attr_of inodes files account_id disk exists remote to_string content_cache epoch room now
            ino r)
        ≡ none
  unfolding attr_of given
  attr_of-given ino (ok (id, file)) = attr_reply-given attr (λ found. refl) _
  attr_of-given ino (err e) = refl

  pub getattr-Quiet :
      (ino : ℕ) (s : System)
      → Quiet s (
          getattr inodes files account_id disk exists remote to_string content_cache epoch room now
            ino s)
  unfolding getattr given
  getattr-Quiet ino s = elim (Bool-cases (ino == fuse_root_inode)) [
    | inl is_root ↦ rw is_root (same-Quiet s _ refl)
    | inr other ↦ rw other (
        same-Quiet s _ (
          attr_of-given ino (
            inode_file inodes files account_id disk exists remote to_string content_cache epoch room
              now ino s)))
  ]

  list_children-Quiet :
      (ino offset : ℕ) (s : System) (r : Result DbError (List CachedFile))
      → Quiet s (
          list_children inodes files account_id disk exists remote to_string content_cache epoch
            room now ino offset s r)
  unfolding list_children given
  list_children-Quiet ino offset s (ok children) = record {
    files = refl;
    counter = refl;
    none_given = refl;
  }
  list_children-Quiet ino offset s (err e) = same-Quiet s (error Errno.eio) refl

  pub readdir-Quiet :
      (ino offset : ℕ) (s : System)
      → Quiet s (
          readdir inodes files account_id disk exists remote to_string content_cache epoch room now
            ino offset s)
  unfolding readdir list_path given
  readdir-Quiet ino offset s = listed _
    where
      listed :
          (r : Result Errno Text)
          → Quiet s (
              list_path inodes files account_id disk exists remote to_string content_cache epoch
                room now ino offset s r)
      listed (ok path) = list_children-Quiet ino offset s _
      listed (err e) = same-Quiet s _ refl

  replied-given :
      (r : Result Errno (List ℕ))
      → given (
          replied inodes files account_id disk exists remote to_string content_cache epoch room now
            r)
        ≡ none
  unfolding replied given
  replied-given (ok found) = refl
  replied-given (err e) = refl

  read_from-given :
      (offset size : ℕ) (w : World) (path cache : Option Text)
      → given (
          read_from inodes files account_id disk exists remote to_string content_cache epoch room
            now offset size w path cache)
        ≡ none
  unfolding read_from given
  read_from-given offset size w none cache = refl
  read_from-given offset size w (some path) none = refl
  read_from-given offset size w (some path) (some cache_root) = replied-given _

  pub read-Quiet :
      (fh offset size : ℕ) (s : System)
      → Quiet s (
          read inodes files account_id disk exists remote to_string content_cache epoch room now fh
            offset size s)
  unfolding read
  read-Quiet fh offset size s = same-Quiet s _ (read_from-given offset size s.world _ content_cache)
