-- ===== src/Vfs/Filesystem/Opens.antt =====
-- What opening a file does to the handles.
use uni_cloud_file_sync_thin.Prelude.{
  Text, ℕ, ◌+◌, ◌%◌, ◌^◌, Bool, false, Option, none, some, List, ◌∷◌, Result, ok, err, ◌≡◌, ◌∙◌,
  inl, inr, refl, ap, subst, arith, Bool-cases, Option-cases, Result-cases,
}
use uni_cloud_file_sync_thin.Core.Provider.{CloudProvider}
use uni_cloud_file_sync_thin.Core.Types.{AccountId, DateTime, Error}
use uni_cloud_file_sync_thin.Db.Files as Files
use uni_cloud_file_sync_thin.Db.Inodes as Inodes
use uni_cloud_file_sync_thin.Db.Sqlite.{Table}
use uni_cloud_file_sync_thin.Vfs.Cache.{CachedFile, get}
use uni_cloud_file_sync_thin.Vfs.Inode.{get_file_id}
use uni_cloud_file_sync_thin.Core.LocalPath.{join}
use uni_cloud_file_sync_thin.Db.Error.{DbError}
use uni_cloud_file_sync_thin.Vfs.Content.{Errno, State, LocalFiles, cached_path}
use uni_cloud_file_sync_thin.Vfs.Content.Outcomes.{ensure_downloaded-path}
use uni_cloud_file_sync_thin.Vfs.Filesystem.{
  CloudSyncFs, open_inode, opened_at, open_file, open_found, file_id_found, file_found, file_of,
  inode_file,
}
use uni_cloud_file_sync_thin.Vfs.Filesystem.Replies.{Added, Reply, opened}
use uni_cloud_file_sync_thin.Vfs.Filesystem.Handles.{Quiet, given, same-Quiet}

module _ {World Conn Handle : Type 0} (inodes : Table Inodes.clash Conn)
    (files : Table Files.clash Conn) (account_id : AccountId) (disk : LocalFiles World Handle)
    (exists : Text → World → Bool) (remote : CloudProvider World) (to_string : Error → Text)
    (content_cache : Option Text) (epoch : ℕ) (room : List Added → Added → Bool)
    (now : DateTime) where
  abbrev pub System : Type 0
  System = CloudSyncFs World Conn

  err_ne_ok :
      {e : Errno} {x : Text × CachedFile}
      → ◌≡◌ {A = Result Errno (Text × CachedFile)} (err e) (ok x)
      → ⊥
  err_ne_ok h = ground arith

  ok_inj :
      {x y : Text × CachedFile} → ◌≡◌ {A = Result Errno (Text × CachedFile)} (ok x) (ok y) → x ≡ y
  ok_inj h = ground arith

  file_id_found-ok :
      (r : Result DbError (Option Text)) (id : Text)
      → file_id_found inodes files account_id disk exists remote to_string content_cache epoch room
          now r
        ≡ ok id
      → r ≡ ok (some id)
  unfolding file_id_found
  file_id_found-ok (ok (some key)) id h = ground arith
  file_id_found-ok (ok none) id h = absurd (ground arith)
  file_id_found-ok (err e) id h = absurd (ground arith)

  file_of-ok :
      (conn : Conn) (r : Result Errno Text) (id : Text) (file : CachedFile)
      → file_of inodes files account_id disk exists remote to_string content_cache epoch room now
          conn r
        ≡ ok (id, file)
      → (r ≡ ok id) × (get files account_id id conn ≡ ok (some file))
  unfolding file_of file_found
  file_of-ok conn (err e) id file h = absurd (err_ne_ok h)
  file_of-ok conn (ok key) id file h = elim (Result-cases (get files account_id key conn)) [
    | inr (e, f) ↦ absurd (err_ne_ok (rw f at h))
    | inl (o, f) ↦ elim (Option-cases o) [
      | inl g ↦ absurd (err_ne_ok (rw (f, g) at h))
      | inr (found, g) ↦
          let same = ok_inj (rw (f, g) at h) in
          let key_same : key ≡ id = ap (λ x. x.0) same in
          (
            ap ok key_same,
            subst (λ k. get files account_id k conn ≡ ok (some file)) key_same
                (f ∙ ap ok (g ∙ ap (λ x. some x.1) same)),
          )
    ]
  ]

  -- The identifier and the file of an inode, in the two tables.
  abbrev pub IsFileOf : ℕ → System → Text → CachedFile → Type 0
  IsFileOf ino s id file =
      (get_file_id inodes ino s.inode_manager ≡ ok (some id))
      × (get files account_id id s.inode_manager.conn ≡ ok (some file))
      × (file.is_directory ≡ false)

  -- `open` leaves the handles alone, or gives out the next one for the file in the cache that the
  -- inode stands for, which is no directory.
  pub data Opens (ino : ℕ) (s : System) : Reply × System → Type 0 where
    quiet : {r : Reply × System} → Quiet s r → Opens ino s r
    gives :
        (cache_root id : Text) (file : CachedFile) (s' : System)
        → IsFileOf ino s id file
        → content_cache ≡ some cache_root
        → s'.open_files ≡ (s.next_fh, join cache_root id) ∷ s.open_files
        → s'.next_fh ≡ (s.next_fh + 1) % 2 ^ 64
        → Opens ino s (opened s.next_fh, s')

  opened_at-Opens :
      (ino : ℕ) (cache_root id : Text) (file : CachedFile) (s : System)
      → IsFileOf ino s id file
      → content_cache ≡ some cache_root
      → (r : Result Errno Text × State World Conn)
      → ((p : Text) → r.0 ≡ ok p → p ≡ join cache_root id)
      → Opens ino s (
          opened_at inodes files account_id disk exists remote to_string content_cache epoch room
            now s r)
  unfolding opened_at given
  opened_at-Opens ino cache_root id file s i c (ok p, t) h =
      gives cache_root id file _ i c (ap (λ q. (s.next_fh, q) ∷ s.open_files) (h p refl)) refl
  opened_at-Opens ino cache_root id file s i c (err e, t) h =
      quiet (record { files = refl; counter = refl; none_given = refl })

  open_file-Opens :
      (ino : ℕ) (id : Text) (file : CachedFile) (s : System)
      → IsFileOf ino s id file
      → (cache : Option Text) → content_cache ≡ cache
      → Opens ino s (
          open_file inodes files account_id disk exists remote to_string content_cache epoch room
            now id s cache)
  unfolding open_file given cached_path
  open_file-Opens ino id file s i none c = quiet (same-Quiet s _ refl)
  open_file-Opens ino id file s i (some cache_root) c =
      opened_at-Opens ino cache_root id file s i c _ (λ p h.
        ensure_downloaded-path files account_id now exists remote to_string cache_root id _ p h)

  pub open_inode-Opens :
      (ino : ℕ) (s : System)
      → Opens ino s (
          open_inode inodes files account_id disk exists remote to_string content_cache epoch room
            now ino s)
  unfolding open_inode open_found inode_file given
  open_inode-Opens ino s = found _ refl
    where
      found :
          (r : Result Errno (Text × CachedFile))
          → inode_file inodes files account_id disk exists remote to_string content_cache epoch room
              now ino s
            ≡ r
          → Opens ino s (
              open_found inodes files account_id disk exists remote to_string content_cache epoch
                room now s r)
      found (err e) h = quiet (same-Quiet s _ refl)
      found (ok (id, file)) h = elim (Bool-cases file.is_directory) [
        | inl folder ↦ rw folder (quiet (same-Quiet s _ refl))
        | inr other ↦
            let (key, there) = file_of-ok s.inode_manager.conn _ id file h in
            rw other (
              open_file-Opens ino id file s (file_id_found-ok _ id key, there, other) content_cache
                refl)
      ]
