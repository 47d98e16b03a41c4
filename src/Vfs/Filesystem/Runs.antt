-- ===== src/Vfs/Filesystem/Runs.antt =====
-- Callbacks one after the other: what an opened file is read from, and which handles a run of the
-- file system gives out.
use uni_cloud_file_sync_thin.Prelude.{
  Text, ℕ, ◌+◌, ◌^◌, ◌≤◌, ◌<◌, Bool, false, Result, ok, err, Option, none, some, List, [], ◌∷◌,
  length, ◌≡◌, ◌≢◌, ◌⊎◌, inl, inr, refl, ap, subst, arith,
}
use uni_cloud_file_sync_thin.Core.Provider.{CloudProvider}
use uni_cloud_file_sync_thin.Core.Types.{AccountId, DateTime, Error}
use uni_cloud_file_sync_thin.Db.Files as Files
use uni_cloud_file_sync_thin.Db.Inodes as Inodes
use uni_cloud_file_sync_thin.Db.Sqlite.{Table}
use uni_cloud_file_sync_thin.Vfs.Content.{Errno, LocalFiles, read_file_at}
use uni_cloud_file_sync_thin.Core.LocalPath.{join}
use uni_cloud_file_sync_thin.Vfs.Cache.{CachedFile, get}
use uni_cloud_file_sync_thin.Vfs.Inode.{get_file_id}
use uni_cloud_file_sync_thin.Vfs.Filesystem.{
  CloudSyncFs, path_of, getattr, lookup, readdir, open_inode, read, release, replied, read_from,
}
use uni_cloud_file_sync_thin.Vfs.Filesystem.Replies.{Added, Reply, opened, bytes, error}
use uni_cloud_file_sync_thin.Vfs.Filesystem.Handles.{
  IsValid, Quiet, given, path_of-older, path_of-without, All-without, All-older,
}
use uni_cloud_file_sync_thin.Vfs.Filesystem.Opens.{Opens, quiet, gives, open_inode-Opens}
use uni_cloud_file_sync_thin.Vfs.Filesystem.Quiet.{
  lookup-Quiet, getattr-Quiet, readdir-Quiet, read-Quiet,
}

-- What the kernel asks of the file system.
pub data Request : Type 0 where
  to_look_up : ℕ → Option Text → Request
  to_get_attributes : ℕ → Request
  to_list : ℕ → ℕ → Request
  to_open : ℕ → Request
  to_read : ℕ → ℕ → ℕ → Request
  to_release : ℕ → Request

-- Handles in the order in which they were given out, none below the bound and none twice.
abbrev pub Increasing : ℕ → List ℕ → Type 0
Increasing bound [] = Unit
Increasing bound (fh ∷ fhs) = (bound ≤ fh) × Increasing (fh + 1) fhs

abbrev listed : Option ℕ → List ℕ → List ℕ
listed none fhs = fhs
listed (some fh) fhs = fh ∷ fhs

abbrev pub Valid : {World Conn : Type 0} → CloudSyncFs World Conn → Type 0
Valid s = IsValid s.next_fh s.open_files

module _ {World Conn Handle : Type 0} (inodes : Table Inodes.clash Conn)
    (files : Table Files.clash Conn) (account_id : AccountId) (disk : LocalFiles World Handle)
    (exists : Text → World → Bool) (remote : CloudProvider World) (to_string : Error → Text)
    (content_cache : Option Text) (epoch : ℕ) (room : List Added → Added → Bool)
    (now : DateTime) where
  abbrev pub FsState : Type 0
  FsState = CloudSyncFs World Conn

  unfoldable pub serve : Request → FsState → Reply × FsState
  unfolding lookup getattr readdir open_inode read release
  serve (to_look_up parent name) s =
      lookup inodes files account_id disk exists remote to_string content_cache epoch room now
        parent name s
  serve (to_get_attributes ino) s =
      getattr inodes files account_id disk exists remote to_string content_cache epoch room now ino
        s
  serve (to_list ino offset) s =
      readdir inodes files account_id disk exists remote to_string content_cache epoch room now ino
        offset s
  serve (to_open ino) s =
      open_inode inodes files account_id disk exists remote to_string content_cache epoch room now
        ino s
  serve (to_read fh offset size) s =
      read inodes files account_id disk exists remote to_string content_cache epoch room now fh
        offset size s
  serve (to_release fh) s =
      release inodes files account_id disk exists remote to_string content_cache epoch room now fh s

  -- The handles given out in a run, and the state after it. A session that ends with a panic is a
  -- run that ends there.
  unfoldable pub run : List Request → FsState → List ℕ × FsState
  unfolding serve given
  run [] s = ([], s)
  run (request ∷ requests) s =
      let served = serve request s in
      let rest = run requests served.1 in (listed (given served.0) rest.0, rest.1)

  -- One callback: a handle that it gives out is the counter's value, which is raised.
  record Keeps (s : FsState) (r : Reply × FsState) : Type 0 where
    valid : Valid r.1
    counter :
        ((given r.0 ≡ none) × (r.1.next_fh ≡ s.next_fh))
        ⊎ ((given r.0 ≡ some s.next_fh) × (r.1.next_fh ≡ s.next_fh + 1))

  Quiet-Keeps : (s : FsState) (r : Reply × FsState) → Valid s → Quiet s r → Keeps s r
  Quiet-Keeps s r v q = record {
    valid = rw (q.files, q.counter) (record { older = v.older; fits = v.fits });
    counter = inl (q.none_given, q.counter);
  }

  Opens-Keeps :
      (ino : ℕ) (s : FsState) (r : Reply × FsState)
      → Valid s
      → s.next_fh + 1 < 2 ^ 64
      → Opens inodes files account_id disk exists remote to_string content_cache epoch room now ino
          s r
      → Keeps s r
  unfolding given
  Opens-Keeps ino s r v small (quiet q) = Quiet-Keeps s r v q
  Opens-Keeps ino s (_, _) v small (gives cache_root id file s' i c open_files counter) =
      let next : s'.next_fh ≡ s.next_fh + 1 = omega (arith, counter) in
      record {
        valid = record {
          older =
              rw open_files
                (omega arith, All-older s.next_fh s'.next_fh s.open_files (omega arith) v.older);
          fits = omega arith;
        };
        counter = inr (refl, next);
      }

  serve-Keeps :
      (request : Request) (s : FsState)
      → Valid s
      → s.next_fh + 1 < 2 ^ 64
      → Keeps s (serve request s)
  unfolding serve release given
  serve-Keeps (to_look_up parent name) s v small = Quiet-Keeps s _ v (
      lookup-Quiet inodes files account_id disk exists remote to_string content_cache epoch room now
        parent name s)
  serve-Keeps (to_get_attributes ino) s v small = Quiet-Keeps s _ v (
      getattr-Quiet inodes files account_id disk exists remote to_string content_cache epoch room
        now ino s)
  serve-Keeps (to_list ino offset) s v small = Quiet-Keeps s _ v (
      readdir-Quiet inodes files account_id disk exists remote to_string content_cache epoch room
        now ino offset s)
  serve-Keeps (to_open ino) s v small = Opens-Keeps ino s _ v small (
      open_inode-Opens inodes files account_id disk exists remote to_string content_cache epoch room
        now ino s)
  serve-Keeps (to_read fh offset size) s v small = Quiet-Keeps s _ v (
      read-Quiet inodes files account_id disk exists remote to_string content_cache epoch room now
        fh offset size s)
  serve-Keeps (to_release fh) s v small = record {
    valid = record { older = All-without fh s.next_fh s.open_files v.older; fits = v.fits };
    counter = inl (refl, refl);
  }

  -- In every run of callbacks that starts in a valid state and has fewer callbacks than the counter
  -- has values left, the handles that are given out increase, so that none is given out twice; and
  -- the state after it is valid: every handle of an open file is below the counter.
  pub run-Increasing :
      (requests : List Request) (s : FsState)
      → Valid s
      → s.next_fh + length requests < 2 ^ 64
      → Increasing s.next_fh (run requests s).0 × Valid (run requests s).1
  unfolding run
  run-Increasing [] s v small = (tt, v)
  run-Increasing (request ∷ requests) s v small =
      let kept = serve-Keeps request s v (omega arith) in
      elim kept.counter [
        | inl (none_given, same) ↦
            let (up, valid) =
              run-Increasing requests (serve request s).1 kept.valid (omega arith) in
            (
              rw none_given
                  (subst (λ n. Increasing n (run requests (serve request s).1).0) same up),
              valid,
            )
        | inr (gave, raised) ↦
            let (up, valid) =
              run-Increasing requests (serve request s).1 kept.valid (omega arith) in
            (
              rw gave (
                omega arith,
                subst (λ n. Increasing n (run requests (serve request s).1).0) raised up,
              ),
              valid,
            )
      ]

  -- What was read is the reply, or why it could not be, and the state stays.
  abbrev pub Answers : Result Errno (List ℕ) → FsState → Reply × FsState → Type 0
  Answers (ok data_read) s r = r ≡ (bytes data_read, s)
  Answers (err e) s r = r ≡ (error e, s)

  replied-Answers :
      (s : FsState) (r : Result Errno (List ℕ))
      → Answers r s (
        replied inodes files account_id disk exists remote to_string content_cache epoch room now r,
        s,
      )
  unfolding replied
  replied-Answers s (ok found) = refl
  replied-Answers s (err e) = refl

  -- The handle is new; it stands for the file of the inode, whose bytes the cache keeps at its
  -- identifier below its root; it leaves the others alone, and ends with its release.
  abbrev pub Opened : ℕ → ℕ → FsState → FsState → Type 0
  Opened ino fh s s' =
      (path_of fh s.open_files ≡ none)
      × ((cache_root : Text) × (id : Text) × (file : CachedFile) × (content_cache ≡ some cache_root)
          × (get_file_id inodes ino s.inode_manager ≡ ok (some id))
          × (get files account_id id s.inode_manager.conn ≡ ok (some file))
          × (file.is_directory ≡ false)
          × ((offset size : ℕ)
              → Answers (read_file_at disk (join cache_root id) offset size s'.world) s' (
                  read inodes files account_id disk exists remote to_string content_cache epoch room
                    now fh offset size s')))
      × ((other : ℕ) → other ≢ fh → path_of other s'.open_files ≡ path_of other s.open_files)
      × (path_of fh
            (release inodes files account_id disk exists remote to_string content_cache epoch room
              now fh s').1.open_files
          ≡ none)

  Opens-Opened :
      (ino fh : ℕ) (s : FsState) (r : Reply × FsState)
      → Valid s
      → Opens inodes files account_id disk exists remote to_string content_cache epoch room now ino
          s r
      → r.0 ≡ opened fh
      → Opened ino fh s r.1
  unfolding read release read_from path_of given
  Opens-Opened ino fh s r v (quiet q) e =
      absurd (let k = q.none_given in let l = rw e at k in ground arith)
  Opens-Opened ino fh s (_, _) v
        (gives cache_root id file s' (key, there, other) c open_files counter) e =
      let same : s.next_fh ≡ fh = ground arith in
      let found : path_of fh s'.open_files ≡ some (join cache_root id) =
        rw open_files (ground arith) in
      (
        path_of-older fh s.next_fh s.open_files v.older (omega arith),
        (
          cache_root,
          id,
          file,
          c,
          key,
          there,
          other,
          λ offset size. rw (found, c) (replied-Answers s' _),
        ),
        λ other apart. rw open_files (ground arith),
        path_of-without fh s'.open_files,
      )

  -- When `open` gives out a handle for an inode in a valid state, the handle was not in use; the
  -- tables hold a file for the inode, no directory; reading from the handle then reads the file of
  -- that identifier below the root of the cache; every other handle is as it was; and when it is
  -- released, it is not in use any more.
  pub open-read :
      (ino fh : ℕ) (s s' : FsState)
      → Valid s
      → open_inode inodes files account_id disk exists remote to_string content_cache epoch room now
          ino s
        ≡ (opened fh, s')
      → Opened ino fh s s'
  open-read ino fh s s' v h = subst (Opened ino fh s) (ap (λ r. r.1) h) (
      Opens-Opened ino fh s _ v
        (open_inode-Opens inodes files account_id disk exists remote to_string content_cache epoch
          room now ino s)
        (ap (λ r. r.0) h))
