-- ===== src/Vfs/Filesystem/Tests.antt =====
-- Runs of the callbacks on tables in memory, and the instances of the theorems there.
use uni_cloud_file_sync_thin.Prelude.{
  Text, text, ℕ, ◌+◌, ◌*◌, ◌≤◌, ◌<◌, Bool, true, false, none, some, List, [], ◌∷◌, ◌++◌, map, Perm,
  ◌↔◌, ◌⊎◌, length, keep, find, take, drop, dec_text, leb_text, ok, err, ◌≡◌, refl, arith,
  ℕ_discrete, ltb, if◌then◌else◌,
}
use uni_cloud_file_sync_thin.Core.CloudPath.{new, root, starts_slash, replace_backslash, trim_end}
use uni_cloud_file_sync_thin.Core.LocalPath.{join}
use uni_cloud_file_sync_thin.Core.Provider.{CloudProvider}
use uni_cloud_file_sync_thin.Core.Types.{Error}
use uni_cloud_file_sync_thin.Db.Files as Files
use uni_cloud_file_sync_thin.Db.Files.{FileRow}
use uni_cloud_file_sync_thin.Db.Files.Selection.{list_files, of_account, path_order, collect_files}
use uni_cloud_file_sync_thin.Db.Inodes as Inodes
use uni_cloud_file_sync_thin.Db.Inodes.{InodeRow}
use uni_cloud_file_sync_thin.Db.Sqlite.{Table}
use uni_cloud_file_sync_thin.Db.Sqlite.Pair.{first_table, second_table}
use uni_cloud_file_sync_thin.Db.Sqlite.Memory.{
  memory, memory_insert, memory_update, sort, clear_of, all_clear,
}
use uni_cloud_file_sync_thin.Vfs.Cache.{
  CachedFile, CacheState, prefix_of, remainder, no_slash, is_child, db_file_to_cached_file, get,
  get_children,
}
use uni_cloud_file_sync_thin.Vfs.Cache.Shown.{shown_row}
use uni_cloud_file_sync_thin.Vfs.Cache.Children.{in_directory, IsEntry, get_children-entries}
use uni_cloud_file_sync_thin.Vfs.Content.{
  Errno, LocalFiles, ensure_downloaded, cached_path, read_file_at, zeros,
}
use uni_cloud_file_sync_thin.Vfs.Filesystem.{
  CloudSyncFs, path_of, lookup, getattr, readdir, open_inode, read, release, child_entries,
}
use uni_cloud_file_sync_thin.Vfs.Filesystem.Replies.{
  FileType, FileAttr, attr_at, Entry, Added, Reply, opened, page, add_entries, cached_file_to_attr,
  dot_entries,
}
use uni_cloud_file_sync_thin.Vfs.Filesystem.Attributes.{cached_file_to_attr-blocks}
use uni_cloud_file_sync_thin.Vfs.Filesystem.Paging.{all_pages, indexed, readdir-all_pages}
use uni_cloud_file_sync_thin.Vfs.Filesystem.Runs.{
  Request, to_open, to_release, to_read, run, serve, Increasing, Valid, Opened, run-Increasing,
  open-read,
}
use uni_cloud_file_sync_thin.Vfs.Inode.{get_or_allocate, get_file_id}

abbrev child : CachedFile
child = record {
  file_id = text "a";
  name = text "a";
  path = text "/a";
  size = 1025;
  is_directory = false;
  modified_time = 0;
  state = CacheState.cached;
}

cached_file_to_attr-blocks_example :
    ((0 < 0) × (cached_file_to_attr 0 child 2 ≡ none))
    ⊎ ((found : FileAttr) × (cached_file_to_attr 0 child 2 ≡ some found)
        × (found.ino ≡ 2)
        × (found.mtime + 0 ≡ 0)
        × (found.size ≡ 1025)
        × (1025 ≤ 512 * found.blocks)
        × (512 * found.blocks < 1025 + 512))
cached_file_to_attr-blocks_example = cached_file_to_attr-blocks 0 child 2

abbrev three : List Entry
three = dot_entries 1 ++ record { ino = 5; kind = FileType.regular_file; name = text "a" } ∷ []

-- A reply with room for two entries.
abbrev two : List Added → Added → Bool
two added x = ltb (length added) 2

readdir-all_pages_example : all_pages two 3 0 three ≡ indexed 0 (drop 0 three)
unfolding dot_entries
readdir-all_pages_example = readdir-all_pages two (λ x. refl) 3 0 three (omega arith)

-- The database holds both tables.
abbrev Conn : Type 0
Conn = List FileRow × List InodeRow

abbrev inodes : Table Inodes.clash Conn
inodes = second_table (memory Inodes.clash)

abbrev files : Table Files.clash Conn
files = first_table (memory Files.clash)

abbrev row : ℕ → Text → ℕ → FileRow
row id name is_folder = record {
  id = id;
  account_id = text "acc";
  provider_file_id = name;
  path = text "/" ++ name;
  name = name;
  size = some 3;
  content_hash = none;
  is_folder = is_folder;
  state = text "cloud_only";
  modified_at = 5;
  synced_at = none;
  created_at = 5;
  updated_at = 5;
}

-- The world: whether the file is on the disk.
abbrev remote : CloudProvider Bool
remote = record {
  list_folder = λ p w. (err (Error.io p), w);
  get_changes = λ c w. (err (Error.io []), w);
  download = λ id dest w. (ok tt, true);
}

abbrev disk : LocalFiles Bool (List ℕ)
disk = record {
  contents = λ p w. some (7 ∷ 8 ∷ 9 ∷ []);
  whole = λ h. h;
  position = λ h. 0;
  open_file = λ p w. if w then ok (7 ∷ 8 ∷ 9 ∷ []) else err (text "not found");
  seek = λ offset h. ok (drop offset h);
  read = λ h buf. ok (length (take (length buf) h), h);
}

abbrev start : CloudSyncFs Bool Conn
start = record {
  inode_manager = record {
    conn = (
      row 2 (text "b") 1 ∷ row 1 (text "a") 0 ∷ [],
      record { inode = 2; file_id = text "a"; created_at = 0 }
          ∷ record { inode = 1; file_id = text "root"; created_at = 0 }
          ∷ [],
    );
    next_inode = 3;
  };
  world = false;
  locks = [];
  open_files = [];
  next_fh = 1;
}

program : Unit {0}
unfolding run serve lookup getattr readdir open_inode read release path_of page add_entries
    dot_entries child_entries cached_file_to_attr attr_at get get_children is_child remainder
    prefix_of no_slash db_file_to_cached_file get_or_allocate get_file_id ensure_downloaded
    cached_path read_file_at zeros Files.get_file_by_provider_id list_files Files.from_row
    Files.to_row Files.update_file Files.by_id Files.by_provider_id of_account path_order
    collect_files Files.clash Inodes.clash Inodes.get_or_insert_inode Inodes.get_file_id_by_inode
    Inodes.get_inode_by_file_id Inodes.insert_inode Inodes.by_inode Inodes.by_file_id new root
    starts_slash replace_backslash trim_end join memory_insert memory_update sort clear_of all_clear
    find keep take drop leb_text dec_text ℕ_discrete
program = tt

abbrev shown : Reply × CloudSyncFs Bool Conn → Reply
shown r = r.0

run_open :
    shown (
      open_inode inodes files
        (text "acc")
        disk
        (λ p w. w)
        remote
        (λ e. [])
        (some (text "c"))
        0
        two
        0
        2
        start)
    ≡ opened 1
unfolding program
run_open = refl

-- The second page of the root directory.
run_readdir :
    shown (
      readdir inodes files
        (text "acc")
        disk
        (λ p w. w)
        remote
        (λ e. [])
        (some (text "c"))
        0
        two
        0
        1
        2
        start)
    ≡ Reply.listing (
        record {
          offset = 3;
          entry = record { ino = 2; kind = FileType.regular_file; name = text "a" };
        }
        ∷ record {
          offset = 4;
          entry = record { ino = 3; kind = FileType.directory; name = text "b" };
        }
        ∷ [])
unfolding program
run_readdir = refl

run_read_closed :
    shown (
      read inodes files
        (text "acc")
        disk
        (λ p w. w)
        remote
        (λ e. [])
        (some (text "c"))
        0
        two
        0
        1
        0
        2
        start)
    ≡ Reply.error Errno.ebadf
unfolding program
run_read_closed = refl

start-Valid : Valid start
start-Valid = record { older = tt; fits = omega arith }

abbrev requests : List Request
requests = to_open 2 ∷ to_read 1 0 2 ∷ to_release 1 ∷ to_open 2 ∷ []

run_reopened :
    (run inodes files
      (text "acc")
      disk
      (λ p w. w)
      remote
      (λ e. [])
      (some (text "c"))
      0
      two
      0
      requests
      start).0
    ≡ 1 ∷ 2 ∷ []
unfolding program
run_reopened = refl

run-Increasing_example :
    Increasing 1
      (run inodes files
        (text "acc")
        disk
        (λ p w. w)
        remote
        (λ e. [])
        (some (text "c"))
        0
        two
        0
        requests
        start).0
    × Valid
        (run inodes files
          (text "acc")
          disk
          (λ p w. w)
          remote
          (λ e. [])
          (some (text "c"))
          0
          two
          0
          requests
          start).1
run-Increasing_example =
    run-Increasing inodes files (text "acc") disk (λ p w. w) remote (λ e. []) (some (text "c")) 0
      two 0 requests start start-Valid (omega arith)

-- After `open` on the file.
abbrev after_open : CloudSyncFs Bool Conn
after_open =
    (open_inode inodes files (text "acc") disk (λ p w. w) remote (λ e. []) (some (text "c")) 0 two 0
      2 start).1

open-read_example :
    Opened inodes files
      (text "acc")
      disk
      (λ p w. w)
      remote
      (λ e. [])
      (some (text "c"))
      0
      two
      0
      2
      1
      start
      after_open
unfolding program
open-read_example =
    open-read inodes files (text "acc") disk (λ p w. w) remote (λ e. []) (some (text "c")) 0 two 0 2
      1 start after_open start-Valid refl

abbrev cached_at : Text → Bool → CachedFile
cached_at name is_directory = record {
  file_id = name;
  name = name;
  path = text "/" ++ name;
  size = 3;
  is_directory = is_directory;
  modified_time = 5000000000;
  state = CacheState.cloud_only;
}

abbrev listed : List CachedFile
listed = cached_at (text "a") false ∷ cached_at (text "b") true ∷ []

get_children-entries_example :
    Perm listed (
      map shown_row
        (keep (in_directory (text "acc") (text "/")) (files.rows start.inode_manager.conn)))
    × ((path : Text) → (is_child (text "/") path ≡ true) ↔ IsEntry (text "/") path)
unfolding program
get_children-entries_example =
    get_children-entries files (text "acc") (text "/") start.inode_manager.conn listed refl
