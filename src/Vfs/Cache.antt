-- ===== src/Vfs/Cache.antt =====
-- crates/cloudsync-vfs/src/cache.rs: what the file system shows of the table of files.
pub mod Shown
pub mod Children
use uni_cloud_file_sync_thin.Prelude.{
  Text, slash, ℕ, Bool, true, false, Option, none, some, List, [], ◌∷◌, ◌++◌, map, keep, ite,
  dec_text, ◌==◌, ◌&&◌, not, if◌then◌else◌, Result, ok, err,
}
use mathlib.Core.Option
use uni_cloud_file_sync_thin.Core.CloudPath.{root, trim_end}
use uni_cloud_file_sync_thin.Core.FileState.{FileState}
use uni_cloud_file_sync_thin.Core.Types.{AccountId, FileId, DateTime}
use uni_cloud_file_sync_thin.Db.Error.{DbError}
use uni_cloud_file_sync_thin.Db.Files.{File, clash, get_file_by_provider_id}
use uni_cloud_file_sync_thin.Db.Files.Selection.{list_files}
use uni_cloud_file_sync_thin.Db.Sqlite.{Table}

pub data CacheState : Type 0 where
  cloud_only downloading cached modified : CacheState

pub record CachedFile : Type 0 where
  pub file_id : FileId
  pub name : Text
  pub path : Text
  pub size : ℕ
  pub is_directory : Bool
  pub modified_time : DateTime
  pub state : CacheState

-- `file_state_to_cache_state`
unfoldable pub file_state_to_cache_state : FileState → CacheState
file_state_to_cache_state FileState.synced = CacheState.cached
file_state_to_cache_state FileState.syncing = CacheState.downloading
file_state_to_cache_state FileState.offline_modified = CacheState.modified
file_state_to_cache_state _ = CacheState.cloud_only

-- `file.size.unwrap_or(0)`
unfoldable pub size_or_zero : Option ℕ → ℕ
size_or_zero none = 0
size_or_zero (some size) = size

-- `db_file_to_cached_file`
unfoldable pub db_file_to_cached_file : File → CachedFile
unfolding file_state_to_cache_state size_or_zero
db_file_to_cached_file file = record {
  file_id = file.provider_file_id;
  name = file.name;
  path = file.path;
  size = size_or_zero file.size;
  is_directory = file.is_folder;
  modified_time = file.modified_at;
  state = file_state_to_cache_state file.state;
}

-- The prefix of the paths below a directory.
unfoldable pub prefix_of : Text → Text
unfolding dec_text root trim_end
prefix_of parent = ite (dec_text parent root) root (trim_end parent ++ slash ∷ [])

-- `path.starts_with(&prefix)`, with `&path[prefix.len()..]`
unfoldable pub remainder : Text → Text → Option Text
remainder [] path = some path
remainder (p ∷ prefix) [] = none
remainder (p ∷ prefix) (c ∷ path) =
    let rest = remainder prefix path in if p == c then rest else none

-- `!remainder.contains('/')`
unfoldable pub no_slash : Text → Bool
no_slash [] = true
no_slash (c ∷ s) = not (c == slash) && no_slash s

unfoldable pub direct : Option Text → Bool
unfolding no_slash
direct none = false
direct (some rest) = no_slash rest

-- The test of the filter in `get_children`.
unfoldable pub is_child : Text → Text → Bool
unfolding direct remainder prefix_of
is_child parent path = direct (remainder (prefix_of parent) path)

module _ {Conn : Type 0} (files : Table clash Conn) (account_id : AccountId) where
  shown : Result DbError (Option File) → Result DbError (Option CachedFile)
  unfolding db_file_to_cached_file
  shown (ok file) = ok (Option.map db_file_to_cached_file file)
  shown (err e) = err e

  -- `MetadataCache::get`
  unfoldable pub get : FileId → Conn → Result DbError (Option CachedFile)
  unfolding shown get_file_by_provider_id
  get file_id conn = shown (get_file_by_provider_id files account_id file_id conn)

  children_of : Text → Result DbError (List File) → Result DbError (List CachedFile)
  unfolding is_child db_file_to_cached_file keep
  children_of parent (ok all_files) =
      ok (map db_file_to_cached_file (keep (λ file. is_child parent file.path) all_files))
  children_of parent (err e) = err e

  -- `MetadataCache::get_children`
  unfoldable pub get_children : Text → Conn → Result DbError (List CachedFile)
  unfolding children_of list_files
  get_children parent conn = children_of parent (list_files files account_id none conn)
