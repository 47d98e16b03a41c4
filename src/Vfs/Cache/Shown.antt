-- ===== src/Vfs/Cache/Shown.antt =====
-- What crates/cloudsync-vfs/src/cache.rs shows of a row of the table of files.
use uni_cloud_file_sync_thin.Prelude.{
  Text, text, ℕ, ◌*◌, ◌==◌, not, Option, none, some, ite, dec_text, ℕ_discrete, Result, ok, ◌≡◌,
  refl, sym, ap, ◌∙◌, arith,
}
use uni_cloud_file_sync_thin.Core.CloudPath as CloudPath
use uni_cloud_file_sync_thin.Core.FileState.{FileState}
use uni_cloud_file_sync_thin.Db.Files.{File, FileRow, from_row, file_of, parse_state, state_name}
use uni_cloud_file_sync_thin.Db.Files.Rows.{parse_state-some}
use uni_cloud_file_sync_thin.Db.Sqlite.{SqlError}
use uni_cloud_file_sync_thin.Vfs.Cache.{
  CacheState, CachedFile, db_file_to_cached_file, file_state_to_cache_state, size_or_zero,
}

-- The state that is shown for the name of a state in the table.
unfoldable pub shown_state : Text → CacheState
unfolding dec_text
shown_state name = ite (dec_text name (text "synced")) CacheState.cached (
    ite (dec_text name (text "syncing")) CacheState.downloading
      (ite (dec_text name (text "offline_modified")) CacheState.modified CacheState.cloud_only))

-- What a row is shown as: a size that is not known as 0, and the time of the whole seconds.
abbrev pub shown_row : FileRow → CachedFile
shown_row row = record {
  file_id = row.provider_file_id;
  name = row.name;
  path = CloudPath.new row.path;
  size = elim row.size [ none ↦ 0 | some size ↦ size ];
  is_directory = not (row.is_folder == 0);
  modified_time = row.modified_at * 1000000000;
  state = shown_state row.state;
}

shown_state-state_name :
    (state : FileState) → shown_state (state_name state) ≡ file_state_to_cache_state state
unfolding shown_state state_name file_state_to_cache_state ℕ_discrete
shown_state-state_name FileState.synced = refl
shown_state-state_name FileState.cloud_only = refl
shown_state-state_name FileState.syncing = refl
shown_state-state_name FileState.pending = refl
shown_state-state_name FileState.error = refl
shown_state-state_name FileState.excluded = refl
shown_state-state_name FileState.offline_modified = refl
shown_state-state_name FileState.conflict = refl

size_or_zero-elim : (o : Option ℕ) → size_or_zero o ≡ elim o [ none ↦ 0 | some size ↦ size ]
unfolding size_or_zero
size_or_zero-elim none = refl
size_or_zero-elim (some size) = refl

pub from_row-shown :
    (row : FileRow) (file : File)
    → from_row row ≡ ok file
    → (CloudPath.new row.path ≡ file.path) × (db_file_to_cached_file file ≡ shown_row row)
unfolding from_row db_file_to_cached_file
from_row-shown row file h = fields (parse_state row.state) refl h
  where
    ok_inj : {x y : File} → ◌≡◌ {A = Result SqlError File} (ok x) (ok y) → x ≡ y
    ok_inj h = ground arith

    fields :
        (o : Option FileState)
        → parse_state row.state ≡ o
        → file_of row o ≡ ok file
        → (CloudPath.new row.path ≡ file.path) × (db_file_to_cached_file file ≡ shown_row row)
    fields none e h = absurd (ground arith)
    fields (some state) e h = (
      ap (λ f. f.path) (ok_inj h),
      ap db_file_to_cached_file (sym (ok_inj h))
          ∙ ap (λ s. record (shown_row row) { state = s })
              (sym (shown_state-state_name state)
                ∙ ap shown_state (sym (parse_state-some row.state state e)))
          ∙ refl,
    )
