-- ===== src/Vfs/MetadataSync.antt =====
-- crates/cloudsync-vfs/src/metadata_sync.rs: the table of files is brought in line with what the
-- provider lists, and then with its changes. The state is the world and the connection to the
-- database; `now` is the instant of a call, and `clock` the instants of the calls of a
-- synchronisation, one after the other.
pub mod Upsert
pub mod Tests
use uni_cloud_file_sync_thin.Prelude.{
  Text, text, ℕ, zero, suc, ◌+◌, Bool, true, false, Option, none, some, List, [], ◌∷◌, length,
  Result, ok, err,
}
use uni_cloud_file_sync_thin.Core.CloudPath.{root}
use uni_cloud_file_sync_thin.Core.FileState.{FileState}
use uni_cloud_file_sync_thin.Core.Provider.{CloudProvider}
use uni_cloud_file_sync_thin.Core.Types.{
  AccountId, FileId, CloudItem, Change, ChangeList, DateTime, Error,
}
use uni_cloud_file_sync_thin.Db.Cursors as Cursors
use uni_cloud_file_sync_thin.Db.Error.{DbError}
use uni_cloud_file_sync_thin.Db.Files as Files
use uni_cloud_file_sync_thin.Db.Files.{
  File, get_file_by_provider_id, update_file, create_file, delete_file, timestamp,
}
use uni_cloud_file_sync_thin.Db.Sqlite.{Table}

-- An error of the provider with its context, or one of the database.
pub data SyncError : Type 0 where
  provider : Text → Error → SyncError
  database : DbError → SyncError

-- `cloud_item_to_db_file`
unfoldable pub cloud_item_to_db_file : DateTime → AccountId → CloudItem → File
unfolding Files.new
cloud_item_to_db_file now account_id item =
    record (Files.new account_id item.id item.path item.name item.size item.content_hash
      item.is_folder item.modified now) { state = FileState.cloud_only }

-- What an item overwrites of a file that is known.
unfoldable pub overwritten : CloudItem → File → File
overwritten item file = record file {
  name = item.name;
  path = item.path;
  size = item.size;
  content_hash = item.content_hash;
  is_folder = item.is_folder;
  modified_at = item.modified;
}

module _ {Conn : Type 0} (files : Table Files.clash Conn) (assigned : Conn → ℕ)
    (account_id : AccountId) (now : DateTime) where
  -- `?` on a result whose value is not used.
  done : {A : Type 0} → Result DbError A × Conn → Result DbError (Unit {0}) × Conn
  done (ok a, conn) = (ok tt, conn)
  done (err e, conn) = (err e, conn)

  upsert_found : CloudItem → Conn → Result DbError (Option File) → Result DbError (Unit {0}) × Conn
  unfolding done cloud_item_to_db_file overwritten update_file create_file
  upsert_found item conn (ok (some file)) =
      done (update_file files now (overwritten item file) conn)
  upsert_found item conn (ok none) =
      done (create_file files assigned (cloud_item_to_db_file now account_id item) conn)
  upsert_found item conn (err e) = (err e, conn)

  -- `upsert_cloud_item`
  unfoldable pub upsert_cloud_item : CloudItem → Conn → Result DbError (Unit {0}) × Conn
  unfolding upsert_found get_file_by_provider_id
  upsert_cloud_item item conn =
      upsert_found item conn (get_file_by_provider_id files account_id item.id conn)

  delete_found : Conn → Result DbError (Option File) → Result DbError (Unit {0}) × Conn
  unfolding done delete_file
  delete_found conn (ok (some file)) = done (delete_file files file.id conn)
  delete_found conn (ok none) = (ok tt, conn)
  delete_found conn (err e) = (err e, conn)

  apply_item : Conn → Option CloudItem → Result DbError (Unit {0}) × Conn
  unfolding upsert_cloud_item
  apply_item conn none = (ok tt, conn)
  apply_item conn (some item) = upsert_cloud_item item conn

  apply_deleted : Change → Conn → Bool → Result DbError (Unit {0}) × Conn
  unfolding delete_found apply_item get_file_by_provider_id
  apply_deleted change conn true =
      delete_found conn (get_file_by_provider_id files account_id change.file_id conn)
  apply_deleted change conn false = apply_item conn change.item

  -- `apply_change`
  unfoldable pub apply_change : Change → Conn → Result DbError (Unit {0}) × Conn
  unfolding apply_deleted
  apply_change change conn = apply_deleted change conn change.deleted

-- `clock` gives the instants, and `tick` counts the readings of the clock: one for each item or change
-- and one for each cursor that is stored.
module _ {Conn : Type 0} (files : Table Files.clash Conn) (assigned : Conn → ℕ)
    (account_id : AccountId) (clock : ℕ → DateTime) where
  -- A loop that stops at the first error.
  then_rest :
      (Conn → Result DbError (Unit {0}) × Conn)
      → Result DbError (Unit {0}) × Conn
      → Result DbError (Unit {0}) × Conn
  then_rest rest (ok _, conn) = rest conn
  then_rest rest (err e, conn) = (err e, conn)

  -- `for item in &items`
  unfoldable pub upsert_items : ℕ → List CloudItem → Conn → Result DbError (Unit {0}) × Conn
  unfolding then_rest upsert_cloud_item
  upsert_items tick [] conn = (ok tt, conn)
  upsert_items tick (item ∷ items) conn =
      then_rest (upsert_items (tick + 1) items)
        (upsert_cloud_item files assigned account_id (clock tick) item conn)

  -- `for change in &change_list.changes`
  unfoldable pub apply_changes : ℕ → List Change → Conn → Result DbError (Unit {0}) × Conn
  unfolding then_rest apply_change
  apply_changes tick [] conn = (ok tt, conn)
  apply_changes tick (change ∷ changes) conn =
      then_rest (apply_changes (tick + 1) changes)
        (apply_change files assigned account_id (clock tick) change conn)

  module _ (cursors : Table Cursors.clash Conn) {World : Type 0}
      (remote : CloudProvider World) where
    abbrev pub State : Type 0
    State = World × Conn

    store_cursor : ℕ → World → Result DbError (Unit {0}) × Conn → Result SyncError ℕ × State
    store_cursor count w (ok _, conn) = (ok count, (w, conn))
    store_cursor count w (err e, conn) = (err (SyncError.database e), (w, conn))

    first_cursor : ℕ → Conn → Result Error ChangeList × World → Result SyncError ℕ × State
    unfolding store_cursor Cursors.upsert_cursor
    first_cursor count conn (ok page, w) =
        store_cursor count w
          (Cursors.upsert_cursor cursors (timestamp (clock count)) account_id page.cursor conn)
    first_cursor count conn (err e, w) =
        (err (SyncError.provider (text "Failed to get initial change cursor") e), (w, conn))

    after_upserts : ℕ → World → Result DbError (Unit {0}) × Conn → Result SyncError ℕ × State
    unfolding first_cursor
    after_upserts count w (ok _, conn) = first_cursor count conn (remote.get_changes none w)
    after_upserts count w (err e, conn) = (err (SyncError.database e), (w, conn))

    after_listing : Conn → Result Error (List CloudItem) × World → Result SyncError ℕ × State
    unfolding after_upserts upsert_items
    after_listing conn (ok items, w) = after_upserts (length items) w (upsert_items 0 items conn)
    after_listing conn (err e, w) =
        (err (SyncError.provider (text "Failed to list root folder") e), (w, conn))

    -- `initial_sync`
    unfoldable pub initial_sync : State → Result SyncError ℕ × State
    unfolding after_listing root
    initial_sync (w, conn) = after_listing conn (remote.list_folder root w)

    abbrev pub LoopResult : Type 0
    LoopResult = Option (Result SyncError ℕ × State)

    next_page : (Text → ℕ → State → LoopResult) → ChangeList → ℕ → State → Bool → LoopResult
    next_page rounds page total s true = rounds page.cursor total s
    next_page rounds page total s false = some (ok total, s)

    after_cursor :
        (Text → ℕ → State → LoopResult)
        → ChangeList
        → ℕ
        → World
        → Result DbError (Unit {0}) × Conn
        → LoopResult
    unfolding next_page
    after_cursor rounds page total w (ok _, conn) =
        next_page rounds page total (w, conn) page.has_more
    after_cursor rounds page total w (err e, conn) = some (err (SyncError.database e), (w, conn))

    after_changes :
        ℕ
        → (Text → ℕ → State → LoopResult)
        → ChangeList
        → ℕ
        → World
        → Result DbError (Unit {0}) × Conn
        → LoopResult
    unfolding after_cursor Cursors.upsert_cursor
    after_changes tick rounds page total w (ok _, conn) =
        after_cursor rounds page (total + length page.changes) w (
          Cursors.upsert_cursor cursors (timestamp (clock (tick + length page.changes))) account_id
            page.cursor conn)
    after_changes tick rounds page total w (err e, conn) =
        some (err (SyncError.database e), (w, conn))

    after_page :
        ℕ
        → (ℕ → Text → ℕ → State → LoopResult)
        → ℕ
        → Conn
        → Result Error ChangeList × World
        → LoopResult
    unfolding after_changes apply_changes
    after_page tick rounds total conn (ok page, w) =
        after_changes tick (rounds (tick + length page.changes + 1)) page total w
          (apply_changes tick page.changes conn)
    after_page tick rounds total conn (err e, w) =
        some (err (SyncError.provider (text "Failed to get changes") e), (w, conn))

    -- The loop over pages, with a bound on their number; `none` means that it was reached.
    unfoldable pub incremental_loop : ℕ → ℕ → Text → ℕ → State → LoopResult
    unfolding after_page
    incremental_loop zero tick cursor total s = none
    incremental_loop (suc fuel) tick cursor total (w, conn) =
        after_page tick (incremental_loop fuel) total conn (remote.get_changes (some cursor) w)

    from_cursor : ℕ → State → Result DbError (Option Text) → LoopResult
    unfolding initial_sync incremental_loop
    from_cursor fuel s (ok none) = some (initial_sync s)
    from_cursor fuel s (ok (some cursor)) = incremental_loop fuel 0 cursor 0 s
    from_cursor fuel s (err e) = some (err (SyncError.database e), s)

    -- `incremental_sync`
    unfoldable pub incremental_sync : ℕ → State → LoopResult
    unfolding from_cursor Cursors.get_cursor
    incremental_sync fuel (w, conn) =
        from_cursor fuel (w, conn) (Cursors.get_cursor cursors account_id conn)
