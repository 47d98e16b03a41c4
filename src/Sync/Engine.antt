-- ===== src/Sync/Engine.antt =====
-- crates/cloudsync-sync/src/engine.rs: the engine that queues downloads for what the provider
-- lists or reports as changed, and that executes the queue. The daemon runs one engine method at a
-- time, so nothing else touches the queue during a method.
pub mod Queueing
pub mod Refresh
use uni_cloud_file_sync_thin.Prelude.{
  Text, text, ℕ, zero, suc, ◌+◌, ◌-◌, ◌^◌, Bool, true, false, Option, none, some, List, [], ◌∷◌,
  ◌++◌, ltb, if◌then◌else◌, Result, ok, err,
}
use uni_cloud_file_sync_thin.Core.CloudPath.{CloudPath, trim_start}
use uni_cloud_file_sync_thin.Core.Types.{AccountId, CloudItem, Change, ChangeList, Error}
use uni_cloud_file_sync_thin.Core.Display.{display}
use uni_cloud_file_sync_thin.Core.Host.{Host}
use uni_cloud_file_sync_thin.Core.LocalPath.{join}
use uni_cloud_file_sync_thin.Core.Provider.{CloudProvider}
use uni_cloud_file_sync_thin.Sync.Error as Failure
use uni_cloud_file_sync_thin.Sync.BinaryHeap.{BinaryHeap}
use uni_cloud_file_sync_thin.Sync.Operation.{
  SyncOperation, SyncOperationType, SyncPriority, new, upload, download, delete, high, normal,
  download_high_priority, download_normal_priority,
}
use uni_cloud_file_sync_thin.Sync.Queue.{cmp}
use uni_cloud_file_sync_thin.Sync.Queue

-- The queue is shared by reference; the world is what lies outside the program.
pub record EngineState (World Heap : Type 0) : Type 0 where
  pub world : World
  pub queue : Heap

-- What an engine holds by reference, with the interfaces that its calls go through. The database
-- of an engine is not used by its methods.
pub record SyncEngine (World Heap : Type 0) : Type 0 where
  pub provider : CloudProvider World
  pub host : Host World
  pub heap : BinaryHeap cmp Heap
  pub account_id : AccountId

module _ {World Heap : Type 0} (engine : SyncEngine World Heap) where
  open engine use {provider, host, heap, account_id}

  abbrev pub State : Type 0
  State = EngineState World Heap

  -- A constructor of operations, of a fixed type and priority.
  abbrev pub Maker : Type 0
  Maker = CloudItem → World → SyncOperation × World

  abbrev pub make_high : Maker
  make_high item = download_high_priority host account_id item.id item.path item.size

  abbrev pub make_normal : Maker
  make_normal item = download_normal_priority host account_id item.id item.path item.size

  push_made : ℕ → Heap → SyncOperation × World → ℕ × State
  push_made count queue (operation, w) =
      (count + 1, record { world = w; queue = Queue.push heap operation queue })

  -- The body of the loops over items: a folder is skipped, a file is queued and counted.
  unfoldable pub queue_item : Maker → CloudItem → ℕ × State → ℕ × State
  unfolding push_made
  queue_item make item (count, s) =
      if item.is_folder then (count, s) else push_made count s.queue (make item s.world)

  -- `for item in items`
  unfoldable pub queue_items : Maker → List CloudItem → ℕ × State → ℕ × State
  unfolding queue_item
  queue_items make [] acc = acc
  queue_items make (item ∷ items) acc = queue_items make items (queue_item make item acc)

  -- The end of `initial_sync`: the start cursor is fetched, and only logged.
  pub fetch_cursor : ℕ → Heap → Result Error ChangeList × World → Result Failure.Error ℕ × State
  fetch_cursor count queue (ok change_list, w) = (ok count, record { world = w; queue = queue })
  fetch_cursor count queue (err e, w) = (
    err (Failure.sync (text "Failed to get initial change token: " ++ display e)),
    record { world = w; queue = queue },
  )

  pub after_queueing : ℕ × State → Result Failure.Error ℕ × State
  unfolding fetch_cursor
  after_queueing (count, s) = fetch_cursor count s.queue (provider.get_changes none s.world)

  pub after_listing : Heap → Result Error (List CloudItem) × World → Result Failure.Error ℕ × State
  unfolding after_queueing queue_items
  after_listing queue (ok items, w) =
      after_queueing (queue_items make_high items (0, record { world = w; queue = queue }))
  after_listing queue (err e, w) = (
    err (Failure.sync (text "Failed to list folder during initial sync: " ++ display e)),
    record { world = w; queue = queue },
  )

  -- `SyncEngine::initial_sync`
  unfoldable pub initial_sync : CloudPath → State → Result Failure.Error ℕ × State
  unfolding after_listing
  initial_sync provider_root s = after_listing s.queue (provider.list_folder provider_root s.world)

  pub queue_changed : Option CloudItem → ℕ × State → ℕ × State
  unfolding queue_item
  queue_changed none acc = acc
  queue_changed (some item) acc = queue_item make_normal item acc

  -- The body of the loop over changes: a deletion, a change without item and a folder are skipped.
  unfoldable pub queue_change : Change → ℕ × State → ℕ × State
  unfolding queue_changed
  queue_change change acc = if change.deleted then acc else queue_changed change.item acc

  -- `for change in change_list.changes`
  unfoldable pub queue_changes : List Change → ℕ × State → ℕ × State
  unfolding queue_change
  queue_changes [] acc = acc
  queue_changes (change ∷ changes) acc = queue_changes changes (queue_change change acc)

  abbrev pub RefreshResult : Type 0
  RefreshResult = Option (Result Failure.Error (ℕ × Text) × State)

  -- What follows on a page: the next round, or the cursor.
  pub next_page :
      (Option Text → ℕ × State → RefreshResult) → Bool → Text → ℕ × State → RefreshResult
  next_page rounds true cursor acc = rounds (some cursor) acc
  next_page rounds false cursor acc = some (ok (acc.0, cursor), acc.1)

  pub after_page :
      (Option Text → ℕ × State → RefreshResult)
      → ℕ
      → Heap
      → Result Error ChangeList × World
      → RefreshResult
  unfolding next_page queue_changes
  after_page rounds total queue (ok page, w) =
      next_page rounds page.has_more page.cursor
        (queue_changes page.changes (total, record { world = w; queue = queue }))
  after_page rounds total queue (err e, w) = some (
    err (Failure.sync (text "Failed to get changes: " ++ display e)),
    record { world = w; queue = queue },
  )

  -- The loop of `refresh_sync`, with a bound on the pages fetched; `none` means that it was reached.
  unfoldable pub refresh_loop : ℕ → Option Text → ℕ × State → RefreshResult
  unfolding after_page
  refresh_loop zero cursor acc = none
  refresh_loop (suc fuel) cursor acc =
      after_page (refresh_loop fuel) acc.0 acc.1.queue (provider.get_changes cursor acc.1.world)

  -- `SyncEngine::refresh_sync`
  unfoldable pub refresh_sync : ℕ → Option Text → State → RefreshResult
  unfolding refresh_loop
  refresh_sync fuel cursor s = refresh_loop fuel cursor (0, s)
