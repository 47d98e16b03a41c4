-- ===== src/Sync/Execution.antt =====
-- crates/cloudsync-sync/src/engine.rs, `execute_operations`: the engine pops operations and downloads
-- their files until the queue is empty or enough downloads have succeeded.
pub mod Effects
pub mod Loop
use uni_cloud_file_sync_thin.Prelude.{
  Text, text, ℕ, zero, suc, ◌+◌, ◌-◌, ◌^◌, Bool, true, false, Option, none, some, ◌++◌, ltb, Result,
  ok, err, if◌then◌else◌,
}
use uni_cloud_file_sync_thin.Core.CloudPath.{trim_start}
use uni_cloud_file_sync_thin.Core.Types.{Error}
use uni_cloud_file_sync_thin.Core.Display
use uni_cloud_file_sync_thin.Core.LocalPath.{join}
use uni_cloud_file_sync_thin.Sync.Error as Failure
use uni_cloud_file_sync_thin.Sync.Operation.{
  SyncOperation, SyncOperationType, upload, download, delete,
}
use uni_cloud_file_sync_thin.Sync.Queue
use uni_cloud_file_sync_thin.Sync.Engine.{SyncEngine, EngineState}

-- `usize::MAX`
abbrev pub usize_max : ℕ
usize_max = 2 ^ 64 - 1

-- `max_operations.unwrap_or(usize::MAX)`
abbrev pub limit_of : Option ℕ → ℕ
limit_of none = usize_max
limit_of (some n) = n

module _ {World Heap : Type 0} (engine : SyncEngine World Heap) (local_root : Text) where
  open engine use {provider, host, heap}

  -- Where a file is written to.
  unfoldable pub local_path : SyncOperation → Text
  unfolding join trim_start
  local_path operation = join local_root (trim_start operation.path)

  finish_download :
      SyncOperation → Result Error (Unit {0}) × World → Result Failure.Error (Unit {0}) × World
  finish_download operation (ok _, w) = (ok tt, w)
  finish_download operation (err e, w) = (
    err (
        Failure.sync (
          text "Provider download failed for "
          ++ operation.file_id
          ++ text ": "
          ++ Display.display e)),
    w,
  )

  start_download :
      SyncOperation → Result Text (Unit {0}) × World → Result Failure.Error (Unit {0}) × World
  unfolding finish_download local_path
  start_download operation (ok _, w) =
      finish_download operation (provider.download operation.file_id (local_path operation) w)
  start_download operation (err message, w) =
      (err (Failure.sync (text "Failed to create directories: " ++ message)), w)

  -- `SyncEngine::execute_download`
  unfoldable pub execute_download : SyncOperation → World → Result Failure.Error (Unit {0}) × World
  unfolding start_download
  execute_download operation w =
      start_download operation (host.create_parent_dirs (local_path operation) w)

  -- An error is logged, and not counted.
  count_success : ℕ → Result Failure.Error (Unit {0}) × World → ℕ × World
  count_success executed (ok _, w) = (executed + 1, w)
  count_success executed (err e, w) = (executed, w)

  -- The `match` on the type of a popped operation: only downloads are executed.
  unfoldable pub execute_one : SyncOperation → ℕ × World → ℕ × World
  unfolding count_success
  execute_one operation (executed, w) = elim operation.operation_type [
    | download ↦ count_success executed (execute_download operation w)
    | upload ↦ (executed, w)
    | delete ↦ (executed, w)
  ]

  abbrev pub ExecuteResult : Type 0
  ExecuteResult = Option (Result Failure.Error ℕ × EngineState World Heap)

  -- One round of the loop, after the pop, with the rounds that follow.
  pub after_pop :
      (ℕ × World → Heap → ExecuteResult)
      → ℕ × World
      → Result Failure.Error SyncOperation × Heap
      → ExecuteResult
  unfolding execute_one
  after_pop rounds acc (ok operation, queue) = rounds (execute_one operation acc) queue
  after_pop rounds (executed, w) (err Failure.queue_empty, queue) =
      some (ok executed, record { world = w; queue = queue })
  after_pop rounds (executed, w) (err e, queue) = some (
    err (Failure.sync (text "Failed to pop from queue: " ++ Failure.display e)),
    record { world = w; queue = queue },
  )

  -- `while executed_count < limit`, with a bound on the rounds; `none` means that it was reached.
  unfoldable pub execute_loop : ℕ → ℕ → ℕ × World → Heap → ExecuteResult
  unfolding after_pop
  execute_loop zero limit acc queue = none
  execute_loop (suc fuel) limit acc queue =
      let round = after_pop (execute_loop fuel limit) acc (Queue.pop heap queue) in
      if ltb acc.0 limit then round else some (ok acc.0, record { world = acc.1; queue = queue })

  -- `SyncEngine::execute_operations`. Every round pops, so one round more than there are queued
  -- operations is enough.
  unfoldable pub execute_operations : Option ℕ → EngineState World Heap → ExecuteResult
  unfolding execute_loop
  execute_operations max_operations s =
      execute_loop (suc (Queue.len heap s.queue)) (limit_of max_operations) (0, s.world) s.queue
