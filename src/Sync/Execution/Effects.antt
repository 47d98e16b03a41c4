-- ===== src/Sync/Execution/Effects.antt =====
-- What executing operations one after the other means for the provider and the local disk, and that
-- `execute_one` of the engine does it.
use uni_cloud_file_sync_thin.Prelude.{
  Text, ℕ, suc, ◌+◌, Bool, true, false, List, [], ◌∷◌, Result, ok, err, ◌≡◌, ◌≢◌, ◌⊎◌, inl, inr,
  refl, ap, arith,
}
use uni_cloud_file_sync_thin.Core.CloudPath.{trim_start}
use uni_cloud_file_sync_thin.Core.LocalPath.{join}
use uni_cloud_file_sync_thin.Core.Types.{Error}
use uni_cloud_file_sync_thin.Sync.Operation.{
  SyncOperation, SyncOperationType, upload, download, delete,
}
use uni_cloud_file_sync_thin.Sync.Engine.{SyncEngine}
use uni_cloud_file_sync_thin.Sync.Execution.{
  local_path, execute_download, start_download, finish_download, count_success, execute_one,
}

operation_type-cases : (t : SyncOperationType) → (t ≡ download) ⊎ ((t ≡ upload) ⊎ (t ≡ delete))
operation_type-cases download = inl refl
operation_type-cases upload = inr (inl refl)
operation_type-cases delete = inr (inr refl)

upload_ne_download : upload ≢ download
upload_ne_download h = ground arith

delete_ne_download : delete ≢ download
delete_ne_download h = ground arith

module _ {World Heap : Type 0} (engine : SyncEngine World Heap) (local_root : Text) where
  open engine use {provider, host}

  -- Where the file of an operation belongs: its path below the local root.
  abbrev pub target : SyncOperation → Text
  target operation = join local_root (trim_start operation.path)

  -- Whether a download succeeds: the directories above the target are made first, and then the
  -- provider writes the file.
  pub data Fetches (operation : SyncOperation) : World → Bool → World → Type 0 where
    fetched :
        {w made after : World}
        → host.create_parent_dirs (target operation) w ≡ (ok tt, made)
        → provider.download operation.file_id (target operation) made ≡ (ok tt, after)
        → Fetches operation w true after
    no_directory :
        {w after : World} {message : Text}
        → host.create_parent_dirs (target operation) w ≡ (err message, after)
        → Fetches operation w false after
    no_download :
        {w made after : World} {e : Error}
        → host.create_parent_dirs (target operation) w ≡ (ok tt, made)
        → provider.download operation.file_id (target operation) made ≡ (err e, after)
        → Fetches operation w false after

  -- The operations in order, with the number of downloads that succeed. Only downloads are executed.
  pub data Executes : List SyncOperation → World → ℕ → World → Type 0 where
    finished : {w : World} → Executes [] w 0 w
    skipped :
        {operation : SyncOperation} {operations : List SyncOperation} {w after : World} {n : ℕ}
        → operation.operation_type ≢ download
        → Executes operations w n after
        → Executes (operation ∷ operations) w n after
    counted :
        {operation : SyncOperation} {operations : List SyncOperation} {w next after : World} {n : ℕ}
        → operation.operation_type ≡ download
        → Fetches operation w true next
        → Executes operations next n after
        → Executes (operation ∷ operations) w (suc n) after
    failed :
        {operation : SyncOperation} {operations : List SyncOperation} {w next after : World} {n : ℕ}
        → operation.operation_type ≡ download
        → Fetches operation w false next
        → Executes operations next n after
        → Executes (operation ∷ operations) w n after

  -- The world and the count after one operation.
  abbrev Counts : SyncOperation → World → ℕ → ℕ × World → Type 0
  Counts operation w executed r =
      (Fetches operation w true r.1 × (r.0 ≡ executed + 1))
      ⊎ (Fetches operation w false r.1 × (r.0 ≡ executed))

  finish_download-Counts :
      (operation : SyncOperation) (executed : ℕ) (w made : World)
      → host.create_parent_dirs (target operation) w ≡ (ok tt, made)
      → (r : Result Error (Unit {0}) × World)
      → provider.download operation.file_id (target operation) made ≡ r
      → Counts operation w executed
          (count_success engine local_root executed (finish_download engine local_root operation r))
  unfolding finish_download count_success
  finish_download-Counts operation executed w made e (ok tt, after) f = inl (fetched e f, refl)
  finish_download-Counts operation executed w made e (err x, after) f = inr (no_download e f, refl)

  start_download-Counts :
      (operation : SyncOperation) (executed : ℕ) (w : World) (r : Result Text (Unit {0}) × World)
      → host.create_parent_dirs (target operation) w ≡ r
      → Counts operation w executed
          (count_success engine local_root executed (start_download engine local_root operation r))
  unfolding start_download count_success local_path
  start_download-Counts operation executed w (ok tt, made) e =
      finish_download-Counts operation executed w made e _ refl
  start_download-Counts operation executed w (err m, after) e = inr (no_directory e, refl)

  execute_download-Counts :
      (operation : SyncOperation) (executed : ℕ) (w : World)
      → Counts operation w executed (
          count_success engine local_root executed (execute_download engine local_root operation w))
  unfolding execute_download local_path
  execute_download-Counts operation executed w = start_download-Counts operation executed w _ refl

  execute_one_download :
      (operation : SyncOperation) (executed : ℕ) (w : World)
      → operation.operation_type ≡ download
      → execute_one engine local_root operation (executed, w)
        ≡ count_success engine local_root executed (execute_download engine local_root operation w)
  unfolding execute_one
  execute_one_download operation executed w e =
      ap
        (λ t. elim t [
          | download ↦
              count_success engine local_root executed
                (execute_download engine local_root operation w)
          | upload ↦ (executed, w)
          | delete ↦ (executed, w)
        ])
        e

  execute_one-cases :
      (operation : SyncOperation) (executed : ℕ) (w : World)
      → ((operation.operation_type ≢ download)
          × (execute_one engine local_root operation (executed, w) ≡ (executed, w)))
        ⊎ ((operation.operation_type ≡ download)
            × Counts operation w executed (execute_one engine local_root operation (executed, w)))
  unfolding execute_one
  execute_one-cases operation executed w = elim (operation_type-cases operation.operation_type) [
    | inl e ↦ inr (
      e,
      rw (execute_one_download operation executed w e)
          (execute_download-Counts operation executed w),
    )
    | inr (inl e) ↦ inl (rw e (upload_ne_download, refl))
    | inr (inr e) ↦ inl (rw e (delete_ne_download, refl))
  ]

  -- What is left to execute after one operation, put behind that operation.
  pub Executes-cons :
      (operation : SyncOperation) (executed : ℕ) (w : World) (operations : List SyncOperation)
      (total : ℕ) (after : World)
      → ((n : ℕ) × (total ≡ (execute_one engine local_root operation (executed, w)).0 + n)
          × Executes operations (execute_one engine local_root operation (executed, w)).1 n after)
      → (n : ℕ) × (total ≡ executed + n) × Executes (operation ∷ operations) w n after
  Executes-cons operation executed w operations total after (n, sum, rest) =
      elim (execute_one-cases operation executed w) [
        | inl (other, e) ↦ (n, rw e at sum, skipped other (rw e at rest))
        | inr (is_download, inl (fetch, count)) ↦
            (suc n, omega arith, counted is_download fetch rest)
        | inr (is_download, inr (fetch, count)) ↦ (n, omega arith, failed is_download fetch rest)
      ]
