-- ===== src/Sync/Operation.antt =====
-- crates/cloudsync-sync/src/operation.rs: operations, their priorities and constructors.
use uni_cloud_file_sync_thin.Prelude.{Text, text, ℕ, Option, none, compare, Ordering}
use uni_cloud_file_sync_thin.Core.CloudPath.{CloudPath}
use uni_cloud_file_sync_thin.Core.Types.{AccountId, FileId, DateTime}
use uni_cloud_file_sync_thin.Core.Host.{Host}

pub data SyncOperationType : Type 0 where
  upload download delete : SyncOperationType

pub data SyncPriority : Type 0 where
  low normal high : SyncPriority

SyncPriority-discrete : Discrete SyncPriority
SyncPriority-discrete = hlevel

-- `Display`
unfoldable pub display_type : SyncOperationType → Text
display_type upload = text "upload"
display_type download = text "download"
display_type delete = text "delete"

unfoldable pub display_priority : SyncPriority → Text
display_priority low = text "low"
display_priority normal = text "normal"
display_priority high = text "high"

-- The discriminants `Low = 0`, `Normal = 1`, `High = 2`.
abbrev pub rank : SyncPriority → ℕ
rank low = 0
rank normal = 1
rank high = 2

-- The derived `Ord` compares discriminants.
abbrev pub cmp_priority : SyncPriority → SyncPriority → Ordering
cmp_priority p q = compare (rank p) (rank q)

abbrev pub OperationId : Type 0
OperationId = Text

pub record SyncOperation : Type 0 where
  pub id : OperationId
  pub account_id : AccountId
  pub file_id : FileId
  pub path : CloudPath
  pub operation_type : SyncOperationType
  pub priority : SyncPriority
  pub created_at : DateTime
  pub size : Option ℕ

module _ {World : Type 0} (host : Host World) where
  -- `SyncOperation::new`: a fresh identifier, then the current instant.
  unfoldable pub new :
      AccountId
      → FileId
      → CloudPath
      → SyncOperationType
      → SyncPriority
      → Option ℕ
      → World
      → SyncOperation × World
  new account_id file_id path operation_type priority size w =
      let (id, w₁) = host.new_v4 w in
      let (now, w₂) = host.now w₁ in
      (
        record {
          id = id;
          account_id = account_id;
          file_id = file_id;
          path = path;
          operation_type = operation_type;
          priority = priority;
          created_at = now;
          size = size;
        },
        w₂,
      )

  unfoldable pub upload_high_priority :
      AccountId → FileId → CloudPath → Option ℕ → World → SyncOperation × World
  unfolding new
  upload_high_priority a f p size = new a f p upload high size

  unfoldable pub download_normal_priority :
      AccountId → FileId → CloudPath → Option ℕ → World → SyncOperation × World
  unfolding new
  download_normal_priority a f p size = new a f p download normal size

  unfoldable pub download_high_priority :
      AccountId → FileId → CloudPath → Option ℕ → World → SyncOperation × World
  unfolding new
  download_high_priority a f p size = new a f p download high size

  unfoldable pub delete_operation :
      AccountId → FileId → CloudPath → SyncPriority → World → SyncOperation × World
  unfolding new
  delete_operation a f p priority = new a f p delete priority none
