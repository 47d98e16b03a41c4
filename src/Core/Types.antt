-- ===== src/Core/Types.antt =====
-- crates/cloudsync-core/src/types.rs and error.rs: identifiers, cloud items, the change feed and
-- the errors of a provider. An instant is a number of nanoseconds since the earliest instant of
-- chrono, so that the order of instants is the order of numbers.
use uni_cloud_file_sync_thin.Prelude.{Text, ℕ, Bool, true, false, Option, none, some, List, leb}
use uni_cloud_file_sync_thin.Core.CloudPath.{CloudPath}

abbrev pub AccountId : Type 0
AccountId = Text

abbrev pub FileId : Type 0
FileId = Text

abbrev pub DateTime : Type 0
DateTime = ℕ

pub record CloudItem : Type 0 where
  pub id : FileId
  pub name : Text
  pub path : CloudPath
  pub is_folder : Bool
  pub size : Option ℕ
  pub content_hash : Option Text
  pub modified : DateTime
  pub created : Option DateTime
  pub mime_type : Option Text

-- `CloudItem::folder`
unfoldable pub folder : FileId → Text → CloudPath → DateTime → CloudItem
folder id name path modified = record {
  id = id;
  name = name;
  path = path;
  is_folder = true;
  size = none;
  content_hash = none;
  modified = modified;
  created = none;
  mime_type = none;
}

-- `CloudItem::file`
unfoldable pub file : FileId → Text → CloudPath → ℕ → DateTime → CloudItem
file id name path size modified = record {
  id = id;
  name = name;
  path = path;
  is_folder = false;
  size = some size;
  content_hash = none;
  modified = modified;
  created = none;
  mime_type = none;
}

pub record TransferProgress : Type 0 where
  pub bytes_transferred : ℕ
  pub total_bytes : ℕ

-- `TransferProgress::new`
unfoldable pub start : ℕ → TransferProgress
start total_bytes = record { bytes_transferred = 0; total_bytes = total_bytes }

-- `TransferProgress::is_complete`
unfoldable pub is_complete : TransferProgress → Bool
is_complete progress = leb progress.total_bytes progress.bytes_transferred

pub record Change : Type 0 where
  pub item : Option CloudItem
  pub file_id : FileId
  pub deleted : Bool
  pub timestamp : DateTime

pub record ChangeList : Type 0 where
  pub changes : List Change
  pub cursor : Text
  pub has_more : Bool

-- `cloudsync_core::error::Error`. The wrapped errors of std and serde are their messages.
pub data Error : Type 0 where
  authentication : Text → Error
  token_expired : Text → Error
  provider_api : Text → Text → Error
  rate_limited : Text → ℕ → Error
  network : Text → Error
  file_not_found : Text → Error
  permission_denied : Text → Error
  conflict : Text → Error
  invalid_path : Text → Error
  database : Text → Error
  config : Text → Error
  io : Text → Error
  serialization : Text → Error
  cancelled : Error
  unsupported_provider : Text → Error
  quota_exceeded : Text → Error
  invalid_operation : Text → Error
  cloud_native_file : Text → Error
