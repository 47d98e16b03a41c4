-- ===== src/Ipc/Messages.antt =====
-- crates/cloudsync-ipc/src/messages.rs.
use uni_cloud_file_sync_thin.Prelude.{Text, Bool, Option, List}
use uni_cloud_file_sync_thin.Core.FileState.{FileState}

pub data Request : Type 0 where
  get_status : Text → Request
  get_status_batch : List Text → Request
  set_pinned : Text → Bool → Request
  set_cloud_only : Text → Request
  force_sync : Text → Request
  pause_sync : Option Text → Request
  resume_sync : Option Text → Request

pub record FileStatus : Type 0 where
  pub path : Text
  pub state : FileState
  pub provider : Option Text

-- The fields of `Status` are the path, the state, the provider and the error.
pub data Response : Type 0 where
  status : Text → FileState → Option Text → Option Text → Response
  status_batch : List FileStatus → Response
  done : Response
  error : Text → Response
