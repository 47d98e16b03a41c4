-- ===== src/Sync/Error.antt =====
-- crates/cloudsync-sync/src/error.rs.
use uni_cloud_file_sync_thin.Prelude.{Text, text, ◌++◌}

pub data Error : Type 0 where
  queue_empty : Error
  operation_not_found : Text → Error
  sync : Text → Error
  other : Text → Error

-- The messages that `thiserror` derives for `Display`.
unfoldable pub display : Error → Text
display queue_empty = text "Sync queue is empty"
display (operation_not_found id) = text "Operation with ID " ++ id ++ text " not found in queue"
display (sync m) = text "Sync error: " ++ m
display (other m) = m
