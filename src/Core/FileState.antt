-- ===== src/Core/FileState.antt =====
-- crates/cloudsync-core/src/file_state.rs: the synchronization state of a file.
use uni_cloud_file_sync_thin.Prelude.{Text, text, Bool, true, false}

pub data FileState : Type 0 where
  synced cloud_only syncing pending error excluded offline_modified conflict : FileState

FileState-discrete : Discrete FileState
FileState-discrete = hlevel

-- The variant marked `#[default]`.
abbrev pub default : FileState
default = pending

-- `FileState::description`, which `Display` writes too.
unfoldable pub description : FileState → Text
description synced = text "File is fully synchronized"
description cloud_only = text "File is available in cloud only"
description syncing = text "File is being synchronized"
description pending = text "File is queued for synchronization"
description error = text "Synchronization failed"
description excluded = text "File is excluded from sync"
description offline_modified = text "Local changes pending upload"
description conflict = text "File has conflicting versions"

unfoldable pub is_available_locally : FileState → Bool
is_available_locally synced = true
is_available_locally offline_modified = true
is_available_locally conflict = true
is_available_locally _ = false

unfoldable pub needs_attention : FileState → Bool
needs_attention error = true
needs_attention conflict = true
needs_attention _ = false

unfoldable pub is_syncing : FileState → Bool
is_syncing syncing = true
is_syncing pending = true
is_syncing _ = false
