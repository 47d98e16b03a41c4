-- ===== src/Ipc/Error.antt =====
-- crates/cloudsync-ipc/src/error.rs.
use uni_cloud_file_sync_thin.Prelude.{Text, text, ℕ, ◌++◌}
use uni_cloud_file_sync_thin.Core.Display.{decimal}

-- The kinds of an I/O error that the program distinguishes, and its message.
pub data IoErrorKind : Type 0 where
  not_found connection_refused connection_reset addr_not_available invalid_input broken_pipe
        not_connected other :
      IoErrorKind

pub record IoError : Type 0 where
  pub kind : IoErrorKind
  pub message : Text

pub data Error : Type 0 where
  io : IoError → Error
  json : Text → Error
  connection_closed : Error
  message_too_large : ℕ → ℕ → Error
  handler : Text → Error

-- `Display`
unfoldable pub display : Error → Text
unfolding decimal
display (io e) = text "IO error: " ++ e.message
display (json message) = text "JSON error: " ++ message
display connection_closed = text "Connection closed"
display (message_too_large size limit) =
    text "Message too large: "
    ++ decimal size
    ++ text " bytes exceeds "
    ++ decimal limit
    ++ text " byte limit"
display (handler message) = text "Handler error: " ++ message
