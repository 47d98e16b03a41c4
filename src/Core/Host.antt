-- ===== src/Core/Host.antt =====
-- What the program takes from chrono, uuid and the file system: the current instant, a fresh
-- identifier and the creation of directories. Each call maps the world to a value and the world
-- after the call; nothing is assumed of the values.
use uni_cloud_file_sync_thin.Prelude.{Text, Result}
use uni_cloud_file_sync_thin.Core.Types.{DateTime}

pub record Host (World : Type 0) : Type 0 where
  -- `Utc::now()`
  pub now : World → DateTime × World
  -- `Uuid::new_v4().to_string()`
  pub new_v4 : World → Text × World
  -- `if let Some(parent) = path.parent() { create_dir_all(parent)? }`, with the message of a failure
  pub create_parent_dirs : Text → World → Result Text (Unit {0}) × World
