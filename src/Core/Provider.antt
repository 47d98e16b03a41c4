-- ===== src/Core/Provider.antt =====
-- crates/cloudsync-core/src/provider.rs: the part of the trait `CloudProvider` that the program
-- calls. An implementation talks to a remote service: a call maps the world, of any type, to a
-- result and the world after the call. Nothing is assumed of it.
use uni_cloud_file_sync_thin.Prelude.{Text, Option, List, Result}
use uni_cloud_file_sync_thin.Core.CloudPath.{CloudPath}
use uni_cloud_file_sync_thin.Core.Types.{FileId, CloudItem, ChangeList, Error}

pub record CloudProvider (World : Type 0) : Type 0 where
  pub list_folder : CloudPath → World → Result Error (List CloudItem) × World
  pub get_changes : Option Text → World → Result Error ChangeList × World
  -- The text is the local path that the content is written to.
  pub download : FileId → Text → World → Result Error (Unit {0}) × World
