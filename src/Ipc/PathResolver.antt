-- ===== src/Ipc/PathResolver.antt =====
-- crates/cloudsync-ipc/src/path_resolver.rs. A resolver holds nothing but the sync root, which is
-- the first argument here. The components of a Unix path are texts: "/" for the root, "." for a
-- leading dot, and else the name; no name holds a slash.
pub mod RoundTrip
use uni_cloud_file_sync_thin.Prelude.{
  Text, text, slash, Bool, true, false, Option, none, some, List, [], ◌∷◌, ◌++◌, keep, ◌==◌,
  dec_text, ite, if◌then◌else◌,
}
use uni_cloud_file_sync_thin.Core.CloudPath.{CloudPath, new, root, trim_start, starts_slash}
use uni_cloud_file_sync_thin.Core.LocalPath.{join}

pub record ResolvedPath : Type 0 where
  pub provider_slug : Text
  pub cloud_path : CloudPath

-- The pieces between slashes.
unfoldable pub split : Text → List Text
split [] = [] ∷ []
split (c ∷ s) = elim (split s) [
  | [] ↦ [] ∷ []
  | piece ∷ pieces ↦ if c == slash then [] ∷ piece ∷ pieces else (c ∷ piece) ∷ pieces
]

-- Empty pieces and dots are left out.
unfoldable pub is_name : Text → Bool
unfolding dec_text
is_name piece = ite (dec_text piece []) false (ite (dec_text piece (text ".")) false true)

unfoldable pub leading : List Text → List Text
unfolding dec_text
leading [] = []
leading (piece ∷ pieces) = ite (dec_text piece (text ".")) (text "." ∷ []) []

-- `Path::components`
unfoldable pub components : Text → List Text
unfolding split is_name leading keep starts_slash
components path =
    (if starts_slash path then text "/" ∷ [] else leading (split path)) ++ keep is_name (split path)

-- `Path::strip_prefix`, on components.
unfoldable pub strip_prefix : List Text → List Text → Option (List Text)
unfolding dec_text
strip_prefix [] path = some path
strip_prefix (c ∷ base) [] = none
strip_prefix (c ∷ base) (d ∷ path) = ite (dec_text c d) (strip_prefix base path) none

-- `components.collect::<PathBuf>()`
unfoldable pub collect : Text → List Text → Text
unfolding join
collect path [] = path
collect path (c ∷ components) = collect (join path c) components

cloud_path_of : Text → CloudPath
unfolding root new
cloud_path_of [] = root
cloud_path_of (c ∷ remainder) = new (slash ∷ c ∷ remainder)

resolved : Option (List Text) → Option ResolvedPath
unfolding cloud_path_of collect
resolved none = none
resolved (some []) = none
resolved (some (slug ∷ rest)) =
    some (record { provider_slug = slug; cloud_path = cloud_path_of (collect [] rest) })

-- `PathResolver::resolve_local`
unfoldable pub resolve_local : Text → Text → Option ResolvedPath
unfolding resolved strip_prefix components
resolve_local sync_root local_path =
    resolved (strip_prefix (components sync_root) (components local_path))

below : Text → Text → Text
unfolding join
below path [] = path
below path (c ∷ cloud) = join path (c ∷ cloud)

-- `PathResolver::to_local`
unfoldable pub to_local : Text → Text → CloudPath → Text
unfolding below trim_start join
to_local sync_root provider_slug cloud_path =
    below (join sync_root provider_slug) (trim_start cloud_path)
