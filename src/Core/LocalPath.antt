-- ===== src/Core/LocalPath.antt =====
-- `std::path::Path` on Unix, as far as the program uses it: `join`.
use uni_cloud_file_sync_thin.Prelude.{Text, slash, [], ◌∷◌, ◌++◌, ends_slash, if◌then◌else◌}
use uni_cloud_file_sync_thin.Core.CloudPath.{starts_slash}

-- An absolute path replaces the base. Otherwise a separator is added where the base needs one.
unfoldable pub join : Text → Text → Text
unfolding ends_slash starts_slash
join [] path = path
join (c ∷ base) path =
    if starts_slash path
    then path
    else if ends_slash (c ∷ base)
    then c ∷ base ++ path
    else c ∷ base ++ slash ∷ path
