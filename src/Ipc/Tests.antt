-- ===== src/Ipc/Tests.antt =====
-- An instance of the theorem on local paths.
use uni_cloud_file_sync_thin.Prelude.{
  Text, text, some, List, [], ◌∷◌, ◌≡◌, refl, arith, dec_text, ends_slash, ℕ_discrete,
}
use uni_cloud_file_sync_thin.Core.CloudPath.{starts_slash}
use uni_cloud_file_sync_thin.Ipc.PathResolver.{is_name, resolve_local, to_local}
use uni_cloud_file_sync_thin.Ipc.PathResolver.RoundTrip.{IsName, path_of, slashed}
use uni_cloud_file_sync_thin.Ipc.PathResolver.RoundTrip

program : Unit {0}
unfolding starts_slash ends_slash is_name dec_text ℕ_discrete slashed
program = tt

abbrev docs : Text
docs = text "ab"

docs-IsName : IsName docs
unfolding program
docs-IsName = record {
  named = refl;
  whole = (omega arith, (omega arith, tt));
  forward = (omega arith, (omega arith, tt));
}

abbrev names : List Text
names = docs ∷ docs ∷ []

resolve_local-to_local_example :
    resolve_local (text "/u") (to_local (text "/u") docs (path_of names))
    ≡ some (record { provider_slug = docs; cloud_path = path_of names })
unfolding program
resolve_local-to_local_example =
    RoundTrip.resolve_local-to_local (text "/u") docs names refl refl docs-IsName
      (docs-IsName, (docs-IsName, tt))
