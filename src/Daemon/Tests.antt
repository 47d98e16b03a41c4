-- ===== src/Daemon/Tests.antt =====
-- Runs of the handler on a table of files in memory, and the instances of the theorems there.
use uni_cloud_file_sync_thin.Prelude.{
  Text, text, ℕ, ◌*◌, true, none, some, List, [], ◌∷◌, ◌≡◌, ◌⊎◌, refl, find, keep, dec_text,
  ℕ_discrete,
}
use uni_cloud_file_sync_thin.Core.CloudPath.{new, root, trim_start, starts_slash, replace_backslash}
use uni_cloud_file_sync_thin.Core.ProviderId.{from_slug}
use uni_cloud_file_sync_thin.Db.Error.{DbError}
use uni_cloud_file_sync_thin.Db.Sqlite.{Table}
use uni_cloud_file_sync_thin.Db.Sqlite.Memory.{
  memory, memory_insert, memory_update, clear_of, all_clear,
}
use uni_cloud_file_sync_thin.Db.Files.{
  FileRow, clash, by_id, by_cloud_path, by_provider_id, state_name, parse_state, to_row, from_row,
  set_columns, get_file_by_cloud_path, update_file,
}
use uni_cloud_file_sync_thin.Ipc.Messages.{Request, Response}
use uni_cloud_file_sync_thin.Ipc.PathResolver.{
  components, strip_prefix, collect, split, is_name, leading, resolve_local, to_local,
}
use uni_cloud_file_sync_thin.Daemon.Handler.{
  DaemonHandler, HandlerState, DaemonAction, handle, batch_entry, lookup_account, send_action,
}
use uni_cloud_file_sync_thin.Core.FileState.{FileState}
use uni_cloud_file_sync_thin.Daemon.Handler.Requests.{Untouched}
use uni_cloud_file_sync_thin.Daemon.Handler.Requests

abbrev handler : DaemonHandler
handler = record { sync_root = text "/u"; provider_accounts = (text "gdrive", text "a") ∷ [] }

abbrev row : Text → FileRow
row state = record {
  id = 1;
  account_id = text "a";
  provider_file_id = text "f";
  path = text "/d/x";
  name = text "x";
  size = some 3;
  content_hash = none;
  is_folder = 0;
  state = state;
  modified_at = 5;
  synced_at = none;
  created_at = 6;
  updated_at = 7;
}

abbrev table : Table clash (List FileRow)
table = memory clash

abbrev start : HandlerState (List FileRow)
start = record { conn = row (text "cloud_only") ∷ []; connected = true; sent = [] }

abbrev shown : DbError → Text
shown e = []

abbrev path : Text
path = text "/u/gdrive/d/x"

abbrev second : ℕ
second = 1000000000

program : Unit {0}
unfolding handle get_file_by_cloud_path update_file by_id by_cloud_path by_provider_id clash
    state_name parse_state to_row from_row set_columns new replace_backslash starts_slash root
    trim_start components strip_prefix collect split is_name leading resolve_local to_local
    memory_insert memory_update clear_of all_clear find keep dec_text ℕ_discrete batch_entry
    lookup_account send_action from_slug
program = tt

run_resolve_local :
    resolve_local (text "/u") (text "/u/gdrive//d/./x")
    ≡ some (record { provider_slug = text "gdrive"; cloud_path = text "/d/x" })
unfolding program
run_resolve_local = refl

run_to_local : to_local (text "/u") (text "gdrive") (text "/d/x") ≡ path
unfolding program
run_to_local = refl

-- Pinning makes the file pending, and asks for its download.
run_set_pinned : handle handler table shown (9 * second) (Request.set_pinned path true) start ≡ (
  Response.done,
  record {
    conn = record (row (text "pending")) { updated_at = 9 } ∷ [];
    connected = true;
    sent = DaemonAction.force (text "a") (text "/d/x") ∷ [];
  },
)
unfolding program
run_set_pinned = refl

handle-Untouched_example :
    ((handle handler table shown 0 (Request.set_cloud_only (text "/u/gdrive/none")) start).0
      ≡ Response.done)
    ⊎ Untouched handler table shown 0 start
        (handle handler table shown 0 (Request.set_cloud_only (text "/u/gdrive/none")) start).1
handle-Untouched_example =
    Requests.handle-Untouched handler table shown 0 (Request.set_cloud_only (text "/u/gdrive/none"))
      start

abbrev paths : List Text
paths = path ∷ text "/elsewhere" ∷ []

-- The file is known, and the other path is outside of the sync root.
run_get_status_batch :
    (handle handler table shown 0 (Request.get_status_batch paths) start).0
    ≡ Response.status_batch (
        record { path = path; state = FileState.cloud_only; provider = some (text "gdrive") }
        ∷ record { path = text "/elsewhere"; state = FileState.error; provider = none }
        ∷ [])
unfolding program
run_get_status_batch = refl

handle_pause_unknown_example :
    (handle handler table shown 0 (Request.pause_sync (some (text "gdirve"))) start
      ≡ handle handler table shown 0 (Request.pause_sync none) start)
    × (handle handler table shown 0 (Request.resume_sync (some (text "gdirve"))) start
        ≡ handle handler table shown 0 (Request.resume_sync none) start)
unfolding program
handle_pause_unknown_example =
    Requests.handle_pause_unknown handler table shown 0 (text "gdirve") start refl
