-- ===== src/Daemon/Handler.antt =====
-- crates/cloudsync-daemon/src/handler.rs: the answers to requests. The state is the connection to
-- the database and the channel of actions; sending waits for room in the channel, and does nothing
-- without a sender or once the receiver is gone.
pub mod Status
pub mod Requests
use uni_cloud_file_sync_thin.Prelude.{
  Text, text, ℕ, Bool, true, false, Option, none, some, List, [], ◌∷◌, ◌++◌, map, dec_text, ite,
  find, if◌then◌else◌, Result, ok, err,
}
use mathlib.Core.Option
use uni_cloud_file_sync_thin.Core.CloudPath.{CloudPath}
use uni_cloud_file_sync_thin.Core.FileState.{FileState}
use uni_cloud_file_sync_thin.Core.ProviderId.{ProviderId, from_slug}
use uni_cloud_file_sync_thin.Core.Types.{AccountId, DateTime}
use uni_cloud_file_sync_thin.Db.Error.{DbError}
use uni_cloud_file_sync_thin.Db.Sqlite.{Table}
use uni_cloud_file_sync_thin.Db.Files.{File, clash, get_file_by_cloud_path, update_file}
use uni_cloud_file_sync_thin.Ipc.Messages.{Request, Response, FileStatus}
use uni_cloud_file_sync_thin.Ipc.PathResolver.{ResolvedPath, resolve_local}

pub data DaemonAction : Type 0 where
  force : AccountId → CloudPath → DaemonAction
  pause resume : Option ProviderId → DaemonAction

-- What a handler holds, but for its database and its sender.
pub record DaemonHandler : Type 0 where
  pub sync_root : Text
  pub provider_accounts : List (Text × AccountId)

-- The connection, whether actions are received, and those that were sent, the last one first.
pub record HandlerState (Conn : Type 0) : Type 0 where
  pub conn : Conn
  pub connected : Bool
  pub sent : List DaemonAction

-- `send_action`
unfoldable pub send_action : {Conn : Type 0} → DaemonAction → HandlerState Conn → HandlerState Conn
send_action action s = if s.connected then record s { sent = action ∷ s.sent } else s

-- `file.state == FileState::CloudOnly`
is_cloud_only : FileState → Bool
is_cloud_only FileState.cloud_only = true
is_cloud_only _ = false

module _ (handler : DaemonHandler) where
  -- `lookup_account`
  unfoldable pub lookup_account : Text → Option AccountId
  unfolding find dec_text
  lookup_account provider_slug =
      Option.map (λ p. p.1)
        (find (λ p. ite (dec_text p.0 provider_slug) true false) handler.provider_accounts)

  abbrev pub Resolved : Type 0
  Resolved = Result Response (AccountId × CloudPath × Text)

  with_account : ResolvedPath → Option AccountId → Resolved
  with_account resolved none =
      err (Response.error (text "unknown provider: " ++ resolved.provider_slug))
  with_account resolved (some account_id) =
      ok (account_id, resolved.cloud_path, resolved.provider_slug)

  with_path : Text → Option ResolvedPath → Resolved
  unfolding with_account lookup_account
  with_path path none = err (Response.error (text "path outside sync root: " ++ path))
  with_path path (some resolved) = with_account resolved (lookup_account resolved.provider_slug)

  -- `resolve_and_lookup`
  unfoldable pub resolve_and_lookup : Text → Resolved
  unfolding with_path resolve_local
  resolve_and_lookup path = with_path path (resolve_local handler.sync_root path)

-- `display_db` is the message that `Display` writes for an error of the database, and `now` the
-- instant of the request.
module _ (handler : DaemonHandler) {Conn : Type 0} (table : Table clash Conn)
    (display_db : DbError → Text) (now : DateTime) where
  database_error : DbError → Response
  database_error e = Response.error (text "database error: " ++ display_db e)

  file_not_found : Text → Response
  file_not_found path = Response.error (text "file not found: " ++ path)

  status_of : Text → Text → Result DbError (Option File) → Response
  unfolding file_not_found database_error
  status_of path slug (ok (some file)) = Response.status path file.state (some slug) none
  status_of path slug (ok none) = file_not_found path
  status_of path slug (err e) = database_error e

  status_at : Text → Conn → Resolved handler → Response
  unfolding status_of get_file_by_cloud_path
  status_at path conn (ok (account_id, cloud_path, slug)) =
      status_of path slug (get_file_by_cloud_path table account_id cloud_path conn)
  status_at path conn (err response) = response

  -- `get_status_for_path`
  unfoldable pub get_status_for_path : Text → Conn → Response
  unfolding status_at resolve_and_lookup
  get_status_for_path path conn = status_at path conn (resolve_and_lookup handler path)

  -- One entry of a batch: whatever is not a status is shown as an error.
  unfoldable pub batch_entry : Text → Response → FileStatus
  batch_entry asked (Response.status path state provider error) = record {
    path = path;
    state = state;
    provider = provider;
  }
  batch_entry asked _ = record { path = asked; state = FileState.error; provider = none }

  -- Whether the row was found, and the connection.
  abbrev pub Updated : Type 0
  Updated = Result DbError Bool × Conn

  found_then : Result DbError Bool × Conn → Updated
  found_then (ok b, conn) = (ok true, conn)
  found_then (err e, conn) = (err e, conn)

  set_state : FileState → Conn → Result DbError (Option File) → Updated
  unfolding found_then update_file
  set_state state conn (ok none) = (ok false, conn)
  set_state state conn (ok (some file)) =
      found_then (update_file table now (record file { state = state }) conn)
  set_state state conn (err e) = (err e, conn)

  -- A pinned file is made pending if its content is in the cloud only.
  pin : Conn → Result DbError (Option File) → Updated
  unfolding found_then update_file is_cloud_only
  pin conn (ok none) = (ok false, conn)
  pin conn (ok (some file)) =
      if is_cloud_only file.state
      then found_then (update_file table now (record file { state = FileState.pending }) conn)
      else (ok true, conn)
  pin conn (err e) = (err e, conn)

  abbrev pub Answer : Type 0
  Answer = Response × HandlerState Conn

  -- The `match` on the result of an update, with what is sent on success.
  answer : Text → (HandlerState Conn → HandlerState Conn) → HandlerState Conn → Updated → Answer
  unfolding file_not_found database_error
  answer path send s (ok true, conn) = (Response.done, send (record s { conn = conn }))
  answer path send s (ok false, conn) = (file_not_found path, record s { conn = conn })
  answer path send s (err e, conn) = (database_error e, record s { conn = conn })

  pinned_at : Text → Bool → HandlerState Conn → Resolved handler → Answer
  unfolding answer pin set_state get_file_by_cloud_path send_action
  pinned_at path pinned s (err response) = (response, s)
  pinned_at path true s (ok (account_id, cloud_path, slug)) =
      answer path (send_action (DaemonAction.force account_id cloud_path)) s
        (pin s.conn (get_file_by_cloud_path table account_id cloud_path s.conn))
  pinned_at path false s (ok (account_id, cloud_path, slug)) =
      answer path (λ t. t) s
        (set_state FileState.cloud_only s.conn
          (get_file_by_cloud_path table account_id cloud_path s.conn))

  cloud_only_at : Text → HandlerState Conn → Resolved handler → Answer
  unfolding answer set_state get_file_by_cloud_path
  cloud_only_at path s (err response) = (response, s)
  cloud_only_at path s (ok (account_id, cloud_path, slug)) =
      answer path (λ t. t) s
        (set_state FileState.cloud_only s.conn
          (get_file_by_cloud_path table account_id cloud_path s.conn))

  force_at : HandlerState Conn → Resolved handler → Answer
  unfolding send_action
  force_at s (err response) = (response, s)
  force_at s (ok (account_id, cloud_path, slug)) =
      (Response.done, send_action (DaemonAction.force account_id cloud_path) s)

  -- `provider.as_deref().and_then(ProviderId::from_slug)`
  unfoldable pub provider_of : Option Text → Option ProviderId
  unfolding from_slug
  provider_of none = none
  provider_of (some slug) = from_slug slug

  -- `handle`
  unfoldable pub handle : Request → HandlerState Conn → Answer
  unfolding get_status_for_path batch_entry pinned_at cloud_only_at force_at provider_of send_action
      resolve_and_lookup
  handle (Request.get_status path) s = (get_status_for_path path s.conn, s)
  handle (Request.get_status_batch paths) s =
      (Response.status_batch (map (λ p. batch_entry p (get_status_for_path p s.conn)) paths), s)
  handle (Request.set_pinned path pinned) s =
      pinned_at path pinned s (resolve_and_lookup handler path)
  handle (Request.set_cloud_only path) s = cloud_only_at path s (resolve_and_lookup handler path)
  handle (Request.force_sync path) s = force_at s (resolve_and_lookup handler path)
  handle (Request.pause_sync provider) s =
      (Response.done, send_action (DaemonAction.pause (provider_of provider)) s)
  handle (Request.resume_sync provider) s =
      (Response.done, send_action (DaemonAction.resume (provider_of provider)) s)
