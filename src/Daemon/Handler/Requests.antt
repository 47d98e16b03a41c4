-- ===== src/Daemon/Handler/Requests.antt =====
-- What a request changes, and what it answers.
use uni_cloud_file_sync_thin.Prelude.{
  Text, Bool, true, false, Option, none, some, List, Result, ok, err, ◌≡◌, ◌⊎◌, inl, inr, refl,
  arith, Bool-cases,
}
use uni_cloud_file_sync_thin.Core.FileState.{FileState}
use uni_cloud_file_sync_thin.Core.ProviderId.{from_slug}
use uni_cloud_file_sync_thin.Core.Types.{DateTime}
use uni_cloud_file_sync_thin.Db.Error.{DbError}
use uni_cloud_file_sync_thin.Db.Sqlite.{Table}
use uni_cloud_file_sync_thin.Db.Files.{File, clash, update_file}
use uni_cloud_file_sync_thin.Db.Files.Updates.{update_file-cases}
use uni_cloud_file_sync_thin.Ipc.Messages.{Request, Response, FileStatus}
use uni_cloud_file_sync_thin.Daemon.Handler.{
  DaemonHandler, HandlerState, DaemonAction, Resolved, Updated, Answer, resolve_and_lookup,
  get_status_for_path, batch_entry, send_action, found_then, set_state, pin, answer, pinned_at,
  cloud_only_at, force_at, handle, provider_of, is_cloud_only,
}

module _ (handler : DaemonHandler) {Conn : Type 0} (table : Table clash Conn)
    (display_db : DbError → Text) (now : DateTime) where
  -- The rows of the database and the channel are as they were.
  abbrev pub Untouched : HandlerState Conn → HandlerState Conn → Type 0
  Untouched s s' =
      (table.rows s'.conn ≡ table.rows s.conn) × (s'.sent ≡ s.sent) × (s'.connected ≡ s.connected)

  -- An update that finds no row, or fails, leaves the rows as they were.
  abbrev Settles : Conn → Updated handler table display_db now → Type 0
  Settles c r = (r.0 ≡ ok true) ⊎ (table.rows r.1 ≡ table.rows c)

  found_then-Settles :
      (c : Conn) (file : File)
      → Settles c (found_then handler table display_db now (update_file table now file c))
  unfolding found_then
  found_then-Settles c file = elim (update_file-cases table now file c) [
    | inl (b, c', e) ↦ inl (rw e refl)
    | inr (x, c', e, rows) ↦ inr (rw e rows)
  ]

  set_state-Settles :
      (state : FileState) (c : Conn) (r : Result DbError (Option File))
      → Settles c (set_state handler table display_db now state c r)
  unfolding set_state
  set_state-Settles state c (ok none) = inr refl
  set_state-Settles state c (ok (some file)) = found_then-Settles c (record file { state = state })
  set_state-Settles state c (err e) = inr refl

  pin-Settles :
      (c : Conn) (r : Result DbError (Option File))
      → Settles c (pin handler table display_db now c r)
  unfolding pin
  pin-Settles c (ok none) = inr refl
  pin-Settles c (ok (some file)) = elim (Bool-cases (is_cloud_only file.state)) [
    | inl cloud ↦ simp cloud (found_then-Settles c (record file { state = FileState.pending }))
    | inr other ↦ simp other (inl refl)
  ]
  pin-Settles c (err e) = inr refl

  -- A request that is not answered by `Ok` changes nothing.
  abbrev Careful : HandlerState Conn → Answer handler table display_db now → Type 0
  Careful s r = (r.0 ≡ Response.done) ⊎ Untouched s r.1

  answer-Careful :
      (path : Text) (send : HandlerState Conn → HandlerState Conn) (s : HandlerState Conn)
      (u : Updated handler table display_db now)
      → Settles s.conn u
      → Careful s (answer handler table display_db now path send s u)
  unfolding answer
  answer-Careful path send s (ok true, conn) h = inl refl
  answer-Careful path send s (ok false, conn) (inl e) = absurd (ground arith)
  answer-Careful path send s (ok false, conn) (inr e) = inr (e, refl, refl)
  answer-Careful path send s (err x, conn) (inl e) = absurd (ground arith)
  answer-Careful path send s (err x, conn) (inr e) = inr (e, refl, refl)

  pinned_at-Careful :
      (path : Text) (pinned : Bool) (s : HandlerState Conn) (r : Resolved handler)
      → Careful s (pinned_at handler table display_db now path pinned s r)
  unfolding pinned_at
  pinned_at-Careful path true s (err response) = inr (refl, refl, refl)
  pinned_at-Careful path false s (err response) = inr (refl, refl, refl)
  pinned_at-Careful path true s (ok (account_id, cloud_path, slug)) =
      answer-Careful path (send_action (DaemonAction.force account_id cloud_path)) s _
        (pin-Settles s.conn _)
  pinned_at-Careful path false s (ok (account_id, cloud_path, slug)) =
      answer-Careful path (λ t. t) s _ (set_state-Settles FileState.cloud_only s.conn _)

  cloud_only_at-Careful :
      (path : Text) (s : HandlerState Conn) (r : Resolved handler)
      → Careful s (cloud_only_at handler table display_db now path s r)
  unfolding cloud_only_at
  cloud_only_at-Careful path s (err response) = inr (refl, refl, refl)
  cloud_only_at-Careful path s (ok (account_id, cloud_path, slug)) =
      answer-Careful path (λ t. t) s _ (set_state-Settles FileState.cloud_only s.conn _)

  force_at-Careful :
      (s : HandlerState Conn) (r : Resolved handler)
      → Careful s (force_at handler table display_db now s r)
  unfolding force_at
  force_at-Careful s (err response) = inr (refl, refl, refl)
  force_at-Careful s (ok (account_id, cloud_path, slug)) = inl refl

  -- A request that is answered by anything but `Ok`, an error or a status, leaves the rows of the
  -- database and the channel of actions as they were.
  pub handle-Untouched :
      (request : Request) (s : HandlerState Conn)
      → ((handle handler table display_db now request s).0 ≡ Response.done)
        ⊎ Untouched s (handle handler table display_db now request s).1
  unfolding handle
  handle-Untouched (Request.get_status path) s = inr (refl, refl, refl)
  handle-Untouched (Request.get_status_batch paths) s = inr (refl, refl, refl)
  handle-Untouched (Request.set_pinned path pinned) s =
      pinned_at-Careful path pinned s (resolve_and_lookup handler path)
  handle-Untouched (Request.set_cloud_only path) s =
      cloud_only_at-Careful path s (resolve_and_lookup handler path)
  handle-Untouched (Request.force_sync path) s =
      force_at-Careful s (resolve_and_lookup handler path)
  handle-Untouched (Request.pause_sync provider) s = inl refl
  handle-Untouched (Request.resume_sync provider) s = inl refl

  -- The entry of a batch for a path.
  abbrev pub entry : Conn → Text → FileStatus
  entry c path =
      batch_entry handler table display_db now path
        (get_status_for_path handler table display_db now path c)

  -- To pause or resume a provider by a slug that no provider has is to pause or resume all of them.
  pub handle_pause_unknown :
      (slug : Text) (s : HandlerState Conn)
      → from_slug slug ≡ none
      → (handle handler table display_db now (Request.pause_sync (some slug)) s
          ≡ handle handler table display_db now (Request.pause_sync none) s)
        × (handle handler table display_db now (Request.resume_sync (some slug)) s
            ≡ handle handler table display_db now (Request.resume_sync none) s)
  unfolding handle provider_of
  handle_pause_unknown slug s h = (rw h refl, rw h refl)
