-- ===== src/Daemon/Handler/Status.antt =====
-- What the status of a path is, described through the resolution of local paths, the accounts of the
-- handler and the table of files, and that the handler answers it.
use uni_cloud_file_sync_thin.Prelude.{
  Text, text, ◌++◌, true, false, Option, none, some, List, [], ◌∷◌, Mem, All, find, ite, dec_text,
  Result, Option-cases, ok, err, ◌≡◌, ◌≢◌, ◌⊎◌, subst, if_pos, if_neg, inl, inr, refl,
}
use mathlib.Core.Option
use mathlib.Core.List.{mem-cons_of_mem, mem-cons_self}
use uni_cloud_file_sync_thin.Core.FileState.{FileState}
use uni_cloud_file_sync_thin.Core.Types.{AccountId, DateTime}
use uni_cloud_file_sync_thin.Db.Error.{DbError}
use uni_cloud_file_sync_thin.Db.Sqlite.{Table}
use uni_cloud_file_sync_thin.Db.Files.{File, clash, get_file_by_cloud_path}
use uni_cloud_file_sync_thin.Ipc.Messages.{Response, FileStatus}
use uni_cloud_file_sync_thin.Ipc.PathResolver.{ResolvedPath, resolve_local}
use uni_cloud_file_sync_thin.Daemon.Handler.{
  DaemonHandler, lookup_account, with_account, with_path, resolve_and_lookup, status_of, status_at,
  get_status_for_path, batch_entry,
}

first_of : Text → List (Text × AccountId) → Option AccountId
first_of slug accounts =
    Option.map (λ p. p.1) (find (λ p. ite (dec_text p.0 slug) true false) accounts)

-- Whether a list of accounts has one for a slug.
first_of-cases :
    (slug : Text) (accounts : List (Text × AccountId))
    → ((account_id : AccountId) × (first_of slug accounts ≡ some account_id)
        × Mem (slug, account_id) accounts)
      ⊎ ((first_of slug accounts ≡ none) × All (λ p. p.0 ≢ slug) accounts)
unfolding first_of find
first_of-cases slug [] = inr (refl, tt)
first_of-cases slug ((key, account_id) ∷ accounts) = elim (dec_text key slug) [
  | yes e ↦ inl (
    account_id,
    rw (if_pos (dec_text key slug) e true false) refl,
    subst (λ k. Mem (k, account_id) ((key, account_id) ∷ accounts)) e mem-cons_self,
  )
  | no ne ↦ rw (if_neg (dec_text key slug) ne true false) (elim (first_of-cases slug accounts) [
    | inl (found, e, there) ↦ inl (found, e, mem-cons_of_mem (key, account_id) there)
    | inr (e, absent) ↦ inr (e, (ne, absent))
  ])
]

module _ (handler : DaemonHandler) {Conn : Type 0} (table : Table clash Conn) where
  -- The path is below the sync root, its provider has an account, and the table has a file there.
  pub data Known (path : Text) (c : Conn) : Text → File → Type 0 where
    known :
        (r : ResolvedPath) (account_id : AccountId) (file : File)
        → resolve_local handler.sync_root path ≡ some r
        → Mem (r.provider_slug, account_id) handler.provider_accounts
        → get_file_by_cloud_path table account_id r.cloud_path c ≡ ok (some file)
        → Known path c r.provider_slug file

  -- Why there is no status for a path.
  pub data Unknown (path : Text) (c : Conn) : Type 0 where
    outside : resolve_local handler.sync_root path ≡ none → Unknown path c
    no_account :
        (r : ResolvedPath)
        → resolve_local handler.sync_root path ≡ some r
        → All (λ p. p.0 ≢ r.provider_slug) handler.provider_accounts
        → Unknown path c
    no_file :
        (r : ResolvedPath) (account_id : AccountId)
        → resolve_local handler.sync_root path ≡ some r
        → Mem (r.provider_slug, account_id) handler.provider_accounts
        → get_file_by_cloud_path table account_id r.cloud_path c ≡ ok none
        → Unknown path c
    database_failed :
        (r : ResolvedPath) (account_id : AccountId) (e : DbError)
        → resolve_local handler.sync_root path ≡ some r
        → Mem (r.provider_slug, account_id) handler.provider_accounts
        → get_file_by_cloud_path table account_id r.cloud_path c ≡ err e
        → Unknown path c

  -- The answer to a request for a path, and the entry for it in a batch.
  pub data Shows (path : Text) (c : Conn) : Response → FileStatus → Type 0 where
    found :
        (slug : Text) (file : File)
        → Known path c slug file
        → Shows path c
            (Response.status path file.state (some slug) none)
            (record { path = path; state = file.state; provider = some slug })
    missed :
        (message : Text)
        → Unknown path c
        → Shows path c
            (Response.error message)
            (record { path = path; state = FileState.error; provider = none })

  -- The three ends of the resolution.
  resolve_and_lookup-cases :
      (path : Text) (c : Conn)
      → ((r : ResolvedPath) × (account_id : AccountId) × (resolve_local handler.sync_root path
            ≡ some r)
          × Mem (r.provider_slug, account_id) handler.provider_accounts
          × (resolve_and_lookup handler path ≡ ok (account_id, r.cloud_path, r.provider_slug)))
        ⊎ ((message : Text) × (resolve_and_lookup handler path ≡ err (Response.error message))
            × Unknown path c)
  unfolding resolve_and_lookup with_path with_account lookup_account first_of
  resolve_and_lookup-cases path c = elim (Option-cases (resolve_local handler.sync_root path)) [
    | inl e ↦ inr (text "path outside sync root: " ++ path, rw e refl, outside e)
    | inr (r, e) ↦ elim (first_of-cases r.provider_slug handler.provider_accounts) [
      | inl (account_id, f, there) ↦ inl (r, account_id, e, there, rw (e, f) refl)
      | inr (f, absent) ↦
          inr (text "unknown provider: " ++ r.provider_slug, rw (e, f) refl, no_account r e absent)
    ]
  ]

  module _ (display_db : DbError → Text) (now : DateTime) where
    status_of-Shows :
        (path : Text) (c : Conn) (r : ResolvedPath) (account_id : AccountId)
        → resolve_local handler.sync_root path ≡ some r
        → Mem (r.provider_slug, account_id) handler.provider_accounts
        → (found_file : Result DbError (Option File))
        → get_file_by_cloud_path table account_id r.cloud_path c ≡ found_file
        → Shows path c (status_of handler table display_db now path r.provider_slug found_file) (
            batch_entry handler table display_db now path
              (status_of handler table display_db now path r.provider_slug found_file))
    unfolding status_of batch_entry
    status_of-Shows path c r account_id e there (ok (some file)) f =
        found r.provider_slug file (known r account_id file e there f)
    status_of-Shows path c r account_id e there (ok none) f =
        missed _ (no_file r account_id e there f)
    status_of-Shows path c r account_id e there (err x) f =
        missed _ (database_failed r account_id x e there f)

    pub get_status_for_path-Shows :
        (path : Text) (c : Conn)
        → Shows path c (get_status_for_path handler table display_db now path c) (
            batch_entry handler table display_db now path
              (get_status_for_path handler table display_db now path c))
    unfolding get_status_for_path status_at batch_entry
    get_status_for_path-Shows path c = elim (resolve_and_lookup-cases path c) [
      | inl (r, account_id, e, there, f) ↦ rw f (status_of-Shows path c r account_id e there _ refl)
      | inr (message, f, unknown) ↦ rw f (missed message unknown)
    ]
