-- ===== src/Vfs/Content/Outcomes.antt =====
-- What one call of `ensure_downloaded` reports, and what the next call does after a failure.
use uni_cloud_file_sync_thin.Prelude.{
  Text, Bool, false, some, Result, ok, err, ◌≡◌, ◌≢◌, ◌⊎◌, true, sym, inl, inr, refl, ap, subst,
  ◌∙◌, arith, Bool-cases,
}
use uni_cloud_file_sync_thin.Core.Provider.{CloudProvider}
use uni_cloud_file_sync_thin.Core.Types.{AccountId, FileId, DateTime, Error, cloud_native_file}
use uni_cloud_file_sync_thin.Db.Files.{clash}
use uni_cloud_file_sync_thin.Db.Sqlite.{Table}
use uni_cloud_file_sync_thin.Vfs.Content.{
  DownloadStatus, failed, Errno, enotsup, eio, must_download, status_after, returned_after, Locks,
  lock_of, entry_or_insert, set_status, cached_path, State, settle, locked, ensure_downloaded,
}

lock_of-set_status :
    (file_id : FileId) (status : DownloadStatus) (locks : Locks)
    → lock_of file_id (set_status file_id status locks) ≡ some status
unfolding lock_of set_status
lock_of-set_status file_id status locks = ground arith

module _ {World Conn : Type 0} (files : Table clash Conn) (account_id : AccountId) (now : DateTime)
    (exists : Text → World → Bool) (remote : CloudProvider World) (to_string : Error → Text)
    (cache_root : Text) (file_id : FileId) where
  abbrev pub path : Text
  path = cached_path cache_root file_id

  abbrev pub ensure : State World Conn → Result Errno Text × State World Conn
  ensure s = ensure_downloaded files account_id now exists remote to_string cache_root file_id s

  -- What a call reports of its download: the path; `ENOTSUP` for a file that only the provider can
  -- open; `EIO` for any other error.
  pub data Reports : Result Error (Unit {0}) → Result Errno Text → Type 0 where
    fetched : Reports (ok tt) (ok path)
    not_supported : {url : Text} → Reports (err (cloud_native_file url)) (err enotsup)
    failed_otherwise :
        {x : Error} → ((url : Text) → x ≢ cloud_native_file url) → Reports (err x) (err eio)

  returned_after-Reports : (r : Result Error (Unit {0})) → Reports r (returned_after path r)
  unfolding returned_after
  returned_after-Reports (ok _) = fetched
  returned_after-Reports (err (cloud_native_file url)) = not_supported
  returned_after-Reports (err x) = failed_otherwise (λ url h. ground arith)

  -- The call downloaded, reports the error of the download, and leaves the lock of the file in the
  -- failed state.
  abbrev pub Settled : State World Conn → Errno → State World Conn → Type 0
  Settled s e s' =
      Reports (remote.download file_id path s.world).0 (err e)
      × ((m : Text) × (lock_of file_id s'.locks ≡ some (failed m)))

  returned_after-err :
      (r : Result Error (Unit {0})) (e : Errno)
      → returned_after path r ≡ err e
      → (m : Text) × (status_after to_string r ≡ failed m)
  unfolding status_after returned_after
  returned_after-err (ok _) e h = absurd (ground arith)
  returned_after-err (err (cloud_native_file url)) e h = (_, refl)
  returned_after-err (err x) e h = (_, refl)

  settle-cases :
      (conn : Conn) (locks : Locks) (r : Result Error (Unit {0}) × World) (e : Errno)
      (s' : State World Conn)
      → settle files account_id now exists remote to_string cache_root file_id conn locks r
        ≡ (err e, s')
      → Reports r.0 (err e) × ((m : Text) × (lock_of file_id s'.locks ≡ some (failed m)))
  unfolding settle
  settle-cases conn locks (r, w) e s' h =
      let (m, status) = returned_after-err r e (ap (λ x. x.0) h) in
      (
        subst (Reports r) (ap (λ x. x.0) h) (returned_after-Reports r),
        (
          m,
          subst (λ x. lock_of file_id x.locks ≡ some (failed m)) (ap (λ x. x.1) h)
              (lock_of-set_status file_id _ locks ∙ ap some status),
        ),
      )

  ok_ne_err :
      {p : Text} {s s' : State World Conn} {e : Errno}
      → ◌≡◌ {A = Result Errno Text × State World Conn} (ok p, s) (err e, s')
      → ⊥
  ok_ne_err h = ground arith

  ensure-cases : (s s' : State World Conn) (e : Errno) → ensure s ≡ (err e, s') → Settled s e s'
  unfolding ensure_downloaded locked
  ensure-cases s s' e h = elim (Bool-cases (exists path s.world)) [
    | inl there ↦ absurd (ok_ne_err (rw there at h))
    | inr gone ↦
        elim (Bool-cases
          (must_download (entry_or_insert file_id s.locks (lock_of file_id s.locks)).0)) [
            | inl again ↦ settle-cases _ _ _ e s' (rw (gone, again) at h)
            | inr over ↦ absurd (ok_ne_err (rw (gone, over) at h))
          ]
  ]

  -- A failed download is tried again.
  ensure_again :
      (s : State World Conn) (m : Text)
      → exists path s.world ≡ false
      → lock_of file_id s.locks ≡ some (failed m)
      → (ensure s).0 ≡ returned_after path (remote.download file_id path s.world).0
  unfolding ensure_downloaded locked settle must_download entry_or_insert
  ensure_again s m gone status = rw (gone, status) refl

  returned_after-ok :
      (r : Result Error (Unit {0})) (p : Text) → returned_after path r ≡ ok p → p ≡ path
  unfolding returned_after
  returned_after-ok (ok _) p h = ground arith
  returned_after-ok (err (cloud_native_file url)) p h = absurd (ground arith)
  returned_after-ok (err x) p h = absurd (ground arith)

  -- A path that is returned is the one of the file in the cache.
  pub ensure_downloaded-path : (s : State World Conn) (p : Text) → (ensure s).0 ≡ ok p → p ≡ path
  unfolding ensure_downloaded locked settle
  ensure_downloaded-path s p h = elim (Bool-cases (exists path s.world)) [
    | inl there ↦ let k = rw there at h in ground arith
    | inr gone ↦
        elim (Bool-cases
          (must_download (entry_or_insert file_id s.locks (lock_of file_id s.locks)).0)) [
            | inl again ↦ returned_after-ok _ p (rw (gone, again) at h)
            | inr over ↦ let k = rw (gone, over) at h in ground arith
          ]
  ]

  -- An error of `ensure_downloaded` is that of a download: `ENOTSUP` for a file that only the
  -- provider can open, and `EIO` for any other error. It leaves the lock of the file in the failed
  -- state, but is not final: unless the file has appeared meanwhile, the next call downloads again,
  -- and reports the path or that download's error in the same way.
  pub ensure_downloaded-retry :
      (s s' : State World Conn) (e : Errno)
      → ensure s ≡ (err e, s')
      → Settled s e s'
        × ((exists path s'.world ≡ true)
            ⊎ Reports (remote.download file_id path s'.world).0 (ensure s').0)
  ensure_downloaded-retry s s' e h =
      let (report, (m, status)) = ensure-cases s s' e h in
      (
        (report, (m, status)),
        elim (Bool-cases (exists path s'.world)) [
          | inl there ↦ inl there
          | inr gone ↦ inr (
              subst (Reports (remote.download file_id path s'.world).0)
                (sym (ensure_again s' m gone status)) (returned_after-Reports _))
        ],
      )
