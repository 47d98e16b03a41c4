-- ===== src/Vfs/Content/Threads.antt =====
-- `ensure_downloaded` of crates/cloudsync-vfs/src/content_cache.rs for one file, called by `n`
-- threads at once: each access to what they share is a step, and the steps interleave in any order.
use uni_cloud_file_sync_thin.Prelude.{
  Text, ℕ, suc, ◌<◌, Bool, true, false, Option, none, some, Result, ok, err, ◌≡◌, update,
}
use uni_cloud_file_sync_thin.Core.FileState.{FileState}
use uni_cloud_file_sync_thin.Core.Types.{Error}
use uni_cloud_file_sync_thin.Vfs.Content.{
  DownloadStatus, in_progress, Errno, must_download, status_after, state_after, returned_after,
}

-- What the threads share: whether the path exists, the status in the map of locks, whether its
-- mutex is held, and the state of the file's row, if it has one.
pub record Shared : Type 0 where
  pub on_disk : Bool
  pub status : Option DownloadStatus
  pub held : Bool
  pub state : Option FileState

-- Where a thread stands.
pub data Pc : Type 0 where
  start : Pc  -- before the first `path.exists()`
  missing : Pc  -- before the lookup in the map of locks
  waiting : Pc  -- before the first `status_mutex.lock()`
  locked : Pc  -- before the second `path.exists()`
  marking : Pc  -- the mutex is released
  downloading : Pc
  settling : Result Error (Unit {0}) → Pc  -- before the second `status_mutex.lock()`
  recording : Result Error (Unit {0}) → Pc  -- the status is stored
  returned : Result Errno Text → Pc

-- `or_insert_with`
abbrev pub inserted : Option DownloadStatus → DownloadStatus
inserted none = in_progress
inserted (some status) = status

-- A write of the state, where the file has a row.
abbrev pub written : Option FileState → Option FileState → Option FileState
written none old = old
written (some new) none = none
written (some new) (some old) = some new

-- One step of one thread. A provider may create the file at any time of the download, and when a
-- download succeeds the file is there. A row may be written or fail to be.
pub data Move (to_string : Error → Text) (path : Text) (m : Shared)
    : Pc → Shared → Pc → Type 0 where
  cached : m.on_disk ≡ true → Move to_string path m start m (returned (ok path))
  not_cached : m.on_disk ≡ false → Move to_string path m start m missing
  look_up : Move to_string path m missing (record m { status = some (inserted m.status) }) waiting
  acquire : m.held ≡ false → Move to_string path m waiting (record m { held = true }) locked
  appeared :
      m.on_disk ≡ true
      → Move to_string path m locked (record m { held = false }) (returned (ok path))
  finished :
      (status : DownloadStatus)
      → m.on_disk ≡ false
      → m.status ≡ some status
      → must_download status ≡ false
      → Move to_string path m locked (record m { held = false }) (returned (ok path))
  proceed :
      (status : DownloadStatus)
      → m.on_disk ≡ false
      → m.status ≡ some status
      → must_download status ≡ true
      → Move to_string path m locked (record m { status = some in_progress; held = false }) marking
  mark :
      Move to_string path m marking
        (record m { state = written (some FileState.syncing) m.state })
        downloading
  unmarked : Move to_string path m marking m downloading
  create :
      m.on_disk ≡ false
      → Move to_string path m downloading (record m { on_disk = true }) downloading
  downloaded : m.on_disk ≡ true → Move to_string path m downloading m (settling (ok tt))
  broken : (e : Error) → Move to_string path m downloading m (settling (err e))
  settle :
      (r : Result Error (Unit {0}))
      → m.held ≡ false
      → Move to_string path m
          (settling r)
          (record m { held = true; status = some (status_after to_string r) })
          (recording r)
  note :
      (r : Result Error (Unit {0}))
      → Move to_string path m
          (recording r)
          (record m { held = false; state = written (state_after r) m.state })
          (returned (returned_after path r))
  unnoted :
      (r : Result Error (Unit {0}))
      → Move to_string path m
          (recording r)
          (record m { held = false })
          (returned (returned_after path r))

pub record System : Type 0 where
  pub mem : Shared
  pub pc : ℕ → Pc

-- No thread has asked for the file yet.
abbrev pub init : Bool → Option FileState → System
init on_disk state = record {
  mem = record { on_disk = on_disk; status = none; held = false; state = state };
  pc = λ _. start;
}

module _ (to_string : Error → Text) (path : Text) (n : ℕ) where
  pub data Step (s : System) : System → Type 0 where
    pick :
        (i : ℕ) {m : Shared} {p : Pc}
        → i < n
        → Move to_string path s.mem (s.pc i) m p
        → Step s (record { mem = m; pc = update s.pc i p })

  -- The states after a number of steps.
  pub data Reach (on_disk : Bool) (state : Option FileState) : ℕ → System → Type 0 where
    begin : Reach on_disk state 0 (init on_disk state)
    later :
        {k : ℕ} {s t : System} → Reach on_disk state k s → Step s t → Reach on_disk state (suc k) t
