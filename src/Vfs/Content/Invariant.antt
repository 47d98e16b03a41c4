-- ===== src/Vfs/Content/Invariant.antt =====
-- What holds of every reachable state of the threads that ask for one file, and is kept by each
-- move.
use uni_cloud_file_sync_thin.Prelude.{
  Text, ℕ, ◌<◌, Bool, true, false, Option, none, some, ok, ◌≡◌, refl, arith, update,
}
use uni_cloud_file_sync_thin.Core.FileState.{FileState}
use uni_cloud_file_sync_thin.Core.Types.{Error}
use uni_cloud_file_sync_thin.Vfs.Content.{
  DownloadStatus, complete, must_download, status_after, returned_after,
}
use uni_cloud_file_sync_thin.Vfs.Content.Threads.{
  Shared, Pc, start, missing, locked, settling, recording, returned, Move, cached, look_up, acquire,
  appeared, finished, proceed, create, downloaded, settle, note, unnoted, System, pick, Reach,
  begin, later,
}

-- The thread holds the mutex of the status.
abbrev pub critical : Pc → Bool
critical locked = true
critical (recording _) = true
critical _ = false

-- The thread has a result that says that the file is on the disk.
abbrev pub served : Pc → Bool
served (settling (ok _)) = true
served (recording (ok _)) = true
served (returned (ok _)) = true
served _ = false

-- The thread holds a reference to the lock of the file.
abbrev pub referring : Pc → Bool
referring start = false
referring missing = false
referring (returned _) = false
referring _ = true

abbrev pub is_some : Option DownloadStatus → Bool
is_some none = false
is_some (some _) = true

pub record Inv (n : ℕ) (m : Shared) (pc : ℕ → Pc) : Type 0 where
  pub there : (j : ℕ) → served (pc j) ≡ true → m.on_disk ≡ true
  pub complete_there : m.status ≡ some complete → m.on_disk ≡ true
  pub entry : (j : ℕ) → referring (pc j) ≡ true → is_some m.status ≡ true
  pub unique : (a b : ℕ) → critical (pc a) ≡ true → critical (pc b) ≡ true → a ≡ b
  pub excluded : (j : ℕ) → critical (pc j) ≡ true → m.held ≡ true
  pub covered : m.held ≡ true → (j : ℕ) × (j < n) × (critical (pc j) ≡ true)

module _ {to_string : Error → Text} {path : Text} where
  -- The premise of a move, for the catch-all clauses below, which cannot name it.
  abbrev Guard : {m m' : Shared} {p p' : Pc} → Move to_string path m p m' p' → Type 0
  Guard {m} (cached _) = m.on_disk ≡ true
  Guard {m} (acquire _) = m.held ≡ false
  Guard {m} (appeared _) = m.on_disk ≡ true
  Guard {m} (finished status _ _ _) = (m.status ≡ some status) × (must_download status ≡ false)
  Guard {m} (downloaded _) = m.on_disk ≡ true
  Guard {m} (settle r _) = m.held ≡ false
  Guard _ = Unit

  guard : {m m' : Shared} {p p' : Pc} (mv : Move to_string path m p m' p') → Guard mv
  guard (cached g) = g
  guard (acquire g) = g
  guard (appeared g) = g
  guard (finished status _ g h) = (g, h)
  guard (downloaded g) = g
  guard (settle r g) = g
  guard _ = tt

  Move-on_disk :
      {m m' : Shared} {p p' : Pc}
      → Move to_string path m p m' p'
      → m.on_disk ≡ true
      → m'.on_disk ≡ true
  Move-on_disk (create g) h = refl
  Move-on_disk mv h = h

module _ {to_string : Error → Text} {path : Text} {n : ℕ} {m : Shared} {pc : ℕ → Pc}
    (inv : Inv n m pc) (i : ℕ) where
  open inv use {there, complete_there, entry, unique, excluded, covered}

  Move-there :
      {p p' : Pc} {m' : Shared}
      → Move to_string path m p m' p'
      → pc i ≡ p
      → (j : ℕ) → served (update pc i p' j) ≡ true
      → m'.on_disk ≡ true
  unfolding returned_after must_download
  Move-there (cached g) e j q = ground (arith, there j)
  Move-there mv e j q = ground (arith, guard mv, there j, there i, complete_there)

  Move-complete :
      {p p' : Pc} {m' : Shared}
      → Move to_string path m p m' p'
      → pc i ≡ p
      → m'.status ≡ some complete
      → m'.on_disk ≡ true
  unfolding status_after
  Move-complete (cached g) e q = g
  Move-complete mv e q = ground (arith, complete_there, there i)

  Move-entry :
      {p p' : Pc} {m' : Shared}
      → Move to_string path m p m' p'
      → pc i ≡ p
      → (j : ℕ) → referring (update pc i p' j) ≡ true
      → is_some m'.status ≡ true
  Move-entry look_up e j q = refl
  Move-entry mv e j q = ground (arith, entry j, entry i)

  Move-unique :
      {p p' : Pc} {m' : Shared}
      → Move to_string path m p m' p'
      → pc i ≡ p
      → (a b : ℕ) → critical (update pc i p' a) ≡ true
      → critical (update pc i p' b) ≡ true
      → a ≡ b
  Move-unique (cached g) e a b qa qb = ground (arith, unique a b)
  Move-unique mv e a b qa qb = ground (arith, guard mv, unique a b, excluded a, excluded b)

  Move-excluded :
      {p p' : Pc} {m' : Shared}
      → Move to_string path m p m' p'
      → pc i ≡ p
      → (j : ℕ) → critical (update pc i p' j) ≡ true
      → m'.held ≡ true
  Move-excluded (cached g) e j q = ground (arith, excluded j)
  Move-excluded mv e j q = ground (arith, guard mv, excluded j, unique i j)

  Move-covered :
      {p p' : Pc} {m' : Shared}
      → Move to_string path m p m' p'
      → pc i ≡ p
      → i < n
      → m'.held ≡ true
      → (j : ℕ) × (j < n) × (critical (update pc i p' j) ≡ true)
  Move-covered (acquire g) e lt q = (i, lt, ground arith)
  Move-covered (settle r g) e lt q = (i, lt, ground arith)
  Move-covered (appeared _) e lt q = absurd (ground arith)
  Move-covered (finished _ _ _ _) e lt q = absurd (ground arith)
  Move-covered (proceed _ _ _ _) e lt q = absurd (ground arith)
  Move-covered (note _) e lt q = absurd (ground arith)
  Move-covered (unnoted _) e lt q = absurd (ground arith)
  Move-covered mv e lt q = let (j, below, c) = covered q in (j, below, ground arith)

  Move-Inv :
      {p : Pc} {m' : Shared} → i < n → Move to_string path m (pc i) m' p → Inv n m' (update pc i p)
  Move-Inv lt mv = record {
    there = Move-there mv refl;
    complete_there = Move-complete mv refl;
    entry = Move-entry mv refl;
    unique = Move-unique mv refl;
    excluded = Move-excluded mv refl;
    covered = Move-covered mv refl lt;
  }

module _ {to_string : Error → Text} {path : Text} {n : ℕ} {on_disk : Bool}
    {state : Option FileState} where
  -- The invariant holds of every state that the threads can reach.
  pub Reach-Inv : {k : ℕ} {s : System} → Reach to_string path n on_disk state k s → Inv n s.mem s.pc
  Reach-Inv begin = record {
    there = λ j q. absurd (ground arith);
    complete_there = λ q. absurd (ground arith);
    entry = λ j q. absurd (ground arith);
    unique = λ a b qa qb. absurd (ground arith);
    excluded = λ j q. absurd (ground arith);
    covered = λ q. absurd (ground arith);
  }
  Reach-Inv (later r (pick i lt mv)) = Move-Inv (Reach-Inv r) i lt mv

  -- In every state that the threads can reach: where a call has returned a path, the file exists
  -- on the disk; where the status of the lock is complete, it exists too; and no two threads hold
  -- the mutex of the status together.
  pub ensure_downloaded-served :
      {k : ℕ} {s : System}
      → Reach to_string path n on_disk state k s
      → ((j : ℕ) (found : Text) → s.pc j ≡ returned (ok found) → s.mem.on_disk ≡ true)
        × ((s.mem.status ≡ some complete → s.mem.on_disk ≡ true)
            × ((a b : ℕ) → critical (s.pc a) ≡ true → critical (s.pc b) ≡ true → a ≡ b))
  ensure_downloaded-served r =
      let inv = Reach-Inv r in
      (λ j found q. inv.there j (rw q refl), (inv.complete_there, inv.unique))
