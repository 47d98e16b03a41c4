-- ===== src/Vfs/Content/Tests.antt =====
-- Runs of the content cache, and the instances of the theorems there.
use uni_cloud_file_sync_thin.Prelude.{
  Text, text, ℕ, zero, suc, ◌+◌, ◌*◌, ◌≤◌, ◌<◌, Bool, true, false, Option, none, some, List, [],
  ◌∷◌, map, length, keep, find, take, drop, dec_text, Result, ok, err, ◌≡◌, ◌⊎◌, refl, ap, arith,
  ℕ_discrete,
}
use uni_cloud_file_sync_thin.Core.FileState.{FileState}
use uni_cloud_file_sync_thin.Core.LocalPath.{join}
use uni_cloud_file_sync_thin.Core.Provider.{CloudProvider}
use uni_cloud_file_sync_thin.Core.Types.{Error}
use uni_cloud_file_sync_thin.Db.Files.{
  FileRow, clash, by_id, by_provider_id, get_file_by_provider_id, update_file, from_row, to_row,
}
use uni_cloud_file_sync_thin.Db.Sqlite.Memory.{
  memory, memory_insert, memory_update, clear_of, all_clear,
}
use uni_cloud_file_sync_thin.Vfs.Content.{
  in_progress, complete, Errno, enotsup, eio, State, ensure_downloaded, cached_path, lock_of,
  must_download, status_after, state_after, returned_after, LocalFiles, zeros, read_file_at,
}
use uni_cloud_file_sync_thin.Vfs.Content.Invariant.{critical, ensure_downloaded-served}
use uni_cloud_file_sync_thin.Vfs.Content.Outcomes.{Settled, Reports, ensure_downloaded-retry}
use uni_cloud_file_sync_thin.Vfs.Content.Progress.{
  active, Moves, ensure_downloaded-ends, second_download, served_early,
}
use uni_cloud_file_sync_thin.Vfs.Content.Reads.{IsFileSystem, Extract, read_file_at-Extract}
use uni_cloud_file_sync_thin.Vfs.Content.Threads.{
  downloading, returned, not_cached, look_up, acquire, proceed, mark, create, downloaded, settle,
  note, System, pick, Reach, begin, later,
}

abbrev message : Error → Text
message e = text "broken"

abbrev path : Text
path = text "c/a"

-- The threads 0 and 1 ask for the file; thread 0 is downloading it, and thread 1 waits.
abbrev Reachable : ℕ → System → Type 0
Reachable k s = Reach message path 2 false (some FileState.cloud_only) k s

abbrev racing : (s : System) × Reachable 7 s
unfolding ℕ_discrete must_download status_after returned_after
racing = (
  _,
  later
      (later
        (later
          (later
            (later
              (later (later begin (pick 0 (omega arith) (not_cached refl)))
                (pick 0 (omega arith) look_up))
              (pick 0 (omega arith) (acquire refl)))
            (pick 0 (omega arith) (proceed in_progress refl refl refl)))
          (pick 0 (omega arith) mark))
        (pick 1 (omega arith) (not_cached refl)))
      (pick 1 (omega arith) look_up),
)

-- Thread 0 is downloading, and thread 1 has not started.
abbrev early : (s : System) × Reachable 5 s
unfolding ℕ_discrete must_download status_after returned_after
early = (
  _,
  later
      (later
        (later
          (later (later begin (pick 0 (omega arith) (not_cached refl)))
            (pick 0 (omega arith) look_up))
          (pick 0 (omega arith) (acquire refl)))
        (pick 0 (omega arith) (proceed in_progress refl refl refl)))
      (pick 0 (omega arith) mark),
)

-- Thread 0 has the path.
abbrev over : (s : System) × Reachable 9 s
unfolding ℕ_discrete must_download status_after returned_after
over = (
  _,
  later
      (later
        (later (later early.1 (pick 0 (omega arith) (create refl)))
          (pick 0 (omega arith) (downloaded refl)))
        (pick 0 (omega arith) (settle (ok tt) refl)))
      (pick 0 (omega arith) (note (ok tt))),
)

ensure_downloaded-served_example :
    ((j : ℕ) (found : Text) → over.0.pc j ≡ returned (ok found) → over.0.mem.on_disk ≡ true)
    × ((over.0.mem.status ≡ some complete → over.0.mem.on_disk ≡ true)
        × ((a b : ℕ) → critical (over.0.pc a) ≡ true → critical (over.0.pc b) ≡ true → a ≡ b))
ensure_downloaded-served_example = ensure_downloaded-served over.1

ensure_downloaded-ends_example :
    (7 ≤ 8 * 2 + 1)
    × ((i : ℕ)
        → i < 2
        → active (racing.0.pc i) ≡ true
        → (j : ℕ) × (j < 2) × Moves message path racing.0.mem (racing.0.pc j))
ensure_downloaded-ends_example = ensure_downloaded-ends message path racing.1

second_download_example :
    (t : System) × Reachable 10 t × (t.pc 0 ≡ downloading) × (t.pc 1 ≡ downloading)
unfolding ℕ_discrete racing
second_download_example =
    second_download message path racing.1 0 1 (omega arith) (omega arith) refl refl refl refl

served_early_example :
    (t : System) × Reachable 7 t × (t.pc 0 ≡ downloading) × (t.pc 1 ≡ returned (ok path))
unfolding ℕ_discrete early
served_early_example =
    served_early message path early.1 0 1 (omega arith) (omega arith) refl refl refl

run_over : (over.0.pc 0 ≡ returned (ok path)) × (over.0.mem.state ≡ some FileState.synced)
unfolding ℕ_discrete returned_after over state_after
run_over = (refl, refl)

abbrev row : FileRow
row = record {
  id = 1;
  account_id = text "acc";
  provider_file_id = text "a";
  path = text "/a";
  name = text "a";
  size = some 3;
  content_hash = none;
  is_folder = 0;
  state = text "cloud_only";
  modified_at = 5;
  synced_at = none;
  created_at = 5;
  updated_at = 5;
}

-- The world: whether the file is on the disk, and the results of the next downloads.
abbrev World : Type 0
World = Bool × List (Result Error (Unit {0}))

abbrev fetch : World → Result Error (Unit {0}) × World
fetch (there, []) = (err (Error.io (text "gone")), (there, []))
fetch (there, ok _ ∷ rest) = (ok tt, (true, rest))
fetch (there, err e ∷ rest) = (err e, (there, rest))

abbrev remote : CloudProvider World
remote = record {
  list_folder = λ p w. (err (Error.io p), w);
  get_changes = λ c w. (err (Error.io []), w);
  download = λ id dest w. fetch w;
}

abbrev state : World → State World (List FileRow)
state w = record { world = w; conn = row ∷ []; locks = [] }

abbrev call : State World (List FileRow) → Result Errno Text × State World (List FileRow)
call s =
    ensure_downloaded (memory clash) (text "acc") 9000000000 (λ p w. w.0) remote message (text "c")
      (text "a") s

abbrev flaky : State World (List FileRow)
flaky = state (false, err (Error.io (text "down")) ∷ ok tt ∷ [])

program : Unit {0}
unfolding ensure_downloaded cached_path join must_download status_after returned_after lock_of
    get_file_by_provider_id update_file from_row to_row by_id by_provider_id clash memory_insert
    memory_update clear_of all_clear find keep dec_text ℕ_discrete zeros read_file_at take drop
program = tt

run_failure : (call flaky).0 ≡ err eio
unfolding program
run_failure = refl

run_retry : (call (call flaky).1).0 ≡ ok path
unfolding program
run_retry = refl

run_native : (call (state (false, err (Error.cloud_native_file (text "u")) ∷ []))).0 ≡ err enotsup
unfolding program
run_native = refl

-- A file that is on the disk is not downloaded.
run_cached : call (state (true, [])) ≡ (ok path, state (true, []))
unfolding program
run_cached = refl

-- The states of the row after a success and after a failure that names a page of the provider.
run_synced : map (λ r. r.state) (call (state (false, ok tt ∷ []))).1.conn ≡ text "synced" ∷ []
unfolding program
run_synced = refl

run_native_state :
    map (λ r. r.state) (call (state (false, err (Error.cloud_native_file (text "u")) ∷ []))).1.conn
    ≡ text "syncing" ∷ []
unfolding program
run_native_state = refl

ensure_downloaded-retry_example :
    Settled
      (memory clash)
      (text "acc")
      9000000000
      (λ p w. w.0)
      remote
      message
      (text "c")
      (text "a")
      flaky
      eio
      (call flaky).1
    × (((call flaky).1.world.0 ≡ true)
        ⊎ Reports
            (memory clash)
            (text "acc")
            9000000000
            (λ p w. w.0)
            remote
            message
            (text "c")
            (text "a")
            (fetch (call flaky).1.world).0
            (call (call flaky).1).0)
unfolding program
ensure_downloaded-retry_example =
    ensure_downloaded-retry (memory clash) (text "acc") 9000000000 (λ p w. w.0) remote message
      (text "c") (text "a") flaky (call flaky).1 eio refl

-- A disk that holds one file, and open files with their position.
abbrev Handle : Type 0
Handle = List ℕ × ℕ

fill : List ℕ → List ℕ → List ℕ
fill [] buf = buf
fill (x ∷ xs) [] = []
fill (x ∷ xs) (b ∷ buf) = x ∷ fill xs buf

abbrev disk : LocalFiles (List ℕ) Handle
disk = record {
  contents = λ p w. some w;
  whole = λ h. h.0;
  position = λ h. h.1;
  open_file = λ p w. ok (w, 0);
  seek = λ offset h. ok (h.0, offset);
  read = λ h buf. ok (length (take (length buf) (drop h.1 h.0)), fill (drop h.1 h.0) buf);
}

length-take : (n : ℕ) (xs : List ℕ) → length (take n xs) ≤ n
unfolding take
length-take zero xs = omega arith
length-take (suc n) [] = omega arith
length-take (suc n) (x ∷ xs) = omega (arith, length-take n xs)

take-fill :
    (xs buf : List ℕ)
    → (take (length (take (length buf) xs)) (fill xs buf) ≡ take (length (take (length buf) xs)) xs)
      × (length (take (length (take (length buf) xs)) (fill xs buf))
          ≡ length (take (length buf) xs))
unfolding take fill
take-fill [] [] = (refl, refl)
take-fill [] (b ∷ buf) = (refl, refl)
take-fill (x ∷ xs) [] = (refl, refl)
take-fill (x ∷ xs) (b ∷ buf) =
    let (same, count) = take-fill xs buf in (ap (◌∷◌ x) same, ap suc count)

laws : IsFileSystem disk
laws = record {
  open_ok = λ p w h e. ground arith;
  seek_ok = λ offset h h' e. (ground arith, ground arith);
  read_ok = λ h buf buf' n e.
      let count : length (take (length buf) (drop h.1 h.0)) ≡ n = ground arith in
      let filled : fill (drop h.1 h.0) buf ≡ buf' = ground arith in
      rw (← count, ← filled)
        (let (same, size) = take-fill (drop h.1 h.0) buf in
          (length-take (length buf) (drop h.1 h.0), same, size));
}

-- Past the end of the file there are fewer bytes than asked for.
run_read : read_file_at disk path 1 5 (7 ∷ 8 ∷ 9 ∷ []) ≡ ok (8 ∷ 9 ∷ [])
unfolding program fill
run_read = refl

read_file_at-Extract_example :
    (bytes : List ℕ) × (◌≡◌ {A = Option (List ℕ)} (some (7 ∷ 8 ∷ 9 ∷ [])) (some bytes))
    × Extract disk laws 1 5 bytes (8 ∷ 9 ∷ [])
unfolding program fill
read_file_at-Extract_example =
    read_file_at-Extract disk laws path 1 5 (7 ∷ 8 ∷ 9 ∷ []) (8 ∷ 9 ∷ []) refl
