-- ===== src/Vfs/Filesystem/Handles.antt =====
-- The handles of open files.
use uni_cloud_file_sync_thin.Prelude.{
  ℕ, ◌^◌, ◌≤◌, ◌<◌, Option, none, some, [], ◌∷◌, keep, All, ◌≡◌, inl, inr, refl, arith, Bool-cases,
  ◌==◌, ite,
}
use uni_cloud_file_sync_thin.Vfs.Filesystem.{CloudSyncFs, OpenFiles, path_of, without}
use uni_cloud_file_sync_thin.Vfs.Filesystem.Replies.{Reply, opened}

-- Every handle of an open file was given out before the next one, which is 64 bits wide.
pub record IsValid (next_fh : ℕ) (open_files : OpenFiles) : Type 0 where
  pub older : All (λ file. file.0 < next_fh) open_files
  pub fits : next_fh < 2 ^ 64

-- The handle that a reply gives out.
unfoldable pub given : Reply → Option ℕ
given (opened fh) = some fh
given _ = none

-- A callback that touches neither the open files nor the counter, and gives out no handle.
pub record Quiet {World Conn : Type 0} (s : CloudSyncFs World Conn)
    (r : Reply × CloudSyncFs World Conn) : Type 0 where
  pub files : r.1.open_files ≡ s.open_files
  pub counter : r.1.next_fh ≡ s.next_fh
  pub none_given : given r.0 ≡ none

pub path_of-older :
    (fh n : ℕ) (files : OpenFiles)
    → All (λ file. file.0 < n) files
    → n ≤ fh
    → path_of fh files ≡ none
unfolding path_of
path_of-older fh n [] a h = refl
path_of-older fh n (file ∷ files) a h =
    let below = a.0 in ground (arith, path_of-older fh n files a.1)

pub path_of-without : (fh : ℕ) (files : OpenFiles) → path_of fh (without fh files) ≡ none
unfolding path_of without keep
path_of-without fh [] = refl
path_of-without fh (file ∷ files) = elim (Bool-cases (file.0 == fh)) [
  | inl hit ↦ rw hit (path_of-without fh files)
  | inr miss ↦ rw miss (rw miss (path_of-without fh files))
]

pub All-without :
    (fh n : ℕ) (files : OpenFiles)
    → All (λ file. file.0 < n) files
    → All (λ file. file.0 < n) (without fh files)
unfolding without keep
All-without fh n [] a = tt
All-without fh n (file ∷ files) a = elim (Bool-cases (file.0 == fh)) [
  | inl hit ↦ rw hit (All-without fh n files a.1)
  | inr miss ↦ rw miss (a.0, All-without fh n files a.1)
]

pub All-older :
    (m n : ℕ) (files : OpenFiles)
    → m ≤ n
    → All (λ file. file.0 < m) files
    → All (λ file. file.0 < n) files
All-older m n [] h a = tt
All-older m n (file ∷ files) h a = (omega (arith, a.0), All-older m n files h a.1)

pub same-Quiet :
    {World Conn : Type 0} (s : CloudSyncFs World Conn) (r : Reply) → given r ≡ none → Quiet s (r, s)
same-Quiet s r h = record { files = refl; counter = refl; none_given = h }

pub ite-Quiet :
    {World Conn P : Type 0} (s : CloudSyncFs World Conn) (d : Dec P)
    (a b : Reply × CloudSyncFs World Conn)
    → Quiet s a
    → Quiet s b
    → Quiet s (ite d a b)
ite-Quiet s (yes p) a b h k = h
ite-Quiet s (no p) a b h k = k
