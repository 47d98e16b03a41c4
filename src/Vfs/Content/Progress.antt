-- ===== src/Vfs/Content/Progress.antt =====
-- Every call ends: the threads that ask for one file never wait for each other in a circle, and
-- take a bounded number of steps.
use uni_cloud_file_sync_thin.Prelude.{
  Text, ℕ, suc, ◌+◌, ◌*◌, ◌≤◌, ◌<◌, Bool, true, false, Option, some, ok, ◌≡◌, ◌≢◌, ◌⊎◌, inl, inr,
  refl, sym, ap, subst, ◌∙◌, arith, total, total-update, total-constant, Bool-cases, Option-cases,
}
use uni_cloud_file_sync_thin.Core.FileState.{FileState}
use uni_cloud_file_sync_thin.Core.Types.{Error}
use uni_cloud_file_sync_thin.Vfs.Content.{DownloadStatus, must_download}
use uni_cloud_file_sync_thin.Vfs.Content.Invariant.{critical, referring, is_some, Inv, Reach-Inv}
use uni_cloud_file_sync_thin.Vfs.Content.Threads.{
  Shared, Pc, start, missing, waiting, locked, marking, downloading, settling, recording, returned,
  Move, cached, not_cached, look_up, acquire, appeared, finished, proceed, mark, create, broken,
  settle, note, System, init, Step, pick, Reach, begin, later,
}

-- The steps that a thread has left, but for the creation of the file.
abbrev rank : Pc → ℕ
rank start = 8
rank missing = 7
rank waiting = 6
rank locked = 5
rank marking = 4
rank downloading = 3
rank (settling _) = 2
rank (recording _) = 1
rank (returned _) = 0

-- Whether the file is still to be created.
abbrev absent : Shared → ℕ
absent m = elim m.on_disk [ true ↦ 0 | false ↦ 1 ]

abbrev measure : ℕ → System → ℕ
measure n s = absent s.mem + total rank n s.pc

module _ {to_string : Error → Text} {path : Text} where
  Move-rank :
      {m m' : Shared} {p p' : Pc}
      → Move to_string path m p m' p'
      → absent m' + rank p' < absent m + rank p
  Move-rank (create g) = ground arith
  Move-rank mv = omega arith

  Step-measure : {n : ℕ} {s t : System} → Step to_string path n s t → measure n t < measure n s
  Step-measure {n} {s} (pick i {p} lt mv) =
      omega (arith, Move-rank mv, total-update rank n s.pc i p lt)

  Reach-measure :
      {n : ℕ} {on_disk : Bool} {state : Option FileState} {k : ℕ} {s : System}
      → Reach to_string path n on_disk state k s
      → k + measure n s ≤ 8 * n + 1
  Reach-measure {n} {on_disk} {state} begin =
      elim on_disk
        as (λ b. 0 + (absent (init b state).mem + total rank n (init b state).pc) ≤ 8 * n + 1) [
          | true ↦ omega (arith, total-constant rank n start)
          | false ↦ omega (arith, total-constant rank n start)
        ]
  Reach-measure (later r step) = omega (arith, Reach-measure r, Step-measure step)

-- The thread has no result yet.
abbrev pub active : Pc → Bool
active (returned _) = false
active _ = true

module _ (to_string : Error → Text) (path : Text) where
  abbrev pub Moves : Shared → Pc → Type 0
  Moves m p = (m' : Shared) × (p' : Pc) × Move to_string path m p m' p'

  -- Past its mutex, a thread at the second test always goes on.
  locked-Moves : (m : Shared) → is_some m.status ≡ true → Moves m locked
  locked-Moves m h = elim (Bool-cases m.on_disk) [
    | inl there ↦ (_, _, appeared there)
    | inr gone ↦ elim (Option-cases m.status) [
      | inl e ↦ absurd (ground arith)
      | inr (status, e) ↦ elim (Bool-cases (must_download status)) [
        | inl again ↦ (_, _, proceed status gone e again)
        | inr over ↦ (_, _, finished status gone e over)
      ]
    ]
  ]

  can_move :
      (m : Shared) (p : Pc)
      → active p ≡ true
      → (m.held ≡ false) ⊎ (critical p ≡ true)
      → (referring p ≡ true → is_some m.status ≡ true)
      → Moves m p
  can_move m start a h e = elim (Bool-cases m.on_disk) [
    | inl there ↦ (_, _, cached there)
    | inr gone ↦ (_, _, not_cached gone)
  ]
  can_move m missing a h e = (_, _, look_up)
  can_move m waiting a (inl free) e = (_, _, acquire free)
  can_move m waiting a (inr c) e = absurd (ground arith)
  can_move m locked a h e = locked-Moves m (e refl)
  can_move m marking a h e = (_, _, mark)
  can_move m downloading a h e = (_, _, broken Error.cancelled)
  can_move m (settling r) a (inl free) e = (_, _, settle r free)
  can_move m (settling r) a (inr c) e = absurd (ground arith)
  can_move m (recording r) a h e = (_, _, note r)
  can_move m (returned r) a h e = absurd (ground arith)

  -- A state that one move of a thread leads to.
  record Next (n : ℕ) (on_disk : Bool) (state : Option FileState) (k : ℕ) (s : System) (j : ℕ)
      (m : Shared) (p : Pc) : Type 0 where
    next : System
    reach : Reach to_string path n on_disk state (suc k) next
    mem : next.mem ≡ m
    here : next.pc j ≡ p
    others : (i : ℕ) → j ≢ i → next.pc i ≡ s.pc i

  advance :
      {n : ℕ} {on_disk : Bool} {state : Option FileState} {k : ℕ} {s : System} {m : Shared} {p : Pc}
      → Reach to_string path n on_disk state k s
      → (j : ℕ) → j < n
      → (from : Pc) → s.pc j ≡ from
      → Move to_string path s.mem from m p
      → Next n on_disk state k s j m p
  advance {s} {m} {p} r j below from at mv = record {
    next = _;
    reach = later r (pick j below (subst (λ q. Move to_string path s.mem q m p) (sym at) mv));
    mem = refl;
    here = ground arith;
    others = λ i other. ground arith;
  }

  module _ {n k : ℕ} {on_disk : Bool} {state : Option FileState} {s : System}
      (r : Reach to_string path n on_disk state k s) where
    -- However the steps of `n` calls for one file interleave, there are at most `8 n + 1` of them;
    -- and as long as one of the calls has no result, one of the threads can make a step.
    pub ensure_downloaded-ends :
        (k ≤ 8 * n + 1)
        × ((i : ℕ) → i < n → active (s.pc i) ≡ true → (j : ℕ) × (j < n) × Moves s.mem (s.pc j))
    ensure_downloaded-ends = (
      omega (arith, Reach-measure r),
      λ i lt a. elim (Bool-cases s.mem.held) [
        | inr free ↦ (i, lt, can_move s.mem (s.pc i) a (inl free) (inv.entry i))
        | inl held ↦
            let (j, below, c) = inv.covered held in
            (j, below, can_move s.mem (s.pc j) (critical-active (s.pc j) c) (inr c) (inv.entry j))
      ],
    )
      where
        inv : Inv n s.mem s.pc
        inv = Reach-Inv r

        critical-active : (p : Pc) → critical p ≡ true → active p ≡ true
        critical-active p c = ground arith

    -- A download does not keep a second one from starting: while one thread downloads and the file
    -- is not there yet, another that waits for the lock can take it as soon as it is free, and then
    -- both download at once.
    pub second_download :
        (i j : ℕ)
        → i < n
        → j < n
        → s.pc i ≡ downloading
        → s.pc j ≡ waiting
        → s.mem.held ≡ false
        → s.mem.on_disk ≡ false
        → (t : System) × Reach to_string path n on_disk state (suc (suc (suc k))) t
          × (t.pc i ≡ downloading)
          × (t.pc j ≡ downloading)
    unfolding must_download
    second_download i j below_i below_j loading waits free gone = elim (Option-cases s.mem.status) [
      | inl e ↦ absurd (ground (arith, inv.entry i))
      | inr (status, e) ↦
          let a = advance r j below_j waiting waits (acquire free) in
          let b = advance a.reach j below_j locked a.here (
            subst
              (λ m.
                Move to_string path m locked
                  (record s.mem { status = some DownloadStatus.in_progress; held = false }) marking)
              (sym a.mem) (proceed status gone e (again status e))) in
          let c = advance b.reach j below_j marking b.here mark in
          (
            c.next,
            c.reach,
            c.others i apart ∙ (b.others i apart ∙ (a.others i apart ∙ loading)),
            c.here,
          )
    ]
      where
        inv : Inv n s.mem s.pc
        inv = Reach-Inv r

        apart : j ≢ i
        apart e = absurd (ground arith)

        again : (status : DownloadStatus) → s.mem.status ≡ some status → must_download status ≡ true
        again DownloadStatus.in_progress e = refl
        again DownloadStatus.complete e = absurd (ground (arith, inv.complete_there))
        again (DownloadStatus.failed message) e = refl

    -- While one thread downloads and the file is not there yet, a call of another thread can return
    -- the path before the download ends: the file exists as soon as the provider creates it.
    pub served_early :
        (i j : ℕ)
        → i < n
        → j < n
        → s.pc i ≡ downloading
        → s.pc j ≡ start
        → s.mem.on_disk ≡ false
        → (t : System) × Reach to_string path n on_disk state (suc (suc k)) t
          × (t.pc i ≡ downloading)
          × (t.pc j ≡ returned (ok path))
    served_early i j below_i below_j loading starts gone =
        let a = advance r i below_i downloading loading (create gone) in
        let b =
          advance a.reach j below_j start (a.others j apart ∙ starts)
            (cached (ap (λ m. m.on_disk) a.mem)) in
        (b.next, b.reach, b.others i (λ e. apart (sym e)) ∙ a.here, b.here)
      where
        apart : i ≢ j
        apart e = absurd (ground arith)
