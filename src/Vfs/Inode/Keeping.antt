-- ===== src/Vfs/Inode/Keeping.antt =====
-- What one call on the manager keeps, whether it succeeds or fails.
use uni_cloud_file_sync_thin.Prelude.{
  Text, ℕ, ◌+◌, ◌<◌, ◌≤◌, ◌^◌, List, [], ◌∷◌, All, ◌≡◌, ◌≢◌, ◌⊎◌, inl, inr, refl, arith, ℕ_discrete,
}
use uni_cloud_file_sync_thin.Db.Sqlite.{Table, Unique, Among}
use uni_cloud_file_sync_thin.Db.Inodes.{InodeRow, clash}
use uni_cloud_file_sync_thin.Db.Inodes.Mapping.{Maps, remove_inode-cases}
use uni_cloud_file_sync_thin.Vfs.Inode.{InodeManager, get_or_allocate, remove}
use uni_cloud_file_sync_thin.Vfs.Inode.Allocation.{
  All-keep, Unique-keep, Maps-file_id, stored, get_or_allocate-Outcome,
}

-- A call on the manager.
pub data Call : Type 0 where
  allocate : ℕ → Text → Call
  forget : Text → Call

All-weaken :
    (l : List InodeRow) (m n : ℕ) → m ≤ n → All (λ r. r.inode < m) l → All (λ r. r.inode < n) l
All-weaken [] m n h a = tt
All-weaken (x ∷ l) m n h a = (omega arith, All-weaken l m n h a.1)

-- No row gives the inode to another file.
abbrev pub Exclusive : ℕ → Text → List InodeRow → Type 0
Exclusive inode file_id = All (λ r. (r.inode ≢ inode) ⊎ (r.file_id ≡ file_id))

pub Exclusive-of_Maps :
    (l part : List InodeRow) (i : ℕ) (f : Text)
    → ((r : InodeRow) → Among r part → Among r l)
    → Unique clash l
    → Maps i f l
    → Exclusive i f part
Exclusive-of_Maps l [] i f sub u m = tt
Exclusive-of_Maps l (x ∷ part) i f sub u m = (
  elim (ℕ_discrete x.inode i) [
    | yes e ↦ inr (Maps-file_id l i x.file_id f u (x, sub x (inl refl), e, refl) m)
    | no ne ↦ inl ne
  ],
  Exclusive-of_Maps l part i f (λ r a. sub r (inr a)) u m,
)

module _ {Conn : Type 0} (table : Table clash Conn) where
  -- The constraints of the table hold, and every inode is below the counter.
  pub record IsValid (s : InodeManager Conn) : Type 0 where
    pub unique : Unique clash (stored table s)
    pub fresh : All (λ r. r.inode < s.next_inode) (stored table s)

  -- The state after a call, whatever it returned.
  unfoldable pub step : Call → InodeManager Conn → InodeManager Conn
  unfolding get_or_allocate remove
  step (allocate now file_id) s = (get_or_allocate table now file_id s).1
  step (forget file_id) s = (remove table file_id s).1

  unfoldable pub run : List Call → InodeManager Conn → InodeManager Conn
  unfolding step
  run [] s = s
  run (call ∷ calls) s = run calls (step call s)

  -- What a call keeps: the counter does not fall and rises by one at most, a valid state stays
  -- valid, and no inode that is below the counter passes to another file.
  pub record Keeps (s s' : InodeManager Conn) : Type 0 where
    pub counter_le : s.next_inode ≤ s'.next_inode
    pub counter_lt : s'.next_inode ≤ s.next_inode + 1
    pub valid : IsValid s'
    pub exclusive :
        (i : ℕ) (f : Text)
        → i < s.next_inode
        → Exclusive i f (stored table s)
        → Exclusive i f (stored table s')

  same_rows-Keeps :
      (s s' : InodeManager Conn)
      → IsValid s
      → stored table s' ≡ stored table s
      → s.next_inode ≤ s'.next_inode
      → s'.next_inode ≤ s.next_inode + 1
      → Keeps s s'
  same_rows-Keeps s s' v rows low high = record {
    counter_le = low;
    counter_lt = high;
    valid = record {
      unique = rw rows v.unique;
      fresh = rw rows (All-weaken (stored table s) s.next_inode s'.next_inode low v.fresh);
    };
    exclusive = λ i f h e. rw rows e;
  }

  pub get_or_allocate-Keeps :
      (now : ℕ) (file_id : Text) (s : InodeManager Conn)
      → IsValid s
      → s.next_inode + 1 < 2 ^ 64
      → Keeps s (get_or_allocate table now file_id s).1
  get_or_allocate-Keeps now file_id s v h = elim (get_or_allocate-Outcome table now file_id s) [
    | inl (i, e, m) ↦ rw e (same_rows-Keeps s s v refl (omega arith) (omega arith))
    | inr (inr (x, s', e, rows, counter)) ↦
        rw e (same_rows-Keeps s s' v rows (ground arith) (ground arith))
    | inr (inl (s', e, counter, rows, clear)) ↦
        let next : s'.next_inode ≡ s.next_inode + 1 = omega arith in
        rw e record {
          counter_le = omega arith;
          counter_lt = omega arith;
          valid = record {
            unique = rw rows (clear, v.unique);
            fresh = rw rows (
              omega arith,
              All-weaken (stored table s) s.next_inode s'.next_inode (omega arith) v.fresh,
            );
          };
          exclusive = λ i f below old. rw rows (inl (omega arith), old);
        }
  ]

  remove-Keeps :
      (file_id : Text) (s : InodeManager Conn) → IsValid s → Keeps s (remove table file_id s).1
  unfolding remove
  remove-Keeps file_id s v = elim (remove_inode-cases table file_id s.conn) [
    | inl (b, c, e, rows) ↦ rw e record {
      counter_le = omega arith;
      counter_lt = omega arith;
      valid = record {
        unique = rw rows (Unique-keep _ (stored table s) v.unique);
        fresh = rw rows (All-keep _ _ (stored table s) v.fresh);
      };
      exclusive = λ i f below old. rw rows (All-keep _ _ (stored table s) old);
    }
    | inr (x, c, e, rows) ↦ rw e (same_rows-Keeps s _ v rows (omega arith) (omega arith))
  ]

  pub step-Keeps :
      (call : Call) (s : InodeManager Conn)
      → IsValid s
      → s.next_inode + 1 < 2 ^ 64
      → Keeps s (step call s)
  unfolding step
  step-Keeps (allocate now file_id) s v h = get_or_allocate-Keeps now file_id s v h
  step-Keeps (forget file_id) s v h = remove-Keeps file_id s v
