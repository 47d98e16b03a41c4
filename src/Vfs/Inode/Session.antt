-- ===== src/Vfs/Inode/Session.antt =====
-- One run of the manager, from `new` on: the lookups after an allocation, and what any sequence of
-- calls keeps.
use uni_cloud_file_sync_thin.Prelude.{
  Text, ℕ, ◌+◌, ◌<◌, ◌≤◌, ◌^◌, some, List, [], ◌∷◌, All, length, ok, err, ◌≡◌, ◌⊎◌, inl, inr, refl,
  ◌∙◌, false, subst, arith, sym,
}
use uni_cloud_file_sync_thin.Db.Error.{DbError}
use uni_cloud_file_sync_thin.Db.Sqlite.{Table, Unique}
use uni_cloud_file_sync_thin.Db.Sqlite.Rows.{All-among}
use uni_cloud_file_sync_thin.Db.Inodes.{InodeRow, by_file_id, by_inode, clash}
use uni_cloud_file_sync_thin.Db.Inodes.Mapping.{
  Maps, get_inode_by_file_id-cases, get_file_id_by_inode-cases,
}
use uni_cloud_file_sync_thin.Vfs.Inode.{InodeManager, get_or_allocate, get_inode, get_file_id}
use uni_cloud_file_sync_thin.Vfs.Inode.Allocation.{
  Maps-inode, Maps-file_id, stored, get_or_allocate-Outcome,
}
use uni_cloud_file_sync_thin.Vfs.Inode.Keeping.{
  Call, IsValid, Exclusive, Exclusive-of_Maps, step, run, get_or_allocate-Keeps, step-Keeps,
}

absent_file_id :
    (l : List InodeRow) (i : ℕ) (f : Text) → Maps i f l → All (λ r. by_file_id f r ≡ false) l → ⊥
unfolding by_file_id
absent_file_id l i f (r, m, _, e) a =
    let miss = All-among (λ r. by_file_id f r ≡ false) r l a m in ground arith

absent_inode :
    (l : List InodeRow) (i : ℕ) (f : Text) → Maps i f l → All (λ r. by_inode i r ≡ false) l → ⊥
unfolding by_inode
absent_inode l i f (r, m, e, _) a =
    let miss = All-among (λ r. by_inode i r ≡ false) r l a m in ground arith

module _ {Conn : Type 0} (table : Table clash Conn) where
  -- From a valid state, and as long as the counter and the number of calls stay below 2 ^ 64, any
  -- sequence of calls, whether they succeed or fail, leaves a valid state, does not lower the
  -- counter nor raise it by more than the number of calls, and if no row gives an inode below the
  -- counter to another file than the given one, then none does afterwards.
  pub run-IsValid :
      (calls : List Call) (s : InodeManager Conn) (i : ℕ) (f : Text)
      → IsValid table s
      → s.next_inode + length calls < 2 ^ 64
      → i < s.next_inode
      → Exclusive i f (stored table s)
      → IsValid table (run table calls s)
        × (s.next_inode ≤ (run table calls s).next_inode)
        × ((run table calls s).next_inode ≤ s.next_inode + length calls)
        × Exclusive i f (stored table (run table calls s))
  unfolding run
  run-IsValid [] s i f v h below e = (v, omega arith, omega arith, e)
  run-IsValid (call ∷ calls) s i f v h below e =
      let k = step-Keeps table call s v (omega arith) in
      let low = k.counter_le in
      let high = k.counter_lt in
      let (valid, above, bounded, kept) =
        run-IsValid calls (step table call s) i f k.valid (omega arith) (omega arith)
          (k.exclusive i f below e) in
      (valid, omega arith, omega arith, kept)

  -- What a successful `get_or_allocate` leaves: a row that maps the inode to the file.
  allocated-Maps :
      (now : ℕ) (file_id : Text) (s s' : InodeManager Conn) (i : ℕ)
      → get_or_allocate table now file_id s ≡ (ok i, s')
      → Maps i file_id (stored table s')
  allocated-Maps now file_id s s' i h = elim (get_or_allocate-Outcome table now file_id s) [
    | inl (j, e, m) ↦
        let same : j ≡ i = ground arith in let kept : s ≡ s' = ground arith in rw (← same, ← kept) m
    | inr (inr (x, t, e, rows, counter)) ↦ absurd (ground arith)
    | inr (inl (t, e, counter, rows, clear)) ↦
        let same : s.next_inode ≡ i = ground arith in
        let kept : t ≡ s' = ground arith in rw (← same, ← kept, rows) (_, inl refl, refl, refl)
  ]

  Maps-below :
      (s : InodeManager Conn) (i : ℕ) (f : Text)
      → IsValid table s
      → Maps i f (stored table s)
      → i < s.next_inode
  Maps-below s i f v (r, m, e, _) = rw (← e) (All-among _ r (stored table s) v.fresh m)

  -- On a valid state whose counter can still be raised, after `get_or_allocate` has returned an
  -- inode for a file, `get_inode` answers
  -- that inode for the file and `get_file_id` answers that file for the inode, unless they fail.
  pub get_or_allocate-lookup :
      (now : ℕ) (file_id : Text) (s s' : InodeManager Conn) (i : ℕ)
      → IsValid table s
      → s.next_inode + 1 < 2 ^ 64
      → get_or_allocate table now file_id s ≡ (ok i, s')
      → ((get_inode table file_id s' ≡ ok (some i))
          ⊎ ((e : DbError) × (get_inode table file_id s' ≡ err e)))
        × ((get_file_id table i s' ≡ ok (some file_id))
            ⊎ ((e : DbError) × (get_file_id table i s' ≡ err e)))
  unfolding get_inode get_file_id
  get_or_allocate-lookup now file_id s s' i v h e =
      let m = allocated-Maps now file_id s s' i e in
      let u : Unique clash (stored table s') =
        subst (λ r. Unique clash (stored table r.1)) e
          (get_or_allocate-Keeps table now file_id s v h).valid.unique in
      (
        elim (get_inode_by_file_id-cases table file_id s'.conn) [
          | inl (j, found, n) ↦ inl (rw (Maps-inode (stored table s') i j file_id u m n) found)
          | inr (inl (_, absent)) ↦ absurd (absent_file_id (stored table s') i file_id m absent)
          | inr (inr failed) ↦ inr failed
        ],
        elim (get_file_id_by_inode-cases table i s'.conn) [
          | inl (f, found, n) ↦ inl (rw (Maps-file_id (stored table s') i file_id f u m n) found)
          | inr (inl (_, absent)) ↦ absurd (absent_inode (stored table s') i file_id m absent)
          | inr (inr failed) ↦ inr failed
        ],
      )

  -- From a valid state on, an inode that `get_or_allocate` has returned for a file is never returned
  -- for another file, whatever calls are made between, removals included, as long as the counter
  -- and the number of calls between, and two more, stay below 2 ^ 64.
  pub get_or_allocate-unshared :
      (now later : ℕ) (f g : Text) (calls : List Call) (s s₁ s₂ : InodeManager Conn) (i : ℕ)
      → IsValid table s
      → s.next_inode + length calls + 2 < 2 ^ 64
      → get_or_allocate table now f s ≡ (ok i, s₁)
      → get_or_allocate table later g (run table calls s₁) ≡ (ok i, s₂)
      → g ≡ f
  get_or_allocate-unshared now later f g calls s s₁ s₂ i v h e₁ e₂ =
      let k = get_or_allocate-Keeps table now f s v (omega arith) in
      let high = k.counter_lt in
      let valid₁ : IsValid table s₁ = subst (λ r. IsValid table r.1) e₁ k.valid in
      let bound₁ : s₁.next_inode ≤ s.next_inode + 1 =
        subst (λ r. r.1.next_inode ≤ s.next_inode + 1) e₁ high in
      let m₁ = allocated-Maps now f s s₁ i e₁ in
      let below = Maps-below s₁ i f valid₁ m₁ in
      let (valid, above, bounded, kept) =
        run-IsValid calls s₁ i f valid₁ (omega arith) below
          (Exclusive-of_Maps (stored table s₁) (stored table s₁) i f (λ r a. a) valid₁.unique m₁) in
      let k₂ = get_or_allocate-Keeps table later g (run table calls s₁) valid (omega arith) in
      let last : Exclusive i f (stored table s₂) =
        subst (λ r. Exclusive i f (stored table r.1)) e₂ (k₂.exclusive i f (omega arith) kept) in
      let (row, among, inode, file_id) = allocated-Maps later g (run table calls s₁) s₂ i e₂ in
      elim (All-among _ row (stored table s₂) last among) [
        | inl other ↦ absurd (other inode)
        | inr same ↦ sym file_id ∙ same
      ]
