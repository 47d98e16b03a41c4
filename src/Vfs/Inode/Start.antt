-- ===== src/Vfs/Inode/Start.antt =====
-- What `InodeManager::new` restores from a table that an earlier run has left.
use uni_cloud_file_sync_thin.Prelude.{
  ℕ, ◌+◌, ◌<◌, ◌≤◌, ◌%◌, ◌^◌, Option, none, some, List, [], ◌∷◌, All, Result, Result-cases, ok, err,
  ◌≡◌, ◌⊎◌, inl, inr, refl, arith, if◌then◌else◌, ◌==◌,
}
use uni_cloud_file_sync_thin.Db.Error.{DbError}
use uni_cloud_file_sync_thin.Db.Sqlite.{Table, Unique, Maximum}
use uni_cloud_file_sync_thin.Db.Sqlite.Rows.{All-among}
use uni_cloud_file_sync_thin.Db.Inodes.{InodeRow, clash, moved, get_max_inode, get_or_insert_inode}
use uni_cloud_file_sync_thin.Db.Inodes.Mapping.{
  Maps, get_inode_by_file_id-cases, insert_inode-cases,
}
use uni_cloud_file_sync_thin.Vfs.Inode.{InodeManager, new, new_from, root_file_id, fuse_root_inode}
use uni_cloud_file_sync_thin.Vfs.Inode.Allocation.{stored}
use uni_cloud_file_sync_thin.Vfs.Inode.Keeping.{IsValid}

-- Inodes that an earlier run can have given: not 0, and with room for the next as an `i64`.
abbrev pub InRange : List InodeRow → Type 0
InRange = All (λ r. (0 < r.inode) × (r.inode + 1 < 2 ^ 63))

All-moved :
    (l : List InodeRow) (n : ℕ)
    → InRange l
    → n + 1 < 2 ^ 63
    → All (λ r. moved r.inode ≤ moved n) l
    → All (λ r. r.inode ≤ n) l
All-moved [] n h b a = tt
All-moved (x ∷ l) n h b a = (omega arith, All-moved l n h.1 b a.1)

All-below :
    (l : List InodeRow) (m n : ℕ) → m < n → All (λ r. r.inode ≤ m) l → All (λ r. r.inode < n) l
All-below [] m n h a = tt
All-below (x ∷ l) m n h a = (omega arith, All-below l m n h a.1)

module _ {Conn : Type 0} (table : Table clash Conn) where
  -- `get_max_inode` answers a bound of the inodes.
  abbrev Bounds : Conn → ℕ → Type 0
  Bounds c m = All (λ r. r.inode ≤ m) (table.rows c) × (m + 1 < 2 ^ 63)

  moved-Bounds :
      (c : Conn) (o : Option ℕ)
      → InRange (table.rows c)
      → Maximum (λ r. moved r.inode) (table.rows c) o
      → (m : ℕ) × Bounds c m × ((elim o [ none ↦ 0 | some n ↦ moved n ]) ≡ m)
  moved-Bounds c none h e = (0, (rw e tt, omega arith), refl)
  moved-Bounds c (some n) h (bound, (r, among, reached)) =
      let range = All-among _ r (table.rows c) h among in
      (
        r.inode,
        (All-moved (table.rows c) r.inode h range.1 (rw reached bound), range.1),
        rw (← reached) (omega arith),
      )

  get_max_inode-Bounds :
      (c : Conn)
      → InRange (table.rows c)
      → ((m : ℕ) × (get_max_inode table c ≡ ok m) × Bounds c m)
        ⊎ ((e : DbError) × (get_max_inode table c ≡ err e))
  unfolding get_max_inode
  get_max_inode-Bounds c h = elim (Result-cases (table.query_max (λ r. moved r.inode) c)) [
    | inl (none, e) ↦
        let (m, b, same) = moved-Bounds c none h (table.query_max_ok _ c none e) in
        inl (m, rw (e, get_max_inode, ← same) refl, b)
    | inl (some n, e) ↦
        let (m, b, same) = moved-Bounds c (some n) h (table.query_max_ok _ c (some n) e) in
        inl (m, rw (e, get_max_inode, ← same) refl, b)
    | inr (e, h) ↦ inr (DbError.sqlite e, rw (h, get_max_inode) refl)
  ]

  -- What `new` does: a valid manager whose rows are those of the table, with a row for the root
  -- where there was none, or an error that leaves the rows as they were.
  abbrev pub Opens : ℕ → Conn → Result DbError (InodeManager Conn) × Conn → Type 0
  Opens now c r =
      ((s : InodeManager Conn) × (c' : Conn) × (r ≡ (ok s, c'))
        × IsValid table s
        × ((i : ℕ) × Maps i root_file_id (stored table s))
        × ((stored table s ≡ table.rows c)
            ⊎ (stored table s
                ≡ record { inode = fuse_root_inode; file_id = root_file_id; created_at = now }
                  ∷ table.rows c)))
      ⊎ ((e : DbError) × (c' : Conn) × (r ≡ (err e, c')) × (table.rows c' ≡ table.rows c))

  -- The counter that `new` starts from.
  abbrev first_free : ℕ → ℕ
  first_free m = if m == 0 then fuse_root_inode + 1 else (m + 1) % 2 ^ 64

  first_free-lt : (m : ℕ) → m + 1 < 2 ^ 63 → (m < first_free m) × (fuse_root_inode < first_free m)
  first_free-lt m h = ground arith

  with_root-Opens :
      (now m : ℕ) (c : Conn)
      → Unique clash (table.rows c)
      → Bounds c m
      → Opens now c (new_from table now c (ok m))
  unfolding new_from get_or_insert_inode
  with_root-Opens now m c u (bound, range) =
      let (above, free) = first_free-lt m range in
      let fresh = All-below (table.rows c) m (first_free m) above bound in
      elim (get_inode_by_file_id-cases table root_file_id c) [
        | inl (i, e, found) ↦ inl (
          record { conn = c; next_inode = first_free m },
          c,
          rw e refl,
          record { unique = u; fresh = fresh },
          (i, found),
          inl refl,
        )
        | inr (inr (e, failed)) ↦ inr (e, c, rw failed refl, refl)
        | inr (inl (e, absent)) ↦
            elim (insert_inode-cases table now fuse_root_inode root_file_id c) [
              | inr (failure, d, failed, rows) ↦ inr (failure, d, rw (e, failed) refl, rows)
              | inl (d, inserted, rows, clear) ↦ inl (
                record { conn = d; next_inode = first_free m },
                d,
                rw (e, inserted) refl,
                record { unique = rw rows (clear, u); fresh = rw rows (free, fresh) },
                (fuse_root_inode, rw rows (_, inl refl, refl, refl)),
                inr rows,
              )
            ]
      ]

  new_from-err : (now : ℕ) (c : Conn) (e : DbError) → new_from table now c (err e) ≡ (err e, c)
  unfolding new_from
  new_from-err now c e = refl

  -- If the constraints of the table hold and its inodes are in the range of an earlier run, `new`
  -- returns a valid manager that keeps every row and maps the root to some inode, or it fails and
  -- leaves the rows as they were.
  pub new-Opens :
      (now : ℕ) (c : Conn)
      → Unique clash (table.rows c)
      → InRange (table.rows c)
      → Opens now c (new table now c)
  unfolding new
  new-Opens now c u h = elim (get_max_inode-Bounds c h) [
    | inl (m, e, b) ↦ rw e (with_root-Opens now m c u b)
    | inr (e, failed) ↦ inr (e, c, rw failed (new_from-err now c e), refl)
  ]
