-- ===== src/Db/Inodes/Mapping.antt =====
-- The functions on the table of inodes, each with every way that it can end.
use uni_cloud_file_sync_thin.Prelude.{
  Text, ℕ, Bool, true, false, none, some, List, ◌∷◌, All, keep, not, Result, Result-cases, ok, err,
  ◌≡◌, ◌⊎◌, inl, inr, refl, arith, ltb,
}
use uni_cloud_file_sync_thin.Db.Error.{DbError}
use uni_cloud_file_sync_thin.Db.Sqlite.{SqlError, constraint_violation, failure, Table, Among}
use uni_cloud_file_sync_thin.Db.Inodes.{
  InodeRow, by_file_id, by_inode, clash, insert_inode, get_inode_by_file_id, get_file_id_by_inode,
  conflicting, remove_inode,
}

-- Some row maps the inode to the file identifier.
abbrev pub Maps : ℕ → Text → List InodeRow → Type 0
Maps inode file_id l =
    (row : InodeRow) × Among row l × (row.inode ≡ inode) × (row.file_id ≡ file_id)

by_file_id-eq :
    (file_id : Text) (row : InodeRow) → by_file_id file_id row ≡ true → row.file_id ≡ file_id
unfolding by_file_id
by_file_id-eq file_id row h = ground arith

by_inode-eq : (inode : ℕ) (row : InodeRow) → by_inode inode row ≡ true → row.inode ≡ inode
unfolding by_inode
by_inode-eq inode row h = ground arith

module _ {Conn : Type 0} (table : Table clash Conn) where
  pub get_inode_by_file_id-cases :
      (file_id : Text) (c : Conn)
      → ((inode : ℕ) × (get_inode_by_file_id table file_id c ≡ ok (some inode))
          × Maps inode file_id (table.rows c))
        ⊎ (((get_inode_by_file_id table file_id c ≡ ok none)
              × All (λ row. by_file_id file_id row ≡ false) (table.rows c))
            ⊎ ((e : DbError) × (get_inode_by_file_id table file_id c ≡ err e)))
  unfolding get_inode_by_file_id
  get_inode_by_file_id-cases file_id c =
      elim (Result-cases (table.query_row (by_file_id file_id) c)) [
        | inl (none, e) ↦
            inr (inl (rw (e, get_inode_by_file_id) refl, table.query_row_ok _ c none e))
        | inl (some row, e) ↦
            let (hit, among) = table.query_row_ok _ c (some row) e in
            inl (
              row.inode,
              rw (e, get_inode_by_file_id) refl,
              (row, among, refl, by_file_id-eq file_id row hit),
            )
        | inr (e, h) ↦ inr (inr (DbError.sqlite e, rw (h, get_inode_by_file_id) refl))
      ]

  pub get_file_id_by_inode-cases :
      (inode : ℕ) (c : Conn)
      → ((file_id : Text) × (get_file_id_by_inode table inode c ≡ ok (some file_id))
          × Maps inode file_id (table.rows c))
        ⊎ (((get_file_id_by_inode table inode c ≡ ok none)
              × All (λ row. by_inode inode row ≡ false) (table.rows c))
            ⊎ ((e : DbError) × (get_file_id_by_inode table inode c ≡ err e)))
  unfolding get_file_id_by_inode
  get_file_id_by_inode-cases inode c = elim (Result-cases (table.query_row (by_inode inode) c)) [
    | inl (none, e) ↦ inr (inl (rw (e, get_file_id_by_inode) refl, table.query_row_ok _ c none e))
    | inl (some row, e) ↦
        let (hit, among) = table.query_row_ok _ c (some row) e in
        inl (
          row.file_id,
          rw (e, get_file_id_by_inode) refl,
          (row, among, by_inode-eq inode row hit, refl),
        )
    | inr (e, h) ↦ inr (inr (DbError.sqlite e, rw (h, get_file_id_by_inode) refl))
  ]

  -- What `insert_inode` does to the rows.
  abbrev pub Inserts : ℕ → ℕ → Text → Conn → Result DbError (Unit {0}) × Conn → Type 0
  Inserts now inode file_id c r =
      ((c' : Conn) × (r ≡ (ok tt, c'))
        × (table.rows c'
            ≡ record { inode = inode; file_id = file_id; created_at = now } ∷ table.rows c)
        × All
            (λ row.
              clash (record { inode = inode; file_id = file_id; created_at = now }) row ≡ false)
            (table.rows c))
      ⊎ ((e : DbError) × (c' : Conn) × (r ≡ (err e, c')) × (table.rows c' ≡ table.rows c))

  pub insert_inode-cases :
      (now inode : ℕ) (file_id : Text) (c : Conn)
      → Inserts now inode file_id c (insert_inode table now inode file_id c)
  unfolding insert_inode
  insert_inode-cases now inode file_id c =
      inserting (table.insert (record { inode = inode; file_id = file_id; created_at = now }) c)
        refl
    where
      inserting :
          (r : Result SqlError (Unit {0}) × Conn)
          → table.insert (record { inode = inode; file_id = file_id; created_at = now }) c ≡ r
          → Inserts now inode file_id c (insert_inode table now inode file_id c)
      inserting (ok tt, c') e =
          let (rows, clear) = table.insert_ok _ c c' e in
          inl (c', rw (e, insert_inode) refl, rows, clear)
      inserting (err constraint_violation, c') e = inr (
        conflicting inode file_id,
        c',
        rw (e, insert_inode) refl,
        table.insert_err _ c c' constraint_violation e,
      )
      inserting (err (failure m), c') e = inr (
        DbError.sqlite (failure m),
        c',
        rw (e, insert_inode) refl,
        table.insert_err _ c c' (failure m) e,
      )

  -- What `remove_inode` does to the rows.
  abbrev pub Removes : Text → Conn → Result DbError Bool × Conn → Type 0
  Removes file_id c r =
      ((b : Bool) × (c' : Conn) × (r ≡ (ok b, c'))
        × (table.rows c' ≡ keep (λ row. not (by_file_id file_id row)) (table.rows c)))
      ⊎ ((e : DbError) × (c' : Conn) × (r ≡ (err e, c')) × (table.rows c' ≡ table.rows c))

  pub remove_inode-cases :
      (file_id : Text) (c : Conn) → Removes file_id c (remove_inode table file_id c)
  unfolding remove_inode
  remove_inode-cases file_id c = removing (table.delete (by_file_id file_id) c) refl
    where
      removing :
          (r : Result SqlError ℕ × Conn)
          → table.delete (by_file_id file_id) c ≡ r
          → Removes file_id c (remove_inode table file_id c)
      removing (ok n, c') e =
          inl (ltb 0 n, c', rw (e, remove_inode) refl, (table.delete_ok _ c c' n e).0)
      removing (err m, c') e =
          inr (DbError.sqlite m, c', rw (e, remove_inode) refl, table.delete_err _ c c' m e)
