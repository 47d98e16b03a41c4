-- ===== src/Db/Files/Listing.antt =====
-- What `list_files` of crates/cloudsync-db/src/files.rs returns.
use uni_cloud_file_sync_thin.Prelude.{
  Option, List, [], ◌∷◌, keep, Perm, ◌&&◌, Result, Result-cases, ok, err, ◌≡◌, inl, inr, ap, arith,
  leb_text_total, leb_text_trans,
}
use uni_cloud_file_sync_thin.Core.FileState.{FileState}
use uni_cloud_file_sync_thin.Core.Types.{AccountId}
use uni_cloud_file_sync_thin.Db.Error.{DbError}
use uni_cloud_file_sync_thin.Db.Files.{File, FileRow, clash, from_row}
use uni_cloud_file_sync_thin.Db.Files.Selection.{
  of_account, in_state, path_order, push_file, collect_files, listed, selected, list_files,
}
use uni_cloud_file_sync_thin.Db.Sqlite.{SqlError, Table, IsOrder, Ordered}

path_order-IsOrder : IsOrder path_order
unfolding path_order
path_order-IsOrder = record {
  total = λ a b. leb_text_total a.path b.path;
  trans = λ a b c. leb_text_trans a.path b.path c.path;
}

-- The files are what the rows hold, in their order.
pub data Holding : List FileRow → List File → Type 0 where
  none_left : Holding [] []
  next :
      {row : FileRow} {file : File} {rows : List FileRow} {files : List File}
      → from_row row ≡ ok file
      → Holding rows files
      → Holding (row ∷ rows) (file ∷ files)

ok_inj : {E A : Type 0} {x y : A} → ◌≡◌ {A = Result E A} (ok x) (ok y) → x ≡ y
ok_inj h = ground arith

collect_files-Holding :
    (rows : List FileRow) (files : List File) → collect_files rows ≡ ok files → Holding rows files
unfolding collect_files push_file
collect_files-Holding [] files h = rw (← ok_inj h) none_left
collect_files-Holding (row ∷ rows) files h = elim (Result-cases (from_row row)) [
  | inr (e, f) ↦ absurd (err_ne_ok (rw f at h))
  | inl (file, f) ↦ elim (Result-cases (collect_files rows)) [
    | inr (e, g) ↦ absurd (err_ne_ok (rw (f, g) at h))
    | inl (rest, g) ↦ rw (← ok_inj (rw (f, g) at h)) (next f (collect_files-Holding rows rest g))
  ]
]
  where
    err_ne_ok :
        {e : SqlError} {l : List File} → ◌≡◌ {A = Result SqlError (List File)} (err e) (ok l) → ⊥
    err_ne_ok k = ground arith

module _ {Conn : Type 0} (table : Table clash Conn) where
  -- When `list_files` succeeds, the files are those of the rows of the account that are in the
  -- state asked for, if one is, each row once, in ascending order of their paths.
  pub list_files-Holding :
      (account_id : AccountId) (state : Option FileState) (c : Conn) (files : List File)
      → list_files table account_id state c ≡ ok files
      → (rows : List FileRow) × Holding rows files
        × Ordered path_order rows
        × Perm rows (keep (λ row. of_account account_id row && in_state state row) (table.rows c))
  unfolding list_files selected listed
  list_files-Holding account_id state c files h =
      elim (Result-cases (
        table.query_ordered (λ row. of_account account_id row && in_state state row) path_order
          c)) [
            | inr (e, f) ↦ absurd (err_ne_ok (rw f at h))
            | inl (rows, f) ↦
                let (same, sorted) =
                  table.query_ordered_ok _ path_order c rows path_order-IsOrder f in
                (rows, collected rows (rw f at h), sorted, same)
          ]
    where
      err_ne_ok :
          {e : DbError} {l : List File} → ◌≡◌ {A = Result DbError (List File)} (err e) (ok l) → ⊥
      err_ne_ok k = ground arith

      collected :
          (rows : List FileRow) → listed (collect_files rows) ≡ ok files → Holding rows files
      collected rows k = elim (Result-cases (collect_files rows)) [
        | inr (e, g) ↦ absurd (err_ne_ok (rw g at k))
        | inl (l, g) ↦ collect_files-Holding rows files (rw g (ap ok (ok_inj (rw g at k))))
      ]
