-- ===== src/Vfs/MetadataSync/Upsert.antt =====
-- What `upsert_cloud_item` leaves in the table of files.
use uni_cloud_file_sync_thin.Prelude.{
  ℕ, true, Option, none, some, ◌∷◌, Result, Result-cases, ok, err, ◌≡◌, ◌⊎◌, inl, inr, refl, sym,
  ap, ◌∙◌, subst, arith, if◌then◌else◌,
}
use uni_cloud_file_sync_thin.Core.FileState.{FileState}
use uni_cloud_file_sync_thin.Core.Types.{AccountId, FileId, CloudItem, DateTime}
use uni_cloud_file_sync_thin.Db.Error.{DbError}
use uni_cloud_file_sync_thin.Db.Sqlite.{SqlError, constraint_violation, failure, Table, Among}
use uni_cloud_file_sync_thin.Db.Sqlite.Rows.{Among-map}
use uni_cloud_file_sync_thin.Db.Files.{
  File, FileRow, clash, by_id, by_provider_id, to_row, from_row, file_of, parse_state, set_columns,
  timestamp, get_file_by_provider_id, create_file, update_file, affected, created,
}
use uni_cloud_file_sync_thin.Vfs.MetadataSync.{
  cloud_item_to_db_file, overwritten, done, upsert_found, upsert_cloud_item,
}

by_id_refl : (row : FileRow) → by_id row.id row ≡ true
unfolding by_id
by_id_refl row = ground arith

by_provider_id-eq :
    (account_id : AccountId) (id : FileId) (row : FileRow)
    → by_provider_id account_id id row ≡ true
    → (row.account_id ≡ account_id) × (row.provider_file_id ≡ id)
unfolding by_provider_id
by_provider_id-eq account_id id row h = ground arith

ok_inj : {E A : Type 0} {x y : A} → ◌≡◌ {A = Result E A} (ok x) (ok y) → x ≡ y
ok_inj h = ground arith

from_row-ids :
    (row : FileRow) (file : File)
    → from_row row ≡ ok file
    → (file.id ≡ row.id)
      × (file.account_id ≡ row.account_id)
      × (file.provider_file_id ≡ row.provider_file_id)
unfolding from_row
from_row-ids row file h = ids (parse_state row.state) h
  where
    ids :
        (o : Option FileState)
        → file_of row o ≡ ok file
        → (file.id ≡ row.id)
          × (file.account_id ≡ row.account_id)
          × (file.provider_file_id ≡ row.provider_file_id)
    ids none h = absurd (ground arith)
    ids (some state) h = (
      sym (ap (λ f. f.id) (ok_inj h)),
      sym (ap (λ f. f.account_id) (ok_inj h)),
      sym (ap (λ f. f.provider_file_id) (ok_inj h)),
    )

module _ {Conn : Type 0} (files : Table clash Conn) (account_id : AccountId) where
  get_file_by_provider_id-cases :
      (id : FileId) (c : Conn)
      → ((e : DbError) × (get_file_by_provider_id files account_id id c ≡ err e))
        ⊎ ((get_file_by_provider_id files account_id id c ≡ ok none)
            ⊎ ((file : File) × (row : FileRow) × (get_file_by_provider_id files account_id id c
                  ≡ ok (some file))
                × Among row (files.rows c)
                × (file.id ≡ row.id)
                × (row.account_id ≡ account_id)
                × (row.provider_file_id ≡ id)
                × (file.account_id ≡ account_id)
                × (file.provider_file_id ≡ id)))
  unfolding get_file_by_provider_id
  get_file_by_provider_id-cases id c =
      elim (Result-cases (files.query_row (by_provider_id account_id id) c)) [
        | inr (e, h) ↦ inl (DbError.sqlite e, rw (h, get_file_by_provider_id) refl)
        | inl (none, e) ↦ inr (inl (rw (e, get_file_by_provider_id) refl))
        | inl (some row, e) ↦
            let (hit, among) = files.query_row_ok _ c (some row) e in
            let (owner, same) = by_provider_id-eq account_id id row hit in
            elim (Result-cases (from_row row)) [
              | inr (x, h) ↦ inl (DbError.sqlite x, rw (e, get_file_by_provider_id, h) refl)
              | inl (file, h) ↦
                  let (i, a, f) = from_row-ids row file h in
                  inr (
                    inr (
                      file,
                      row,
                      rw (e, get_file_by_provider_id, h) refl,
                      among,
                      i,
                      owner,
                      same,
                      a ∙ owner,
                      f ∙ same,
                    ))
            ]
      ]

-- The row shows the item, as an item of the account.
pub record Shows (account_id : AccountId) (item : CloudItem) (row : FileRow) : Type 0 where
  owner : row.account_id ≡ account_id
  pub provider_file_id : row.provider_file_id ≡ item.id
  pub path : row.path ≡ item.path
  pub name : row.name ≡ item.name
  pub size : row.size ≡ item.size
  pub content_hash : row.content_hash ≡ item.content_hash
  pub is_folder : row.is_folder ≡ (if item.is_folder then 1 else 0)
  pub modified_at : row.modified_at ≡ timestamp item.modified

module _ {Conn : Type 0} (files : Table clash Conn) (assigned : Conn → ℕ) (account_id : AccountId)
    (now : DateTime) where
  -- Some row of the table shows the item.
  abbrev pub Holds : CloudItem → Conn → Type 0
  Holds item c = (row : FileRow) × Among row (files.rows c) × Shows account_id item row

  created-Holds :
      (item : CloudItem) (c c' : Conn)
      → done files assigned account_id now
          (create_file files assigned (cloud_item_to_db_file now account_id item) c)
        ≡ (ok tt, c')
      → Holds item c'
  unfolding done create_file cloud_item_to_db_file to_row
  created-Holds item c c' h =
      creating (files.insert (to_row (assigned c) (cloud_item_to_db_file now account_id item)) c)
        refl h
    where
      creating :
          (r : Result SqlError (Unit {0}) × Conn)
          → files.insert (to_row (assigned c) (cloud_item_to_db_file now account_id item)) c ≡ r
          → done files assigned account_id now (created files assigned (assigned c) r) ≡ (ok tt, c')
          → Holds item c'
      creating (ok tt, d) e k =
          let (rows, clear) = files.insert_ok _ c d e in
          let same : d ≡ c' = ground arith in
          let rows' =
            subst
              (λ x.
                files.rows x
                ≡ to_row (assigned c) (cloud_item_to_db_file now account_id item) ∷ files.rows c)
              same rows in
          (
            to_row (assigned c) (cloud_item_to_db_file now account_id item),
            rw rows' (inl refl),
            record {
              owner = refl;
              provider_file_id = refl;
              path = refl;
              name = refl;
              size = refl;
              content_hash = refl;
              is_folder = refl;
              modified_at = refl;
            },
          )
      creating (err constraint_violation, d) e k = absurd (ground arith)
      creating (err (failure m), d) e k = absurd (ground arith)

  updated-Holds :
      (item : CloudItem) (file : File) (row : FileRow) (c c' : Conn)
      → done files assigned account_id now (update_file files now (overwritten item file) c)
        ≡ (ok tt, c')
      → Among row (files.rows c)
      → file.id ≡ row.id
      → file.account_id ≡ account_id
      → file.provider_file_id ≡ item.id
      → Holds item c'
  unfolding done update_file overwritten to_row set_columns
  updated-Holds item file row c c' h among same owner id =
      updating
        (files.update (by_id file.id)
          (set_columns (to_row file.id (record (overwritten item file) { updated_at = now }))) c)
        refl h
    where
      updating :
          (r : Result SqlError ℕ × Conn)
          → files.update
              (by_id file.id)
              (set_columns (to_row file.id (record (overwritten item file) { updated_at = now })))
              c
            ≡ r
          → done files assigned account_id now (affected files r) ≡ (ok tt, c')
          → Holds item c'
      updating (err x, d) e k = absurd (ground arith)
      updating (ok n, d) e k =
          let (rows, count, unique) = files.update_ok _ _ c d n e in
          let kept : d ≡ c' = ground arith in
          let hit : by_id file.id row ≡ true = rw same (by_id_refl row) in
          (
            set_columns (to_row file.id (record (overwritten item file) { updated_at = now })) row,
            subst
                (λ x.
                  Among
                    (set_columns
                      (to_row file.id (record (overwritten item file) { updated_at = now })) row)
                    (files.rows x))
                kept (rw rows (Among-map (by_id file.id) _ row (files.rows c) hit among)),
            record {
              owner = owner;
              provider_file_id = id;
              path = refl;
              name = refl;
              size = refl;
              content_hash = refl;
              is_folder = refl;
              modified_at = refl;
            },
          )

  -- When `upsert_cloud_item` succeeds, some row of the table shows the item: its identifier, path,
  -- name, size, hash and kind, and its time of modification in seconds, as a file of the account.
  pub upsert_cloud_item-Holds :
      (item : CloudItem) (c c' : Conn)
      → upsert_cloud_item files assigned account_id now item c ≡ (ok tt, c')
      → Holds item c'
  unfolding upsert_cloud_item upsert_found
  upsert_cloud_item-Holds item c c' h =
      elim (get_file_by_provider_id-cases files account_id item.id c) [
        | inl (x, e) ↦ absurd (
            let k =
              subst (λ r. upsert_found files assigned account_id now item c r ≡ (ok tt, c')) e h in
            ground arith)
        | inr (inl e) ↦
            created-Holds item c c'
              (subst (λ r. upsert_found files assigned account_id now item c r ≡ (ok tt, c')) e h)
        | inr (inr (file, row, e, among, same, _, _, owner, id)) ↦
            updated-Holds item file row c c'
              (subst (λ r. upsert_found files assigned account_id now item c r ≡ (ok tt, c')) e h)
              among same owner id
      ]
