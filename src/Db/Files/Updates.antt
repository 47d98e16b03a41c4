-- ===== src/Db/Files/Updates.antt =====
-- What `update_file` leaves to be read.
use uni_cloud_file_sync_thin.Prelude.{
  ℕ, ◌*◌, ◌/◌, Bool, true, false, none, some, List, [], ◌∷◌, All, keep, length, ltb, Result,
  Result-cases, ok, err, ◌≡◌, ◌⊎◌, inl, inr, refl, sym, ap, ◌∙◌, subst, arith, Bool-cases,
  if◌then◌else◌,
}
use uni_cloud_file_sync_thin.Core.CloudPath.Laws.{IsNormal}
use uni_cloud_file_sync_thin.Core.Types.{DateTime}
use uni_cloud_file_sync_thin.Db.Error.{DbError}
use uni_cloud_file_sync_thin.Db.Sqlite.{SqlError, Table, Among, updated}
use uni_cloud_file_sync_thin.Db.Files.{
  File, FileRow, clash, by_id, to_row, from_row, set_columns, from_timestamp, get_file_by_id,
  update_file, affected,
}
use uni_cloud_file_sync_thin.Db.Files.Rows.{stored_file, from_row-to_row}

module _ {Row : Type 0} (p : Row → Bool) (f : Row → Row) where
  -- A row after an update is an updated one, or one that the condition leaves out.
  Among-updated :
      (r : Row) (l : List Row)
      → Among r (updated p f l)
      → ((old : Row) × Among old l × (p old ≡ true) × (r ≡ f old)) ⊎ (p r ≡ false)
  Among-updated r [] m = absurd m
  Among-updated r (x ∷ l) (inr m) = elim (Among-updated r l m) [
    | inl (old, among, hit, e) ↦ inl (old, inr among, hit, e)
    | inr miss ↦ inr miss
  ]
  Among-updated r (x ∷ l) (inl e) = elim (Bool-cases (p x)) [
    | inl hit ↦ inl (x, inl refl, hit, e ∙ ap (λ b. if b then f x else x) hit)
    | inr miss ↦ let same : r ≡ x = e ∙ ap (λ b. if b then f x else x) miss in inr (rw same miss)
  ]

  -- An update that touches a row, and keeps it under the condition, leaves one there.
  updated-hit :
      (l : List Row)
      → ((r : Row) → p r ≡ true → p (f r) ≡ true)
      → ltb 0 (length (keep p l)) ≡ true
      → All (λ r. p r ≡ false) (updated p f l)
      → ⊥
  unfolding keep
  updated-hit [] stays h a = ground arith
  updated-hit (x ∷ l) stays h a = elim (Bool-cases (p x)) [
    | inl hit ↦
        let now = stays x hit in
        let miss : p (f x) ≡ false = sym (ap (λ b. p (if b then f x else x)) hit) ∙ a.0 in
        absurd (ground arith)
    | inr miss ↦ updated-hit l stays (ground arith) a.1
  ]

by_id-set_columns :
    (id : ℕ) (new_row row : FileRow)
    → by_id id row ≡ true
    → by_id id (set_columns new_row row) ≡ true
unfolding by_id set_columns
by_id-set_columns id new_row row h = h

by_id-eq : (id : ℕ) (row : FileRow) → by_id id row ≡ true → row.id ≡ id
unfolding by_id
by_id-eq id row h = ground arith

-- A row whose columns are set is the row of the file, with the old row's identifier and creation.
set_columns-to_row :
    (id : ℕ) (file : File) (old : FileRow)
    → set_columns (to_row id file) old
      ≡ to_row old.id (record file { created_at = from_timestamp old.created_at })
unfolding set_columns to_row
set_columns-to_row id file old =
    let e : old.created_at ≡ old.created_at * 1000000000 / 1000000000 = omega arith in
    ap (λ t. record (to_row old.id file) { created_at = t }) e

module _ {Conn : Type 0} (table : Table clash Conn) where
  -- What a row reads as, when it is that of a file whose path is normal.
  get_file_by_id-cases :
      (id : ℕ) (c : Conn)
      → ((e : DbError) × (get_file_by_id table id c ≡ err e))
        ⊎ (((get_file_by_id table id c ≡ ok none) × All (λ r. by_id id r ≡ false) (table.rows c))
            ⊎ ((row : FileRow) × (table.query_row (by_id id) c ≡ ok (some row))
                × (by_id id row ≡ true)
                × Among row (table.rows c)))
  unfolding get_file_by_id
  get_file_by_id-cases id c = elim (Result-cases (table.query_row (by_id id) c)) [
    | inl (none, e) ↦ inr (inl (rw (e, get_file_by_id) refl, table.query_row_ok _ c none e))
    | inl (some row, e) ↦
        let (hit, among) = table.query_row_ok _ c (some row) e in inr (inr (row, e, hit, among))
    | inr (e, h) ↦ inl (DbError.sqlite e, rw (h, get_file_by_id) refl)
  ]

  get_file_by_id-row :
      (id : ℕ) (c : Conn) (row : FileRow) (file : File)
      → table.query_row (by_id id) c ≡ ok (some row)
      → from_row row ≡ ok file
      → get_file_by_id table id c ≡ ok (some file)
  unfolding get_file_by_id
  get_file_by_id-row id c row file e h = rw (e, get_file_by_id, h) refl

  update_file-rows :
      (now : DateTime) (file : File) (c c' : Conn)
      → update_file table now file c ≡ (ok true, c')
      → (table.rows c'
          ≡ updated
              (by_id file.id)
              (set_columns (to_row file.id (record file { updated_at = now })))
              (table.rows c))
        × (ltb 0 (length (keep (by_id file.id) (table.rows c))) ≡ true)
  unfolding update_file
  update_file-rows now file c c' h =
      updating
        (table.update (by_id file.id)
          (set_columns (to_row file.id (record file { updated_at = now }))) c)
        refl
    where
      updating :
          (r : Result SqlError ℕ × Conn)
          → table.update
              (by_id file.id)
              (set_columns (to_row file.id (record file { updated_at = now })))
              c
            ≡ r
          → (table.rows c'
              ≡ updated
                  (by_id file.id)
                  (set_columns (to_row file.id (record file { updated_at = now })))
                  (table.rows c))
            × (ltb 0 (length (keep (by_id file.id) (table.rows c))) ≡ true)
      updating (ok n, d) e =
          let shown = subst (λ r. affected table r ≡ (ok true, c')) e h in
          let (rows, count, unique) = table.update_ok _ _ c d n e in
          let same : d ≡ c' = ground arith in
          (
            subst
                (λ x.
                  table.rows x
                  ≡ updated (by_id file.id)
                      (set_columns (to_row file.id (record file { updated_at = now })))
                      (table.rows c))
                same rows,
            ground arith,
          )
      updating (err x, d) e =
          absurd (let shown = subst (λ r. affected table r ≡ (ok true, c')) e h in ground arith)

  -- After `update_file` has answered that a row was updated with a file whose path is normal,
  -- `get_file_by_id` answers that file, as a row keeps it, with the instant of the update and the
  -- time of creation that the row already had, unless it fails.
  pub update_file-get_file_by_id :
      (now : DateTime) (file : File) (c c' : Conn)
      → IsNormal file.path
      → update_file table now file c ≡ (ok true, c')
      → ((e : DbError) × (get_file_by_id table file.id c' ≡ err e))
        ⊎ ((old : FileRow) × Among old (table.rows c)
            × (old.id ≡ file.id)
            × (get_file_by_id table file.id c'
                ≡ ok (
                    some (
                      stored_file file.id (record file {
                        updated_at = now;
                        created_at = from_timestamp old.created_at;
                      })))))
  update_file-get_file_by_id now file c c' n h =
      let (rows, count) = update_file-rows now file c c' h in
      elim (get_file_by_id-cases file.id c') [
        | inl failed ↦ inl failed
        | inr (inl (_, absent)) ↦ absurd (
            updated-hit (by_id file.id) _ (table.rows c) (by_id-set_columns file.id _) count
              (subst (All (λ r. by_id file.id r ≡ false)) rows absent))
        | inr (inr (row, e, hit, among)) ↦
            elim (Among-updated (by_id file.id) _ row (table.rows c)
              (subst (Among row) rows among)) [
                | inr miss ↦ absurd (ground arith)
                | inl (old, m, old_hit, same) ↦
                    let id = by_id-eq file.id old old_hit in
                    inr (
                      old,
                      m,
                      id,
                      get_file_by_id-row file.id c' row _ e (
                          rw
                            (
                              same,
                              set_columns-to_row file.id (record file { updated_at = now }) old,
                              id,
                            )
                            (from_row-to_row file.id _ n)),
                    )
              ]
      ]

  -- `update_file` answers, or it fails and leaves the rows as they were.
  pub update_file-cases :
      (now : DateTime) (file : File) (c : Conn)
      → ((b : Bool) × (c' : Conn) × (update_file table now file c ≡ (ok b, c')))
        ⊎ ((e : DbError) × (c' : Conn) × (update_file table now file c ≡ (err e, c'))
            × (table.rows c' ≡ table.rows c))
  unfolding update_file
  update_file-cases now file c =
      updating
        (table.update (by_id file.id)
          (set_columns (to_row file.id (record file { updated_at = now }))) c)
        refl
    where
      updating :
          (r : Result SqlError ℕ × Conn)
          → table.update
              (by_id file.id)
              (set_columns (to_row file.id (record file { updated_at = now })))
              c
            ≡ r
          → ((b : Bool) × (c' : Conn) × (update_file table now file c ≡ (ok b, c')))
            ⊎ ((e : DbError) × (c' : Conn) × (update_file table now file c ≡ (err e, c'))
                × (table.rows c' ≡ table.rows c))
      updating (ok n, d) e = inl (ltb 0 n, d, rw (e, update_file) refl)
      updating (err x, d) e =
          inr (DbError.sqlite x, d, rw (e, update_file) refl, table.update_err _ _ c d x e)
