-- ===== src/Db/Cursors/RoundTrip.antt =====
-- A cursor that was stored, and its lookup.
use uni_cloud_file_sync_thin.Prelude.{
  Text, ℕ, true, false, none, some, List, [], ◌∷◌, All, Result, Result-cases, ok, err, ◌≡◌, ◌⊎◌,
  inl, inr, refl, subst, arith, Bool-cases,
}
use uni_cloud_file_sync_thin.Db.Error.{DbError}
use uni_cloud_file_sync_thin.Db.Sqlite.{SqlError, Table, Among, updated}
use uni_cloud_file_sync_thin.Db.Sqlite.Rows.{All-among, Among-map}
use uni_cloud_file_sync_thin.Db.Cursors.{
  CursorRow, clash, by_account_id, upsert_at, upserted, updated as after_update, upsert_cursor,
  get_cursor,
}

-- The row is of another account, or has the cursor.
abbrev Fits : Text → Text → CursorRow → Type 0
Fits account_id cursor r = (by_account_id account_id r ≡ false) ⊎ (r.cursor ≡ cursor)

updated-Fits :
    (account_id cursor : Text) (now : ℕ) (l : List CursorRow)
    → All
        (Fits account_id cursor)
        (updated (by_account_id account_id) (λ r. record r { cursor = cursor; updated_at = now }) l)
updated-Fits account_id cursor now [] = tt
updated-Fits account_id cursor now (x ∷ l) = (
  elim (Bool-cases (by_account_id account_id x)) [
    | inl hit ↦ rw hit (inr refl)
    | inr miss ↦ rw miss (inl miss)
  ],
  updated-Fits account_id cursor now l,
)

clear-Fits :
    (account_id cursor : Text) (now : ℕ) (l : List CursorRow)
    → All
        (λ r.
          clash (record { account_id = account_id; cursor = cursor; updated_at = now }) r ≡ false)
        l
    → All (Fits account_id cursor) l
unfolding clash by_account_id
clear-Fits account_id cursor now [] a = tt
clear-Fits account_id cursor now (x ∷ l) a =
    (inl (ground arith), clear-Fits account_id cursor now l a.1)

by_account_id_refl :
    (account_id : Text) (r : CursorRow)
    → r.account_id ≡ account_id
    → by_account_id account_id r ≡ true
unfolding by_account_id
by_account_id_refl account_id r h = ground arith

module _ {Conn : Type 0} (table : Table clash Conn) where
  -- The table has a row of the account, and every such row has the cursor.
  abbrev Stores : Text → Text → Conn → Type 0
  Stores account_id cursor c =
      All (Fits account_id cursor) (table.rows c)
      × ((r : CursorRow) × Among r (table.rows c) × (by_account_id account_id r ≡ true))

  inserted-Stores :
      (now : ℕ) (account_id cursor : Text) (c c' : Conn)
      → upserted table
          (table.insert (record { account_id = account_id; cursor = cursor; updated_at = now }) c)
        ≡ (ok tt, c')
      → Stores account_id cursor c'
  unfolding upserted
  inserted-Stores now account_id cursor c c' h = go (table.insert row c) refl h
    where
      row : CursorRow
      row = record { account_id = account_id; cursor = cursor; updated_at = now }

      go :
          (r : Result SqlError (Unit {0}) × Conn)
          → table.insert row c ≡ r
          → upserted table r ≡ (ok tt, c')
          → Stores account_id cursor c'
      go (err x, d) e k = absurd (ground arith)
      go (ok tt, d) e k =
          let (rows, clear) = table.insert_ok row c d e in
          let kept : d ≡ c' = ground arith in
          subst (Stores account_id cursor) kept (
            rw rows (
              (inr refl, clear-Fits account_id cursor now (table.rows c) clear),
              (row, inl refl, by_account_id_refl account_id row refl),
            ))

  updated-Stores :
      (now : ℕ) (account_id cursor : Text) (c c' : Conn) (row : CursorRow)
      → after_update table (
          table.update
            (by_account_id account_id)
            (λ r. record r { cursor = cursor; updated_at = now })
            c)
        ≡ (ok tt, c')
      → by_account_id account_id row ≡ true
      → Among row (table.rows c)
      → Stores account_id cursor c'
  unfolding after_update by_account_id
  updated-Stores now account_id cursor c c' row h hit among =
      go (table.update (by_account_id account_id) set c) refl h
    where
      set : CursorRow → CursorRow
      set r = record r { cursor = cursor; updated_at = now }

      go :
          (r : Result SqlError ℕ × Conn)
          → table.update (by_account_id account_id) set c ≡ r
          → after_update table r ≡ (ok tt, c')
          → Stores account_id cursor c'
      go (err x, d) e k = absurd (ground arith)
      go (ok n, d) e k =
          let (rows, count, unique) = table.update_ok _ _ c d n e in
          let kept : d ≡ c' = ground arith in
          subst (Stores account_id cursor) kept (
            rw rows (
              updated-Fits account_id cursor now (table.rows c),
              (set row, Among-map (by_account_id account_id) set row (table.rows c) hit among, hit),
            ))

  upsert_cursor-Stores :
      (now : ℕ) (account_id cursor : Text) (c c' : Conn)
      → upsert_cursor table now account_id cursor c ≡ (ok tt, c')
      → Stores account_id cursor c'
  unfolding upsert_cursor upsert_at
  upsert_cursor-Stores now account_id cursor c c' h =
      elim (Result-cases (table.query_row (by_account_id account_id) c)) [
        | inr (x, e) ↦ absurd (
            let k = subst (λ r. upsert_at table now account_id cursor c r ≡ (ok tt, c')) e h in
            ground arith)
        | inl (none, e) ↦
            inserted-Stores now account_id cursor c c'
              (subst (λ r. upsert_at table now account_id cursor c r ≡ (ok tt, c')) e h)
        | inl (some row, e) ↦
            let (hit, among) = table.query_row_ok _ c (some row) e in
            updated-Stores now account_id cursor c c' row
              (subst (λ r. upsert_at table now account_id cursor c r ≡ (ok tt, c')) e h) hit among
      ]

  -- After `upsert_cursor` has stored a cursor for an account, `get_cursor` answers that cursor for
  -- it, unless it fails.
  pub upsert_cursor-get_cursor :
      (now : ℕ) (account_id cursor : Text) (c c' : Conn)
      → upsert_cursor table now account_id cursor c ≡ (ok tt, c')
      → (get_cursor table account_id c' ≡ ok (some cursor))
        ⊎ ((e : DbError) × (get_cursor table account_id c' ≡ err e))
  unfolding get_cursor
  upsert_cursor-get_cursor now account_id cursor c c' h =
      let (fits, (r, m, hit)) = upsert_cursor-Stores now account_id cursor c c' h in
      elim (Result-cases (table.query_row (by_account_id account_id) c')) [
        | inr (x, e) ↦ inr (DbError.sqlite x, rw (e, get_cursor) refl)
        | inl (none, e) ↦
            let miss = All-among _ r (table.rows c') (table.query_row_ok _ c' none e) m in
            absurd (ground arith)
        | inl (some row, e) ↦
            let (found, among) = table.query_row_ok _ c' (some row) e in
            elim (All-among _ row (table.rows c') fits among) [
              | inl miss ↦ absurd (ground arith)
              | inr same ↦ inl (rw (e, get_cursor, same) refl)
            ]
      ]
