-- ===== src/Db/Cursors/Tests.antt =====
-- Runs of the functions on cursors on a table in memory, and an instance of the theorem.
use uni_cloud_file_sync_thin.Prelude.{
  Text, text, ℕ, some, List, [], ◌∷◌, ◌≡◌, ◌⊎◌, refl, ok, err, find, keep, dec_text, ℕ_discrete,
}
use uni_cloud_file_sync_thin.Db.Error.{DbError}
use uni_cloud_file_sync_thin.Db.Sqlite.{Table}
use uni_cloud_file_sync_thin.Db.Sqlite.Memory.{
  memory, memory_insert, memory_update, clear_of, all_clear,
}
use uni_cloud_file_sync_thin.Db.Cursors.{
  CursorRow, clash, by_account_id, upsert_cursor, get_cursor, delete_cursor,
}
use uni_cloud_file_sync_thin.Db.Cursors.RoundTrip

abbrev table : Table clash (List CursorRow)
table = memory clash

abbrev row : Text → ℕ → CursorRow
row cursor updated_at = record { account_id = text "a"; cursor = cursor; updated_at = updated_at }

program : Unit {0}
unfolding upsert_cursor get_cursor delete_cursor by_account_id clash memory_insert memory_update
    clear_of all_clear find keep dec_text ℕ_discrete
program = tt

run_upsert_cursor :
    upsert_cursor table 8 (text "a") (text "c2") (row (text "c1") 7 ∷ [])
    ≡ (ok tt, row (text "c2") 8 ∷ [])
unfolding program
run_upsert_cursor = refl

upsert_cursor-get_cursor_example :
    (get_cursor table (text "a") (row (text "c2") 8 ∷ []) ≡ ok (some (text "c2")))
    ⊎ ((e : DbError) × (get_cursor table (text "a") (row (text "c2") 8 ∷ []) ≡ err e))
unfolding program
upsert_cursor-get_cursor_example =
    RoundTrip.upsert_cursor-get_cursor table 8 (text "a") (text "c2") (row (text "c1") 7 ∷ [])
      (row (text "c2") 8 ∷ []) refl
