-- ===== src/Db/Tests.antt =====
-- Runs of the functions on the table of files in memory, and the instances of the theorems there.
use uni_cloud_file_sync_thin.Prelude.{
  text, ℕ, ◌+◌, true, false, none, some, List, [], ◌∷◌, length, ◌≡◌, ◌⊎◌, refl, ok, err, find, keep,
  dec_text, ℕ_discrete,
}
use uni_cloud_file_sync_thin.Core.FileState.{FileState}
use uni_cloud_file_sync_thin.Core.CloudPath.{new, starts_slash, replace_backslash}
use uni_cloud_file_sync_thin.Core.CloudPath.Laws.{IsNormal, new-IsNormal}
use uni_cloud_file_sync_thin.Db.Error.{DbError}
use uni_cloud_file_sync_thin.Db.Sqlite.{Table, Among}
use uni_cloud_file_sync_thin.Db.Sqlite.Memory.{
  memory, memory_insert, memory_update, clear_of, all_clear,
}
use uni_cloud_file_sync_thin.Db.Files.{
  File, FileRow, clash, by_id, by_provider_id, state_name, parse_state, to_row, from_row,
  from_timestamp, set_columns, create_file, get_file_by_id, update_file, delete_file,
}
use uni_cloud_file_sync_thin.Db.Files as Files
use uni_cloud_file_sync_thin.Db.Files.Rows.{stored_file}
use uni_cloud_file_sync_thin.Db.Files.Rows
use uni_cloud_file_sync_thin.Db.Files.Updates

abbrev table : Table clash (List FileRow)
table = memory clash

-- SQLite's next identifier, when no row was deleted.
abbrev assigned : List FileRow → ℕ
assigned rows = length rows + 1

program : Unit {0}
unfolding Files.new create_file get_file_by_id update_file delete_file by_id by_provider_id clash
    state_name parse_state to_row from_row set_columns new replace_backslash starts_slash
    memory_insert memory_update clear_of all_clear find keep dec_text ℕ_discrete
program = tt

abbrev file : File
file = record {
  id = 1;
  account_id = text "a";
  provider_file_id = text "f";
  path = text "/d/x";
  name = text "x";
  size = some 3;
  content_hash = none;
  is_folder = false;
  state = FileState.synced;
  modified_at = 5000000001;
  synced_at = some 6000000002;
  created_at = 7000000003;
  updated_at = 8000000004;
}

abbrev one : List FileRow
one = (create_file table assigned file []).1

run_create_file : create_file table assigned file [] ≡ (ok 1, to_row 1 file ∷ [])
unfolding program
run_create_file = refl

run_create_file_twice :
    (create_file table assigned file (to_row 1 file ∷ [])).0
    ≡ err (DbError.conflict (text "File with this account and provider_file_id already exists"))
unfolding program
run_create_file_twice = refl

run_delete_file : delete_file table 1 (to_row 1 file ∷ []) ≡ (ok true, [])
unfolding program
run_delete_file = refl

normal : IsNormal (text "/d/x")
unfolding program
normal = (new-IsNormal (text "/d/x")).0

from_row-to_row_example : from_row (to_row 4 file) ≡ ok (stored_file 4 file)
from_row-to_row_example = Rows.from_row-to_row 4 file normal

abbrev renamed : File
renamed = record file { name = text "y" }

abbrev before : List FileRow
before = to_row 1 file ∷ []

abbrev after : List FileRow
after = to_row 1 (record renamed { updated_at = 9000000000 }) ∷ []

update_file-get_file_by_id_example :
    ((e : DbError) × (get_file_by_id table 1 after ≡ err e))
    ⊎ ((old : FileRow) × Among old before
        × (old.id ≡ 1)
        × (get_file_by_id table 1 after
            ≡ ok (
                some (
                  stored_file 1 (record renamed {
                    updated_at = 9000000000;
                    created_at = from_timestamp old.created_at;
                  })))))
unfolding program
update_file-get_file_by_id_example =
    Updates.update_file-get_file_by_id table 9000000000 renamed before after normal refl
