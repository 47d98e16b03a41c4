-- ===== src/Vfs/MetadataSync/Tests.antt =====
-- A run of the metadata synchronisation on tables in memory, and an instance of the theorem.
use uni_cloud_file_sync_thin.Prelude.{
  Text, text, ℕ, ◌+◌, false, none, some, List, [], ◌∷◌, length, ◌≡◌, refl, ok, find, keep, dec_text,
  ℕ_discrete,
}
use uni_cloud_file_sync_thin.Core.CloudPath.{new, starts_slash, replace_backslash}
use uni_cloud_file_sync_thin.Core.Types.{CloudItem}
use uni_cloud_file_sync_thin.Db.Sqlite.{Table}
use uni_cloud_file_sync_thin.Db.Sqlite.Memory.{
  memory, memory_insert, memory_update, clear_of, all_clear,
}
use uni_cloud_file_sync_thin.Db.Files.{
  FileRow, clash, by_id, by_provider_id, state_name, parse_state, to_row, from_row, set_columns,
  create_file, update_file, get_file_by_provider_id,
}
use uni_cloud_file_sync_thin.Db.Files as Files
use uni_cloud_file_sync_thin.Vfs.MetadataSync.{
  cloud_item_to_db_file, overwritten, upsert_cloud_item,
}
use uni_cloud_file_sync_thin.Vfs.MetadataSync.Upsert.{Holds}
use uni_cloud_file_sync_thin.Vfs.MetadataSync.Upsert

abbrev table : Table clash (List FileRow)
table = memory clash

abbrev assigned : List FileRow → ℕ
assigned rows = length rows + 1

abbrev item : Text → CloudItem
item name = record {
  id = text "f";
  name = name;
  path = text "/x";
  is_folder = false;
  size = some 3;
  content_hash = none;
  modified = 5000000000;
  created = none;
  mime_type = none;
}

abbrev row : Text → ℕ → FileRow
row name updated_at = record {
  id = 1;
  account_id = text "a";
  provider_file_id = text "f";
  path = text "/x";
  name = name;
  size = some 3;
  content_hash = none;
  is_folder = 0;
  state = text "cloud_only";
  modified_at = 5;
  synced_at = none;
  created_at = 7;
  updated_at = updated_at;
}

program : Unit {0}
unfolding upsert_cloud_item cloud_item_to_db_file overwritten Files.new create_file update_file
    get_file_by_provider_id by_id by_provider_id clash state_name parse_state to_row from_row
    set_columns new replace_backslash starts_slash memory_insert memory_update clear_of all_clear
    find keep dec_text ℕ_discrete
program = tt

run_upsert_new :
    upsert_cloud_item table assigned (text "a") 7000000000 (item (text "x")) []
    ≡ (ok tt, row (text "x") 7 ∷ [])
unfolding program
run_upsert_new = refl

run_upsert_known :
    upsert_cloud_item table assigned (text "a") 9000000000 (item (text "y")) (row (text "x") 7 ∷ [])
    ≡ (ok tt, row (text "y") 9 ∷ [])
unfolding program
run_upsert_known = refl

upsert_cloud_item-Holds_example :
    Holds table assigned (text "a") 9000000000 (item (text "y")) (row (text "y") 9 ∷ [])
unfolding program
upsert_cloud_item-Holds_example =
    Upsert.upsert_cloud_item-Holds table assigned (text "a") 9000000000 (item (text "y"))
      (row (text "x") 7 ∷ []) (row (text "y") 9 ∷ []) refl
