-- ===== src/Db/Accounts/Tests.antt =====
-- Runs on a table of accounts in memory, and the instance of the theorem there.
use uni_cloud_file_sync_thin.Prelude.{
  text, true, none, some, List, [], ◌∷◌, keep, find, ok, err, ◌≡◌, refl, dec_text, ℕ_discrete,
}
use uni_cloud_file_sync_thin.Core.ProviderId.{ProviderId}
use uni_cloud_file_sync_thin.Db.Accounts.{
  Account, AccountRow, new, clash, by_id, to_row, from_row, create_account, get_account_by_id,
  list_accounts, update_account, delete_account, selected, newest_first, set_columns,
}
use uni_cloud_file_sync_thin.Db.Accounts.RoundTrip.{stored_account}
use uni_cloud_file_sync_thin.Db.Error.{DbError}
use uni_cloud_file_sync_thin.Db.Sqlite.{Table}
use uni_cloud_file_sync_thin.Db.Sqlite.Memory.{
  memory, memory_insert, memory_update, sort, clear_of, all_clear,
}

abbrev table : Table clash (List AccountRow)
table = memory clash

program : Unit {0}
unfolding new clash by_id to_row from_row create_account get_account_by_id list_accounts
    update_account delete_account selected newest_first set_columns memory_insert memory_update sort
    clear_of all_clear find keep dec_text ℕ_discrete
program = tt

abbrev account : Account
account = record {
  id = text "x";
  provider = ProviderId.google_drive;
  email = text "me";
  access_token = text "t";
  refresh_token = none;
  token_expires_at = some 7000000001;
  is_active = true;
  created_at = 5000000002;
  updated_at = 5000000002;
}

abbrev stored : AccountRow
stored = record {
  id = text "x";
  provider = text "googledrive";
  email = text "me";
  access_token = text "t";
  refresh_token = none;
  token_expires_at = some 7;
  is_active = 1;
  created_at = 5;
  updated_at = 5;
}

run_create : create_account table account [] ≡ (ok (text "x"), stored ∷ [])
unfolding program
run_create = refl

-- The same provider and e-mail address, with another identifier.
run_conflict : create_account table (record account { id = text "y" }) (stored ∷ []) ≡ (
  err (DbError.conflict (text "Account with this provider and email already exists")),
  stored ∷ [],
)
unfolding program
run_conflict = refl

run_list :
    list_accounts table true
      (stored ∷ record stored { id = text "y"; email = text "you"; created_at = 6 } ∷ [])
    ≡ ok (
        record (stored_account account) {
          id = text "y";
          email = text "you";
          created_at = 6000000000;
        }
        ∷ stored_account account
        ∷ [])
unfolding program
run_list = refl
