-- ===== src/Db/Accounts/RoundTrip.antt =====
-- What is read back of an account that was created.
use mathlib.Core.Option
use uni_cloud_file_sync_thin.Prelude.{Option}
use uni_cloud_file_sync_thin.Core.ProviderId.{ProviderId}
use uni_cloud_file_sync_thin.Db.Accounts.{Account}
use uni_cloud_file_sync_thin.Db.Files.Rows.{whole}

-- The account as its row keeps it.
abbrev pub stored_account : Account → Account
stored_account account = record account {
  token_expires_at = Option.map whole account.token_expires_at;
  created_at = whole account.created_at;
  updated_at = whole account.updated_at;
}
