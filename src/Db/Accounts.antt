-- ===== src/Db/Accounts.antt =====
-- crates/cloudsync-db/src/accounts.rs: the table of accounts. The names of the providers in the
-- column are not their slugs. Instants and columns of times are as in the table of files.
pub mod RoundTrip
pub mod Tests
use uni_cloud_file_sync_thin.Prelude.{
  Text, text, ℕ, Bool, true, false, Option, none, some, List, [], ◌∷◌, ◌==◌, ◌&&◌, ◌||◌, ltb, leb,
  not, ite, dec_text, if◌then◌else◌, Result, ok, err,
}
use mathlib.Core.Option
use uni_cloud_file_sync_thin.Core.ProviderId.{ProviderId}
use uni_cloud_file_sync_thin.Core.Types.{AccountId, DateTime}
use uni_cloud_file_sync_thin.Db.Error.{DbError}
use uni_cloud_file_sync_thin.Db.Files.{timestamp, from_timestamp}
use uni_cloud_file_sync_thin.Db.Sqlite.{SqlError, constraint_violation, failure, Table}

pub record Account : Type 0 where
  pub id : AccountId
  pub provider : ProviderId
  pub email : Text
  pub access_token : Text
  pub refresh_token : Option Text
  pub token_expires_at : Option DateTime
  pub is_active : Bool
  pub created_at : DateTime
  pub updated_at : DateTime

-- The columns of `ACCOUNTS_MIGRATION`.
pub record AccountRow : Type 0 where
  pub id : Text
  pub provider : Text
  pub email : Text
  pub access_token : Text
  pub refresh_token : Option Text
  pub token_expires_at : Option ℕ
  pub is_active : ℕ
  pub created_at : ℕ
  pub updated_at : ℕ

-- `Account::new`, with a fresh identifier and the instant of the call.
unfoldable pub new :
    AccountId → DateTime → ProviderId → Text → Text → Option Text → Option DateTime → Account
new id now provider email access_token refresh_token token_expires_at = record {
  id = id;
  provider = provider;
  email = email;
  access_token = access_token;
  refresh_token = refresh_token;
  token_expires_at = token_expires_at;
  is_active = true;
  created_at = now;
  updated_at = now;
}

-- The name of the provider in the column, and the `match` on it.
unfoldable pub provider_name : ProviderId → Text
provider_name ProviderId.google_drive = text "googledrive"
provider_name ProviderId.dropbox = text "dropbox"
provider_name ProviderId.one_drive = text "onedrive"

unfoldable pub parse_provider : Text → Option ProviderId
unfolding dec_text
parse_provider name = ite (dec_text name (text "googledrive")) (some ProviderId.google_drive) (
    ite (dec_text name (text "dropbox")) (some ProviderId.dropbox)
      (ite (dec_text name (text "onedrive")) (some ProviderId.one_drive) none))

-- What is written of an account.
unfoldable pub to_row : Account → AccountRow
unfolding provider_name
to_row account = record {
  id = account.id;
  provider = provider_name account.provider;
  email = account.email;
  access_token = account.access_token;
  refresh_token = account.refresh_token;
  token_expires_at = Option.map timestamp account.token_expires_at;
  is_active = if account.is_active then 1 else 0;
  created_at = timestamp account.created_at;
  updated_at = timestamp account.updated_at;
}

unfoldable pub account_of : AccountRow → Option ProviderId → Result SqlError Account
account_of row none = err (failure (text "Query is not read-only"))
account_of row (some provider) = ok record {
  id = row.id;
  provider = provider;
  email = row.email;
  access_token = row.access_token;
  refresh_token = row.refresh_token;
  token_expires_at = Option.map from_timestamp row.token_expires_at;
  is_active = not (row.is_active == 0);
  created_at = from_timestamp row.created_at;
  updated_at = from_timestamp row.updated_at;
}

-- `Account::from_row`
unfoldable pub from_row : AccountRow → Result SqlError Account
unfolding account_of parse_provider
from_row row = account_of row (parse_provider row.provider)

unfoldable pub by_id : AccountId → AccountRow → Bool
unfolding dec_text
by_id id row = ite (dec_text row.id id) true false

-- `id TEXT PRIMARY KEY` and `UNIQUE(provider, email)`
unfoldable pub clash : AccountRow → AccountRow → Bool
unfolding by_id dec_text
clash a b =
    by_id a.id b
    || (ite (dec_text b.provider a.provider) true false
        && ite (dec_text b.email a.email) true false)

-- The columns that `update_account` sets.
unfoldable pub set_columns : AccountRow → AccountRow → AccountRow
set_columns new_row row = record new_row { id = row.id; created_at = row.created_at }

-- `WHERE is_active = 1`, where only those are asked for, and `ORDER BY created_at DESC`.
unfoldable pub selected : Bool → AccountRow → Bool
selected active_only row = if active_only then row.is_active == 1 else true

unfoldable pub newest_first : AccountRow → AccountRow → Bool
newest_first a b = leb b.created_at a.created_at

push_account :
    Result SqlError Account → Result SqlError (List Account) → Result SqlError (List Account)
push_account (ok account) (ok accounts) = ok (account ∷ accounts)
push_account (ok account) (err e) = err e
push_account (err e) accounts = err e

-- `collect::<Result<Vec<_>, _>>()`
unfoldable pub collect_accounts : List AccountRow → Result SqlError (List Account)
unfolding push_account from_row
collect_accounts [] = ok []
collect_accounts (row ∷ rows) = push_account (from_row row) (collect_accounts rows)

module _ {Conn : Type 0} (table : Table clash Conn) where
  unfoldable pub created :
      AccountId → Result SqlError (Unit {0}) × Conn → Result DbError AccountId × Conn
  created id (ok _, conn) = (ok id, conn)
  created id (err constraint_violation, conn) =
      (err (DbError.conflict (text "Account with this provider and email already exists")), conn)
  created id (err (failure message), conn) = (err (DbError.sqlite (failure message)), conn)

  -- `create_account`
  unfoldable pub create_account : Account → Conn → Result DbError AccountId × Conn
  unfolding created to_row
  create_account account conn = created account.id (table.insert (to_row account) conn)

  read_account : Result SqlError Account → Result DbError (Option Account)
  read_account (ok account) = ok (some account)
  read_account (err e) = err (DbError.sqlite e)

  unfoldable pub read_row : Result SqlError (Option AccountRow) → Result DbError (Option Account)
  unfolding read_account from_row
  read_row (ok none) = ok none
  read_row (ok (some row)) = read_account (from_row row)
  read_row (err e) = err (DbError.sqlite e)

  -- `get_account_by_id`
  unfoldable pub get_account_by_id : AccountId → Conn → Result DbError (Option Account)
  unfolding read_row by_id
  get_account_by_id id conn = read_row (table.query_row (by_id id) conn)

  listed : Result SqlError (List AccountRow) → Result DbError (List Account)
  unfolding collect_accounts
  listed (err e) = err (DbError.sqlite e)
  listed (ok rows) = wrapped (collect_accounts rows)
    where
      wrapped : Result SqlError (List Account) → Result DbError (List Account)
      wrapped (ok accounts) = ok accounts
      wrapped (err e) = err (DbError.sqlite e)

  -- `list_accounts`
  unfoldable pub list_accounts : Bool → Conn → Result DbError (List Account)
  unfolding listed selected newest_first
  list_accounts active_only conn =
      listed (table.query_ordered (selected active_only) newest_first conn)

  affected : Result SqlError ℕ × Conn → Result DbError Bool × Conn
  affected (ok n, conn) = (ok (ltb 0 n), conn)
  affected (err e, conn) = (err (DbError.sqlite e), conn)

  -- `update_account`, at the given instant.
  unfoldable pub update_account : DateTime → Account → Conn → Result DbError Bool × Conn
  unfolding affected by_id set_columns to_row
  update_account now account conn = affected (
      table.update (by_id account.id) (set_columns (to_row (record account { updated_at = now })))
        conn)

  -- `delete_account`. The files and the cursor of the account go with it, by `ON DELETE CASCADE`: the
  -- connection after the statement is SQLite's, and `table` tells of the accounts only.
  unfoldable pub delete_account : AccountId → Conn → Result DbError Bool × Conn
  unfolding affected by_id
  delete_account id conn = affected (table.delete (by_id id) conn)
